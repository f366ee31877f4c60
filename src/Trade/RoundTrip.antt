-- ===== src/Trade/RoundTrip.antt =====
-- `trade.Decode` reads back the wire form of a list of trades.
use tdx.Base.{
  ℕ, suc, ◌+◌, ◌*◌, ◌/◌, ◌%◌, ◌^◌, ◌<◌, ◌≡◌, refl, ap, arith, Bool, true, false, List, [], ◌∷◌,
  ◌++◌, length, All, some, ltb,
}
use tdx.Base.Int.{
  ℤ, pos, pos_part, neg_part, ◌+ℤ◌, ◌-ℤ◌, ◌*ℤ◌, quot, add64, mul64, div64, wrap64_self, IsI64,
  +ℤ_parts, parts_apart,
}
use tdx.Base.Outcome.{ok}
use tdx.Base.Text.{Bytes}
use tdx.Wire.Endian.{Conv, IsBigEndian, uint16_lem, le_bytes16, le_bytes16_lem}
use tdx.Varint.Cut.{get_price, cut_int}
use tdx.Varint.RoundTrip.{signed_wire, signed_value, get_price-signed_wire}
use tdx.Trade.Defs.{Trade}
use tdx.Trade.Decode.{read_trade, base_price, trade_time, trade_round, trade_loop, trade_decode}

-- A number as its sign and its magnitude.
pub record Signed : Type 0 where
  pub negative : Bool
  pub magnitude : ℕ

abbrev pub value : Signed → ℤ
value s = signed_value s.negative s.magnitude

abbrev pub wire : Signed → Bytes
wire s = signed_wire s.negative s.magnitude

-- One trade on the wire: its minute, the change of the price in hundredths, and four numbers.
pub record Tick : Type 0 where
  pub minute : ℕ
  pub step : Signed
  pub volume : Signed
  pub number : Signed
  pub status : Signed
  pub extra : Signed

pub record IsTick (t : Tick) : Type 0 where
  pub in_day : t.minute < 1440
  pub step_fits : t.step.magnitude < 2 ^ 31
  pub volume_fits : t.volume.magnitude < 2 ^ 31
  pub number_fits : t.number.magnitude < 2 ^ 31
  pub status_fits : t.status.magnitude < 2 ^ 31
  pub extra_fits : t.extra.magnitude < 2 ^ 31

pub cut_int-signed_wire :
    (s : Signed) (rest : Bytes) → s.magnitude < 2 ^ 31 → cut_int (wire s ++ rest) ≡ (rest, value s)
unfolding cut_int get_price
cut_int-signed_wire s rest h = get_price-signed_wire s.negative s.magnitude rest h

-- A sum that `i` more steps cannot take out of an int64.
abbrev pub Room : ℕ → ℤ → Type 0
Room i z = (pos_part z + i * (10 * 2 ^ 31) < 2 ^ 63) × (neg_part z + i * (10 * 2 ^ 31) < 2 ^ 63)

scaled_parts :
    (s : Signed)
    → s.magnitude < 2 ^ 31
    → (pos_part (value s *ℤ pos 10) < 10 * 2 ^ 31) × (neg_part (value s *ℤ pos 10) < 10 * 2 ^ 31)
unfolding ◌*ℤ◌ ◌-ℤ◌
scaled_parts s h = ground arith

pub sum-Room :
    (i : ℕ) (z : ℤ) (s : Signed)
    → s.magnitude < 2 ^ 31
    → Room (suc i) z
    → Room i (z +ℤ (value s *ℤ pos 10))
      × (add64 z (mul64 (value s) (pos 10)) ≡ z +ℤ (value s *ℤ pos 10))
sum-Room i z s h room =
    let k = scaled_parts s h in
    let t = value s *ℤ pos 10 in
    let apart = parts_apart (z +ℤ t) in
    let sums = +ℤ_parts z t in
    rw (wrap64_self t (omega (arith, parts_apart t)), wrap64_self (z +ℤ t) (omega arith))
      ((omega arith, omega arith), refl)

pub div64_base :
    (code : Bytes) (z : ℤ) → IsI64 z → div64 z (base_price code) ≡ quot z (base_price code)
div64_base code z h =
    wrap64_self (quot z (base_price code)) (unfold quot base_price in ground arith)

-- The trade of a tick, its running price at hand.
abbrev pub tick_trade : ℤ → ℤ → ℤ → Tick → Trade
tick_trade base day sum t = record {
  day = day;
  minute = t.minute;
  price = quot sum base;
  volume = value t.volume;
  status = value t.status;
  number = value t.number;
}

abbrev tick_numbers : Tick → Bytes → Bytes
tick_numbers t rest =
    wire t.step ++ (wire t.volume ++ (wire t.number ++ (wire t.status ++ (wire t.extra ++ rest))))

read_trade-tick_numbers :
    (t : Tick) (code : Bytes) (day sum : ℤ) (rest : Bytes)
    → IsTick t
    → add64 sum (mul64 (value t.step) (pos 10)) ≡ sum +ℤ (value t.step *ℤ pos 10)
    → IsI64 (sum +ℤ (value t.step *ℤ pos 10))
    → read_trade (base_price code) day t.minute sum (tick_numbers t rest) ≡ (
      rest,
      (
        sum +ℤ (value t.step *ℤ pos 10),
        tick_trade (base_price code) day (sum +ℤ (value t.step *ℤ pos 10)) t,
      ),
    )
read_trade-tick_numbers t code day sum rest g sum_is fits =
    let after_status = wire t.extra ++ rest in
    let after_number = wire t.status ++ after_status in
    let after_volume = wire t.number ++ after_number in
    rw
      (
        get_price-signed_wire t.step.negative t.step.magnitude (wire t.volume ++ after_volume)
            g.step_fits,
        cut_int-signed_wire t.volume after_volume g.volume_fits,
        cut_int-signed_wire t.number after_number g.number_fits,
        cut_int-signed_wire t.status after_status g.status_fits,
        cut_int-signed_wire t.extra rest g.extra_fits,
        sum_is,
        div64_base code (sum +ℤ (value t.step *ℤ pos 10)) fits,
      )
      refl

-- What ticks mean: the price is a running sum, in units of the instrument.
abbrev pub tick_trades : ℤ → ℤ → ℤ → List Tick → List Trade
tick_trades base day sum [] = []
tick_trades base day sum (t ∷ ts) =
    tick_trade base day (sum +ℤ (value t.step *ℤ pos 10)) t
    ∷ tick_trades base day (sum +ℤ (value t.step *ℤ pos 10)) ts

not_short : (n : ℕ) → ltb (suc (suc n)) 2 ≡ false
not_short n = ground arith

module _ (c : Conv) (big : IsBigEndian c) where
  abbrev pub tick_wire : Tick → Bytes → Bytes
  tick_wire t rest = le_bytes16 c t.minute ++ tick_numbers t rest

  abbrev pub ticks_wire : List Tick → Bytes → Bytes
  ticks_wire [] rest = rest
  ticks_wire (t ∷ ts) rest = tick_wire t (ticks_wire ts rest)

  round_lem :
      (t : Tick) (code : Bytes) (day sum : ℤ) (rest : Bytes)
      → IsTick t
      → add64 sum (mul64 (value t.step) (pos 10)) ≡ sum +ℤ (value t.step *ℤ pos 10)
      → IsI64 (sum +ℤ (value t.step *ℤ pos 10))
      → trade_round c (record { date = some day; code = code }) sum (tick_wire t rest)
        ≡ ok (
          rest,
          (
            sum +ℤ (value t.step *ℤ pos 10),
            tick_trade (base_price code) day (sum +ℤ (value t.step *ℤ pos 10)) t,
          ),
        )
  unfolding trade_round trade_time
  round_lem t code day sum rest g sum_is fits =
      let hour : ltb (t.minute / 60) 24 ≡ true = ground (arith, g.in_day) in
      let whole : t.minute / 256 * 256 + t.minute % 256 ≡ t.minute = omega arith in
      rw
        (
          le_bytes16_lem c big t.minute (omega (arith, g.in_day)),
          uint16_lem c big (t.minute % 256) (t.minute / 256) (omega arith)
              (omega (arith, g.in_day)),
          whole,
          hour,
          not_short (length (tick_numbers t rest)),
        )
        (ap ok (read_trade-tick_numbers t code day sum rest g sum_is fits))

  trade_loop-ticks_wire :
      (ts : List Tick) (code : Bytes) (day sum : ℤ) (rest : Bytes)
      → All IsTick ts
      → Room (length ts) sum
      → trade_loop c (record { date = some day; code = code }) (length ts) sum (ticks_wire ts rest)
        ≡ ok (tick_trades (base_price code) day sum ts)
  unfolding trade_loop trade_round trade_time
  trade_loop-ticks_wire [] code day sum rest good room = refl
  trade_loop-ticks_wire (t ∷ ts) code day sum rest good room =
      let g = good.0 in
      let (room', sum_is) = sum-Room (length ts) sum t.step g.step_fits room in
      let fits : IsI64 (sum +ℤ (value t.step *ℤ pos 10)) = omega arith in
      rw
        (
          round_lem t code day sum (ticks_wire ts rest) g sum_is fits,
          trade_loop-ticks_wire ts code day (sum +ℤ (value t.step *ℤ pos 10)) rest good.1 room',
        )
        refl

  -- Given the documented byte order of the conversions, Decode reads back every list of up to 65535
  -- trades of a day, with 31 bits and a sign for each number, from its wire form: each price is the
  -- running sum of the changes, in units of the instrument, and no sum overflows.
  pub trade_decode-ticks_wire :
      (ts : List Tick) (code : Bytes) (day : ℤ) (rest : Bytes)
      → length ts < 2 ^ 16
      → All IsTick ts
      → trade_decode c
          (record { date = some day; code = code })
          (le_bytes16 c (length ts) ++ ticks_wire ts rest)
        ≡ ok (record { count = length ts; list = tick_trades (base_price code) day (pos 0) ts })
  unfolding trade_decode
  trade_decode-ticks_wire ts code day rest fits good =
      let whole : length ts / 256 * 256 + length ts % 256 ≡ length ts = omega arith in
      rw
        (
          le_bytes16_lem c big (length ts) fits,
          uint16_lem c big (length ts % 256) (length ts / 256) (omega arith) (omega arith),
          whole,
          not_short (length (ticks_wire ts rest)),
          trade_loop-ticks_wire ts code day (pos 0) rest good (omega arith, omega arith),
        )
        refl
