-- ===== src/Message/PastTrade.antt =====
-- `historyTrade.Frame` and `historyTrade.Decode`: the trades of a past day, which have no number of
-- orders.
use tdx.Base.{
  ℕ, zero, suc, ◌+◌, ◌*◌, ◌/◌, ◌%◌, ◌^◌, ◌<◌, ◌≡◌, refl, ap, arith, true, false, if◌then◌else◌, ltb,
  List, [], ◌∷◌, ◌++◌, length, take, drop, All, some,
}
use tdx.Base.Int.{ℤ, pos, ◌+ℤ◌, ◌*ℤ◌, add64, mul64, div64, IsI64}
use tdx.Base.Outcome.{Outcome, ok, err, panic, ◌>>=◌, short_data}
use tdx.Base.Text.{Bytes}
use tdx.Wire.Endian.{Conv, IsBigEndian, uint16, uint16_lem, le_bytes16, le_bytes16_lem, le_bytes32}
use tdx.Wire.Frame.{Frame, control01}
use tdx.Varint.Cut.{get_price, cut_int}
use tdx.Varint.RoundTrip.{get_price-signed_wire}
use tdx.Market.Decode.{decode_code}
use tdx.Trade.Defs.{Trade}
use tdx.Trade.Decode.{TradeCache, TradeResp, base_price, trade_time}
use tdx.Trade.RoundTrip.{
  value, wire, Tick, IsTick, tick_trade, cut_int-signed_wire, Room, sum-Room, div64_base,
}

-- The field `number` is not set.
abbrev pub read_past_trade : ℤ → ℤ → ℕ → ℤ → Bytes → Bytes × (ℤ × Trade)
read_past_trade base day minute last bs =
    let p = get_price bs in
    let sum = add64 last (mul64 p.1 (pos 10)) in
    let v = cut_int p.0 in
    let s = cut_int v.0 in
    let z = cut_int s.0 in
    (
      z.0,
      (
        sum,
        record {
          day = day;
          minute = minute;
          price = div64 sum base;
          volume = v.1;
          status = s.1;
          number = pos 0;
        },
      ),
    )

module _ (c : Conv) where
  unfoldable pub past_trade_round : TradeCache → ℤ → Bytes → Outcome (Bytes × (ℤ × Trade))
  past_trade_round cache last bs =
      let n = uint16 c (take 2 bs) in
      if ltb (length bs) 2
      then panic
      else (trade_time cache.date n >>= λ day.
          ok (read_past_trade (base_price cache.code) day n last (drop 2 bs)))

  unfoldable pub past_trade_loop : TradeCache → ℕ → ℤ → Bytes → Outcome (List Trade)
  past_trade_loop cache zero last bs = ok []
  past_trade_loop cache (suc i) last bs = past_trade_round cache last bs >>= λ r.
      past_trade_loop cache i r.1.0 r.0 >>= λ vs. ok (r.1.1 ∷ vs)

  unfoldable pub past_trade_decode : TradeCache → Bytes → Outcome TradeResp
  past_trade_decode cache bs =
      let count = uint16 c (take 2 bs) in
      if ltb (length bs) 6
      then err short_data
      else (past_trade_loop cache count (pos 0) (drop 6 bs) >>= λ vs.
          ok (record { count = count; list = vs }))

  -- `date` is `conv.Uint32` of the date's text.
  unfoldable pub past_trade_frame : ℕ → Bytes → ℕ → ℕ → Outcome Frame
  past_trade_frame date code start count = decode_code code >>= λ r. ok (record {
    prefix = 0;
    msg_id = 0;
    control = control01;
    kind = 0x0fb5;
    body = le_bytes32 c date ++ (r.0 ∷ 0 ∷ (r.1 ++ (le_bytes16 c start ++ le_bytes16 c count)));
  })

-- A trade of a past day on the wire is a tick without a number of orders.
abbrev past_numbers : Tick → Bytes → Bytes
past_numbers t rest = wire t.step ++ (wire t.volume ++ (wire t.status ++ (wire t.extra ++ rest)))

abbrev pub past_trade : ℤ → ℤ → ℤ → Tick → Trade
past_trade base day sum t = record (tick_trade base day sum t) { number = pos 0 }

abbrev pub past_trades : ℤ → ℤ → ℤ → List Tick → List Trade
past_trades base day sum [] = []
past_trades base day sum (t ∷ ts) =
    past_trade base day (sum +ℤ (value t.step *ℤ pos 10)) t
    ∷ past_trades base day (sum +ℤ (value t.step *ℤ pos 10)) ts

read_past_trade_lem :
    (t : Tick) (code : Bytes) (day sum : ℤ) (rest : Bytes)
    → IsTick t
    → add64 sum (mul64 (value t.step) (pos 10)) ≡ sum +ℤ (value t.step *ℤ pos 10)
    → IsI64 (sum +ℤ (value t.step *ℤ pos 10))
    → read_past_trade (base_price code) day t.minute sum (past_numbers t rest) ≡ (
      rest,
      (
        sum +ℤ (value t.step *ℤ pos 10),
        past_trade (base_price code) day (sum +ℤ (value t.step *ℤ pos 10)) t,
      ),
    )
read_past_trade_lem t code day sum rest g sum_is fits =
    let after_status = wire t.extra ++ rest in
    let after_volume = wire t.status ++ after_status in
    rw
      (
        get_price-signed_wire t.step.negative t.step.magnitude (wire t.volume ++ after_volume)
            g.step_fits,
        cut_int-signed_wire t.volume after_volume g.volume_fits,
        cut_int-signed_wire t.status after_status g.status_fits,
        cut_int-signed_wire t.extra rest g.extra_fits,
        sum_is,
        div64_base code (sum +ℤ (value t.step *ℤ pos 10)) fits,
      )
      refl

not_short : (n : ℕ) → ltb (suc (suc n)) 2 ≡ false
not_short n = ground arith

not_six : (n : ℕ) → ltb (suc (suc (suc (suc (suc (suc n)))))) 6 ≡ false
not_six n = ground arith

module _ (c : Conv) (big : IsBigEndian c) where
  abbrev pub past_wire : List Tick → Bytes → Bytes
  past_wire [] rest = rest
  past_wire (t ∷ ts) rest = le_bytes16 c t.minute ++ past_numbers t (past_wire ts rest)

  past_trade_round_lem :
      (t : Tick) (code : Bytes) (day sum : ℤ) (rest : Bytes)
      → IsTick t
      → add64 sum (mul64 (value t.step) (pos 10)) ≡ sum +ℤ (value t.step *ℤ pos 10)
      → IsI64 (sum +ℤ (value t.step *ℤ pos 10))
      → past_trade_round c
          (record { date = some day; code = code })
          sum
          (le_bytes16 c t.minute ++ past_numbers t rest)
        ≡ ok (
          rest,
          (
            sum +ℤ (value t.step *ℤ pos 10),
            past_trade (base_price code) day (sum +ℤ (value t.step *ℤ pos 10)) t,
          ),
        )
  unfolding past_trade_round trade_time
  past_trade_round_lem t code day sum rest g sum_is fits =
      let hour : ltb (t.minute / 60) 24 ≡ true = ground (arith, g.in_day) in
      let whole : t.minute / 256 * 256 + t.minute % 256 ≡ t.minute = omega arith in
      rw
        (
          le_bytes16_lem c big t.minute (omega (arith, g.in_day)),
          uint16_lem c big (t.minute % 256) (t.minute / 256) (omega arith)
              (omega (arith, g.in_day)),
          whole,
          hour,
          not_short (length (past_numbers t rest)),
        )
        (ap ok (read_past_trade_lem t code day sum rest g sum_is fits))

  past_trade_loop-past_wire :
      (ts : List Tick) (code : Bytes) (day sum : ℤ) (rest : Bytes)
      → All IsTick ts
      → Room (length ts) sum
      → past_trade_loop c
          (record { date = some day; code = code })
          (length ts)
          sum
          (past_wire ts rest)
        ≡ ok (past_trades (base_price code) day sum ts)
  unfolding past_trade_loop
  past_trade_loop-past_wire [] code day sum rest good room = refl
  past_trade_loop-past_wire (t ∷ ts) code day sum rest (g, good) room =
      let (room', sum_is) = sum-Room (length ts) sum t.step g.step_fits room in
      let fits : IsI64 (sum +ℤ (value t.step *ℤ pos 10)) = omega arith in
      rw
        (
          past_trade_round_lem t code day sum (past_wire ts rest) g sum_is fits,
          past_trade_loop-past_wire ts code day (sum +ℤ (value t.step *ℤ pos 10)) rest good room',
        )
        refl

  -- Given the documented byte order of the conversions, Decode reads back every list of up to 65535
  -- trades of a past day from its wire form, behind a header of six bytes: each price is the running
  -- sum of the changes, in units of the instrument, and no sum overflows.
  pub past_trade_decode-past_wire :
      (ts : List Tick) (code : Bytes) (day : ℤ) (a b d e : ℕ) (rest : Bytes)
      → length ts < 2 ^ 16
      → All IsTick ts
      → past_trade_decode c
          (record { date = some day; code = code })
          (le_bytes16 c (length ts) ++ (a ∷ b ∷ d ∷ e ∷ past_wire ts rest))
        ≡ ok (record { count = length ts; list = past_trades (base_price code) day (pos 0) ts })
  unfolding past_trade_decode
  past_trade_decode-past_wire ts code day a b d e rest fits good =
      let whole : length ts / 256 * 256 + length ts % 256 ≡ length ts = omega arith in
      rw
        (
          le_bytes16_lem c big (length ts) fits,
          uint16_lem c big (length ts % 256) (length ts / 256) (omega arith) (omega arith),
          whole,
          not_six (length (past_wire ts rest)),
          past_trade_loop-past_wire ts code day (pos 0) rest good (omega arith, omega arith),
        )
        refl
