-- ===== src/Intraday/History.antt =====
-- `historyMinute.Decode` reads back the minutes of a day.
use tdx.Base.{
  ℕ, suc, ◌+◌, ◌*◌, ◌/◌, ◌%◌, ◌^◌, ◌<◌, ◌≤◌, ◌≡◌, refl, arith, false, ◌==◌, List, [], ◌∷◌, ◌++◌,
  length, All, if◌then◌else◌, ltb, leb,
}
use tdx.Base.Int.{
  ℤ, pos, pos_part, neg_part, ◌+ℤ◌, ◌-ℤ◌, ◌*ℤ◌, add64, mul64, wrap64_self, +ℤ_parts, parts_apart,
}
use tdx.Base.Outcome.{ok}
use tdx.Base.Text.{Bytes}
use tdx.Wire.Endian.{Conv, IsBigEndian, uint16_lem, le_bytes16, le_bytes16_lem}
use tdx.Varint.RoundTrip.{get_price-signed_wire}
use tdx.Kline.Macd.{times_parts}
use tdx.Trade.RoundTrip.{Signed, value, wire, cut_int-signed_wire}
use tdx.Intraday.Defs.{PriceNumber, history_minute_loop, history_minute_decode}

-- One minute on the wire: the price or its change, a number of no use, and the volume.
pub record Point : Type 0 where
  pub step : Signed
  pub extra : Signed
  pub number : Signed

pub record IsPoint (p : Point) : Type 0 where
  pub step_fits : p.step.magnitude < 2 ^ 31
  pub extra_fits : p.extra.magnitude < 2 ^ 31
  pub number_fits : p.number.magnitude < 2 ^ 31

abbrev pub points_wire : List Point → Bytes → Bytes
points_wire [] rest = rest
points_wire (p ∷ ps) rest = wire p.step ++ (wire p.extra ++ (wire p.number ++ points_wire ps rest))

-- The minute `i` of trading ends at 9:31 and on, and behind the pause at 13:01 and on.
abbrev pub trading_minute : ℕ → ℕ
trading_minute i = if ltb i 120 then 571 + i else 661 + i

abbrev pub history_points : ℕ → ℤ → List Point → List PriceNumber
history_points i sum [] = []
history_points i sum (p ∷ ps) =
    record {
      clock = trading_minute i;
      price = (sum +ℤ value p.step) *ℤ pos 10;
      number = value p.number;
    }
    ∷ history_points (i + 1) (sum +ℤ value p.step) ps

-- What the labels count from, ahead of round `i`.
abbrev base_minute : ℕ → ℕ
base_minute i = if leb i 120 then 570 else 660

label_lem :
    (i : ℕ)
    → i < 240
    → (((if i == 120 then base_minute i + 90 else base_minute i) + (i + 1)) % 1440
        ≡ trading_minute i)
      × ((if i == 120 then base_minute i + 90 else base_minute i) ≡ base_minute (i + 1))
label_lem i h = ground arith

-- A sum that `i` more steps keep below 2 ^ 50.
abbrev Small : ℕ → ℤ → Type 0
Small i z = (pos_part z + i * 2 ^ 31 < 2 ^ 50) × (neg_part z + i * 2 ^ 31 < 2 ^ 50)

pub value_small :
    (s : Signed)
    → s.magnitude < 2 ^ 31
    → (pos_part (value s) < 2 ^ 31) × (neg_part (value s) < 2 ^ 31)
unfolding ◌-ℤ◌
value_small s h = ground arith

step-Small :
    (i : ℕ) (z : ℤ) (s : Signed)
    → s.magnitude < 2 ^ 31
    → Small (suc i) z
    → Small i (z +ℤ value s)
      × (add64 z (value s) ≡ z +ℤ value s)
      × (mul64 (z +ℤ value s) (pos 10) ≡ (z +ℤ value s) *ℤ pos 10)
step-Small i z s h small =
    let y = z +ℤ value s in
    let parts = +ℤ_parts z (value s) in
    let apart = parts_apart y in
    let v = value_small s h in
    let tens = times_parts y 10 in
    let apart' = parts_apart (y *ℤ pos 10) in
    (
      (omega arith, omega arith),
      wrap64_self y (omega arith),
      wrap64_self (y *ℤ pos 10) (omega arith),
    )

history_minute_loop-points_wire :
    (ps : List Point) (i : ℕ) (sum : ℤ) (rest : Bytes)
    → i + length ps ≤ 240
    → All IsPoint ps
    → Small (length ps) sum
    → history_minute_loop (length ps) i (base_minute i) sum (points_wire ps rest)
      ≡ history_points i sum ps
unfolding history_minute_loop
history_minute_loop-points_wire [] i sum rest h good small = refl
history_minute_loop-points_wire (p ∷ ps) i sum rest h good small =
    let (label, next) = label_lem i (omega arith) in
    let (small', sum_is, tens) = step-Small (length ps) sum p.step good.0.step_fits small in
    let after_extra = wire p.number ++ points_wire ps rest in
    rw
      (
        get_price-signed_wire p.step.negative p.step.magnitude (wire p.extra ++ after_extra)
            good.0.step_fits,
        get_price-signed_wire p.extra.negative p.extra.magnitude after_extra good.0.extra_fits,
        cut_int-signed_wire p.number (points_wire ps rest) good.0.number_fits,
        sum_is,
        tens,
        label,
        next,
        history_minute_loop-points_wire ps (i + 1) (sum +ℤ value p.step) rest (omega arith) good.1
            small',
      )
      refl

-- Given the documented byte order of the conversions, Decode reads back up to 240 minutes from
-- their wire form: the labels are the minutes in which trading minutes end, 9:31 to 11:30 and 13:01
-- to 15:00, and the prices the running sums of the changes in thousandths.
pub history_minute_decode-points_wire :
    (c : Conv) (ps : List Point) (a b d e : ℕ) (rest : Bytes)
    → IsBigEndian c
    → length ps ≤ 240
    → All IsPoint ps
    → history_minute_decode c (le_bytes16 c (length ps) ++ (a ∷ b ∷ d ∷ e ∷ points_wire ps rest))
      ≡ ok (record { count = length ps; list = history_points 0 (pos 0) ps })
unfolding history_minute_decode
history_minute_decode-points_wire c ps a b d e rest big fits good =
    let whole : length ps / 256 * 256 + length ps % 256 ≡ length ps = omega arith in
    let long : ltb
          (length (length ps % 256 ∷ length ps / 256 ∷ a ∷ b ∷ d ∷ e ∷ points_wire ps rest)) 6
        ≡ false =
      ground arith in
    rw
      (
        le_bytes16_lem c big (length ps) (omega arith),
        uint16_lem c big (length ps % 256) (length ps / 256) (omega arith) (omega arith),
        whole,
        long,
        history_minute_loop-points_wire ps 0 (pos 0) rest (omega arith) good
            (omega arith, omega arith),
      )
      refl
