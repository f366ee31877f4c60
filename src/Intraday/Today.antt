-- ===== src/Intraday/Today.antt =====
-- `minute.Decode`: its labels count from 9:00, and its prices are not summed.
use tdx.Base.{
  ℕ, ◌+◌, ◌*◌, ◌/◌, ◌%◌, ◌<◌, ◌≤◌, ◌≡◌, refl, arith, false, ◌==◌, List, [], ◌∷◌, ◌++◌, length, All,
  if◌then◌else◌, ltb, leb,
}
use tdx.Base.Outcome.{ok}
use tdx.Base.Text.{Bytes}
use tdx.Wire.Endian.{Conv, IsBigEndian, uint16_lem, le_bytes16, le_bytes16_lem}
use tdx.Varint.RoundTrip.{get_price-signed_wire}
use tdx.Trade.RoundTrip.{value, wire, cut_int-signed_wire}
use tdx.Intraday.Defs.{PriceNumber, minute_loop, minute_decode}
use tdx.Intraday.History.{Point, IsPoint, points_wire}

-- The label of point `i`: 9:00 and on, and from point 120 on 13:00 and on.
abbrev pub today_label : ℕ → ℕ
today_label i = if ltb i 120 then 540 + i else 660 + i

abbrev pub today_points : ℕ → List Point → List PriceNumber
today_points i [] = []
today_points i (p ∷ ps) =
    record { clock = today_label i; price = value p.step; number = value p.number }
    ∷ today_points (i + 1) ps

abbrev base_minute : ℕ → ℕ
base_minute i = if leb i 120 then 540 else 660

label_lem :
    (i : ℕ)
    → i < 240
    → (((if i == 120 then base_minute i + 120 else base_minute i) + i) % 1440 ≡ today_label i)
      × ((if i == 120 then base_minute i + 120 else base_minute i) ≡ base_minute (i + 1))
label_lem i h = ground arith

minute_loop-points_wire :
    (ps : List Point) (i : ℕ) (rest : Bytes)
    → i + length ps ≤ 240
    → All IsPoint ps
    → minute_loop (length ps) i (base_minute i) (points_wire ps rest) ≡ today_points i ps
unfolding minute_loop
minute_loop-points_wire [] i rest h good = refl
minute_loop-points_wire (p ∷ ps) i rest h good =
    let (label, next) = label_lem i (omega arith) in
    let after_extra = wire p.number ++ points_wire ps rest in
    rw
      (
        get_price-signed_wire p.step.negative p.step.magnitude (wire p.extra ++ after_extra)
            good.0.step_fits,
        cut_int-signed_wire p.extra after_extra good.0.extra_fits,
        cut_int-signed_wire p.number (points_wire ps rest) good.0.number_fits,
        label,
        next,
        minute_loop-points_wire ps (i + 1) rest (omega arith) good.1,
      )
      refl

-- Given the documented byte order of the conversions, Decode reads back up to 240 points from their
-- wire form, each price as it is sent; the points are labelled 9:00 to 10:59 and 13:00 to 14:59.
pub minute_decode-points_wire :
    (c : Conv) (ps : List Point) (a b d e : ℕ) (rest : Bytes)
    → IsBigEndian c
    → length ps ≤ 240
    → All IsPoint ps
    → minute_decode c (le_bytes16 c (length ps) ++ (a ∷ b ∷ d ∷ e ∷ points_wire ps rest))
      ≡ ok (record { count = length ps; list = today_points 0 ps })
unfolding minute_decode
minute_decode-points_wire c ps a b d e rest big fits good =
    let whole : length ps / 256 * 256 + length ps % 256 ≡ length ps = omega arith in
    let long : ltb
          (length (length ps % 256 ∷ length ps / 256 ∷ a ∷ b ∷ d ∷ e ∷ points_wire ps rest)) 6
        ≡ false =
      ground arith in
    rw
      (
        le_bytes16_lem c big (length ps) (omega arith),
        uint16_lem c big (length ps % 256) (length ps / 256) (omega arith) (omega arith),
        whole,
        long,
        minute_loop-points_wire ps 0 rest (omega arith) good,
      )
      refl
