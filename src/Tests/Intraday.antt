-- ===== src/Tests/Intraday.antt =====
-- Runs of the decoders of minutes.
use tdx.Base.{ℕ, ◌≡◌, arith, true, false, List, [], ◌∷◌, ◌++◌, All, length}
use tdx.Base.Int.{pos}
use tdx.Base.Outcome.{ok}
use tdx.Wire.Endian.{le_bytes16}
use tdx.Trade.RoundTrip.{Signed}
use tdx.Intraday.Defs.{minute_decode, history_minute_decode}
use tdx.Intraday.History.{
  Point, IsPoint, points_wire, history_points, history_minute_decode-points_wire,
}
use tdx.Intraday.Today.{today_points, minute_decode-points_wire}
use tdx.Tests.Wire.{big_endian, big_endian-IsBigEndian}

abbrev plus : ℕ → Signed
plus n = record { negative = false; magnitude = n }

abbrev points : List Point
points =
    record { step = plus 1050; extra = plus 7; number = plus 300 }
    ∷ record { step = record { negative = true; magnitude = 2 }; extra = plus 0; number = plus 64 }
    ∷ []

points-IsPoint : All IsPoint points
points-IsPoint = (
  record { step_fits = omega arith; extra_fits = omega arith; number_fits = omega arith },
  (record { step_fits = omega arith; extra_fits = omega arith; number_fits = omega arith }, tt),
)

history_minute_decode-points_wire_example :
    history_minute_decode big_endian
      (le_bytes16 big_endian (length points) ++ (0 ∷ 0 ∷ 0 ∷ 0 ∷ points_wire points []))
    ≡ ok (record { count = 2; list = history_points 0 (pos 0) points })
history_minute_decode-points_wire_example =
    history_minute_decode-points_wire big_endian points 0 0 0 0 [] big_endian-IsBigEndian
      (omega arith) points-IsPoint

minute_decode-points_wire_example :
    minute_decode big_endian
      (le_bytes16 big_endian (length points) ++ (0 ∷ 0 ∷ 0 ∷ 0 ∷ points_wire points []))
    ≡ ok (record { count = 2; list = today_points 0 points })
minute_decode-points_wire_example =
    minute_decode-points_wire big_endian points 0 0 0 0 [] big_endian-IsBigEndian (omega arith)
      points-IsPoint
