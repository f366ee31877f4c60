-- ===== src/Candle/Float.antt =====
-- `getVolume` of protocol/unit.go, and its result as an int64.
use tdx.Base.{ℕ, ◌+◌, ◌-◌, ◌*◌, ◌/◌, ◌%◌, ◌^◌, ◌==◌, ◌||◌, if◌then◌else◌, ltb, leb, max}
use tdx.Base.Int.{ℤ, pos, negsuc, sub_ℕ}

-- The float_magnitude of `math.Float32frombits(val)` times `scale`, rounded down. The float64 product is
-- exact, since a float32 has 24 bits and the scale is below 2 ^ 29.
abbrev pub float_magnitude : ℕ → ℕ → ℕ
float_magnitude scale val =
    let e = val / 2 ^ 23 % 256 in
    let f = val % 2 ^ 23 in
    let m = if e == 0 then f else f + 2 ^ 23 in
    if ltb e 150 then m * scale / 2 ^ (150 - max e 1) else m * scale * 2 ^ (e - 150)

-- `int64(getVolume(val) * scale)`. What has no int64, an infinity and no number among it, becomes
-- the least one, as on amd64.
unfoldable pub float_int64 : ℕ → ℕ → ℤ
float_int64 scale val =
    if val / 2 ^ 23 % 256 == 255 || leb (2 ^ 63) (float_magnitude scale val)
    then negsuc (2 ^ 63 - 1)
    else if val / 2 ^ 31 == 0
    then pos (float_magnitude scale val)
    else sub_ℕ 0 (float_magnitude scale val)
