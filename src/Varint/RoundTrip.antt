-- ===== src/Varint/RoundTrip.antt =====
-- The wire form of a signed number, and `GetPrice` on it.
use tdx.Base.{ℕ, zero, suc, ◌+◌, ◌-◌, ◌*◌, ◌/◌, ◌%◌, ◌^◌, ◌<◌, ◌≡◌, ap, arith, Bool, true, false}
use tdx.Base.{[], ◌∷◌, ◌++◌, length, ltb, if◌then◌else◌, some}
use tdx.Base.{take-append_self, drop-append_self}
use tdx.Base.Int.{ℤ, pos, ◌+ℤ◌, ◌-ℤ◌, wrap32, wrap32_self, add_pos, IsI32}
use tdx.Base.Text.{Bytes}
use tdx.Varint.Bits.{low_six, low_seven, sign_bit, more_bit}
use tdx.Varint.Cut.{group, get_data_loop, get_data, end_index, cut_at, get_price}
use native.Mathlib.Nat.{div-add-mod, zero-add}
use native.Mathlib.Numerals.{towards_suc, add-one}

-- Groups of seven bits, the lowest first, for `v` below 128 ^ (k + 1); the top bit says that more follow.
unfoldable pub groups : ℕ → ℕ → Bytes
groups zero v = v ∷ []
groups (suc k) v =
    let rest = groups k (v / 128) in if ltb v 128 then v ∷ [] else (v % 128 + 128) ∷ rest

-- The first byte holds six bits of the magnitude `m` below 2 ^ 31, the sign, and the mark of a
-- further byte.
unfoldable pub signed_wire : Bool → ℕ → Bytes
signed_wire negative m =
    let sign = if negative then 64 else 0 in
    if ltb m 64 then (m + sign) ∷ [] else (m % 64 + sign + 128) ∷ groups 3 (m / 64)

abbrev pub signed_value : Bool → ℕ → ℤ
signed_value negative m = if negative then (pos 0 -ℤ pos m) else pos m

-- One round of `getData`: the first, and one behind it whose shift is `s`.
step_first : (b : ℕ) → b < 256 → wrap32 (pos 0 +ℤ group 0 b) ≡ pos (b % 64)
unfolding group
step_first b hb = rw (low_six b hb, add_pos, zero-add) (wrap32_self (pos (b % 64)) (omega arith))

step_group :
    (b j acc s : ℕ)
    → b < 256
    → s ≡ 6 + j * 7
    → s < 256
    → acc + b % 128 * 2 ^ s < 2 ^ 31
    → wrap32 (pos acc +ℤ group (suc j) b) ≡ pos (acc + b % 128 * 2 ^ s)
unfolding group
step_group b j acc s hb hs small fits =
    let e : (6 + j * 7) % 256 ≡ s = omega arith in
    rw (low_seven b hb, e, wrap32_self (pos (b % 128 * 2 ^ s)) (omega arith), add_pos)
      (wrap32_self (pos (acc + b % 128 * 2 ^ s)) (omega arith))

shift_seven : (s : ℕ) → 2 ^ (s + 7) ≡ 128 * 2 ^ s
shift_seven s = simp towards_suc (omega arith)

split_group : (v s : ℕ) → v * 2 ^ s ≡ v % 128 * 2 ^ s + v / 128 * 2 ^ (s + 7)
split_group v s = omega (
  arith,
  ap (λ (t : ℕ). t * 2 ^ s) (div-add-mod v 128),
  ap (λ (t : ℕ). v / 128 * t) (shift_seven s),
)

-- The loop over the groups of `v`, from round `j + 1` on.
get_data_loop-groups :
    (k v j acc s : ℕ)
    → s ≡ 6 + j * 7
    → s + k * 7 < 256
    → v < 128 ^ suc k
    → acc + v * 2 ^ s < 2 ^ 31
    → get_data_loop (groups k v) (suc j) (pos acc) ≡ pos (acc + v * 2 ^ s)
unfolding get_data_loop groups
get_data_loop-groups zero v j acc s hs small hv fits =
    ground (arith, step_group v j acc s, more_bit v)
get_data_loop-groups (suc k) v j acc s hs small hv fits = ground (
  arith,
  step_group v j acc s,
  more_bit v,
  split_group v s,
  more_bit (v % 128 + 128),
  step_group (v % 128 + 128) j acc s,
  get_data_loop-groups k (v / 128) (suc j) (acc + v % 128 * 2 ^ s) (s + 7),
  add-one (suc j),
)

minus-IsI32 : (m : ℕ) → m < 2 ^ 31 → IsI32 (pos 0 -ℤ pos m)
unfolding ◌-ℤ◌
minus-IsI32 m h = ground arith

get_data-signed_wire :
    (negative : Bool) (m : ℕ)
    → m < 2 ^ 31
    → get_data (signed_wire negative m) ≡ signed_value negative m
unfolding get_data get_data_loop signed_wire
get_data-signed_wire false m h = ground (
  arith,
  step_first (m + 0),
  more_bit (m + 0),
  sign_bit (m + 0),
  step_first (m % 64 + 0 + 128),
  more_bit (m % 64 + 0 + 128),
  sign_bit (m % 64 + 0 + 128),
  get_data_loop-groups 3 (m / 64) 0 (m % 64) 6,
)
get_data-signed_wire true m h = ground (
  arith,
  step_first (m + 64),
  more_bit (m + 64),
  sign_bit (m + 64),
  step_first (m % 64 + 64 + 128),
  more_bit (m % 64 + 64 + 128),
  sign_bit (m % 64 + 64 + 128),
  get_data_loop-groups 3 (m / 64) 0 (m % 64) 6,
  wrap32_self (pos 0 -ℤ pos m) (minus-IsI32 m h),
)

length-groups : (k v : ℕ) → 0 < length (groups k v)
unfolding groups
length-groups zero v = omega arith
length-groups (suc k) v = ground arith

end_index-groups :
    (k v i : ℕ) (rest : Bytes)
    → v < 128 ^ suc k
    → end_index (groups k v ++ rest) i ≡ some (length (groups k v) - 1 + i)
unfolding end_index groups
end_index-groups zero v i rest h = ground (arith, more_bit v)
end_index-groups (suc k) v i rest h = ground (
  arith,
  more_bit v,
  more_bit (v % 128 + 128),
  end_index-groups k (v / 128) (i + 1) rest,
  length-groups k (v / 128),
)

end_index-signed_wire :
    (negative : Bool) (m : ℕ) (rest : Bytes)
    → m < 2 ^ 31
    → end_index (signed_wire negative m ++ rest) 0 ≡ some (length (signed_wire negative m) - 1)
unfolding end_index signed_wire
end_index-signed_wire false m rest h = ground (
  arith,
  more_bit (m + 0),
  more_bit (m % 64 + 0 + 128),
  end_index-groups 3 (m / 64) 1 rest,
  length-groups 3 (m / 64),
)
end_index-signed_wire true m rest h = ground (
  arith,
  more_bit (m + 64),
  more_bit (m % 64 + 64 + 128),
  end_index-groups 3 (m / 64) 1 rest,
  length-groups 3 (m / 64),
)

length-signed_wire : (negative : Bool) (m : ℕ) → 0 < length (signed_wire negative m)
unfolding signed_wire
length-signed_wire negative m = ground arith

-- Where the scan stops at the end of `front`, the cut is there too.
cut_at-append :
    (front rest : Bytes)
    → 0 < length front
    → cut_at (some (length front - 1)) (front ++ rest) ≡ (rest, get_data front)
unfolding cut_at
cut_at-append front rest h =
    let e : length front - 1 + 1 ≡ length front = omega arith in
    rw (e, take-append_self front rest, drop-append_self front rest)

-- `GetPrice` reads back every number of 31 bits and its sign, and leaves the bytes behind it.
pub get_price-signed_wire :
    (negative : Bool) (m : ℕ) (rest : Bytes)
    → m < 2 ^ 31
    → get_price (signed_wire negative m ++ rest) ≡ (rest, signed_value negative m)
unfolding get_price
get_price-signed_wire negative m rest h = rw (
  end_index-signed_wire negative m rest h,
  cut_at-append (signed_wire negative m) rest (length-signed_wire negative m),
  get_data-signed_wire negative m h,
)
