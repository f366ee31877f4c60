-- ===== src/Kline/Root.antt =====
-- `I64Sqrt` is the integer square root.
use tdx.Base.{ℕ, zero, suc, ◌+◌, ◌-◌, ◌*◌, ◌^◌, ◌≤◌, ◌<◌, ◌≡◌, arith, refl}
use native.Mathlib.Decide.{dec_lt}
use tdx.Base.Int.{ℤ, pos, add64, sub64, mul64, wrap64_self, add_pos, mul_pos, sub_pos}
use tdx.Kline.Indicator.{root_up, root_down, i64_sqrt}

-- int64 operations on small numbers.
pub add64_pos : (a b : ℕ) → a + b < 2 ^ 63 → add64 (pos a) (pos b) ≡ pos (a + b)
add64_pos a b h = rw (add_pos a b) (wrap64_self (pos (a + b)) (omega arith))

pub mul64_pos : (a b : ℕ) → a * b < 2 ^ 63 → mul64 (pos a) (pos b) ≡ pos (a * b)
mul64_pos a b h = rw (mul_pos a b) (wrap64_self (pos (a * b)) (omega arith))

pub sub64_pos : (a b : ℕ) → b ≤ a → a < 2 ^ 63 → sub64 (pos a) (pos b) ≡ pos (a - b)
sub64_pos a b h k = rw (sub_pos a b h) (wrap64_self (pos (a - b)) (omega arith))

square_mono : (a b : ℕ) → a ≤ b → a * a ≤ b * b
square_mono a b h = grind arith

square_small : (r : ℕ) → r ≤ 2 ^ 31 → (r + 1) * (r + 1) < 2 ^ 63
square_small r h = omega (arith, square_mono (r + 1) (2 ^ 31 + 1) (omega arith))

root_small : (r x : ℕ) → r * r ≤ x → x < 2 ^ 62 → r ≤ 2 ^ 31
root_small r x h k = grind (arith, square_mono)

root_up-stop :
    (fuel x r : ℕ) → r ≤ 2 ^ 31 → x < (r + 1) * (r + 1) → root_up (suc fuel) (pos x) (pos r) ≡ pos r
unfolding root_up
root_up-stop fuel x r hr h =
    rw (add64_pos r 1 (omega arith), mul64_pos (r + 1) (r + 1) (square_small r hr)) (ground arith)

root_up-go :
    (fuel x r : ℕ)
    → r ≤ 2 ^ 31
    → (r + 1) * (r + 1) ≤ x
    → root_up (suc fuel) (pos x) (pos r) ≡ root_up fuel (pos x) (pos (r + 1))
unfolding root_up
root_up-go fuel x r hr h =
    rw (add64_pos r 1 (omega arith), mul64_pos (r + 1) (r + 1) (square_small r hr)) (ground arith)

-- The first loop: the result is below 2 ^ 31, and the square of the next number is past x.
abbrev AboveRoot : ℕ → ℤ → Type 0
AboveRoot x z = (s : ℕ) × (z ≡ pos s) × (x < (s + 1) * (s + 1)) × (s ≤ 2 ^ 31)

root_up_lem :
    (fuel x r : ℕ)
    → x < r + fuel
    → r ≤ 2 ^ 31
    → x < 2 ^ 62
    → AboveRoot x (root_up fuel (pos x) (pos r))
root_up_lem zero x r enough hr hx = (r, unfold root_up in refl, grind arith, hr)
root_up_lem (suc fuel) x r enough hr hx = elim (dec_lt x ((r + 1) * (r + 1))) [
  | yes stop ↦ (r, root_up-stop fuel x r hr stop, stop, hr)
  | no go ↦
      rw (root_up-go fuel x r hr (omega arith))
        (root_up_lem fuel x (r + 1) (omega arith) (root_small (r + 1) x (omega arith) hx) hx)
]

root_down-stop :
    (fuel x r : ℕ) → r ≤ 2 ^ 31 → r * r ≤ x → root_down (suc fuel) (pos x) (pos r) ≡ pos r
unfolding root_down
root_down-stop fuel x r hr h =
    rw (mul64_pos r r (omega (arith, square_mono r (2 ^ 31) hr))) (ground arith)

root_down-go :
    (fuel x r : ℕ)
    → suc r ≤ 2 ^ 31
    → x < suc r * suc r
    → root_down (suc fuel) (pos x) (pos (suc r)) ≡ root_down fuel (pos x) (pos r)
unfolding root_down
root_down-go fuel x r hr h =
    let e : suc r - 1 ≡ r = omega arith in
    rw
      (
        mul64_pos (suc r) (suc r) (omega (arith, square_mono (suc r) (2 ^ 31) hr)),
        sub64_pos (suc r) 1 (omega arith) (omega arith),
        e,
      )
      (ground arith)

-- The integer square root of x.
abbrev pub IsRoot : ℕ → ℤ → Type 0
IsRoot x z = (s : ℕ) × (z ≡ pos s) × (s * s ≤ x) × (x < (s + 1) * (s + 1))

root_down_lem :
    (fuel x r : ℕ)
    → r < fuel
    → r ≤ 2 ^ 31
    → x < (r + 1) * (r + 1)
    → IsRoot x (root_down fuel (pos x) (pos r))
root_down_lem zero x r enough hr h = absurd (omega arith)
root_down_lem (suc fuel) x zero enough hr h =
    (0, root_down-stop fuel x 0 hr (omega arith), omega arith, h)
root_down_lem (suc fuel) x (suc r) enough hr h = elim (dec_lt x (suc r * suc r)) [
  | yes go ↦
      rw (root_down-go fuel x r hr go)
        (root_down_lem fuel x r (omega arith) (omega arith) (omega arith))
  | no stop ↦ (suc r, root_down-stop fuel x (suc r) hr (omega arith), omega arith, h)
]

-- From any guess up to 2 ^ 31 the two loops end at the integer square root, for x below 2 ^ 62.
pub i64_sqrt-IsRoot :
    (guess x : ℕ) → guess ≤ 2 ^ 31 → x < 2 ^ 62 → IsRoot x (i64_sqrt (pos guess) (pos x))
unfolding i64_sqrt
i64_sqrt-IsRoot guess x hg hx =
    let (s, e, above, hs) = root_up_lem (x + 1) x guess (omega arith) hg hx in
    rw e (root_down_lem (s + 1) x s (omega arith) hs above)
