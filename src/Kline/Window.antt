-- ===== src/Kline/Window.antt =====
-- Sums of the terms `1` to `i` of a sequence; a window is the difference of two.
use tdx.Base.{ℕ, zero, suc, ◌+◌, ◌-◌, ◌*◌, ◌≤◌, ◌<◌, ◌≡◌, arith}

abbrev pub prefix : (ℕ → ℕ) → ℕ → ℕ
prefix f zero = 0
prefix f (suc i) = prefix f i + f (suc i)

-- The sum of the last `n` terms up to the term `i`.
abbrev pub window : (ℕ → ℕ) → ℕ → ℕ → ℕ
window f n i = prefix f i - prefix f (i - n)

module _ (f : ℕ → ℕ) where
  pub prefix_mono : (i j : ℕ) → prefix f i ≤ prefix f (i + j)
  prefix_mono i zero = grind arith
  prefix_mono i (suc j) =
      let e : i + suc j ≡ suc (i + j) = omega arith in rw e (omega (arith, prefix_mono i j))

  pub prefix-le : (hi : ℕ) → ((j : ℕ) → f j ≤ hi) → (i : ℕ) → prefix f i ≤ i * hi
  prefix-le hi h zero = omega arith
  prefix-le hi h (suc i) = grind (arith, prefix-le hi h i, h (suc i))

  pub window-le : (hi : ℕ) → ((j : ℕ) → f j ≤ hi) → (n i : ℕ) → window f n i ≤ i * hi
  window-le hi h n i = omega (arith, prefix-le hi h i)

  -- The window while it grows.
  pub window-enter : (n i : ℕ) → 1 ≤ i → i ≤ n → window f n i ≡ window f n (i - 1) + f i
  window-enter n zero lo h = absurd (omega arith)
  window-enter n (suc i) lo h =
      let e : suc i - 1 ≡ i = omega arith in
      let a : suc i - n ≡ 0 = omega arith in
      let b : i - n ≡ 0 = omega arith in rw (e, a, b) (omega arith)

  -- The window that moves: a term leaves it.
  pub window-move : (n i : ℕ) → n < i → window f n i + f (i - n) ≡ window f n (i - 1) + f i
  window-move n zero h = absurd (omega arith)
  window-move n (suc i) h =
      let e : suc i - 1 ≡ i = omega arith in
      let a : suc i - n ≡ suc (i - n) = omega arith in
      let b : suc (i - n) + n ≡ suc i = omega arith in
      let all = prefix_mono (suc (i - n)) n in
      let whole = rw b at all in
      let old = prefix_mono (i - n) n in
      let c : i - n + n ≡ i = omega arith in let old' = rw c at old in rw (e, a) (omega arith)
