-- ===== src/Kline/Smooth.antt =====
-- The exponential averages stay among the prices that they average.
use tdx.Base.{ℕ, zero, suc, ◌+◌, ◌-◌, ◌*◌, ◌/◌, ◌^◌, ◌≤◌, ◌<◌, ◌≡◌, arith, List, [], ◌∷◌, All}
use native.Mathlib.Decide.{dec_le}
use tdx.Base.Int.{ℤ, pos, quot, wrap64_self}
use native.Mathlib.Nat.{div-add-mod, mod-lt}
use tdx.Kline.Defs.{Kline}
use tdx.Kline.Indicator.{smooth, ema_loop, ema}
use tdx.Kline.Root.{add64_pos, mul64_pos, sub64_pos}

mul_mono : (a b c : ℕ) → a ≤ b → a * c ≤ b * c
mul_mono a b c h = grind arith

below : (x q lo : ℕ) → 0 < q → lo * q ≤ x → lo ≤ x / q
below x q lo hq h = elim (dec_le lo (x / q)) [
  | yes p ↦ p
  | no p ↦
      absurd (omega (arith, mul_mono (x / q + 1) lo q (omega arith), div-add-mod x q, mod-lt x hq))
]

pub above : (x q hi : ℕ) → 0 < q → x ≤ hi * q → x / q ≤ hi
above x q hi hq h = elim (dec_le (x / q) hi) [
  | yes p ↦ p
  | no p ↦
      absurd
        (omega (arith, mul_mono (hi + 1) (x / q) q (omega arith), div-add-mod x q, mod-lt x hq))
]

div_between : (x q lo hi : ℕ) → 0 < q → lo * q ≤ x → x ≤ hi * q → (lo ≤ x / q) × (x / q ≤ hi)
div_between x q lo hi hq a b = (below x q lo hq a, above x q hi hq b)

-- A price in thousandths between two bounds.
abbrev pub Within : ℕ → ℕ → ℤ → Type 0
Within lo hi z = (p : ℕ) × (z ≡ pos p) × (lo ≤ p) × (p ≤ hi)

-- The mean of two prices up to `hi`, times its divisor.
weighted-le : (d v e hi : ℕ) → v ≤ hi → e ≤ hi → v * 2 + e * d ≤ hi * (d + 2)
weighted-le d v e hi hv he = omega (arith, mul_mono e hi d he)

weighted-ge : (d v e lo : ℕ) → lo ≤ v → lo ≤ e → lo * (d + 2) ≤ v * 2 + e * d
weighted-ge d v e lo hv he = omega (arith, mul_mono lo e d he)

smooth_nat :
    (d v e hi : ℕ)
    → v ≤ hi
    → e ≤ hi
    → hi * (d + 2) < 2 ^ 63
    → d + 2 < 2 ^ 63
    → smooth (pos (d + 2)) (pos v) (pos e) ≡ pos ((v * 2 + e * d) / (d + 2))
unfolding smooth quot
smooth_nat d v e hi hv he fits hd =
    let w = weighted-le d v e hi hv he in
    let back : d + 2 - 2 ≡ d = omega arith in
    rw
      (
        sub64_pos (d + 2) 2 (omega arith) hd,
        back,
        mul64_pos v 2 (omega arith),
        mul64_pos e d (omega arith),
        add64_pos (v * 2) (e * d) (omega arith),
      )
      (wrap64_self (pos ((v * 2 + e * d) / (d + 2)))
        (omega (arith, above (v * 2 + e * d) (d + 2) (v * 2 + e * d) (omega arith) (omega arith))))

pub smooth-Within :
    (d lo hi : ℕ) (v e : ℤ)
    → Within lo hi v
    → Within lo hi e
    → hi * (d + 2) < 2 ^ 63
    → d + 2 < 2 ^ 63
    → Within lo hi (smooth (pos (d + 2)) v e)
smooth-Within d lo hi v e (p, ep, lp, hp) (r, er, lr, hr) fits hd =
    rw (ep, er)
      (
        (p * 2 + r * d) / (d + 2),
        smooth_nat d p r hi hp hr fits hd,
        below (p * 2 + r * d) (d + 2) lo (omega arith) (weighted-ge d p r lo lp lr),
        above (p * 2 + r * d) (d + 2) hi (omega arith) (weighted-le d p r hi hp hr),
      )

ema_loop-Within :
    (d lo hi : ℕ) (ks : List Kline) (e : ℤ)
    → hi * (d + 2) < 2 ^ 63
    → d + 2 < 2 ^ 63
    → Within lo hi e
    → All (λ (k : Kline). Within lo hi k.close) ks
    → Within lo hi (ema_loop (pos (d + 2)) e ks)
unfolding ema_loop
ema_loop-Within d lo hi [] e fits hd he h = he
ema_loop-Within d lo hi (k ∷ ks) e fits hd he h =
    ema_loop-Within d lo hi ks (smooth (pos (d + 2)) k.close e) fits hd
      (smooth-Within d lo hi k.close e h.0 he fits hd) h.1

-- The exponential average of some candles lies between the bounds of their closing prices, for a
-- period of at least 1 at which no product overflows.
pub ema-Within :
    (lo hi n : ℕ) (k : Kline) (ks : List Kline)
    → 1 ≤ n
    → hi * (n + 1) < 2 ^ 63
    → n + 1 < 2 ^ 63
    → All (λ (c : Kline). Within lo hi c.close) (k ∷ ks)
    → Within lo hi (ema (k ∷ ks) (pos n))
unfolding ema
ema-Within lo hi zero k ks hn fits small h = absurd (omega arith)
ema-Within lo hi (suc d) k ks hn fits small h =
    let e : suc d + 1 ≡ d + 2 = omega arith in
    rw (add64_pos (suc d) 1 small, e)
      (ema_loop-Within d lo hi ks k.close (rw e at fits) (omega arith) h.0 h.1)
