-- ===== src/Kline/Atr.antt =====
-- `ATR`: the sum of its loop holds the last `n - 1` true ranges, and is divided by `n`.
use tdx.Base.{
  ℕ, zero, suc, ◌+◌, ◌-◌, ◌*◌, ◌/◌, ◌^◌, ◌≤◌, ◌<◌, ◌≡◌, refl, ap, sym, ◌∙◌, arith, true, false, inl,
  inr, List, [], ◌∷◌, All, length, leb, leb→le, Bool-cases,
}
use tdx.Base.Int.{
  ℤ, pos, negsuc, pos_part, ◌-ℤ◌, ltb_ℤ, sub64, wrap64_self, -ℤ_parts, parts_apart, eq_of_parts,
}
use tdx.Kline.Defs.{Kline, abs_price}
use tdx.Kline.Root.{add64_pos, sub64_pos}
use tdx.Kline.Smooth.{Within}
use tdx.Kline.Macd.{Near, sub64-Within}
use tdx.Kline.Strength.{mul_le}
use tdx.Kline.Average.{div64_pos}
use tdx.Kline.Oscillator.{kline_at, max_ℤ, true_range, Atr, atr_round, atr_loop, atr}
use tdx.Kline.Window.{window, window-le, window-enter, window-move}

-- A candle whose prices are numbers up to `hi`.
abbrev pub IsBounded : ℕ → Kline → Type 0
IsBounded hi k = Within 0 hi k.high × Within 0 hi k.low × Within 0 hi k.close

kline_at-IsBounded :
    (ks : List Kline) (hi : ℕ) → All (IsBounded hi) ks → (i : ℕ) → IsBounded hi (kline_at ks i)
kline_at-IsBounded [] hi h i = (
  (0, refl, omega arith, omega arith),
  (0, refl, omega arith, omega arith),
  (0, refl, omega arith, omega arith),
)
kline_at-IsBounded (k ∷ ks) hi h zero = h.0
kline_at-IsBounded (k ∷ ks) hi h (suc i) = kline_at-IsBounded ks hi h.1 i

abs_price-Within : (d : ℕ) (z : ℤ) → Near d z → d < 2 ^ 60 → Within 0 d (abs_price z)
unfolding abs_price
abs_price-Within d (pos n) h small =
    let e : ltb_ℤ (pos n) (pos 0) ≡ false = ground arith in rw e (n, refl, omega arith, omega arith)
abs_price-Within d (negsuc n) h small =
    let below : ltb_ℤ (negsuc n) (pos 0) ≡ true = ground arith in
    let parts = -ℤ_parts (pos 0) (negsuc n) in
    let apart = parts_apart (pos 0 -ℤ negsuc n) in
    let e : pos 0 -ℤ negsuc n ≡ pos (suc n) =
      eq_of_parts (pos 0 -ℤ negsuc n) (pos (suc n)) (omega arith) in
    rw (below, wrap64_self (pos 0 -ℤ negsuc n) (omega arith), e)
      (suc n, refl, omega arith, omega arith)

max_ℤ-Within : (d : ℕ) (a b : ℤ) → Near d a → Within 0 d b → Within 0 d (max_ℤ a b)
max_ℤ-Within d (negsuc m) b h (n, e, lo, hi) =
    let below : ltb_ℤ (negsuc m) (pos n) ≡ true = ground arith in rw (e, below) (n, refl, lo, hi)
max_ℤ-Within d (pos m) b h (n, e, lo, hi) = rw e (elim (Bool-cases (ltb_ℤ (pos m) (pos n))) [
  | inl less ↦ rw less (n, refl, lo, hi)
  | inr more ↦ rw more (m, refl, omega arith, omega arith)
])

difference : (hi : ℕ) (a b : ℤ) → Within 0 hi a → Within 0 hi b → hi < 2 ^ 60 → Near hi (sub64 a b)
difference hi a b ha hb small = omega (arith, sub64-Within 0 hi a b ha hb small)

Within-Near : (d : ℕ) (z : ℤ) → Within 0 d z → Near d z
Within-Near d z (n, e, lo, hi) = rw e (omega arith)

-- The true range as a number.
abbrev pub range_of : List Kline → ℕ → ℕ
range_of ks i = pos_part (true_range ks i)

module _ (ks : List Kline) (hi : ℕ) (bounded : (i : ℕ) → IsBounded hi (kline_at ks i)) where
  true_range-Within : (i : ℕ) → hi < 2 ^ 60 → Within 0 hi (true_range ks i)
  unfolding true_range
  true_range-Within i small =
      let (high, low, close) = bounded i in
      let (high', low', close') = bounded (i - 1) in
      let k = kline_at ks i in
      let last = (kline_at ks (i - 1)).close in
      let up =
        abs_price-Within hi (sub64 k.high last) (difference hi k.high last high close' small)
          small in
      let down =
        abs_price-Within hi (sub64 k.low last) (difference hi k.low last low close' small) small in
      max_ℤ-Within hi (sub64 k.high k.low)
        (max_ℤ (abs_price (sub64 k.high last)) (abs_price (sub64 k.low last)))
        (difference hi k.high k.low high low small)
        (max_ℤ-Within hi (abs_price (sub64 k.high last)) (abs_price (sub64 k.low last))
          (Within-Near hi (abs_price (sub64 k.high last)) up) down)

  abbrev range : ℕ → ℕ
  range = range_of ks

  true_range-is : (i : ℕ) → hi < 2 ^ 60 → (true_range ks i ≡ pos (range i)) × (range i ≤ hi)
  true_range-is i small =
      let (n, e, lo, h) = true_range-Within i small in
      (e ∙ ap (λ (z : ℤ). pos (pos_part z)) (sym e), rw e h)

  -- The state behind the round `i`.
  record IsAverage (n i : ℕ) (s : Atr) : Type 0 where
    sum_is : s.sum ≡ pos (window range (n - 1) i)
    atr_is : n ≤ i → s.atr ≡ pos (window range (n - 1) i / n)

  atr_round-IsAverage :
      (n i : ℕ) (s : Atr)
      → 1 ≤ n
      → 1 ≤ i
      → i * hi < 2 ^ 55
      → hi < 2 ^ 55
      → IsAverage n (i - 1) s
      → IsAverage n i (atr_round ks n i s)
  unfolding atr_round
  atr_round-IsAverage n i s hn lo fits small k =
      let (now, now_le) = true_range-is i (omega arith) in
      let (old, old_le) = true_range-is (i - n + 1) (omega arith) in
      let before = window-le range hi (λ j. (true_range-is j (omega arith)).1) (n - 1) (i - 1) in
      let less = mul_le (i - 1) i hi (omega arith) in
      let entered = add64_pos (window range (n - 1) (i - 1)) (range i) (omega arith) in
      elim (Bool-cases (leb n i)) [
        | inl full ↦
            let there : i - (n - 1) ≡ i - n + 1 = omega (arith, leb→le n i full) in
            let g = window-move range (n - 1) i (omega (arith, leb→le n i full)) in
            let same = ap range there in
            let w : window range (n - 1) (i - 1) + range i - range (i - n + 1)
                ≡ window range (n - 1) i =
              omega arith in
            rw
              (
                full,
                k.sum_is,
                now,
                entered,
                old,
                sub64_pos (window range (n - 1) (i - 1) + range i) (range (i - n + 1)) (omega arith)
                    (omega arith),
                w,
              )
              (record {
                sum_is = refl;
                atr_is = λ h. div64_pos (window range (n - 1) i) n (omega arith) hn;
              })
        | inr filling ↦
            let g = window-enter range (n - 1) i lo (ground arith) in
            rw (filling, k.sum_is, now, entered)
              (record { sum_is = ap pos (omega arith); atr_is = λ h. absurd (ground arith) })
      ]

  atr_loop-IsAverage :
      (n rounds i : ℕ) (s : Atr)
      → 1 ≤ n
      → (i + rounds) * hi < 2 ^ 55
      → hi < 2 ^ 55
      → IsAverage n i s
      → IsAverage n (i + rounds) (atr_loop ks n rounds (i + 1) s)
  unfolding atr_loop
  atr_loop-IsAverage n zero i s hn fits small k = let e : i + 0 ≡ i = omega arith in rw e k
  atr_loop-IsAverage n (suc rounds) i s hn fits small k =
      let e : i + suc rounds ≡ i + 1 + rounds = omega arith in
      let back : i + 1 - 1 ≡ i = omega arith in
      let le = mul_le (i + 1) (i + suc rounds) hi (omega arith) in
      let step = atr_round-IsAverage n (i + 1) s hn (omega arith) (omega arith) small (rw back k) in
      rw e (
        atr_loop-IsAverage n rounds (i + 1) (atr_round ks n (i + 1) s) hn (rw e at fits) small step)

-- For prices from 0 on whose sum cannot overflow, and more candles than the period, the result is
-- the sum of the last `n - 1` true ranges, one fewer than the period, divided by the period.
pub atr-window :
    (ks : List Kline) (hi n : ℕ)
    → 1 ≤ n
    → n < length ks
    → length ks * hi < 2 ^ 55
    → All (IsBounded hi) ks
    → atr ks (pos n) ≡ pos (window (range_of ks) (n - 1) (length ks - 1) / n)
unfolding atr
atr-window ks hi zero hn long fits h = absurd (omega arith)
atr-window ks hi (suc n) hn long fits h =
    let m = length ks - 1 in
    let bounded = kline_at-IsBounded ks hi h in
    let zero_m : 0 + m ≡ m = omega arith in
    let one = mul_le 1 (length ks) hi (omega arith) in
    let less = mul_le m (length ks) hi (omega arith) in
    let start : IsAverage ks hi bounded (suc n) 0 (record { sum = pos 0; atr = pos 0 }) = record {
      sum_is = ap pos (omega arith);
      atr_is = λ a. absurd (omega arith);
    } in
    let end =
      atr_loop-IsAverage ks hi bounded (suc n) m 0 (record { sum = pos 0; atr = pos 0 }) hn
        (rw zero_m (omega arith)) (omega arith) start in
    let end' = rw zero_m at end in end'.atr_is (omega arith)
