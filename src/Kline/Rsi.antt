-- ===== src/Kline/Rsi.antt =====
-- `RSI` over a whole list of candles.
use tdx.Base.{
  ℕ, zero, suc, ◌+◌, ◌-◌, ◌*◌, ◌/◌, ◌^◌, ◌≤◌, ◌<◌, ◌≡◌, refl, ap, ◌∙◌, arith, false, ltb, List, [],
  ◌∷◌, All, length,
}
use native.Mathlib.Decide.{dec_lt}
use tdx.Base.Int.{ℤ, pos, add64, wrap64, wrap64_self, add_pos}
use tdx.Base.Outcome.{ok}
use tdx.Kline.Defs.{Kline}
use tdx.Kline.Smooth.{Within}
use tdx.Kline.Oscillator.{Rsi, rsi_loop, rsi_round, rsi}
use tdx.Kline.Strength.{IsPriced, IsStrength, rise, fall, fall-le, mul_le, rsi_round-IsStrength}
use tdx.Kline.Window.{window, window-le}

-- The closing price at an index is one of the list, or 0 behind its end.
pub kline_at-IsPriced :
    (ks : List Kline) (hi : ℕ)
    → All (λ (k : Kline). Within 0 hi k.close) ks
    → (i : ℕ) → IsPriced ks hi i
kline_at-IsPriced [] hi h i = (0, refl, omega arith, omega arith)
kline_at-IsPriced (k ∷ ks) hi h zero = h.0
kline_at-IsPriced (k ∷ ks) hi h (suc i) = kline_at-IsPriced ks hi h.1 i

module _ (ks : List Kline) (hi : ℕ) (priced : (i : ℕ) → IsPriced ks hi i) where
  rsi_loop-IsStrength :
      (n rounds i : ℕ) (s : Rsi)
      → (i + rounds) * hi < 2 ^ 55
      → hi < 2 ^ 55
      → IsStrength ks hi n i s
      → IsStrength ks hi n (i + rounds) (rsi_loop ks n rounds (i + 1) s)
  unfolding rsi_loop
  rsi_loop-IsStrength n zero i s fits small k = let e : i + 0 ≡ i = omega arith in rw e k
  rsi_loop-IsStrength n (suc rounds) i s fits small k =
      let e : i + suc rounds ≡ i + 1 + rounds = omega arith in
      let back : i + 1 - 1 ≡ i = omega arith in
      let le = mul_le (i + 1) (i + suc rounds) hi (omega arith) in
      let step =
        rsi_round-IsStrength ks hi priced n (i + 1) s (omega arith) (omega arith) small
          (rw back k) in
      rw e
        (rsi_loop-IsStrength n rounds (i + 1) (rsi_round ks n (i + 1) s) (rw e at fits) small step)

rsi-IsStrength :
    (ks : List Kline) (hi n : ℕ)
    → 1 ≤ length ks
    → length ks * hi < 2 ^ 55
    → All (λ (k : Kline). Within 0 hi k.close) ks
    → IsStrength ks hi n
        (length ks - 1)
        (rsi_loop ks n (length ks - 1) 1 (record { gain = pos 0; loss = pos 0; rsi = pos 0 }))
rsi-IsStrength ks hi n some fits h =
    let m = length ks - 1 in
    let zero_m : 0 + m ≡ m = omega arith in
    let one = mul_le 1 (length ks) hi some in
    let less = mul_le m (length ks) hi (omega arith) in
    let start : IsStrength ks hi n 0 (record { gain = pos 0; loss = pos 0; rsi = pos 0 }) = record {
      sums = record { gain_is = ap pos (omega arith); loss_is = ap pos (omega arith); kept = refl };
      percent = (0, refl, omega arith, omega arith);
      rsi_is = λ a b. absurd (omega arith);
    } in
    let end =
      rsi_loop-IsStrength ks hi (kline_at-IsPriced ks hi h) n m 0
        (record { gain = pos 0; loss = pos 0; rsi = pos 0 }) (rw zero_m (omega arith)) (omega arith)
        start in
    rw zero_m at end

rsi_ok :
    (ks : List Kline) (n : ℕ)
    → suc n + 1 < 2 ^ 63
    → rsi ks (pos (suc n))
      ≡ ok
          (rsi_loop ks
            (suc n)
            (length ks - 1)
            1
            (record { gain = pos 0; loss = pos 0; rsi = pos 0 })).rsi
unfolding rsi
rsi_ok ks n small =
    let next : add64 (pos (suc n)) (pos 1) ≡ pos (suc n + 1) =
      ap wrap64 (add_pos (suc n) 1) ∙ wrap64_self (pos (suc n + 1)) (small, omega arith) in
    let kept : ltb (suc n + 1 + 0) 0 ≡ false = ground arith in rw (next, kept) refl

-- For some candles with closing prices from 0 on whose sum cannot overflow, and a period from 1 to
-- 2 ^ 63 - 2, `RSI` returns a number from 0 to 100.
rsi-percent :
    (ks : List Kline) (hi n : ℕ)
    → 1 ≤ n
    → n + 1 < 2 ^ 63
    → 1 ≤ length ks
    → length ks * hi < 2 ^ 55
    → All (λ (k : Kline). Within 0 hi k.close) ks
    → (v : ℤ) × (rsi ks (pos n) ≡ ok v) × Within 0 100 v
rsi-percent ks hi zero period small some fits h = absurd (omega arith)
rsi-percent ks hi (suc n) period small some fits h =
    (_, rsi_ok ks n small, (rsi-IsStrength ks hi (suc n) some fits h).percent)

-- A window with a fall in it bounds the number of candles.
falls-short :
    (ks : List Kline) (hi n : ℕ)
    → 1 ≤ length ks
    → length ks * hi < 2 ^ 55
    → All (λ (k : Kline). Within 0 hi k.close) ks
    → 0 < window (fall ks hi) n (length ks - 1)
    → length ks < 2 ^ 55
falls-short ks hi n some fits h fell =
    let below =
      window-le (fall ks hi) hi (fall-le ks hi (kline_at-IsPriced ks hi h)) n (length ks - 1) in
    elim (dec_lt 0 hi) [
      | yes priced ↦ let one = mul_le 1 hi (length ks) priced in grind arith
      | no free ↦
          let nothing : hi ≡ 0 = omega arith in
          let none_fell = rw nothing at below in absurd (omega arith)
    ]

-- For closing prices from 0 on whose sum cannot overflow, a period of at least 1 and more candles
-- than that, RSI returns the rises among the last `n` changes of the closing price, in hundredths of
-- the rises and the falls together, where there is a fall among them.
pub rsi-quotient :
    (ks : List Kline) (hi n : ℕ)
    → 1 ≤ n
    → n < length ks
    → length ks * hi < 2 ^ 55
    → All (λ (k : Kline). Within 0 hi k.close) ks
    → 0 < window (fall ks hi) n (length ks - 1)
    → rsi ks (pos n)
      ≡ ok (
          pos (
            100
            * window (rise ks hi) n (length ks - 1)
            / (window (rise ks hi) n (length ks - 1) + window (fall ks hi) n (length ks - 1))))
rsi-quotient ks hi zero period long fits h some = absurd (omega arith)
rsi-quotient ks hi (suc n) period long fits h some =
    let short = falls-short ks hi (suc n) (omega arith) fits h some in
    rsi_ok ks n (omega arith)
    ∙ ap (λ v. ok v) ((rsi-IsStrength ks hi (suc n) (omega arith) fits h).rsi_is (omega arith) some)
