-- ===== src/Kline/Average.antt =====
-- `VWAP` is the whole amount divided by the whole volume.
use tdx.Base.{ℕ, ◌+◌, ◌/◌, ◌^◌, ◌<◌, ◌≡◌, refl, arith, List, [], ◌∷◌, All}
use tdx.Base.Int.{ℤ, pos, negsuc, pos_part, neg_part, quot, wrap64_self, div64}
use tdx.Kline.Defs.{Kline}
use tdx.Kline.Indicator.{Vwap, vwap_step, vwap_loop, vwap}
use tdx.Kline.Root.{add64_pos}
use tdx.Kline.Smooth.{above}

-- A field that is no negative number, summed.
abbrev pub sum_pos : (Kline → ℤ) → List Kline → ℕ
sum_pos f [] = 0
sum_pos f (k ∷ ks) = pos_part (f k) + sum_pos f ks

abbrev pub IsTraded : Kline → Type 0
IsTraded k = (neg_part k.volume ≡ 0) × (neg_part k.amount ≡ 0)

pos_of : (z : ℤ) → neg_part z ≡ 0 → z ≡ pos (pos_part z)
pos_of (pos n) h = refl
pos_of (negsuc n) h = absurd (omega arith)

pub div64_pos : (a b : ℕ) → a < 2 ^ 63 → 0 < b → div64 (pos a) (pos b) ≡ pos (a / b)
unfolding quot
div64_pos a b h k = wrap64_self (pos (a / b)) (omega (arith, above a b a k (grind arith)))

zero_+ : (n : ℕ) → 0 + n ≡ n
zero_+ n = omega arith

+_zero : (n : ℕ) → n + 0 ≡ n
+_zero n = omega arith

+_assoc : (a b c : ℕ) → a + (b + c) ≡ a + b + c
+_assoc a b c = omega arith

-- The state of the loop behind candles of volume `v` and amount `a`.
record Reached (v a : ℕ) (s : Vwap) : Type 0 where
  vol_is : s.vol_sum ≡ pos v
  amt_is : s.amt_sum ≡ pos a
  vwap_is : 0 < v → s.vwap ≡ pos (a / v)

vwap_step-Reached :
    (v a : ℕ) (s : Vwap) (k : Kline)
    → IsTraded k
    → v + pos_part k.volume < 2 ^ 63
    → a + pos_part k.amount < 2 ^ 63
    → Reached v a s
    → Reached (v + pos_part k.volume) (a + pos_part k.amount) (vwap_step s k)
unfolding vwap_step
vwap_step-Reached v a s k t hv ha r =
    rw
      (
        r.vol_is,
        r.amt_is,
        pos_of k.volume t.0,
        pos_of k.amount t.1,
        add64_pos v (pos_part k.volume) hv,
        add64_pos a (pos_part k.amount) ha,
      )
      (record {
        vol_is = refl;
        amt_is = refl;
        vwap_is = λ h.
            ground
              (arith, div64_pos (a + pos_part k.amount) (v + pos_part k.volume) (omega arith) h);
      })

vwap_loop-Reached :
    (ks : List Kline) (v a : ℕ) (s : Vwap)
    → All IsTraded ks
    → v + sum_pos (λ (k : Kline). k.volume) ks < 2 ^ 63
    → a + sum_pos (λ (k : Kline). k.amount) ks < 2 ^ 63
    → Reached v a s
    → Reached
        (v + sum_pos (λ (k : Kline). k.volume) ks)
        (a + sum_pos (λ (k : Kline). k.amount) ks)
        (vwap_loop s ks)
unfolding vwap_loop
vwap_loop-Reached [] v a s t hv ha r = rw (+_zero v, +_zero a) r
vwap_loop-Reached (k ∷ ks) v a s t hv ha r =
    let f : Kline → ℤ = λ (c : Kline). c.volume in
    let g : Kline → ℤ = λ (c : Kline). c.amount in
    rw (+_assoc v (pos_part k.volume) (sum_pos f ks), +_assoc a (pos_part k.amount) (sum_pos g ks))
      (vwap_loop-Reached ks (v + pos_part k.volume) (a + pos_part k.amount) (vwap_step s k) t.1
        (omega arith) (omega arith) (vwap_step-Reached v a s k t.0 (omega arith) (omega arith) r))

-- For volumes and amounts that are not negative, some volume, and sums that fit an int64, the price
-- is the sum of the amounts divided by the sum of the volumes.
pub vwap-quotient :
    (ks : List Kline)
    → All IsTraded ks
    → 0 < sum_pos (λ (k : Kline). k.volume) ks
    → sum_pos (λ (k : Kline). k.volume) ks < 2 ^ 63
    → sum_pos (λ (k : Kline). k.amount) ks < 2 ^ 63
    → vwap ks ≡ pos (sum_pos (λ (k : Kline). k.amount) ks / sum_pos (λ (k : Kline). k.volume) ks)
unfolding vwap
vwap-quotient ks t some hv ha =
    let start : Vwap = record { vol_sum = pos 0; amt_sum = pos 0; vwap = pos 0 } in
    let r : Reached 0 0 start = record {
      vol_is = refl;
      amt_is = refl;
      vwap_is = λ h. absurd (omega arith);
    } in
    let end =
      (vwap_loop-Reached ks 0 0 start t (omega arith) (omega arith) r).vwap_is (omega arith) in
    rw
      (zero_+ (sum_pos (λ (k : Kline). k.volume) ks), zero_+ (sum_pos (λ (k : Kline). k.amount) ks))
      at end
