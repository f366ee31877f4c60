-- ===== src/Kline/Macd.antt =====
-- `MACD`: the difference of the two averages and its own average stay within the price range.
use tdx.Base.{ℕ, ◌+◌, ◌-◌, ◌*◌, ◌/◌, ◌^◌, ◌≤◌, ◌<◌, ◌≡◌, arith, List, [], ◌∷◌, All}
use tdx.Base.Int.{
  ℤ, pos, negsuc, pos_part, neg_part, ◌+ℤ◌, ◌*ℤ◌, ◌-ℤ◌, quot, wrap64_self, add64, sub64, mul64,
  div64, +ℤ_parts, -ℤ_parts, parts_apart,
}
use tdx.Kline.Defs.{Kline}
use tdx.Kline.Indicator.{smooth, Macd, macd_step, macd_loop, macd, macd_start}
use tdx.Kline.Smooth.{Within, smooth-Within}
use tdx.Kline.Root.{sub64_pos}

-- At most `d` from zero.
abbrev pub Near : ℕ → ℤ → Type 0
Near d z = (pos_part z ≤ d) × (neg_part z ≤ d)

pub times_parts :
    (z : ℤ) (c : ℕ)
    → (pos_part (z *ℤ pos c) ≡ pos_part z * c) × (neg_part (z *ℤ pos c) ≡ neg_part z * c)
unfolding ◌*ℤ◌
times_parts (pos n) c = ground arith
times_parts (negsuc n) c = ground arith

quot_parts :
    (z : ℤ) (c : ℕ)
    → (pos_part (quot z (pos c)) ≡ pos_part z / c) × (neg_part (quot z (pos c)) ≡ neg_part z / c)
unfolding quot
quot_parts (pos n) c = ground arith
quot_parts (negsuc n) c = ground arith

pub sub64-Within :
    (lo hi : ℕ) (a b : ℤ)
    → Within lo hi a
    → Within lo hi b
    → hi < 2 ^ 60
    → Near (hi - lo) (sub64 a b)
sub64-Within lo hi a b (p, ea, la, ha) (r, eb, lb, hb) h =
    rw
      (
        ea,
        eb,
        wrap64_self (pos p -ℤ pos r)
            (omega (arith, -ℤ_parts (pos p) (pos r), parts_apart (pos p -ℤ pos r))),
      )
      (omega (arith, -ℤ_parts (pos p) (pos r), parts_apart (pos p -ℤ pos r)))

sub64-Near : (d : ℕ) (a b : ℤ) → Near d a → Near d b → d < 2 ^ 60 → Near (2 * d) (sub64 a b)
sub64-Near d a b ha hb h =
    rw (wrap64_self (a -ℤ b) (omega (arith, -ℤ_parts a b, parts_apart (a -ℤ b))))
      (omega (arith, -ℤ_parts a b, parts_apart (a -ℤ b)))

mul64-two : (d : ℕ) (a : ℤ) → Near d a → d < 2 ^ 60 → Near (2 * d) (mul64 a (pos 2))
mul64-two d a h k =
    let t = times_parts a 2 in rw (wrap64_self (a *ℤ pos 2) (omega arith)) (omega arith)

mul64-eight : (d : ℕ) (a : ℤ) → Near d a → d < 2 ^ 58 → Near (8 * d) (mul64 a (pos 8))
mul64-eight d a h k =
    let t = times_parts a 8 in rw (wrap64_self (a *ℤ pos 8) (omega arith)) (omega arith)

add64-Near : (d e : ℕ) (a b : ℤ) → Near d a → Near e b → d + e < 2 ^ 62 → Near (d + e) (add64 a b)
add64-Near d e a b ha hb h =
    rw (wrap64_self (a +ℤ b) (omega (arith, +ℤ_parts a b, parts_apart (a +ℤ b))))
      (omega (arith, +ℤ_parts a b, parts_apart (a +ℤ b)))

div64-ten : (d : ℕ) (a : ℤ) → Near (10 * d) a → d < 2 ^ 58 → Near d (div64 a (pos 10))
div64-ten d a h k =
    let t = quot_parts a 10 in rw (wrap64_self (quot a (pos 10)) (omega arith)) (omega arith)

smooth-Near : (d : ℕ) (v e : ℤ) → Near d v → Near d e → d < 2 ^ 58 → Near d (smooth (pos 10) v e)
unfolding smooth
smooth-Near d v e hv he h =
    let a = mul64-two d v hv (omega arith) in
    let b = mul64-eight d e he h in
    let c = add64-Near (2 * d) (8 * d) (mul64 v (pos 2)) (mul64 e (pos 8)) a b (omega arith) in
    rw (sub64_pos 10 2 (omega arith) (omega arith))
      (div64-ten d (add64 (mul64 v (pos 2)) (mul64 e (pos 8))) (omega arith) h)

-- What holds of the state in every round.
pub record IsSteady (lo hi : ℕ) (m : Macd) : Type 0 where
  pub fast : Within lo hi m.ema12
  pub slow : Within lo hi m.ema26
  pub dif_near : Near (hi - lo) m.dif
  pub dea_near : Near (hi - lo) m.dea
  pub hist_near : Near (4 * (hi - lo)) m.hist

macd_step-IsSteady :
    (lo hi : ℕ) (m : Macd) (close : ℤ)
    → hi < 2 ^ 57
    → Within lo hi close
    → IsSteady lo hi m
    → IsSteady lo hi (macd_step m close)
unfolding macd_step
macd_step-IsSteady lo hi m close h c s =
    let fast = smooth-Within 11 lo hi close m.ema12 c s.fast (omega arith) (omega arith) in
    let slow = smooth-Within 25 lo hi close m.ema26 c s.slow (omega arith) (omega arith) in
    let a = smooth (pos 13) close m.ema12 in
    let b = smooth (pos 27) close m.ema26 in
    let dif = sub64-Within lo hi a b fast slow (omega arith) in
    let dea = smooth-Near (hi - lo) (sub64 a b) m.dea dif s.dea_near (omega arith) in
    let gap =
      sub64-Near (hi - lo) (sub64 a b) (smooth (pos 10) (sub64 a b) m.dea) dif dea (omega arith) in
    let hist =
      mul64-two (2 * (hi - lo)) (sub64 (sub64 a b) (smooth (pos 10) (sub64 a b) m.dea)) gap
        (omega arith) in
    record { fast = fast; slow = slow; dif_near = dif; dea_near = dea; hist_near = omega arith }

macd_loop-IsSteady :
    (lo hi : ℕ) (ks : List Kline) (m : Macd)
    → hi < 2 ^ 57
    → All (λ (k : Kline). Within lo hi k.close) ks
    → IsSteady lo hi m
    → IsSteady lo hi (macd_loop m ks)
unfolding macd_loop
macd_loop-IsSteady lo hi [] m h c s = s
macd_loop-IsSteady lo hi (k ∷ ks) m h c s =
    macd_loop-IsSteady lo hi ks (macd_step m k.close) h c.1
      (macd_step-IsSteady lo hi m k.close h c.0 s)

-- Where the closing prices lie between two bounds, the upper one below 2 ^ 57, the averages of
-- `MACD` do so too, its difference and its signal line are no further from zero than the bounds are
-- apart, and its histogram no further than four times that.
pub macd-IsSteady :
    (lo hi : ℕ) (k : Kline) (ks : List Kline)
    → hi < 2 ^ 57
    → All (λ (c : Kline). Within lo hi c.close) (k ∷ ks)
    → IsSteady lo hi (macd (k ∷ ks))
unfolding macd
macd-IsSteady lo hi k ks h c = macd_loop-IsSteady lo hi ks (macd_start k.close) h c.1 (record {
  fast = c.0;
  slow = c.0;
  dif_near = omega arith;
  dea_near = omega arith;
  hist_near = omega arith;
})
