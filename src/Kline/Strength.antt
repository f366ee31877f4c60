-- ===== src/Kline/Strength.antt =====
-- `RSI`: the two sums of its loop are those of the last `n` changes of the closing price.
use tdx.Base.{
  ℕ, ◌+◌, ◌-◌, ◌*◌, ◌/◌, ◌^◌, ◌≤◌, ◌<◌, ◌≡◌, refl, ap, ◌∙◌, arith, ◌&&◌, inl, inr, List, leb,
  Bool-cases,
}
use tdx.Base.Int.{
  ℤ, pos, pos_part, neg_part, ◌+ℤ◌, ◌-ℤ◌, ltb_ℤ, add64, sub64, mul64, div64, wrap64_self, quot,
  +ℤ_parts, -ℤ_parts, parts_apart, eq_of_parts,
}
use tdx.Kline.Defs.{Kline}
use tdx.Kline.Root.{add64_pos, mul64_pos}
use tdx.Kline.Smooth.{Within, above}
use tdx.Kline.Oscillator.{
  kline_at, close_diff, Rsi, rsi_enter, rsi_leave, rsi_move, rsi_result, rsi_round,
}
use tdx.Kline.Window.{window, window-le, window-enter, window-move}

-- A count and a signed change.
pub add64_change :
    (g : ℕ) (d : ℤ)
    → neg_part d ≤ g
    → g + pos_part d < 2 ^ 63
    → add64 (pos g) d ≡ pos (g + pos_part d - neg_part d)
add64_change g d h k =
    let parts = +ℤ_parts (pos g) d in
    let apart = parts_apart (pos g +ℤ d) in
    let split = parts_apart d in
    let e : pos g +ℤ d ≡ pos (g + pos_part d - neg_part d) =
      eq_of_parts (pos g +ℤ d) (pos (g + pos_part d - neg_part d)) (omega arith) in
    rw (wrap64_self (pos g +ℤ d) (omega arith)) e

pub sub64_change :
    (l : ℕ) (d : ℤ)
    → pos_part d ≤ l
    → l + neg_part d < 2 ^ 63
    → sub64 (pos l) d ≡ pos (l + neg_part d - pos_part d)
sub64_change l d h k =
    let parts = -ℤ_parts (pos l) d in
    let apart = parts_apart (pos l -ℤ d) in
    let split = parts_apart d in
    let e : pos l -ℤ d ≡ pos (l + neg_part d - pos_part d) =
      eq_of_parts (pos l -ℤ d) (pos (l + neg_part d - pos_part d)) (omega arith) in
    rw (wrap64_self (pos l -ℤ d) (omega arith)) e

-- The two sums of a state, and its result.
pub record Sums (g l : ℕ) (r : ℤ) (s : Rsi) : Type 0 where
  pub gain_is : s.gain ≡ pos g
  pub loss_is : s.loss ≡ pos l
  pub kept : s.rsi ≡ r

rsi_enter-Sums :
    (d : ℤ) (g l : ℕ) (r : ℤ) (s : Rsi)
    → g + pos_part d < 2 ^ 63
    → l + neg_part d < 2 ^ 63
    → Sums g l r s
    → Sums (g + pos_part d) (l + neg_part d) r (rsi_enter d s)
rsi_enter-Sums d g l r s hg hl k =
    let apart = parts_apart d in
    elim (Bool-cases (ltb_ℤ (pos 0) d)) [
      | inl up ↦
          rw (up, k.gain_is, k.loss_is, add64_change g d (ground arith) hg)
            (record {
              gain_is = ap pos (ground arith);
              loss_is = ap pos (ground arith);
              kept = k.kept;
            })
      | inr down ↦
          rw (down, k.gain_is, k.loss_is, sub64_change l d (ground arith) hl)
            (record {
              gain_is = ap pos (ground arith);
              loss_is = ap pos (ground arith);
              kept = k.kept;
            })
    ]

rsi_leave-Sums :
    (d : ℤ) (g l : ℕ) (r : ℤ) (s : Rsi)
    → pos_part d ≤ g
    → neg_part d ≤ l
    → g < 2 ^ 62
    → l < 2 ^ 62
    → Sums g l r s
    → Sums (g - pos_part d) (l - neg_part d) r (rsi_leave d s)
rsi_leave-Sums d g l r s hg hl gs ls k =
    let apart = parts_apart d in
    elim (Bool-cases (ltb_ℤ (pos 0) d)) [
      | inl up ↦
          rw (up, k.gain_is, k.loss_is, sub64_change g d hg (ground arith))
            (record {
              gain_is = ap pos (ground arith);
              loss_is = ap pos (ground arith);
              kept = k.kept;
            })
      | inr down ↦
          rw (down, k.gain_is, k.loss_is, add64_change l d hl (ground arith))
            (record {
              gain_is = ap pos (ground arith);
              loss_is = ap pos (ground arith);
              kept = k.kept;
            })
    ]

resum_lem : {g h l m : ℕ} {r : ℤ} {s : Rsi} → g ≡ h → l ≡ m → Sums g l r s → Sums h m r s
resum_lem e f k = record {
  gain_is = k.gain_is ∙ ap pos e;
  loss_is = k.loss_is ∙ ap pos f;
  kept = k.kept;
}

pub mul_le : (a b c : ℕ) → a ≤ b → a * c ≤ b * c
mul_le a b c h = grind arith

percent_nat :
    (g l : ℕ)
    → g < 2 ^ 55
    → l < 2 ^ 55
    → 0 < l
    → div64 (mul64 (pos 100) (pos g)) (add64 (pos g) (pos l)) ≡ pos (100 * g / (g + l))
unfolding quot
percent_nat g l hg hl some =
    rw (mul64_pos 100 g (omega arith), add64_pos g l (omega arith))
      (wrap64_self (pos (100 * g / (g + l)))
        (omega (arith, above (100 * g) (g + l) 100 (omega arith) (omega arith))))

rsi_result_lem :
    (n i g l : ℕ) (r : ℤ) (s : Rsi)
    → g < 2 ^ 55
    → l < 2 ^ 55
    → Within 0 100 r
    → Sums g l r s
    → Within 0 100 (rsi_result n i s).rsi
      × (n ≤ i → 0 < l → (rsi_result n i s).rsi ≡ pos (100 * g / (g + l)))
rsi_result_lem n i g l r s hg hl small k =
    rw (k.gain_is, k.loss_is, k.kept)
      (elim (Bool-cases (leb n i && ltb_ℤ (pos 0) (pos l))) [
        | inl counts ↦
            let some : 0 < l = ground arith in
            rw (counts, percent_nat g l hg hl some)
              (
                (
                  100 * g / (g + l),
                  refl,
                  omega arith,
                  above (100 * g) (g + l) 100 (omega arith) (omega arith),
                ),
                λ h k'. refl,
              )
        | inr waits ↦ rw waits (small, λ h k'. absurd (ground arith))
      ])

-- Candles whose closing prices are at most `hi` thousandths.
module _ (ks : List Kline) (hi : ℕ) where
  abbrev pub price : ℕ → ℕ
  price i = pos_part (kline_at ks i).close

  -- The rise and the fall of the closing price at `i`.
  abbrev pub rise : ℕ → ℕ
  rise i = price i - price (i - 1)

  abbrev pub fall : ℕ → ℕ
  fall i = price (i - 1) - price i

  abbrev pub IsPriced : ℕ → Type 0
  IsPriced i = Within 0 hi (kline_at ks i).close

  close_diff_parts :
      (i : ℕ)
      → hi < 2 ^ 62
      → IsPriced i
      → IsPriced (i - 1)
      → (pos_part (close_diff ks i) ≡ rise i) × (neg_part (close_diff ks i) ≡ fall i)
  close_diff_parts i h (p, ep, _, hp) (q, eq', _, hq) =
      let parts = -ℤ_parts (pos p) (pos q) in
      let apart = parts_apart (pos p -ℤ pos q) in
      rw (ep, eq', wrap64_self (pos p -ℤ pos q) (omega arith)) (omega arith)

  -- The state behind the round `i`, and its result from the round `n` on.
  pub record IsStrength (n i : ℕ) (s : Rsi) : Type 0 where
    pub sums : Sums (window rise n i) (window fall n i) s.rsi s
    pub percent : Within 0 100 s.rsi
    pub rsi_is :
        n ≤ i
        → 0 < window fall n i
        → s.rsi ≡ pos (100 * window rise n i / (window rise n i + window fall n i))

  module _ (priced : (i : ℕ) → IsPriced i) where
    rise-le : (i : ℕ) → rise i ≤ hi
    rise-le i = let (p, e, lo, h) = priced i in rw e (omega arith)

    pub fall-le : (i : ℕ) → fall i ≤ hi
    fall-le i = let (p, e, lo, h) = priced (i - 1) in rw e (omega arith)

    rsi_move-Sums :
        (n i : ℕ) (s : Rsi)
        → 1 ≤ i
        → i * hi < 2 ^ 55
        → hi < 2 ^ 55
        → Sums (window rise n (i - 1)) (window fall n (i - 1)) s.rsi s
        → Sums (window rise n i) (window fall n i) s.rsi (rsi_move ks n i s)
    rsi_move-Sums n i s lo fits small k =
        let d = close_diff_parts i (omega arith) (priced i) (priced (i - 1)) in
        let g_fits = window-le rise hi rise-le n (i - 1) in
        let l_fits = window-le fall hi fall-le n (i - 1) in
        let less = mul_le (i - 1) i hi (omega arith) in
        let r = rise-le i in
        let f = fall-le i in
        let entered =
          rsi_enter-Sums (close_diff ks i) (window rise n (i - 1)) (window fall n (i - 1)) s.rsi s
            (omega arith) (omega arith) k in
        elim (Bool-cases (leb (n + 1) i)) [
          | inl full ↦
              let e =
                close_diff_parts (i - n) (omega arith) (priced (i - n)) (priced (i - n - 1)) in
              let g = window-move rise n i (ground arith) in
              let l = window-move fall n i (ground arith) in
              let left =
                rsi_leave-Sums (close_diff ks (i - n))
                  (window rise n (i - 1) + pos_part (close_diff ks i))
                  (window fall n (i - 1) + neg_part (close_diff ks i)) s.rsi
                  (rsi_enter (close_diff ks i) s) (omega arith) (omega arith) (omega arith)
                  (omega arith) entered in
              rw full (resum_lem (omega arith) (omega arith) left)
          | inr filling ↦
              let g = window-enter rise n i lo (ground arith) in
              let l = window-enter fall n i lo (ground arith) in
              rw filling (resum_lem (omega arith) (omega arith) entered)
        ]

    pub rsi_round-IsStrength :
        (n i : ℕ) (s : Rsi)
        → 1 ≤ i
        → i * hi < 2 ^ 55
        → hi < 2 ^ 55
        → IsStrength n (i - 1) s
        → IsStrength n i (rsi_round ks n i s)
    unfolding rsi_round
    rsi_round-IsStrength n i s lo fits small k =
        let sums = rsi_move-Sums n i s lo fits small k.sums in
        let g_fits = window-le rise hi rise-le n i in
        let l_fits = window-le fall hi fall-le n i in
        let g = window rise n i in
        let l = window fall n i in
        let (small_rsi, formula) =
          rsi_result_lem n i g l s.rsi (rsi_move ks n i s) (omega arith) (omega arith) k.percent
            sums in
        record {
          sums = record { gain_is = sums.gain_is; loss_is = sums.loss_is; kept = refl };
          percent = small_rsi;
          rsi_is = formula;
        }
