-- ===== src/Trade/Envelope.antt =====
-- `Trades.Kline`: the candle of some trades is sound and covers their prices.
use tdx.Base.{
  ℕ, subst, ◌+◌, ◌<◌, ◌≡◌, refl, arith, Bool, true, false, ◌==◌, inl, inr, List, [], ◌∷◌, All,
  Bool-cases,
}
use tdx.Base.Int.{ℤ, pos, ◌≤ℤ◌, ltb_ℤ}
use tdx.Kline.Defs.{Kline}
use tdx.Kline.Merge.{flat_kline}
use tdx.Trade.Defs.{Trade, trades_kline, trades_kline_loop, first_trade, later_trade}
use tdx.Trade.Bucket.{IsChoice}

-- The opening and the closing price lie between the lowest and the highest one.
pub record IsCandle (k : Kline) : Type 0 where
  pub open_low : k.low ≤ℤ k.open_price
  pub open_high : k.open_price ≤ℤ k.high
  pub close_low : k.low ≤ℤ k.close
  pub close_high : k.close ≤ℤ k.high

-- A trade that has a price is in the range of the candle.
abbrev pub Covers : Kline → Trade → Type 0
Covers k v = ltb_ℤ (pos 0) v.price ≡ true → (v.price ≤ℤ k.high) × (k.low ≤ℤ v.price)

first_trade-IsCandle : (k : Kline) (v : Trade) → IsCandle (first_trade k v)
first_trade-IsCandle k v = record {
  open_low = omega arith;
  open_high = omega arith;
  close_low = omega arith;
  close_high = omega arith;
}

module _ (select : Bool → ℤ → ℤ → ℤ) (law : IsChoice select) where
  abbrev Reaches : Kline → Kline → Type 0
  Reaches k l = (l.high ≤ℤ k.high) × (k.low ≤ℤ l.low)

  later_trade-Reaches :
      (k : Kline) (v : Trade)
      → Reaches (later_trade select k v) k
        × (v.price ≤ℤ (later_trade select k v).high)
        × ((later_trade select k v).low ≤ℤ v.price)
  later_trade-Reaches k v = simp law (ground arith)

  later_trade-IsCandle : (k : Kline) (v : Trade) → IsCandle k → IsCandle (later_trade select k v)
  later_trade-IsCandle k v i =
      let r = later_trade-Reaches k v in
      let a = i.open_low in
      let b = i.open_high in
      record {
        open_low = omega arith;
        open_high = omega arith;
        close_low = omega arith;
        close_high = omega arith;
      }

  -- The rounds of the loop.
  round-unpriced :
      (v : Trade) (vs : List Trade) (n : ℕ) (k : Kline)
      → ltb_ℤ (pos 0) v.price ≡ false
      → trades_kline_loop select n k vs ≡ trades_kline_loop select n k (v ∷ vs)
  unfolding trades_kline_loop
  round-unpriced v vs n k h = rw h refl

  round-first :
      (v : Trade) (vs : List Trade) (k : Kline)
      → ltb_ℤ (pos 0) v.price ≡ true
      → trades_kline_loop select (0 + 1) (first_trade k v) vs
        ≡ trades_kline_loop select 0 k (v ∷ vs)
  unfolding trades_kline_loop
  round-first v vs k h = rw h refl

  round-later :
      (v : Trade) (vs : List Trade) (n : ℕ) (k : Kline)
      → 0 < n
      → ltb_ℤ (pos 0) v.price ≡ true
      → trades_kline_loop select (n + 1) (later_trade select k v) vs
        ≡ trades_kline_loop select n k (v ∷ vs)
  unfolding trades_kline_loop
  round-later v vs n k pos_n h = let going : (n == 0) ≡ false = ground arith in rw (h, going) refl

  -- What is shown of the candle `r` of the trades `vs`.
  abbrev Sound : List Trade → Kline → Type 0
  Sound vs r = IsCandle r × All (Covers r) vs

  later_trades_lem :
      (vs : List Trade) (n : ℕ) (k : Kline)
      → 0 < n
      → IsCandle k
      → Sound vs (trades_kline_loop select n k vs) × Reaches (trades_kline_loop select n k vs) k
  later_trades_lem [] n k h i = unfold trades_kline_loop in ((i, tt), (omega arith, omega arith))
  later_trades_lem (v ∷ vs) n k h i = elim (Bool-cases (ltb_ℤ (pos 0) v.price)) [
    | inr unpriced ↦
        let ((good, rest), reaches) = later_trades_lem vs n k h i in
        subst (λ (r : Kline). Sound (v ∷ vs) r × Reaches r k) (round-unpriced v vs n k unpriced)
          ((good, (λ p. absurd (grind arith), rest)), reaches)
    | inl has_price ↦
        let ((good, rest), reaches) =
          later_trades_lem vs (n + 1) (later_trade select k v) (omega arith)
            (later_trade-IsCandle k v i) in
        let step = later_trade-Reaches k v in
        subst (λ (r : Kline). Sound (v ∷ vs) r × Reaches r k) (round-later v vs n k h has_price)
          ((good, (λ p. (omega arith, omega arith), rest)), (omega arith, omega arith))
  ]

  all_trades_lem :
      (vs : List Trade) (k : Kline) → IsCandle k → Sound vs (trades_kline_loop select 0 k vs)
  all_trades_lem [] k i = unfold trades_kline_loop in (i, tt)
  all_trades_lem (v ∷ vs) k i = elim (Bool-cases (ltb_ℤ (pos 0) v.price)) [
    | inr unpriced ↦
        let (good, rest) = all_trades_lem vs k i in
        subst (Sound (v ∷ vs)) (round-unpriced v vs 0 k unpriced)
          (good, (λ p. absurd (grind arith), rest))
    | inl has_price ↦
        let ((good, rest), reaches) =
          later_trades_lem vs (0 + 1) (first_trade k v) (omega arith) (first_trade-IsCandle k v) in
        subst (Sound (v ∷ vs)) (round-first v vs k has_price)
          (good, (λ p. (omega arith, omega arith), rest))
  ]

  -- Where Select chooses as documented, the candle of any trades opens and closes within its range,
  -- and the price of each trade that has one is in the range.
  pub trades_kline-IsCandle :
      (vs : List Trade) (t last : ℤ)
      → IsCandle (trades_kline select vs t last) × All (Covers (trades_kline select vs t last)) vs
  unfolding trades_kline trades_kline_loop
  trades_kline-IsCandle vs t last =
      all_trades_lem vs (record (flat_kline t last) { last = last })
        (record {
          open_low = omega arith;
          open_high = omega arith;
          close_low = omega arith;
          close_high = omega arith;
        })
