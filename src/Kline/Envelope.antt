-- ===== src/Kline/Envelope.antt =====
-- `Klines.Kline`: the merged candle spans the candles that it was made of.
use tdx.Base.{arith, Bool, List, [], ◌∷◌, All}
use tdx.Base.Int.{ℤ, ◌≤ℤ◌, ltb_ℤ}
use tdx.Kline.Defs.{Kline}
use tdx.Kline.Merge.{later_round, later_rounds, first_round, flat_kline, merge_kline}
use tdx.Kline.Conserve.{IsSelect}

-- The candle `k` spans the candle `v`.
abbrev pub Spans : Kline → Kline → Type 0
Spans k v = (v.high ≤ℤ k.high) × (k.low ≤ℤ v.low)

module _ (select : Bool → ℤ → ℤ → ℤ) (law : IsSelect select) where
  later_round-Spans :
      (k v : Kline) → Spans (later_round select k v) v × Spans (later_round select k v) k
  later_round-Spans k v =
      ground (arith, law (ltb_ℤ k.high v.high) v.high k.high, law (ltb_ℤ v.low k.low) v.low k.low)

  later_rounds-Spans :
      (vs : List Kline) (k : Kline)
      → Spans (later_rounds select k vs) k × All (Spans (later_rounds select k vs)) vs
  unfolding later_rounds
  later_rounds-Spans [] k = (omega arith, tt)
  later_rounds-Spans (v ∷ vs) k =
      let (whole, rest) = later_rounds-Spans vs (later_round select k v) in
      let (new, old) = later_round-Spans k v in (omega arith, (omega arith, rest))

  -- Where Select chooses as documented, the merged candle reaches as high and as low as each candle that was merged.
  pub merge_kline-Spans :
      (ks : List Kline) (t last : ℤ) → All (Spans (merge_kline select ks t last)) ks
  unfolding merge_kline
  merge_kline-Spans [] t last = tt
  merge_kline-Spans (k ∷ ks) t last =
      let first = first_round (flat_kline t last) k in
      let (whole, rest) = later_rounds-Spans ks first in (omega arith, rest)
