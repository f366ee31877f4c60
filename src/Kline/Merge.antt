-- ===== src/Kline/Merge.antt =====
-- protocol/model_kline.go: `Klines.Kline` and `Klines.Merge`. `select` is `conv.Select` of
-- github.com/injoyai/conv at prices.
use tdx.Base.{ℕ, zero, suc, Bool, if◌then◌else◌, ltb, leb, List, [], ◌∷◌, ◌++◌, length, take, drop}
use tdx.Base.Int.{ℤ, pos, negsuc, add64, eqb_ℤ, ltb_ℤ}
use tdx.Kline.Defs.{Kline}

-- The candle of one price before any candle is merged into it.
abbrev pub flat_kline : ℤ → ℤ → Kline
flat_kline t price = record {
  last = pos 0;
  open_price = price;
  high = price;
  low = price;
  close = price;
  order = pos 0;
  volume = pos 0;
  amount = pos 0;
  time = t;
  up_count = pos 0;
  down_count = pos 0;
}

-- The end of each round.
abbrev pub accumulate : Kline → Kline → Kline
accumulate k v = record k {
  close = v.close;
  volume = add64 k.volume v.volume;
  amount = add64 k.amount v.amount;
}

abbrev pub first_round : Kline → Kline → Kline
first_round k v =
    accumulate (record k { open_price = v.open_price; high = v.high; low = v.low; close = v.close })
      v

abbrev pub last_time : List Kline → ℤ
last_time [] = pos 0
last_time (k ∷ []) = k.time
last_time (k ∷ l ∷ ks) = last_time (l ∷ ks)

module _ (select : Bool → ℤ → ℤ → ℤ) where
  abbrev pub later_round : Kline → Kline → Kline
  later_round k v =
      accumulate
        (record k {
          open_price = if eqb_ℤ k.open_price (pos 0) then v.open_price else k.open_price;
          high = select (ltb_ℤ k.high v.high) v.high k.high;
          low = select (ltb_ℤ v.low k.low) v.low k.low;
        })
        v

  unfoldable pub later_rounds : Kline → List Kline → Kline
  later_rounds k [] = k
  later_rounds k (v ∷ vs) = later_rounds (later_round k v) vs

  -- `Klines.Kline`.
  unfoldable pub merge_kline : List Kline → ℤ → ℤ → Kline
  merge_kline [] t last = flat_kline t last
  merge_kline (v ∷ vs) t last = later_rounds (first_round (flat_kline t last) v) vs

  -- One chunk: `ls.Kline(last.Time, ls[0].Open)`.
  abbrev pub merge_chunk : List Kline → List Kline
  merge_chunk [] = []
  merge_chunk (k ∷ ks) = merge_kline (k ∷ ks) (last_time (k ∷ ks)) k.open_price ∷ []

  -- Each round takes a candle at least, so `length ks` rounds are enough.
  -- The round `i` of the loop sees `ks[i*n:]`, and ends the loop when that is empty.
  unfoldable pub merge_loop : ℕ → ℕ → List Kline → List Kline
  merge_loop fuel n [] = []
  merge_loop zero n (k ∷ ks) = []
  merge_loop (suc fuel) n (k ∷ ks) =
      merge_chunk (if ltb (length (k ∷ ks)) n then k ∷ ks else take n (k ∷ ks))
      ++ merge_loop fuel n (drop n (k ∷ ks))

  unfoldable pub merge : List Kline → ℤ → List Kline
  unfolding merge_loop
  merge ks (negsuc n) = ks
  merge ks (pos n) = if leb n 1 then ks else merge_loop (length ks) n ks
