-- ===== src/Trade/Minute.antt =====
-- `Trades.klinesForDay`: the candles of the minutes of one trading day.
use tdx.Base.{
  ℕ, zero, suc, ◌+◌, ◌*◌, Bool, if◌then◌else◌, ltb, leb, ◌&&◌, ◌==◌, List, [], ◌∷◌, ◌++◌,
}
use tdx.Base.Int.{ℤ, pos, ◌+ℤ◌, ltb_ℤ}
use tdx.Kline.Defs.{Kline}
use tdx.Trade.Defs.{Trade, trades_kline}

-- The minutes `from`, `from + 1` and on, `n` of them.
unfoldable pub minutes_from : ℕ → ℕ → List ℕ
minutes_from from zero = []
minutes_from from (suc n) = from ∷ minutes_from (from + 1) n

-- The closing minutes of the candles: 9:30 to 11:30, and 13:01 to 15:00.
unfoldable pub day_keys : List ℕ
unfolding minutes_from
day_keys = minutes_from 570 121 ++ minutes_from 781 120

-- The first price of the day.
unfoldable pub day_open : List Trade → ℤ
day_open [] = pos 0
day_open (v ∷ vs) = let rest = day_open vs in if ltb_ℤ (pos 0) v.price then v.price else rest

-- The map from a minute to its trades.
abbrev pub Buckets : Type 0
Buckets = ℕ → List Trade

-- `select` is `conv.Select` at ints, and `pick` at prices.
module _ (select : Bool → ℕ → ℕ → ℕ) where
  -- The candle that a trade in minute `ms` goes to.
  unfoldable pub bucket_key : ℕ → ℕ
  bucket_key ms =
      let a = select (ltb ms 569) 569 ms + 1 in
      let b = select (ltb 690 a && leb a 780) 690 a in select (ltb 900 b) 900 b

  unfoldable pub put_trade : Buckets → Trade → Buckets
  put_trade m v key = if key == bucket_key v.minute then m key ++ v ∷ [] else m key

  unfoldable pub fill_buckets : Buckets → List Trade → Buckets
  fill_buckets m [] = m
  fill_buckets m (v ∷ vs) = fill_buckets (put_trade m v) vs

module _ (pick : Bool → ℤ → ℤ → ℤ) where
  -- Each candle begins at the price at which the one before it closed.
  unfoldable pub day_loop : ℤ → Buckets → ℤ → List ℕ → List Kline
  day_loop date m last [] = []
  day_loop date m last (key ∷ keys) =
      let k = trades_kline pick (m key) (date +ℤ pos (key * 60)) last in
      k ∷ day_loop date m k.close keys

-- `date` is the midnight of the day in Unix seconds; a day has no change of the clock.
unfoldable pub klines_for_day :
    (Bool → ℕ → ℕ → ℕ) → (Bool → ℤ → ℤ → ℤ) → ℤ → List Trade → List Kline
unfolding day_keys
klines_for_day select pick date vs =
    day_loop pick date (fill_buckets select (λ key. []) vs) (day_open vs) day_keys
