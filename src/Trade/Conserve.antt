-- ===== src/Trade/Conserve.antt =====
-- No trade is lost on the way into the candles of a day.
use tdx.Base.{
  ℕ, zero, suc, ◌+◌, ◌*◌, ◌≡◌, refl, sym, ap, ◌∙◌, arith, Bool, inl, inr, List, [], ◌∷◌, length,
  length-append, ◌==◌, Bool-cases,
}
use tdx.Base.Int.{ℤ, pos, ltb_ℤ, ◌+ℤ◌, add64, mul64, IsI64}
use tdx.Kline.Defs.{Kline}
use tdx.Kline.Merge.{flat_kline}
use tdx.Kline.Modular.{total, total-IsI64, add64_assoc, add64_zero}
use tdx.Trade.Defs.{Trade, trades_kline, trades_kline_loop, first_trade, later_trade}
use tdx.Trade.Minute.{
  minutes_from, day_keys, Buckets, fill_buckets, day_loop, day_open, klines_for_day,
}
use tdx.Trade.Bucket.{IsChoice, priced, held-fill_buckets, held-empty}

-- A field that every priced trade adds to.
module _ (pick : Bool → ℤ → ℤ → ℤ) (f : Kline → ℤ) (g : Trade → ℤ)
    (blank : (t price : ℤ) → f (record (flat_kline t price) { last = price }) ≡ pos 0)
    (first : (k : Kline) (v : Trade) → f (first_trade k v) ≡ add64 (f k) (g v))
    (later : (k : Kline) (v : Trade) → f (later_trade pick k v) ≡ add64 (f k) (g v)) where
  field-trades_kline_loop :
      (vs : List Trade) (n : ℕ) (k : Kline)
      → add64 (f (trades_kline_loop pick n k vs)) (pos 0) ≡ add64 (f k) (total (priced g) vs)
  unfolding trades_kline_loop
  field-trades_kline_loop [] n k = refl
  field-trades_kline_loop (v ∷ vs) n k = elim (Bool-cases (ltb_ℤ (pos 0) v.price)) [
    | inr unpriced ↦
        let z = add64_zero (total (priced g) vs) (total-IsI64 (priced g) vs) in
        rw (unpriced, z) (field-trades_kline_loop vs n k)
    | inl has_price ↦ elim (Bool-cases (n == 0)) [
      | inl start ↦
          rw (has_price, start)
            (field-trades_kline_loop vs (n + 1) (first_trade k v)
              ∙ ap (λ (z : ℤ). add64 z (total (priced g) vs)) (first k v)
              ∙ add64_assoc (f k) (g v) (total (priced g) vs))
      | inr going ↦
          rw (has_price, going)
            (field-trades_kline_loop vs (n + 1) (later_trade pick k v)
              ∙ ap (λ (z : ℤ). add64 z (total (priced g) vs)) (later k v)
              ∙ add64_assoc (f k) (g v) (total (priced g) vs))
    ]
  ]

  -- Behind a sum, one candle counts for its trades.
  add_candle :
      (vs : List Trade) (t last z : ℤ)
      → IsI64 z
      → add64 (f (trades_kline pick vs t last)) z ≡ add64 (total (priced g) vs) z
  unfolding trades_kline
  add_candle vs t last z h =
      let k : Kline = record (flat_kline t last) { last = last } in
      let s = total (priced g) vs in
      ap (add64 (f (trades_kline_loop pick 0 k vs))) (sym (add64_zero z h))
      ∙ sym (add64_assoc (f (trades_kline_loop pick 0 k vs)) (pos 0) z)
      ∙ ap (λ (y : ℤ). add64 y z)
          (field-trades_kline_loop vs 0 k
            ∙ ap (λ (y : ℤ). add64 y s) (blank t last)
            ∙ add64_zero s (total-IsI64 (priced g) vs))

  total-day_loop :
      (keys : List ℕ) (date last : ℤ) (m : Buckets)
      → total f (day_loop pick date m last keys)
        ≡ total (λ (key : ℕ). total (priced g) (m key)) keys
  unfolding day_loop
  total-day_loop [] date last m = refl
  total-day_loop (key ∷ keys) date last m =
      let t = date +ℤ pos (key * 60) in
      let next = day_loop pick date m (trades_kline pick (m key) t last).close keys in
      add_candle (m key) t last (total f next) (total-IsI64 f next)
      ∙ ap (add64 (total (priced g) (m key)))
          (total-day_loop keys date (trades_kline pick (m key) t last).close m)

  total-klines_for_day :
      (select : Bool → ℕ → ℕ → ℕ) (date : ℤ) (vs : List Trade)
      → IsChoice select
      → total f (klines_for_day select pick date vs) ≡ total (priced g) vs
  unfolding klines_for_day
  total-klines_for_day select date vs law =
      total-day_loop day_keys date (day_open vs) (fill_buckets select (λ key. []) vs)
      ∙ held-fill_buckets select (priced g) law vs (λ key. [])
      ∙ ap (λ (z : ℤ). add64 z (total (priced g) vs)) (held-empty select (priced g) day_keys)
      ∙ add64_zero (total (priced g) vs) (total-IsI64 (priced g) vs)

length-minutes_from : (n from : ℕ) → length (minutes_from from n) ≡ n
unfolding minutes_from
length-minutes_from zero from = refl
length-minutes_from (suc n) from = rw (length-minutes_from n (from + 1)) refl

length-day_loop :
    (pick : Bool → ℤ → ℤ → ℤ) (keys : List ℕ) (date last : ℤ) (m : Buckets)
    → length (day_loop pick date m last keys) ≡ length keys
unfolding day_loop
length-day_loop pick [] date last m = refl
length-day_loop pick (key ∷ keys) date last m =
    rw
      (length-day_loop pick keys date
        (trades_kline pick (m key) (date +ℤ pos (key * 60)) last).close m)
      refl

-- Where Select chooses as documented, the candles of a day are 241, and hold the whole volume, number and amount of the priced trades
-- of the day, whatever minutes the trades are from, as int64 sums.
pub klines_for_day-total :
    (select : Bool → ℕ → ℕ → ℕ) (pick : Bool → ℤ → ℤ → ℤ) (date : ℤ) (vs : List Trade)
    → IsChoice select
    → (length (klines_for_day select pick date vs) ≡ 241)
      × (total (λ (k : Kline). k.volume) (klines_for_day select pick date vs)
          ≡ total (priced (λ (v : Trade). v.volume)) vs)
      × (total (λ (k : Kline). k.order) (klines_for_day select pick date vs)
          ≡ total (priced (λ (v : Trade). v.number)) vs)
      × (total (λ (k : Kline). k.amount) (klines_for_day select pick date vs)
          ≡ total (priced (λ (v : Trade). mul64 (mul64 v.price v.volume) (pos 100))) vs)
unfolding klines_for_day day_keys
klines_for_day-total select pick date vs law = (
  length-day_loop pick day_keys date (day_open vs) (fill_buckets select (λ key. []) vs)
      ∙ length-append (minutes_from 570 121) (minutes_from 781 120)
      ∙ omega (arith, length-minutes_from 121 570, length-minutes_from 120 781),
  total-klines_for_day pick (λ (k : Kline). k.volume) (λ (v : Trade). v.volume) (λ t p. refl)
      (λ k v. refl) (λ k v. refl) select date vs law,
  total-klines_for_day pick (λ (k : Kline). k.order) (λ (v : Trade). v.number) (λ t p. refl)
      (λ k v. refl) (λ k v. refl) select date vs law,
  total-klines_for_day pick (λ (k : Kline). k.amount)
      (λ (v : Trade). mul64 (mul64 v.price v.volume) (pos 100)) (λ t p. refl) (λ k v. refl)
      (λ k v. refl) select date vs law,
)
