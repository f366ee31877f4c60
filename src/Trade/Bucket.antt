-- ===== src/Trade/Bucket.antt =====
-- Each trade falls into the bucket of one candle of the day.
use tdx.Base.{
  ℕ, zero, suc, ◌+◌, ◌≤◌, ◌<◌, ◌≡◌, refl, sym, ap, ◌∙◌, arith, Bool, ◌⊎◌, inl, inr, List, [], ◌∷◌,
  ◌++◌, if◌then◌else◌,
}
use native.Mathlib.Decide.{dec_lt}
use tdx.Base.Int.{ℤ, pos, ltb_ℤ, ◌+ℤ◌, add64, wrap64, int_laws}
use tdx.Kline.Modular.{total, total-append, total-IsI64, add64_assoc, add64_zero}
use tdx.Trade.Defs.{Trade}
use tdx.Trade.Minute.{minutes_from, day_keys, Buckets, bucket_key, put_trade, fill_buckets}

-- What `conv.Select` is documented to do.
abbrev pub IsChoice {ℓ} : {A : Type ℓ} → (Bool → A → A → A) → Type ℓ
IsChoice {A = A} select = (b : Bool) (x y : A) → select b x y ≡ (if b then x else y)

add64_comm : (a b : ℤ) → add64 a b ≡ add64 b a
add64_comm a b = let e : a +ℤ b ≡ b +ℤ a = omega int_laws in ap wrap64 e

add64_swap : (a b c : ℤ) → add64 (add64 a b) c ≡ add64 (add64 a c) b
add64_swap a b c = add64_assoc a b c ∙ ap (add64 a) (add64_comm b c) ∙ sym (add64_assoc a c b)

-- What a trade counts: nothing without a price.
abbrev pub priced : (Trade → ℤ) → Trade → ℤ
priced g v = if ltb_ℤ (pos 0) v.price then g v else pos 0

-- The minute in which a trade counts is one of the candles.
abbrev InDay : ℕ → Type 0
InDay b = ((570 ≤ b) × (b < 691)) ⊎ ((781 ≤ b) × (b < 901))

module _ (select : Bool → ℕ → ℕ → ℕ) (law : IsChoice select) where
  bucket_key-InDay : (ms : ℕ) → InDay (bucket_key select ms)
  unfolding bucket_key
  bucket_key-InDay ms = simp law (ground arith)

module _ (select : Bool → ℕ → ℕ → ℕ) where
  put_trade-hit :
      (m : Buckets) (v : Trade) (key : ℕ)
      → key ≡ bucket_key select v.minute
      → put_trade select m v key ≡ m key ++ v ∷ []
  unfolding put_trade
  put_trade-hit m v key h = ground arith

  put_trade-miss :
      (m : Buckets) (v : Trade) (key : ℕ)
      → (key < bucket_key select v.minute) ⊎ (bucket_key select v.minute < key)
      → put_trade select m v key ≡ m key
  unfolding put_trade
  put_trade-miss m v key h = ground arith

  module _ (w : Trade → ℤ) where
    abbrev pub held : Buckets → List ℕ → ℤ
    held m keys = total (λ (key : ℕ). total w (m key)) keys

    held-miss :
        (m : Buckets) (v : Trade) (n from : ℕ)
        → (bucket_key select v.minute < from) ⊎ (from + n ≤ bucket_key select v.minute)
        → held (put_trade select m v) (minutes_from from n) ≡ held m (minutes_from from n)
    unfolding minutes_from
    held-miss m v zero from h = refl
    held-miss m v (suc n) from h =
        rw (put_trade-miss m v from (ground arith), held-miss m v n (from + 1) (ground arith)) refl

    held-hit :
        (m : Buckets) (v : Trade) (n from : ℕ)
        → from ≤ bucket_key select v.minute
        → bucket_key select v.minute < from + n
        → held (put_trade select m v) (minutes_from from n)
          ≡ add64 (held m (minutes_from from n)) (total w (v ∷ []))
    unfolding minutes_from
    held-hit m v zero from lo hi = absurd (omega arith)
    held-hit m v (suc n) from lo hi = elim (dec_lt from (bucket_key select v.minute)) [
      | yes later ↦
          rw
            (
              put_trade-miss m v from (inl later),
              held-hit m v n (from + 1) (omega arith) (omega arith),
            )
            (sym (
              add64_assoc (total w (m from)) (held m (minutes_from (from + 1) n))
                (total w (v ∷ []))))
      | no here ↦
          rw
            (
              put_trade-hit m v from (omega arith),
              held-miss m v n (from + 1) (inl (omega arith)),
              total-append w (m from) (v ∷ []),
            )
            (add64_swap (total w (m from)) (total w (v ∷ [])) (held m (minutes_from (from + 1) n)))
    ]

    held-put_trade :
        (m : Buckets) (v : Trade)
        → InDay (bucket_key select v.minute)
        → held (put_trade select m v) day_keys ≡ add64 (held m day_keys) (total w (v ∷ []))
    unfolding day_keys
    held-put_trade m v (inl (lo, hi)) =
        rw
          (
            total-append (λ (key : ℕ). total w (put_trade select m v key)) (minutes_from 570 121)
                (minutes_from 781 120),
            total-append (λ (key : ℕ). total w (m key)) (minutes_from 570 121)
                (minutes_from 781 120),
            held-hit m v 121 570 lo (omega arith),
            held-miss m v 120 781 (inl (omega arith)),
          )
          (add64_swap (held m (minutes_from 570 121)) (total w (v ∷ []))
            (held m (minutes_from 781 120)))
    held-put_trade m v (inr (lo, hi)) =
        rw
          (
            total-append (λ (key : ℕ). total w (put_trade select m v key)) (minutes_from 570 121)
                (minutes_from 781 120),
            total-append (λ (key : ℕ). total w (m key)) (minutes_from 570 121)
                (minutes_from 781 120),
            held-miss m v 121 570 (inr (omega arith)),
            held-hit m v 120 781 lo (omega arith),
          )
          (sym (
            add64_assoc (held m (minutes_from 570 121)) (held m (minutes_from 781 120))
              (total w (v ∷ []))))

    pub held-fill_buckets :
        IsChoice select
        → (vs : List Trade) (m : Buckets)
        → held (fill_buckets select m vs) day_keys ≡ add64 (held m day_keys) (total w vs)
    unfolding fill_buckets
    held-fill_buckets law [] m =
        let z = total-IsI64 (λ (key : ℕ). total w (m key)) day_keys in
        sym (add64_comm (held m day_keys) (pos 0) ∙ add64_zero (held m day_keys) z)
    held-fill_buckets law (v ∷ vs) m =
        held-fill_buckets law vs (put_trade select m v)
        ∙ ap (λ (z : ℤ). add64 z (total w vs))
            (held-put_trade m v (bucket_key-InDay select law v.minute))
        ∙ add64_assoc (held m day_keys) (total w (v ∷ [])) (total w vs)
        ∙ ap (add64 (held m day_keys)) (sym (total-append w (v ∷ []) vs))

    pub held-empty : (keys : List ℕ) → held (λ key. []) keys ≡ pos 0
    held-empty [] = refl
    held-empty (k ∷ keys) = rw (held-empty keys) (add64_zero (pos 0) (omega arith))
