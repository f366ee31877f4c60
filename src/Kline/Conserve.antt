-- ===== src/Kline/Conserve.antt =====
-- Merging keeps what was traded, and each merged candle spans those it was made of.
use tdx.Base.{
  ℕ, zero, suc, ◌+◌, ◌-◌, ◌*◌, ◌≤◌, ◌<◌, ◌≡◌, refl, sym, ap, ◌∙◌, arith, Bool, false, inl, inr,
  List, [], ◌∷◌, ◌++◌, length, length-append, take, drop, length-drop, if◌then◌else◌, ltb, leb,
  Bool-cases,
}
use native.Mathlib.Decide.{dec_lt}
use tdx.Base.Int.{ℤ, pos, negsuc, add64, wrap64-IsI64, ◌+ℤ◌}
use tdx.Kline.Defs.{Kline}
use tdx.Kline.Merge.{
  later_round, later_rounds, first_round, flat_kline, merge_kline, merge_chunk, merge_loop, merge,
  last_time,
}
use tdx.Kline.Modular.{total, total-append, add64_assoc, add64_zero}

-- What `conv.Select` is documented to do.
abbrev pub IsSelect : (Bool → ℤ → ℤ → ℤ) → Type 0
IsSelect select = (b : Bool) (x y : ℤ) → select b x y ≡ (if b then x else y)

-- The chunk of a round and what the round leaves make up the candles that it saw.
chunk_split :
    (n : ℕ) (ks : List Kline) → (if ltb (length ks) n then ks else take n ks) ++ drop n ks ≡ ks
chunk_split zero ks = ground arith
chunk_split (suc n) [] = ground arith
chunk_split (suc n) (k ∷ ks) = ground (arith, chunk_split n ks)

-- A field that every round adds up.
module _ (select : Bool → ℤ → ℤ → ℤ) (f : Kline → ℤ)
    (first : (t price : ℤ) (v : Kline)
      → f (first_round (flat_kline t price) v) ≡ add64 (pos 0) (f v))
    (later : (k v : Kline) → f (later_round select k v) ≡ add64 (f k) (f v)) where
  total-later_rounds :
      (vs : List Kline) (k : Kline)
      → add64 (f (later_rounds select k vs)) (pos 0) ≡ add64 (f k) (total f vs)
  unfolding later_rounds
  total-later_rounds [] k = refl
  total-later_rounds (v ∷ vs) k =
      total-later_rounds vs (later_round select k v)
      ∙ ap (λ (z : ℤ). add64 z (total f vs)) (later k v)
      ∙ add64_assoc (f k) (f v) (total f vs)

  total-merge_chunk : (ks : List Kline) → total f (merge_chunk select ks) ≡ total f ks
  unfolding merge_kline
  total-merge_chunk [] = refl
  total-merge_chunk (k ∷ ks) =
      total-later_rounds ks (first_round (flat_kline (last_time (k ∷ ks)) k.open_price) k)
      ∙ ap (λ (z : ℤ). add64 z (total f ks)) (first (last_time (k ∷ ks)) k.open_price k)
      ∙ add64_assoc (pos 0) (f k) (total f ks)
      ∙ add64_zero (add64 (f k) (total f ks)) (wrap64-IsI64 (f k +ℤ total f ks))

  total-merge_loop :
      (fuel n : ℕ) (ks : List Kline)
      → 0 < n
      → length ks ≤ fuel
      → total f (merge_loop select fuel n ks) ≡ total f ks
  unfolding merge_loop
  total-merge_loop fuel n [] hn enough = refl
  total-merge_loop zero n (k ∷ ks) hn enough = absurd (omega arith)
  total-merge_loop (suc fuel) n (k ∷ ks) hn enough =
      let chunk : List Kline = if ltb (length (k ∷ ks)) n then k ∷ ks else take n (k ∷ ks) in
      let rest : List Kline = drop n (k ∷ ks) in
      total-append f (merge_chunk select chunk) (merge_loop select fuel n rest)
      ∙ ap (λ (z : ℤ). add64 z (total f (merge_loop select fuel n rest))) (total-merge_chunk chunk)
      ∙ ap (add64 (total f chunk))
          (total-merge_loop fuel n rest hn (omega (arith, length-drop n (k ∷ ks))))
      ∙ sym (total-append f chunk rest)
      ∙ ap (total f) (chunk_split n (k ∷ ks))

  total-merge : (ks : List Kline) (n : ℤ) → total f (merge select ks n) ≡ total f ks
  unfolding merge
  total-merge ks (negsuc n) = refl
  total-merge ks (pos n) = elim (Bool-cases (leb n 1)) [
    | inl small ↦ rw small
    | inr large ↦ rw large (total-merge_loop (length ks) n ks (ground arith) (omega arith))
  ]

-- Merging into periods of any length keeps the total volume and the total amount, as int64 sums.
pub merge-total :
    (select : Bool → ℤ → ℤ → ℤ) (ks : List Kline) (n : ℤ)
    → (total (λ (k : Kline). k.volume) (merge select ks n) ≡ total (λ (k : Kline). k.volume) ks)
      × (total (λ (k : Kline). k.amount) (merge select ks n) ≡ total (λ (k : Kline). k.amount) ks)
merge-total select ks n = (
  total-merge select (λ (k : Kline). k.volume) (λ t p v. refl) (λ k v. refl) ks n,
  total-merge select (λ (k : Kline). k.amount) (λ t p v. refl) (λ k v. refl) ks n,
)

chunk_pos :
    (n : ℕ) (k : Kline) (ks : List Kline)
    → 0 < n
    → 0 < length (if ltb (length (k ∷ ks)) n then k ∷ ks else take n (k ∷ ks))
chunk_pos zero k ks h = absurd (omega arith)
chunk_pos (suc n) k ks h = ground arith

below_one : (n m : ℕ) → n * m < n → n * m ≡ 0
below_one n zero h = omega arith
below_one n (suc m) h = absurd (omega arith)

-- One chunk more, in numbers: `rest` of `all` candles are left for `m` chunks.
chunks_step :
    (n m rest all out : ℕ)
    → 0 < n
    → 0 < all
    → rest ≡ all - n
    → out ≡ suc m
    → rest ≤ n * m
    → n * m < rest + n
    → (all ≤ n * out) × (n * out < all + n)
chunks_step n m rest all out hn ha hr ho lo hi = rw ho (elim (dec_lt all n) [
  | yes short ↦ let none_left = below_one n m (omega arith) in (omega arith, omega arith)
  | no long ↦ (omega arith, omega arith)
])

module _ (select : Bool → ℤ → ℤ → ℤ) where
  length-merge_chunk : (ks : List Kline) → 0 < length ks → length (merge_chunk select ks) ≡ 1
  length-merge_chunk [] h = absurd (omega arith)
  length-merge_chunk (k ∷ ks) h = refl

  length-merge_loop :
      (fuel n : ℕ) (ks : List Kline)
      → 0 < n
      → length ks ≤ fuel
      → (length ks ≤ n * length (merge_loop select fuel n ks))
        × (n * length (merge_loop select fuel n ks) < length ks + n)
  unfolding merge_loop
  length-merge_loop fuel n [] hn enough = grind arith
  length-merge_loop zero n (k ∷ ks) hn enough = absurd (omega arith)
  length-merge_loop (suc fuel) n (k ∷ ks) hn enough =
      let chunk : List Kline = if ltb (length (k ∷ ks)) n then k ∷ ks else take n (k ∷ ks) in
      let rest : List Kline = drop n (k ∷ ks) in
      let dropped = length-drop n (k ∷ ks) in
      let one = length-merge_chunk chunk (chunk_pos n k ks hn) in
      let both = length-append (merge_chunk select chunk) (merge_loop select fuel n rest) in
      let ih = length-merge_loop fuel n rest hn (omega arith) in
      chunks_step n (length (merge_loop select fuel n rest)) (length rest) (length (k ∷ ks))
        (length (merge_chunk select chunk ++ merge_loop select fuel n rest)) hn (omega arith)
        dropped (omega arith) ih.0 ih.1

-- From n at least 2 the candles are merged into as many as n-sized chunks cover them: the last chunk
-- may be short, and none is empty.
pub length-merge :
    (select : Bool → ℤ → ℤ → ℤ) (ks : List Kline) (n : ℕ)
    → 2 ≤ n
    → (length ks ≤ n * length (merge select ks (pos n)))
      × (n * length (merge select ks (pos n)) < length ks + n)
unfolding merge
length-merge select ks n h =
    let e : leb n 1 ≡ false = ground arith in
    rw e (length-merge_loop select (length ks) n ks (omega arith) (omega arith))
