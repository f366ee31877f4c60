-- ===== src/Kline/Modular.antt =====
-- Sums of int64 values: addition wraps around and is still associative and commutative.
use tdx.Base.{ℕ, ◌+◌, ◌%◌, ◌<◌, ◌≡◌, ap, arith, List, [], ◌∷◌, ◌++◌, ◌∙◌, sym}
use tdx.Base.Int.{
  ℤ, pos, negsuc, ◌+ℤ◌, residue, signed, i64_mod, wrap64, add64, IsI64, wrap64_self, wrap64-IsI64,
  int_laws,
}

residue-lt : (z : ℤ) → residue i64_mod z < i64_mod
residue-lt (pos n) = omega arith
residue-lt (negsuc n) = omega arith

residue-signed : (u : ℕ) → u < i64_mod → residue i64_mod (signed i64_mod u) ≡ u
residue-signed u h = ground arith

residue-wrap64 : (z : ℤ) → residue i64_mod (wrap64 z) ≡ residue i64_mod z
unfolding wrap64
residue-wrap64 z = residue-signed (residue i64_mod z) (residue-lt z)

residue-+ℤ :
    (a b : ℤ) → residue i64_mod (a +ℤ b) ≡ (residue i64_mod a + residue i64_mod b) % i64_mod
unfolding ◌+ℤ◌
residue-+ℤ (pos a) (pos b) = ground arith
residue-+ℤ (pos a) (negsuc b) = ground arith
residue-+ℤ (negsuc a) (pos b) = ground arith
residue-+ℤ (negsuc a) (negsuc b) = ground arith

wrap64-congr : (a b : ℤ) → residue i64_mod a ≡ residue i64_mod b → wrap64 a ≡ wrap64 b
unfolding wrap64
wrap64-congr a b h = ap (signed i64_mod) h

pub add64_assoc : (a b c : ℤ) → add64 (add64 a b) c ≡ add64 a (add64 b c)
add64_assoc a b c =
    wrap64-congr (wrap64 (a +ℤ b) +ℤ c) (a +ℤ wrap64 (b +ℤ c))
      (simp (residue-+ℤ, residue-wrap64) (omega arith))

pub add64_comm : (a b : ℤ) → add64 a b ≡ add64 b a
add64_comm a b = ap wrap64 (omega int_laws)

pub add64_zero : (z : ℤ) → IsI64 z → add64 (pos 0) z ≡ z
add64_zero z h = let e : pos 0 +ℤ z ≡ z = omega int_laws in rw e (wrap64_self z h)

-- The sum of one field of the candles.
abbrev pub total {ℓ} : {A : Type ℓ} → (A → ℤ) → List A → ℤ
total f [] = pos 0
total f (k ∷ ks) = add64 (f k) (total f ks)

module _ {ℓ} {A : Type ℓ} where
  pub total-IsI64 : (f : A → ℤ) (ks : List A) → IsI64 (total f ks)
  total-IsI64 f [] = omega arith
  total-IsI64 f (k ∷ ks) = wrap64-IsI64 (f k +ℤ total f ks)

  pub total-append :
      (f : A → ℤ) (xs ys : List A) → total f (xs ++ ys) ≡ add64 (total f xs) (total f ys)
  total-append f [] ys = sym (add64_zero (total f ys) (total-IsI64 f ys))
  total-append f (x ∷ xs) ys =
      ap (add64 (f x)) (total-append f xs ys) ∙ sym (add64_assoc (f x) (total f xs) (total f ys))
