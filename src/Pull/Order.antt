-- ===== src/Pull/Order.antt =====
-- Sorting by times that differ forgets the order of the input.
use tdx.Base.{◌+◌, ◌≡◌, ◌≢◌, refl, sym, ap, ap₂, ◌∙◌, subst, List, [], ◌∷◌, All, arith}
use mathlib.Core.List.{Permᴰ}
use tdx.Base.Int.{ℤ, pos_part, neg_part, eq_of_parts}
use tdx.Pull.Calendar.{insert_by, sort_by}

module _ {A : Type 0} (unix : A → ℤ) where
  -- No two items have the same time.
  abbrev pub Distinct : List A → Type 0
  Distinct [] = Unit {0}
  Distinct (k ∷ ks) = All (λ l. unix k ≢ unix l) ks × Distinct ks

  insert_by_comm :
      (a b : A) (ls : List A)
      → pos_part (unix a) + neg_part (unix b) ≢ pos_part (unix b) + neg_part (unix a)
      → insert_by unix a (insert_by unix b ls) ≡ insert_by unix b (insert_by unix a ls)
  unfolding insert_by
  insert_by_comm a b [] h = ground arith
  insert_by_comm a b (l ∷ ls) h = ground (arith, insert_by_comm a b ls h)

  All-perm {κ} : (P : A → Type κ) {ks ls : List A} → Permᴰ ks ls → All P ks → All P ls
  All-perm P Permᴰ.nil h = h
  All-perm P (Permᴰ.cons e p) h = (subst P e h.0, All-perm P p h.1)
  All-perm P (Permᴰ.swap e d) h = (subst P d h.1.0, (subst P e h.0, h.1.1))
  All-perm P (Permᴰ.trans p q) h = All-perm P q (All-perm P p h)

  Distinct-perm : {ks ls : List A} → Permᴰ ks ls → Distinct ks → Distinct ls
  Distinct-perm Permᴰ.nil h = h
  Distinct-perm (Permᴰ.cons {l₂ = ls} e p) h =
      (subst (λ k. All (λ l. unix k ≢ unix l) ls) e (All-perm _ p h.0), Distinct-perm p h.1)
  Distinct-perm (Permᴰ.swap {l} e d) h = (
    (
      (λ same. h.0.0 (ap unix e ∙ sym same ∙ ap unix (sym d))),
      subst (λ k. All (λ m. unix k ≢ unix m) l) d h.1.0,
    ),
    (subst (λ k. All (λ m. unix k ≢ unix m) l) e h.0.1, h.1.1),
  )
  Distinct-perm (Permᴰ.trans p q) h = Distinct-perm q (Distinct-perm p h)

  pub sort_by-perm :
      {ks ls : List A} → Permᴰ ks ls → Distinct ks → sort_by unix ks ≡ sort_by unix ls
  unfolding sort_by
  sort_by-perm Permᴰ.nil h = refl
  sort_by-perm (Permᴰ.cons e p) h = ap₂ (insert_by unix) e (sort_by-perm p h.1)
  sort_by-perm (Permᴰ.swap {a} {b} {l} e d) h =
      insert_by_comm a b (sort_by unix l) (λ same. h.0.0 (eq_of_parts _ _ same))
      ∙ ap₂ (λ x y. insert_by unix x (insert_by unix y (sort_by unix l))) d e
  sort_by-perm (Permᴰ.trans p q) h = sort_by-perm p h ∙ sort_by-perm q (Distinct-perm p h)
