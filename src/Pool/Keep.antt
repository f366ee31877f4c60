-- ===== src/Pool/Keep.antt =====
-- The pool neither loses nor doubles a client.
use tdx.Base.{
  ℕ, ◌+◌, ◌<◌, ◌≡◌, refl, subst, ◌∙◌, arith, Bool, not, ◌&&◌, ◌||◌, ◌==◌, ltb, inl, inr, List, [],
  ◌∷◌, ◌++◌, length, length-append, Bool-cases, Option, some,
}
use tdx.Base.Outcome.{Outcome}
use tdx.Pool.State.{
  is_empty, Pool, receive, get, remove, send, put, count, Step, get_step, put_step, done_step,
  shut_step, Steps, stay, then_step,
}

count-append : (c : ℕ) (xs ys : List ℕ) → count c (xs ++ ys) ≡ count c xs + count c ys
count-append c [] ys = omega arith
count-append c (x ∷ xs) ys = omega (arith, count-append c xs ys)

count-remove :
    (c d : ℕ) (xs : List ℕ) → 0 < count d xs → count c (remove d xs) + count c (d ∷ []) ≡ count c xs
unfolding remove
count-remove c d [] h = absurd (omega arith)
count-remove c d (x ∷ xs) h = elim (Bool-cases (d == x)) [
  | inl e ↦ rw e (ground arith)
  | inr e ↦ let ih = count-remove c d xs (ground arith) in rw e (omega (arith, ih))
]

length-remove : (d : ℕ) (xs : List ℕ) → 0 < count d xs → length (remove d xs) + 1 ≡ length xs
unfolding remove
length-remove d [] h = absurd (omega arith)
length-remove d (x ∷ xs) h = elim (Bool-cases (d == x)) [
  | inl e ↦ rw e (omega arith)
  | inr e ↦ let ih = length-remove d xs (ground arith) in rw e (omega (arith, ih))
]

-- How often the pool holds a client, wherever it is, and how many clients it holds.
abbrev pub holds : ℕ → Pool → ℕ
holds c p = count c p.idle + count c p.out + count c p.ended

abbrev pub size : Pool → ℕ
size p = length p.idle + length p.out + length p.ended

-- What a step leaves as it is.
pub record Keeps (p q : Pool) : Type 0 where
  pub same_clients : (c : ℕ) → holds c q ≡ holds c p
  pub same_size : size q ≡ size p
  pub same_capacity : q.capacity ≡ p.capacity

-- The pool of an outcome.
along_outcome :
    (p : Pool) {q' q : Pool} {r' r : Outcome ℕ}
    → ◌≡◌ {A = Option (Outcome ℕ × Pool)} (some (r', q')) (some (r, q))
    → Keeps p q'
    → Keeps p q
along_outcome p {q' = q'} {q = q} e k = let same : q' ≡ q = cc in subst (Keeps p) same k

unchanged : (p : Pool) → Keeps p p
unchanged p = record { same_clients = λ c. refl; same_size = refl; same_capacity = refl }

receive-Keeps :
    (idle : List ℕ) (p q : Pool) (r : Outcome ℕ)
    → p.idle ≡ idle
    → receive p ≡ some (r, q)
    → Keeps p q
unfolding receive
receive-Keeps [] p q r e h = elim (Bool-cases p.shut) [
  | inl shut ↦
      let h' = rw (e, shut) at h in
      along_outcome p h'
        (record { same_clients = λ c. rw e refl; same_size = rw e refl; same_capacity = refl })
  | inr not_shut ↦ let h' = rw (e, not_shut) at h in absurd cc
]
receive-Keeps (c ∷ rest) p q r e h =
    let h' = rw e at h in
    along_outcome p h' (record {
      same_clients = λ d. rw e (omega arith);
      same_size = rw e (omega arith);
      same_capacity = refl;
    })

send-Keeps :
    (c : ℕ) (p q : Pool) (r : Outcome ℕ) → 0 < count c p.out → send c p ≡ some (r, q) → Keeps p q
unfolding send
send-Keeps c p q r held h = elim (Bool-cases p.shut) [
  | inl shut ↦
      let h' = rw shut at h in
      along_outcome p h'
        (record { same_clients = λ d. refl; same_size = refl; same_capacity = refl })
  | inr not_shut ↦ elim (Bool-cases (ltb (length p.idle) p.capacity)) [
    | inl room ↦
        let h' = rw (not_shut, room) at h in
        along_outcome p h' (record {
          same_clients =
              λ d. omega (arith, count-append d p.idle (c ∷ []), count-remove d c p.out held);
          same_size = omega (arith, length-append p.idle (c ∷ []), length-remove c p.out held);
          same_capacity = refl;
        })
    | inr full ↦ let h' = rw (not_shut, full) at h in absurd cc
  ]
]

get-Keeps : (first : Bool) (p q : Pool) (r : Outcome ℕ) → get first p ≡ some (r, q) → Keeps p q
unfolding get
get-Keeps first p q r h =
    elim (Bool-cases (p.done && (first || not (not (is_empty p.idle) || p.shut)))) [
      | inl ended ↦ let h' = rw ended at h in along_outcome p h' (unchanged p)
      | inr goes ↦ let h' = rw goes at h in receive-Keeps p.idle p q r refl h'
    ]

put-Keeps :
    (first : Bool) (c : ℕ) (p q : Pool) (r : Outcome ℕ)
    → 0 < count c p.out
    → put first c p ≡ some (r, q)
    → Keeps p q
unfolding put
put-Keeps first c p q r held h =
    elim (Bool-cases (p.done && (first || not (p.shut || ltb (length p.idle) p.capacity)))) [
      | inl ended ↦
          let h' = rw ended at h in
          along_outcome p h' (record {
            same_clients = λ d. omega (arith, count-remove d c p.out held);
            same_size = omega (arith, length-remove c p.out held);
            same_capacity = refl;
          })
      | inr goes ↦ let h' = rw goes at h in send-Keeps c p q r held h'
    ]

Step-Keeps : (p q : Pool) → Step p q → Keeps p q
Step-Keeps p q (get_step first r h) = get-Keeps first p q r h
Step-Keeps p q (put_step first c r held h) = put-Keeps first c p q r held h
Step-Keeps p q done_step = record {
  same_clients = λ c. refl;
  same_size = refl;
  same_capacity = refl;
}
Step-Keeps p q shut_step = record {
  same_clients = λ c. refl;
  same_size = refl;
  same_capacity = refl;
}

-- Whatever steps are taken, closing included, each client is in the pool, handed out or closed as
-- often in all as it was before, and the number of clients and the room for them stay the same.
pub Steps-Keeps : (p q : Pool) → Steps p q → Keeps p q
Steps-Keeps p q stay = unchanged p
Steps-Keeps p q (then_step {q = m} before step) =
    let a = Steps-Keeps p m before in
    let b = Step-Keeps m q step in
    record {
      same_clients = λ c. b.same_clients c ∙ a.same_clients c;
      same_size = b.same_size ∙ a.same_size;
      same_capacity = b.same_capacity ∙ a.same_capacity;
    }
