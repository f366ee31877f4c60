-- ===== src/Pool/Ready.antt =====
-- A pool that is not closed is always ready: for the clients that come back, and for a caller while
-- it has clients left.
use tdx.Base.{
  ℕ, zero, suc, ◌+◌, ◌<◌, ◌≡◌, refl, sym, subst, arith, Bool, true, false, ltb, List, [], ◌∷◌, ◌++◌,
  length, length-append, some,
}
use tdx.Base.Int.{ℤ}
use tdx.Base.Outcome.{Outcome, ok, >>=-eq_ok}
use tdx.Pool.State.{
  Pool, pool_size, dial_loop, new_pool, receive, get, remove, send, put, count, Steps,
}
use tdx.Pool.Keep.{size, Steps-Keeps}

-- What `NewPool` gives: as many idle clients as it has room for, at least one.
record IsFresh (n : ℕ) (p : Pool) : Type 0 where
  size_is : size p ≡ n
  capacity_is : p.capacity ≡ n

length-dial_loop :
    (dial : ℕ → Outcome ℕ) (rounds i : ℕ) (idle clients : List ℕ)
    → dial_loop dial rounds i idle ≡ ok clients
    → length clients ≡ length idle + rounds
unfolding dial_loop
length-dial_loop dial zero i idle clients h =
    let e : idle ≡ clients = cc in rw (sym e) (omega arith)
length-dial_loop dial (suc rounds) i idle clients h =
    let (c, dialed, rest) =
      >>=-eq_ok (dial i) (λ (c : ℕ). dial_loop dial rounds (i + 1) (idle ++ c ∷ [])) h in
    let ih = length-dial_loop dial rounds (i + 1) (idle ++ c ∷ []) clients rest in
    omega (arith, ih, length-append idle (c ∷ []))

new_pool-IsFresh :
    (dial : ℕ → Outcome ℕ) (number : ℤ) (p : Pool)
    → new_pool dial number ≡ ok p
    → IsFresh (pool_size number) p
unfolding new_pool
new_pool-IsFresh dial number p h =
    let start : List ℕ → Pool = λ idle. record {
      capacity = pool_size number;
      idle = idle;
      out = [];
      ended = [];
      done = false;
      shut = false;
    } in
    let (clients, dialed, same) =
      >>=-eq_ok (dial_loop dial (pool_size number) 0 []) (λ (idle : List ℕ). ok (start idle)) h in
    let e : start clients ≡ p = cc in
    let long = length-dial_loop dial (pool_size number) 0 [] clients dialed in
    subst (IsFresh (pool_size number)) e
      (record { size_is = omega (arith, long); capacity_is = refl })

held-lt : (c : ℕ) (xs : List ℕ) → 0 < count c xs → 0 < length xs
held-lt c [] h = absurd (omega arith)
held-lt c (x ∷ xs) h = omega arith

-- In a pool that NewPool gave and that is not closed, Put takes back a client that is handed out
-- without waiting, behind those that wait, whichever case the select prefers.
pub put-ready :
    (dial : ℕ → Outcome ℕ) (number : ℤ) (p q : Pool) (first : Bool) (c : ℕ)
    → new_pool dial number ≡ ok p
    → Steps p q
    → q.done ≡ false
    → q.shut ≡ false
    → 0 < count c q.out
    → put first c q ≡ some (ok c, record q { idle = q.idle ++ c ∷ []; out = remove c q.out })
unfolding put send
put-ready dial number p q first c start steps open_ not_shut held =
    let fresh = new_pool-IsFresh dial number p start in
    let kept = Steps-Keeps p q steps in
    let some_out = held-lt c q.out held in
    let room : ltb (length q.idle) q.capacity ≡ true =
      ground
        (arith, fresh.size_is, fresh.capacity_is, kept.same_size, kept.same_capacity, some_out) in
    rw (open_, not_shut, room) refl

receive-some :
    (idle : List ℕ) (q : Pool)
    → q.idle ≡ idle
    → 0 < length idle
    → (c : ℕ) × (q' : Pool) × (receive q ≡ some (ok c, q'))
unfolding receive
receive-some [] q e h = absurd (omega arith)
receive-some (c ∷ rest) q e h = (c, record q { idle = rest; out = c ∷ q.out }, rw e refl)

-- In a pool that NewPool gave and that is not closed, Get returns a client without waiting, unless
-- as many clients as the pool has are handed out or closed.
pub get-ready :
    (dial : ℕ → Outcome ℕ) (number : ℤ) (p q : Pool) (first : Bool)
    → new_pool dial number ≡ ok p
    → Steps p q
    → q.done ≡ false
    → length q.out + length q.ended < pool_size number
    → (c : ℕ) × (q' : Pool) × (get first q ≡ some (ok c, q'))
unfolding get
get-ready dial number p q first start steps open_ left =
    let fresh = new_pool-IsFresh dial number p start in
    let kept = Steps-Keeps p q steps in
    simp open_ (receive-some q.idle q refl (omega (arith, fresh.size_is, kept.same_size)))
