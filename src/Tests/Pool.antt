-- ===== src/Tests/Pool.antt =====
-- Runs of the pool.
use tdx.Base.{ℕ, ◌+◌, ◌≡◌, refl, arith, true, false, [], ◌∷◌, some}
use tdx.Base.Int.{pos}
use tdx.Base.Outcome.{Outcome, ok, panic}
use tdx.Pool.State.{
  Pool, new_pool, dial_loop, get, receive, put, send, remove, get_step, Steps, stay, then_step,
}
use tdx.Pool.Keep.{Keeps, Steps-Keeps}
use tdx.Pool.Ready.{put-ready, get-ready}

abbrev dial : ℕ → Outcome ℕ
dial i = ok (i + 10)

abbrev full : Pool
full = record {
  capacity = 2;
  idle = 10 ∷ 11 ∷ [];
  out = [];
  ended = [];
  done = false;
  shut = false;
}

abbrev one_out : Pool
one_out = record full { idle = 11 ∷ []; out = 10 ∷ [] }

dialed : new_pool dial (pos 2) ≡ ok full
unfolding new_pool dial_loop
dialed = refl

taken : Steps full one_out
unfolding get receive
taken = then_step stay (get_step true (ok 10) refl)

-- A client that is put back behind the closing of the channel may panic.
late :
    put false 10 (record one_out { done = true; shut = true })
    ≡ some (panic, record one_out { done = true; shut = true })
unfolding put send
late = refl

Steps-Keeps_example : Keeps full one_out
Steps-Keeps_example = Steps-Keeps full one_out taken

put-ready_example :
    put false 10 one_out
    ≡ some (ok 10, record one_out { idle = 11 ∷ (10 ∷ []); out = remove 10 (10 ∷ []) })
put-ready_example =
    put-ready dial (pos 2) full one_out false 10 dialed taken refl refl (omega arith)

get-ready_example : (c : ℕ) × (q : Pool) × (get true one_out ≡ some (ok c, q))
get-ready_example = get-ready dial (pos 2) full one_out true dialed taken refl (omega arith)
