-- ===== src/Pool/State.antt =====
-- `Pool` and its operations. A client is its number. `out` holds the clients that `Get` has handed
-- out, and `ended` those that `Put` has closed.
use tdx.Base.{
  ℕ, zero, suc, ◌+◌, ◌<◌, ◌≡◌, Bool, true, false, not, ◌&&◌, ◌||◌, ◌==◌, if◌then◌else◌, ltb, List,
  [], ◌∷◌, ◌++◌, length, Option, none, some,
}
use tdx.Base.Int.{ℤ, pos, negsuc}
use tdx.Base.Outcome.{Outcome, ok, err, panic, ◌>>=◌, closed}

pub record Pool : Type 0 where
  pub capacity : ℕ
  pub idle : List ℕ
  pub out : List ℕ
  pub ended : List ℕ
  pub done : Bool
  pub shut : Bool

-- `dial i` is the outcome of the call number `i` of `dial`. The channel has room for each client.
unfoldable pub dial_loop : (ℕ → Outcome ℕ) → ℕ → ℕ → List ℕ → Outcome (List ℕ)
dial_loop dial zero i idle = ok idle
dial_loop dial (suc rounds) i idle = dial i >>= λ c. dial_loop dial rounds (i + 1) (idle ++ c ∷ [])

abbrev pub pool_size : ℤ → ℕ
pool_size (negsuc n) = 1
pool_size (pos zero) = 1
pool_size (pos (suc n)) = suc n

unfoldable pub new_pool : (ℕ → Outcome ℕ) → ℤ → Outcome Pool
unfolding dial_loop
new_pool dial number = dial_loop dial (pool_size number) 0 [] >>= λ idle. ok (record {
  capacity = pool_size number;
  idle = idle;
  out = [];
  ended = [];
  done = false;
  shut = false;
})

abbrev pub is_empty : List ℕ → Bool
is_empty [] = true
is_empty (c ∷ cs) = false

-- `c, ok := <-this.ch`: `none` where it blocks.
unfoldable pub receive : Pool → Option (Outcome ℕ × Pool)
receive p = elim p.idle [
  | [] ↦ if p.shut then some (err closed, p) else none
  | c ∷ rest ↦ some (ok c, record p { idle = rest; out = c ∷ p.out })
]

-- A `select` with two cases that are ready takes either; `first` is its choice.
unfoldable pub get : Bool → Pool → Option (Outcome ℕ × Pool)
unfolding receive
get first p =
    let ready = not (is_empty p.idle) || p.shut in
    if p.done && (first || not ready) then some (err closed, p) else receive p

-- The first `c` of a list is taken out of it.
unfoldable pub remove : ℕ → List ℕ → List ℕ
remove c [] = []
remove c (d ∷ ds) = let rest = remove c ds in if c == d then ds else d ∷ rest

-- `this.ch <- c`: a closed channel panics, and a full one blocks.
unfoldable pub send : ℕ → Pool → Option (Outcome ℕ × Pool)
unfolding remove
send c p =
    if p.shut
    then some (panic, p)
    else if ltb (length p.idle) p.capacity
    then some (ok c, record p { idle = p.idle ++ c ∷ []; out = remove c p.out })
    else none

unfoldable pub put : Bool → ℕ → Pool → Option (Outcome ℕ × Pool)
unfolding send remove
put first c p =
    let ready = p.shut || ltb (length p.idle) p.capacity in
    if p.done && (first || not ready)
    then some (ok c, record p { out = remove c p.out; ended = c ∷ p.ended })
    else send c p

-- How often a client stands in a list.
abbrev pub count : ℕ → List ℕ → ℕ
count c [] = 0
count c (d ∷ ds) = (if c == d then 1 else 0) + count c ds

-- One step of the program: `Do` and `Go` put back a client that they got, once. The closer raises
-- `Done` and closes the channel, in either order.
pub data Step : Pool → Pool → Type 0 where
  get_step : {p q : Pool} (first : Bool) (r : Outcome ℕ) → get first p ≡ some (r, q) → Step p q
  put_step :
      {p q : Pool} (first : Bool) (c : ℕ) (r : Outcome ℕ)
      → 0 < count c p.out
      → put first c p ≡ some (r, q)
      → Step p q
  done_step : {p : Pool} → Step p (record p { done = true })
  shut_step : {p : Pool} → Step p (record p { shut = true })

pub data Steps : Pool → Pool → Type 0 where
  stay : {p : Pool} → Steps p p
  then_step : {p q r : Pool} → Steps p q → Step q r → Steps p r
