-- ===== src/Workday/Passes.antt =====
-- What a pass hands to the caller: the workdays of a list of times, until the caller stops.
use tdx.Base.{
  ℕ, zero, suc, ◌+◌, ◌-◌, ◌*◌, ◌/◌, ◌≤◌, ◌<◌, ◌≡◌, refl, sym, ap, ◌∙◌, Bool, true, if◌then◌else◌,
  List, [], ◌∷◌, ◌++◌, map, Option, none, some, arith, append-nil, append_assoc,
}
use tdx.Workday.Days.{day_ns, integer_day, is_workday, Pass, asc_loop, desc_loop}

abbrev pub keep {ℓ} : {A : Type ℓ} → (A → Bool) → List A → List A
keep p [] = []
keep p (x ∷ xs) = if p x then x ∷ keep p xs else keep p xs

abbrev pub visit {ℓ} : {S : Type ℓ} → (ℕ → S → S × Bool) → List ℕ → S → S
visit f [] s = s
visit f (t ∷ ts) s = if (f t s).1 then visit f ts (f t s).0 else (f t s).0

-- `n` times, each a day after, or before, the other.
abbrev pub times_up : ℕ → ℕ → List ℕ
times_up zero t = []
times_up (suc n) t = t ∷ times_up n (t + day_ns)

abbrev pub times_down : ℕ → ℕ → List ℕ
times_down zero t = []
times_down (suc n) t = t ∷ times_down n (t - day_ns)

-- The caller's state after a pass that has ended.
abbrev pub state_after {ℓ} : {S : Type ℓ} → Option (Pass S) → Option S
state_after none = none
state_after (some p) = some p.state

module _ {ℓ} {S : Type ℓ} (cache : ℕ → Bool) (f : ℕ → S → S × Bool) where
  pub asc_loop-visit :
      (n fuel start end : ℕ) (s : S)
      → n ≤ fuel
      → start + n * day_ns < end + day_ns
      → end ≤ start + n * day_ns
      → state_after (asc_loop cache f fuel start end s)
        ≡ some (visit f (keep (is_workday cache) (times_up n start)) s)
  unfolding asc_loop
  asc_loop-visit zero zero start end s h lo hi = ground arith
  asc_loop-visit zero (suc fuel) start end s h lo hi = ground arith
  asc_loop-visit (suc n) zero start end s h lo hi = absurd (omega arith)
  asc_loop-visit (suc n) (suc fuel) start end s h lo hi = ground (
    arith,
    asc_loop-visit n fuel (start + day_ns) end s (omega arith) (omega arith) (omega arith),
    asc_loop-visit n fuel (start + day_ns) end (f start s).0 (omega arith) (omega arith)
        (omega arith),
  )

  -- No day before the first is reached, so the subtraction is exact.
  pub desc_loop-visit :
      (n fuel start end : ℕ) (s : S)
      → n ≤ fuel
      → start + n * day_ns < end + day_ns
      → end ≤ start + n * day_ns
      → day_ns ≤ start
      → state_after (desc_loop cache f fuel start end s)
        ≡ some (visit f (keep (is_workday cache) (times_down n end)) s)
  unfolding desc_loop
  desc_loop-visit zero zero start end s h lo hi late = ground arith
  desc_loop-visit zero (suc fuel) start end s h lo hi late = ground arith
  desc_loop-visit (suc n) zero start end s h lo hi late = absurd (omega arith)
  desc_loop-visit (suc n) (suc fuel) start end s h lo hi late = ground (
    arith,
    desc_loop-visit n fuel start (end - day_ns) s (omega arith) (omega arith) (omega arith) late,
    desc_loop-visit n fuel start (end - day_ns) (f end s).0 (omega arith) (omega arith)
        (omega arith) late,
  )

-- The numbers of the days of a list of times.
abbrev pub day_of : ℕ → ℕ
day_of t = t / day_ns

-- `ls = append(ls, t)`, with the day of `t`, as the caller's function.
abbrev pub collect : ℕ → List ℕ → List ℕ × Bool
collect t days = (days ++ day_of t ∷ [], true)

pub visit-collect : (ts days : List ℕ) → visit collect ts days ≡ days ++ map day_of ts
visit-collect [] days = sym (append-nil days)
visit-collect (t ∷ ts) days =
    visit-collect ts (days ++ day_of t ∷ []) ∙ append_assoc days (day_of t ∷ []) (map day_of ts)

-- Day number `i` is a workday.
abbrev pub is_workday_number : (ℕ → Bool) → ℕ → Bool
is_workday_number cache i = is_workday cache (i * day_ns)

abbrev pub count_up : ℕ → ℕ → List ℕ
count_up zero d = []
count_up (suc n) d = d ∷ count_up n (d + 1)

abbrev pub count_down : ℕ → ℕ → List ℕ
count_down zero d = []
count_down (suc n) d = d ∷ count_down n (d - 1)

is_workday_same :
    (cache : ℕ → Bool) (d t : ℕ) → day_of t ≡ d → is_workday cache t ≡ is_workday_number cache d
unfolding is_workday integer_day
is_workday_same cache d t e = ap cache (omega arith)

module _ (cache : ℕ → Bool) where
  keep_first :
      (d t : ℕ) (ts rest : List ℕ)
      → day_of t ≡ d
      → map day_of (keep (is_workday cache) ts) ≡ keep (is_workday_number cache) rest
      → map day_of (keep (is_workday cache) (t ∷ ts)) ≡ keep (is_workday_number cache) (d ∷ rest)
  keep_first d t ts rest e h = grind (arith, is_workday_same cache d t e)

  pub days_of_times_up :
      (n d t : ℕ)
      → day_of t ≡ d
      → map day_of (keep (is_workday cache) (times_up n t))
        ≡ keep (is_workday_number cache) (count_up n d)
  days_of_times_up zero d t e = refl
  days_of_times_up (suc n) d t e =
      keep_first d t (times_up n (t + day_ns)) (count_up n (d + 1)) e
        (days_of_times_up n (d + 1) (t + day_ns) (omega arith))

  pub days_of_times_down :
      (n d t : ℕ)
      → n ≤ d + 1
      → day_of t ≡ d
      → map day_of (keep (is_workday cache) (times_down n t))
        ≡ keep (is_workday_number cache) (count_down n d)
  days_of_times_down zero d t h e = refl
  days_of_times_down (suc zero) d t h e = keep_first d t [] [] e refl
  days_of_times_down (suc (suc n)) d t h e =
      keep_first d t (times_down (suc n) (t - day_ns)) (count_down (suc n) (d - 1)) e
        (days_of_times_down (suc n) (d - 1) (t - day_ns) (omega arith) (omega arith))
