-- ===== src/Workday/Years.antt =====
-- A year of workdays, forwards and backwards.
use tdx.Base.{
  ℕ, zero, suc, ◌+◌, ◌-◌, ◌*◌, ◌≤◌, ◌<◌, ◌≡◌, refl, sym, ap, ◌∙◌, Bool, true, false, if◌then◌else◌,
  List, [], ◌∷◌, ◌++◌, some, arith, append-nil,
}
use mathlib.Core.List.{reverse, reverse-append, reverse-cons}
use tdx.Workday.Days.{
  day_ns, is_workday, year_start, year_end, is_leap, from_establish, asc_loop, desc_loop,
  range_days, range_year, iter_days, iter_year,
}
use tdx.Workday.Passes.{
  keep, state_after, day_of, collect, visit-collect, is_workday_number, times_up, times_down,
  count_up, count_down, asc_loop-visit, desc_loop-visit, days_of_times_up, days_of_times_down,
}

abbrev pub days_in : ℕ → ℕ
days_in year = if is_leap year then 366 else 365

-- The numbers of the workdays of a year, the first one first.
unfoldable pub workdays_of : (ℕ → Bool) → ℕ → List ℕ
workdays_of cache year =
    keep (is_workday_number cache) (count_up (days_in year) (day_of (year_start year)))

count_up_snoc : (n d : ℕ) → count_up (suc n) d ≡ count_up n d ++ (d + n) ∷ []
count_up_snoc zero d = ap (λ e. e ∷ []) (omega arith)
count_up_snoc (suc n) d =
    ap (◌∷◌ d) (count_up_snoc n (d + 1) ∙ ap (λ e. count_up n (d + 1) ++ e ∷ []) (omega arith))

reverse-count_up : (n d : ℕ) → reverse (count_up n d) ≡ count_down n (d + n - 1)
reverse-count_up zero d = refl
reverse-count_up (suc n) d =
    ap reverse (count_up_snoc n d)
    ∙ reverse-append (count_up n d) ((d + n) ∷ [])
    ∙ ap (◌∷◌ (d + n)) (reverse-count_up n d)
    ∙ ap (count_down (suc n)) (omega arith)

keep-append {ℓ} :
    {A : Type ℓ} (p : A → Bool) (xs ys : List A) → keep p (xs ++ ys) ≡ keep p xs ++ keep p ys
keep-append p [] ys = refl
keep-append p (x ∷ xs) ys = grind (arith, keep-append p xs ys)

reverse-one {ℓ} :
    {A : Type ℓ} (here : Bool) (x : A) (ys : List A)
    → reverse ys ++ (if here then x ∷ [] else []) ≡ reverse (if here then x ∷ ys else ys)
reverse-one true x ys = sym (reverse-cons x ys)
reverse-one false x ys = append-nil (reverse ys)

keep-reverse {ℓ} :
    {A : Type ℓ} (p : A → Bool) (xs : List A) → keep p (reverse xs) ≡ reverse (keep p xs)
keep-reverse p [] = refl
keep-reverse p (x ∷ xs) =
    ap (keep p) (reverse-cons x xs)
    ∙ keep-append p (reverse xs) (x ∷ [])
    ∙ ap (λ t. t ++ keep p (x ∷ [])) (keep-reverse p xs)
    ∙ reverse-one (p x) x (keep p xs)

-- `n` days from the first moment of the day `d` on, and back from the first moments of the last.
module _ (cache : ℕ → Bool) (n d fuel start end : ℕ) where
  module _ (some_day : 0 < n) (starts : start ≡ d * day_ns)
      (ends : end ≡ start + (n - 1) * day_ns + 1) (enough : n ≤ fuel) where
    asc_loop-collect :
        state_after (asc_loop cache collect fuel start end [])
        ≡ some (keep (is_workday_number cache) (count_up n d))
    asc_loop-collect =
        asc_loop-visit cache collect n fuel start end [] enough (omega arith) (omega arith)
        ∙ ap (λ t. some t)
            (visit-collect (keep (is_workday cache) (times_up n start)) []
              ∙ days_of_times_up cache n d start (omega arith))

    desc_loop-collect :
        0 < d
        → state_after (desc_loop cache collect fuel start end [])
          ≡ some (reverse (keep (is_workday_number cache) (count_up n d)))
    desc_loop-collect late =
        desc_loop-visit cache collect n fuel start end [] enough (omega arith) (omega arith)
          (omega arith)
        ∙ ap (λ t. some t)
            (visit-collect (keep (is_workday cache) (times_down n end)) []
              ∙ days_of_times_down cache n (d + n - 1) end (omega arith) (omega arith)
              ∙ ap (keep (is_workday_number cache)) (sym (reverse-count_up n d))
              ∙ keep-reverse (is_workday_number cache) (count_up n d))

module _ (cache : ℕ → Bool) (year : ℕ) (open_then : 1991 ≤ year) where
  after_establish : from_establish (year_start year) ≡ year_start year
  after_establish = ground arith

  year_first : year_start year ≡ day_of (year_start year) * day_ns
  year_first = ground arith

  year_span : year_end year ≡ year_start year + (days_in year - 1) * day_ns + 1
  year_span = ground arith

  year_long : (0 < days_in year) × (days_in year ≤ 366) × (0 < day_of (year_start year))
  year_long = ground arith

  -- For a year from 1991 on, `RangeYear` and the ascending `IterYear` end within 366 rounds and hand
  -- over the workdays of the year that the cache holds, each once and in order, and the descending
  -- `IterYear` hands over the same days in the reverse order.
  pub range_year_lem :
      (fuel : ℕ)
      → 366 ≤ fuel
      → (state_after (range_year cache collect fuel year []) ≡ some (workdays_of cache year))
        × (state_after (iter_year cache collect fuel year false []) ≡ some (workdays_of cache year))
        × (state_after (iter_year cache collect fuel year true [])
            ≡ some (reverse (workdays_of cache year)))
  unfolding range_year range_days iter_year iter_days workdays_of
  range_year_lem fuel enough =
      let n = days_in year in
      let d = day_of (year_start year) in
      let e = year_end year in
      let forth : state_after (asc_loop cache collect fuel (year_start year) e [])
          ≡ some (workdays_of cache year) =
        asc_loop-collect cache n d fuel (year_start year) e year_long.0 year_first year_span
          (omega (arith, year_long)) in
      let back : state_after (desc_loop cache collect fuel (year_start year) e [])
          ≡ some (reverse (workdays_of cache year)) =
        desc_loop-collect cache n d fuel (year_start year) e year_long.0 year_first year_span
          (omega (arith, year_long)) year_long.2 in
      let from = after_establish in
      (
        ap (λ t. state_after (asc_loop cache collect fuel t e [])) from ∙ forth,
        ap (λ t. state_after (asc_loop cache collect fuel t e [])) from ∙ forth,
        ap (λ t. state_after (desc_loop cache collect fuel t e [])) from ∙ back,
      )
