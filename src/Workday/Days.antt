-- ===== src/Workday/Days.antt =====
-- `IntegerDay`, `Is`, `Range`, `Iter` and their forms for a year. The cache is the set of the times
-- that were stored, at 15:00 of each workday. The caller's function has a state of its own, and
-- says whether to go on; `none` stands for a loop that still runs when its fuel is used up.
use tdx.Base.{
  ℕ, zero, suc, ◌+◌, ◌-◌, ◌*◌, ◌/◌, ◌%◌, ◌^◌, ltb, ◌==◌, Bool, true, false, ◌&&◌, ◌||◌, not,
  if◌then◌else◌, Option, none, some,
}

abbrev pub day_ns : ℕ
day_ns = 86400 * 10 ^ 9

abbrev pub hour_ns : ℕ
hour_ns = 3600 * 10 ^ 9

unfoldable pub integer_day : ℕ → ℕ
integer_day t = t - t % day_ns

unfoldable pub is_workday : (ℕ → Bool) → ℕ → Bool
unfolding integer_day
is_workday cache t = cache (integer_day t + 15 * hour_ns)

-- `time.Date(year, 1, 1, 0, 0, 0, 0, time.Local)`: days of 365, and one more for each leap year.
abbrev pub year_start : ℕ → ℕ
year_start year = let past = year - 1 in (365 * past + past / 4 - past / 100 + past / 400) * day_ns

abbrev pub is_leap : ℕ → Bool
is_leap year = (year % 4 == 0) && (not (year % 100 == 0) || year % 400 == 0)

-- `time.Date(year, 12, 31, 0, 0, 0, 1, time.Local)`
abbrev pub year_end : ℕ → ℕ
year_end year = year_start year + (if is_leap year then 365 else 364) * day_ns + 1

-- `ExchangeEstablish`, 1990-12-19.
abbrev pub exchange_establish : ℕ
exchange_establish = year_start 1990 + 352 * day_ns

abbrev pub from_establish : ℕ → ℕ
from_establish start = if ltb start exchange_establish then exchange_establish else start

-- What a pass leaves: the caller's state, and the variable that the loop moves.
pub record Pass {ℓ} (S : Type ℓ) : Type ℓ where
  pub state : S
  pub at : ℕ

module _ {ℓ} {S : Type ℓ} (cache : ℕ → Bool) (f : ℕ → S → S × Bool) where
  unfoldable pub asc_loop : ℕ → ℕ → ℕ → S → Option (Pass S)
  unfolding is_workday
  asc_loop zero start end s =
      if ltb start end then none else some (record { state = s; at = start })
  asc_loop (suc fuel) start end s = elim (ltb start end) [
    | true ↦ elim (is_workday cache start) [
      | true ↦ elim (f start s).1 [
        | true ↦ asc_loop fuel (start + day_ns) end (f start s).0
        | false ↦ some (record { state = (f start s).0; at = start })
      ]
      | false ↦ asc_loop fuel (start + day_ns) end s
    ]
    | false ↦ some (record { state = s; at = start })
  ]

  unfoldable pub desc_loop : ℕ → ℕ → ℕ → S → Option (Pass S)
  unfolding is_workday
  desc_loop zero start end s = if ltb start end then none else some (record { state = s; at = end })
  desc_loop (suc fuel) start end s = elim (ltb start end) [
    | true ↦ elim (is_workday cache end) [
      | true ↦ elim (f end s).1 [
        | true ↦ desc_loop fuel start (end - day_ns) (f end s).0
        | false ↦ some (record { state = (f end s).0; at = end })
      ]
      | false ↦ desc_loop fuel start (end - day_ns) s
    ]
    | false ↦ some (record { state = s; at = end })
  ]

  unfoldable pub range_days : ℕ → ℕ → ℕ → S → Option (Pass S)
  unfolding asc_loop
  range_days fuel start end s = asc_loop fuel (from_establish start) end s

  unfoldable pub range_year : ℕ → ℕ → S → Option (Pass S)
  unfolding range_days
  range_year fuel year s = range_days fuel (year_start year) (year_end year) s

  -- One pass over the sequence that `Iter` returns.
  unfoldable pub iter_days : ℕ → ℕ → ℕ → Bool → S → Option (Pass S)
  unfolding asc_loop desc_loop
  iter_days fuel start end desc s =
      if desc
      then desc_loop fuel (from_establish start) end s
      else asc_loop fuel (from_establish start) end s

  unfoldable pub iter_year : ℕ → ℕ → Bool → S → Option (Pass S)
  unfolding iter_days
  iter_year fuel year desc s = iter_days fuel (year_start year) (year_end year) desc s
