-- ===== src/Tests/Workday.antt =====
-- Runs of the workdays.
use tdx.Base.{ℕ, ◌≡◌, refl, arith, ◌==◌, ◌%◌, ◌*◌, ◌/◌, Bool, true, false, [], ◌∷◌, some}
use mathlib.Core.List.{reverse}
use tdx.Workday.Days.{day_ns, range_year, iter_year, asc_loop, is_workday, integer_day, year_start}
use tdx.Workday.Passes.{state_after, collect}
use tdx.Workday.Years.{workdays_of, range_year_lem}

-- Every fifth day is a workday.
abbrev some_days : ℕ → Bool
some_days t = t / day_ns % 5 == 0

range_year_lem_example :
    (state_after (range_year some_days collect 366 2024 []) ≡ some (workdays_of some_days 2024))
    × (state_after (iter_year some_days collect 366 2024 false [])
        ≡ some (workdays_of some_days 2024))
    × (state_after (iter_year some_days collect 366 2024 true [])
        ≡ some (reverse (workdays_of some_days 2024)))
range_year_lem_example = range_year_lem some_days 2024 (omega arith) 366 (omega arith)

-- 2024-01-01 is day 738885 after the first of January of the year 1.
year_2024 : year_start 2024 ≡ 738885 * day_ns
year_2024 = refl

-- A second pass over a sequence of `Iter` starts where the first one stopped, and finds nothing.
first_pass :
    asc_loop some_days collect 3 (738885 * day_ns) (738887 * day_ns) []
    ≡ some (record { state = 738885 ∷ []; at = 738887 * day_ns })
unfolding asc_loop is_workday integer_day
first_pass = refl

second_pass :
    asc_loop some_days collect 3 (738887 * day_ns) (738887 * day_ns) []
    ≡ some (record { state = []; at = 738887 * day_ns })
unfolding asc_loop
second_pass = refl
