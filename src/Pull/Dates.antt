-- ===== src/Pull/Dates.antt =====
-- `Time.Date` and `Time.ISOWeek`, by the number of the day after the first of January of the year
-- 1, a Monday; and the keys of `DayToCalendar`. The zone is an offset in seconds.
use tdx.Base.{ℕ, ◌+◌, ◌-◌, ◌*◌, ◌/◌, ◌%◌, ltb, leb, ◌==◌, ◌&&◌, Bool, if◌then◌else◌}
use tdx.Base.Int.{ℤ, pos, ◌+ℤ◌, pos_part}

pub data CalendarPeriod : Type 0 where
  week month quarter year : CalendarPeriod
  unsupported : CalendarPeriod

-- A year that begins in March: its number and the day in it.
abbrev pub march_year : ℕ → ℕ
march_year z =
    let doe = z % 146097 in z / 146097 * 400 + (doe - doe / 1460 + doe / 36524 - doe / 146096) / 365

abbrev pub march_day : ℕ → ℕ
march_day z =
    let doe = z % 146097 in
    let yoe = (doe - doe / 1460 + doe / 36524 - doe / 146096) / 365 in
    doe - (365 * yoe + yoe / 4 - yoe / 100)

unfoldable pub month_of : ℕ → ℕ
month_of day =
    let mp = (5 * march_day (day + 306) + 2) / 153 in if ltb mp 10 then mp + 3 else mp - 9

unfoldable pub year_of : ℕ → ℕ
unfolding month_of
year_of day = march_year (day + 306) + (if leb (month_of day) 2 then 1 else 0)

abbrev pub days_before : ℕ → ℕ
days_before y = let past = y - 1 in 365 * past + past / 4 - past / 100 + past / 400

-- The year and the week of the Thursday of the day's week.
abbrev pub thursday : ℕ → ℕ
thursday day = day - day % 7 + 3

unfoldable pub iso_week : ℕ → ℕ × ℕ
unfolding year_of
iso_week day = let y = year_of (thursday day) in (y, (thursday day - days_before y) / 7 + 1)

-- The local day of a time in Unix seconds.
abbrev pub local_day : ℤ → ℤ → ℕ
local_day zone unix = pos_part (unix +ℤ (zone +ℤ pos 62135596800)) / 86400

-- The year and the part of it; two keys are the same text where both are.
unfoldable pub calendar_key : CalendarPeriod → ℤ → ℤ → ℕ × ℕ
unfolding iso_week year_of month_of
calendar_key week zone unix = iso_week (local_day zone unix)
calendar_key month zone unix = let d = local_day zone unix in (year_of d, month_of d)
calendar_key quarter zone unix = let d = local_day zone unix in (year_of d, (month_of d - 1) / 3)
calendar_key year zone unix = (year_of (local_day zone unix), 0)
calendar_key unsupported zone unix = (year_of (local_day zone unix), 0)

abbrev pub same_key : ℕ × ℕ → ℕ × ℕ → Bool
same_key a b = (a.0 == b.0) && (a.1 == b.1)
