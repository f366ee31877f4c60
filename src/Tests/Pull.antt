-- ===== src/Tests/Pull.antt =====
-- Runs of the merging by the calendar.
use Prim.{tt}
use tdx.Base.{
  ℕ, ◌^◌, inl, ◌≡◌, refl, arith, Bool, true, false, List, [], ◌∷◌, map, some, All, if◌then◌else◌,
}
use mathlib.Core.List.{Permᴰ}
use tdx.Base.Int.{ℤ, pos, ◌+ℤ◌, ◌-ℤ◌, ◌*ℤ◌, wrap64, negsuc, add64, ltb_ℤ}
use tdx.Base.Outcome.{ok, err, panic, overlap, outside}
use tdx.Kline.Modular.{total}
use tdx.Pull.Candles.{Floats, KlineDay, KlineMinute}
use tdx.Pull.Sessions.{
  TradingSession, check_sessions, occupy, local_time, bucket_index, find_bucket, bucket_in,
  minute_to_sessions,
}
use tdx.Pull.Minutes.{minute_volume, IsDated, InSession, minute_to_sessions-total}
use tdx.Pull.Coverage.{MinuteCoverage, save_coverage}
use tdx.Pull.Dates.{week, iso_week, year_of, month_of}
use tdx.Pull.Calendar.{day_to_calendar}
use tdx.Pull.Periods.{volume_of}
use tdx.Pull.Whole.{day_to_calendar-total}

-- Exact numbers in place of floats.
abbrev whole_numbers : Floats ℤ
whole_numbers = record {
  yuan = λ z. z;
  float64 = λ z. z;
  add = add64;
  larger = λ a b. if ltb_ℤ a b then b else a;
  smaller = λ a b. if ltb_ℤ a b then a else b;
  none_yet = pos 0;
}

abbrev chosen : Bool → ℤ → ℤ → ℤ
chosen b x y = if b then x else y

abbrev day_at : ℕ → ℕ → KlineDay ℤ
day_at unix volume = record {
  unix = pos unix;
  open_price = pos 10;
  high = pos 12;
  low = pos 9;
  close = pos 11;
  volume = pos volume;
  amount = pos 1000;
  turnover = pos 1;
  float_stock = pos 50;
  total_stock = pos 100;
}

-- 2024-12-30 is a Monday, in the first week of 2025.
monday : iso_week 739249 ≡ (2025, 1)
unfolding iso_week year_of month_of
monday = refl

day_to_calendar-total_example :
    (out : List (KlineDay ℤ)) × (day_to_calendar whole_numbers chosen
        (map (λ k. some k) (day_at 1735542000 5 ∷ day_at 1735628400 7 ∷ []))
        week
        (pos 28800)
      ≡ ok out)
    × (day_to_calendar whole_numbers chosen
          (map (λ k. some k) (day_at 1735628400 7 ∷ day_at 1735542000 5 ∷ []))
          week
          (pos 28800)
        ≡ ok out)
    × (volume_of whole_numbers out
        ≡ volume_of whole_numbers (day_at 1735542000 5 ∷ day_at 1735628400 7 ∷ []))
day_to_calendar-total_example =
    day_to_calendar-total whole_numbers chosen week (pos 28800) (λ e. cc)
      (day_at 1735542000 5 ∷ day_at 1735628400 7 ∷ [])
      (day_at 1735628400 7 ∷ day_at 1735542000 5 ∷ []) (Permᴰ.swap refl refl)
      (((λ e. ground arith), tt), (tt, tt))

-- From 9:30 to 9:35.
abbrev opening : TradingSession
opening = record { start_minute = pos 570; end_minute = pos 575 }

opening_valid : check_sessions (opening ∷ []) (λ m. false) ≡ ok tt
unfolding check_sessions occupy
opening_valid = refl

-- A session that begins with the last minute of another overlaps it.
at_border :
    check_sessions
      (record { start_minute = pos 570; end_minute = pos 575 }
        ∷ record { start_minute = pos 575; end_minute = pos 580 }
        ∷ [])
      (λ m. false)
    ≡ err overlap
unfolding check_sessions occupy
at_border = refl

abbrev minute_at : ℕ → ℕ → KlineMinute ℤ
minute_at unix volume = record {
  unix = pos unix;
  open_price = pos 10;
  high = pos 12;
  low = pos 9;
  close = pos 11;
  volume = pos volume;
  amount = pos 1000;
  source = [];
}

-- 9:31 and 9:33 of 2024-12-30.
two_minutes-IsDated :
    All
      (λ (k : KlineMinute ℤ). IsDated (local_time (pos 28800) k.unix))
      (minute_at 1735522380 5 ∷ minute_at 1735522260 7 ∷ [])
unfolding ◌+ℤ◌
two_minutes-IsDated = ((omega arith, omega arith), ((omega arith, omega arith), tt))

two_minutes-InSession :
    All
      (λ (k : KlineMinute ℤ). InSession (local_time (pos 28800) k.unix) (opening ∷ []))
      (minute_at 1735522380 5 ∷ minute_at 1735522260 7 ∷ [])
unfolding ◌+ℤ◌ ◌-ℤ◌
two_minutes-InSession =
    (inl (inl (omega arith, omega arith)), (inl (inl (omega arith, omega arith)), tt))

-- A period whose product with 60 is 0.
period_wraps : bucket_index (2 ^ 62) (pos 60) ≡ panic
unfolding bucket_index wrap64 ◌*ℤ◌
period_wraps = refl

-- A second before the year 1 is in no session that begins at midnight.
before_year_one :
    find_bucket 5 (negsuc 0) 0 (record { start_minute = pos 0; end_minute = pos 60 } ∷ [])
    ≡ err outside
unfolding find_bucket bucket_in ◌+ℤ◌ ◌-ℤ◌
before_year_one = refl

minute_to_sessions-total_example :
    (out : List (KlineMinute ℤ)) × (minute_to_sessions whole_numbers
        (map (λ k. some k) (minute_at 1735522380 5 ∷ minute_at 1735522260 7 ∷ []))
        (pos 5)
        (pos 28800)
        (opening ∷ [])
      ≡ ok out)
    × (minute_to_sessions whole_numbers
          (map (λ k. some k) (minute_at 1735522260 7 ∷ minute_at 1735522380 5 ∷ []))
          (pos 5)
          (pos 28800)
          (opening ∷ [])
        ≡ ok out)
    × (total (minute_volume whole_numbers) out
        ≡ total
            (minute_volume whole_numbers)
            (minute_at 1735522380 5 ∷ minute_at 1735522260 7 ∷ []))
minute_to_sessions-total_example =
    minute_to_sessions-total whole_numbers 4 (pos 28800) opening [] (omega arith) opening_valid
      (minute_at 1735522380 5 ∷ minute_at 1735522260 7 ∷ [])
      (minute_at 1735522260 7 ∷ minute_at 1735522380 5 ∷ []) (Permᴰ.swap refl refl)
      (((λ e. ground arith), tt), (tt, tt)) two_minutes-IsDated two_minutes-InSession

-- Ranges of trades are joined where they touch, and replaced where they do not.
abbrev covered : ℕ → ℕ → MinuteCoverage
covered a b = record { from = pos a; through = pos b; trade_fallback = true }

touching : save_coverage (some (covered 3 5)) (covered 5 9) ≡ covered 3 9
unfolding save_coverage
touching = refl

apart : save_coverage (some (covered 3 5)) (covered 6 9) ≡ covered 6 9
unfolding save_coverage
apart = refl
