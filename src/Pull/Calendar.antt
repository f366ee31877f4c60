-- ===== src/Pull/Calendar.antt =====
-- extend/pull/calendar.go: `DayToCalendar`.
use tdx.Base.{ℕ, zero, suc, Bool, if◌then◌else◌, List, [], ◌∷◌, length, Option, none, some}
use tdx.Base.Int.{ℤ, ltb_ℤ}
use tdx.Base.Outcome.{Outcome, ok, err, panic, ◌>>=◌, bad_period, no_kline}
use tdx.Pull.Candles.{Floats, KlineDay, day_to_period}
use tdx.Pull.Dates.{CalendarPeriod, unsupported, calendar_key, same_key}

-- A list of pointers, none of which may be nil.
unfoldable pub without_nil {ℓ} : {A : Type ℓ} → List (Option A) → Outcome (List A)
without_nil [] = ok []
without_nil (none ∷ ks) = err no_kline
without_nil (some k ∷ ks) = without_nil ks >>= λ rest. ok (k ∷ rest)

-- `sort.SliceStable` by a time: an item goes before those of the same time that follow it.
module _ {ℓ} {A : Type ℓ} (unix : A → ℤ) where
  unfoldable pub insert_by : A → List A → List A
  insert_by k [] = k ∷ []
  insert_by k (l ∷ ls) =
      let rest = insert_by k ls in if ltb_ℤ (unix l) (unix k) then l ∷ rest else k ∷ l ∷ ls

  unfoldable pub sort_by : List A → List A
  unfolding insert_by
  sort_by [] = []
  sort_by (k ∷ ks) = insert_by k (sort_by ks)

-- `for end < len(input) && key(input[end]) == group`: the items that follow with the same key, and
-- the rest.
unfoldable pub cut_group {ℓ} : {A : Type ℓ} → (A → Bool) → List A → List A × List A
cut_group same [] = ([], [])
cut_group same (k ∷ ks) =
    let rest = cut_group same ks in if same k then (k ∷ rest.0, rest.1) else ([], k ∷ ks)

abbrev pub first_of {ℓ} : {A : Type ℓ} → List A → Outcome A
first_of [] = panic
first_of (k ∷ ks) = ok k

module _ {F : Type 0} (fl : Floats F) (select : Bool → ℤ → ℤ → ℤ) where
  -- Each round takes a candle at least, so `length input` rounds are enough.
  unfoldable pub calendar_loop :
      (KlineDay F → ℕ × ℕ) → ℕ → List (KlineDay F) → Outcome (List (KlineDay F))
  unfolding cut_group day_to_period
  calendar_loop key fuel [] = ok []
  calendar_loop key zero (k ∷ ks) = ok []
  calendar_loop key (suc fuel) (k ∷ ks) =
      let cut = cut_group (λ l. same_key (key l) (key k)) ks in
      day_to_period fl select (k ∷ cut.0) (length (k ∷ cut.0)) >>= λ merged.
      first_of merged >>= λ m. calendar_loop key fuel cut.1 >>= λ rest. ok (m ∷ rest)

  unfoldable pub day_to_calendar :
      List (Option (KlineDay F)) → CalendarPeriod → ℤ → Outcome (List (KlineDay F))
  unfolding calendar_loop without_nil sort_by calendar_key
  day_to_calendar ks unsupported zone = err bad_period
  day_to_calendar ks period zone = without_nil ks >>= λ days.
      let input = sort_by (λ (k : KlineDay F). k.unix) days in
      calendar_loop (λ k. calendar_key period zone k.unix) (length input) input
