-- ===== src/Pull/Whole.antt =====
-- `DayToCalendar` loses no volume, whatever the order of its input.
use tdx.Base.{
  ℕ, zero, suc, ◌≤◌, ◌≡◌, ◌≢◌, refl, sym, ap, ap₂, ◌∙◌, Bool, List, [], ◌∷◌, ◌++◌, map, length,
  some, arith, inl, inr, Bool-cases,
}
use mathlib.Core.List.{Permᴰ}
use tdx.Base.Int.{ℤ, ltb_ℤ, add64}
use tdx.Base.Outcome.{Outcome, ok}
use tdx.Kline.Modular.{total, add64_assoc, add64_comm, total-append}
use tdx.Pull.Candles.{Floats, KlineDay}
use tdx.Pull.Dates.{CalendarPeriod, week, month, quarter, year, unsupported, calendar_key, same_key}
use tdx.Pull.Calendar.{without_nil, insert_by, sort_by, cut_group, calendar_loop, day_to_calendar}
use tdx.Pull.Order.{Distinct, sort_by-perm}
use tdx.Pull.Periods.{day_volume, volume_of, day_to_period-whole}

pub without_nil-some {ℓ} : {A : Type ℓ} (ks : List A) → without_nil (map (λ k. some k) ks) ≡ ok ks
unfolding without_nil
without_nil-some [] = refl
without_nil-some (k ∷ ks) = rw (without_nil-some ks) refl

module _ {A : Type 0} (unix volume : A → ℤ) where
  total-insert_by :
      (k : A) (ls : List A)
      → total volume (insert_by unix k ls) ≡ add64 (volume k) (total volume ls)
  unfolding insert_by
  total-insert_by k [] = refl
  total-insert_by k (l ∷ ls) =
      let swap : add64 (volume l) (add64 (volume k) (total volume ls))
          ≡ add64 (volume k) (add64 (volume l) (total volume ls)) =
        sym (add64_assoc (volume l) (volume k) (total volume ls))
        ∙ ap (λ v. add64 v (total volume ls)) (add64_comm (volume l) (volume k))
        ∙ add64_assoc (volume k) (volume l) (total volume ls) in
      elim (Bool-cases (ltb_ℤ (unix l) (unix k))) [
        | inl later ↦ rw (insert_by, later) (ap (add64 (volume l)) (total-insert_by k ls) ∙ swap)
        | inr here ↦ rw (insert_by, here) refl
      ]

  pub total-sort_by : (ks : List A) → total volume (sort_by unix ks) ≡ total volume ks
  unfolding sort_by
  total-sort_by [] = refl
  total-sort_by (k ∷ ks) =
      total-insert_by k (sort_by unix ks) ∙ ap (add64 (volume k)) (total-sort_by ks)

cut_group-append {ℓ} :
    {A : Type ℓ} (same : A → Bool) (ks : List A)
    → (cut_group same ks).0 ++ (cut_group same ks).1 ≡ ks
unfolding cut_group
cut_group-append same [] = refl
cut_group-append same (k ∷ ks) = elim (Bool-cases (same k)) [
  | inl in_group ↦ rw (cut_group, in_group) (ap (◌∷◌ k) (cut_group-append same ks))
  | inr outside ↦ rw (cut_group, outside) refl
]

length-cut_group {ℓ} :
    {A : Type ℓ} (same : A → Bool) (ks : List A) → length (cut_group same ks).1 ≤ length ks
unfolding cut_group
length-cut_group same [] = omega arith
length-cut_group same (k ∷ ks) = ground (arith, length-cut_group same ks)

module _ {F : Type 0} (fl : Floats F) (select : Bool → ℤ → ℤ → ℤ) where
  calendar_loop-total :
      (key : KlineDay F → ℕ × ℕ) (fuel : ℕ) (input : List (KlineDay F))
      → length input ≤ fuel
      → (out : List (KlineDay F)) × (calendar_loop fl select key fuel input ≡ ok out)
        × (volume_of fl out ≡ volume_of fl input)
  unfolding calendar_loop
  calendar_loop-total key fuel [] h = ([], refl, refl)
  calendar_loop-total key zero (k ∷ ks) h = absurd (omega arith)
  calendar_loop-total key (suc fuel) (k ∷ ks) h =
      let same : KlineDay F → Bool = λ l. same_key (key l) (key k) in
      let cut = cut_group same ks in
      let (m, merged, kept) = day_to_period-whole fl select k cut.0 in
      let (out, looped, rest) =
        calendar_loop-total key fuel cut.1 (omega (arith, length-cut_group same ks)) in
      (
        m ∷ out,
        rw (merged, looped) refl,
        total-append (day_volume fl) (m ∷ []) out
            ∙ ap₂ add64 kept rest
            ∙ sym (total-append (day_volume fl) (k ∷ cut.0) cut.1)
            ∙ ap (λ ls. volume_of fl (k ∷ ls)) (cut_group-append same ks),
      )

  abbrev sorted : List (KlineDay F) → List (KlineDay F)
  sorted ks = sort_by (λ (k : KlineDay F). k.unix) ks

  abbrev grouped : CalendarPeriod → ℤ → List (KlineDay F) → Outcome (List (KlineDay F))
  grouped period zone input =
      calendar_loop fl select (λ k. calendar_key period zone k.unix) (length input) input

  day_to_calendar-some :
      (ks : List (KlineDay F)) (period : CalendarPeriod) (zone : ℤ)
      → period ≢ unsupported
      → day_to_calendar fl select (map (λ k. some k) ks) period zone
        ≡ grouped period zone (sorted ks)
  unfolding day_to_calendar
  day_to_calendar-some ks week zone h = rw (without_nil-some ks) refl
  day_to_calendar-some ks month zone h = rw (without_nil-some ks) refl
  day_to_calendar-some ks quarter zone h = rw (without_nil-some ks) refl
  day_to_calendar-some ks year zone h = rw (without_nil-some ks) refl
  day_to_calendar-some ks unsupported zone h = absurd (h refl)

  -- For a supported period and candles of which no two have the same time, `DayToCalendar` neither
  -- fails nor panics, returns the same candles in whatever order the input comes, and these have
  -- the total volume of the input, as an int64 sum.
  pub day_to_calendar-total :
      (period : CalendarPeriod) (zone : ℤ)
      → period ≢ unsupported
      → (ks ls : List (KlineDay F)) → Permᴰ ks ls
      → Distinct (λ (k : KlineDay F). k.unix) ks
      → (out : List (KlineDay F)) × (day_to_calendar fl select (map (λ k. some k) ks) period zone
          ≡ ok out)
        × (day_to_calendar fl select (map (λ k. some k) ls) period zone ≡ ok out)
        × (volume_of fl out ≡ volume_of fl ks)
  day_to_calendar-total period zone supported ks ls p apart =
      let (out, looped, kept) =
        calendar_loop-total (λ k. calendar_key period zone k.unix) (length (sorted ks)) (sorted ks)
          (omega arith) in
      (
        out,
        day_to_calendar-some ks period zone supported ∙ looped,
        day_to_calendar-some ls period zone supported
            ∙ ap (grouped period zone) (sym (sort_by-perm (λ (k : KlineDay F). k.unix) p apart))
            ∙ looped,
        kept ∙ total-sort_by (λ (k : KlineDay F). k.unix) (day_volume fl) ks,
      )
