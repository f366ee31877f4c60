-- ===== src/Pull/Coverage.antt =====
-- extend/pull/coverage.go: the record of the range of minutes that was read, and its update in
-- `saveMinCoverage`. The databases are another module's: the old record is an argument.
use tdx.Base.{Bool, true, false, ◌&&◌, ◌||◌, not, if◌then◌else◌, Option, none, some}
use tdx.Base.Int.{ℤ, ltb_ℤ}
use tdx.Base.Outcome.{Outcome, ok, err, bad_range}

pub record MinuteCoverage : Type 0 where
  pub from : ℤ
  pub through : ℤ
  pub trade_fallback : Bool

abbrev pub lesser : ℤ → ℤ → ℤ
lesser a b = if ltb_ℤ b a then b else a

abbrev pub greater : ℤ → ℤ → ℤ
greater a b = if ltb_ℤ a b then b else a

abbrev pub same_bool : Bool → Bool → Bool
same_bool true b = b
same_bool false b = not b

-- The record that is stored in place of the old one.
unfoldable pub save_coverage : Option MinuteCoverage → MinuteCoverage → MinuteCoverage
save_coverage none c = c
save_coverage (some old) c =
    if same_bool old.trade_fallback c.trade_fallback
      && (not c.trade_fallback
          || (not (ltb_ℤ old.through c.from) && not (ltb_ℤ c.through old.from)))
    then record c { from = lesser old.from c.from; through = greater old.through c.through }
    else c

-- `SaveMinFallbackComplete`, for some candles.
unfoldable pub save_fallback : Option MinuteCoverage → ℤ → ℤ → Outcome MinuteCoverage
save_fallback old from through =
    if not (ltb_ℤ from through)
    then err bad_range
    else ok (save_coverage old (record { from = from; through = through; trade_fallback = true }))

-- `MinYearComplete`, with the first moment of the next year.
unfoldable pub year_complete : Option MinuteCoverage → ℤ → ℤ → Bool
year_complete none from next_year = false
year_complete (some c) from next_year =
    not (ltb_ℤ from c.from) && (not c.trade_fallback || not (ltb_ℤ c.through next_year))
