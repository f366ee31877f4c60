-- ===== src/Pull/Sessions.antt =====
-- extend/pull/calendar.go: `TradingSession` and `MinuteToSessions`. A local time is in seconds from
-- the first of January of the year 1, and the zone an offset in seconds.
use Prim.{tt}
use tdx.Base.{
  ℕ, zero, suc, ◌+◌, ◌-◌, ◌*◌, ◌%◌, ◌==◌, not, ◌&&◌, ◌||◌, Bool, true, false, if◌then◌else◌, List,
  [], ◌∷◌, Option, none, some,
}
use tdx.Base.Int.{
  ℤ, pos, negsuc, ◌+ℤ◌, ◌-ℤ◌, pos_part, residue, add64, sub64, mul64, div64, eqb_ℤ, ltb_ℤ,
}
use tdx.Base.Outcome.{Outcome, ok, err, panic, ◌>>=◌, bad_period, bad_session, overlap, outside}
use tdx.Block.Lines.{is_blank}
use tdx.Pull.Candles.{Floats, KlineMinute}
use tdx.Pull.Calendar.{without_nil, sort_by}

pub record TradingSession : Type 0 where
  pub start_minute : ℤ
  pub end_minute : ℤ

-- An end before the start is one on the next day.
abbrev pub session_start : TradingSession → ℕ
session_start s = pos_part s.start_minute

abbrev pub session_end : TradingSession → ℕ
session_end s =
    if ltb_ℤ s.end_minute s.start_minute
    then pos_part s.end_minute + 1440
    else pos_part s.end_minute

abbrev pub is_invalid_session : TradingSession → Bool
is_invalid_session s =
    ltb_ℤ s.start_minute (pos 0)
    || ltb_ℤ (pos 1439) s.start_minute
    || ltb_ℤ s.end_minute (pos 0)
    || ltb_ℤ (pos 1440) s.end_minute
    || eqb_ℤ s.start_minute s.end_minute

abbrev pub occupy_one : ℕ → (ℕ → Bool) → ℕ → Bool
occupy_one m occupied i = (i == m) || occupied i

-- `for m := s.StartMinute; m <= end; m++`: `rounds` minutes from `m` on.
unfoldable pub occupy : ℕ → ℕ → ℕ → ℕ → (ℕ → Bool) → Outcome (ℕ → Bool)
occupy zero m start end occupied = ok occupied
occupy (suc rounds) m start end occupied = elim ((m == end) && (m - start == 1440)) [
  | true ↦ occupy rounds (m + 1) start end occupied
  | false ↦ elim (occupied (m % 1440)) [
    | true ↦ err overlap
    | false ↦ occupy rounds (m + 1) start end (occupy_one (m % 1440) occupied)
  ]
]

unfoldable pub check_sessions : List TradingSession → (ℕ → Bool) → Outcome (Unit {0})
check_sessions [] occupied = ok tt
check_sessions (s ∷ ss) occupied =
    if is_invalid_session s
    then err bad_session
    else (occupy (session_end s + 1 - session_start s) (session_start s) (session_start s)
          (session_end s) occupied
        >>= check_sessions ss)

pub record Bucket : Type 0 where
  pub anchor : ℤ
  pub session : ℕ
  pub index : ℤ

abbrev pub same_bucket : Bucket → Bucket → Bool
same_bucket a b = eqb_ℤ a.anchor b.anchor && (a.session == b.session) && eqb_ℤ a.index b.index

-- It is negative before the year 1.
abbrev pub local_time : ℤ → ℤ → ℤ
local_time zone unix = unix +ℤ (zone +ℤ pos 62135596800)

-- The midnight of the day `back` days before that of `t`, and a session of that day.
abbrev pub midnight : ℤ → ℕ → ℤ
midnight t back = t -ℤ pos (residue 86400 t + back * 86400)

abbrev pub begins_at : ℤ → ℕ → TradingSession → ℤ
begins_at t back s = midnight t back +ℤ pos (session_start s * 60)

abbrev pub ends_at : ℤ → ℕ → TradingSession → ℤ
ends_at t back s = midnight t back +ℤ pos (session_end s * 60)

-- The moment of the beginning has a bucket of its own; the others are (start, end]. The product of
-- the period and 60 can wrap around, to 0 too.
unfoldable pub bucket_index : ℕ → ℤ → Outcome ℤ
bucket_index n elapsed =
    let seconds = mul64 (pos n) (pos 60) in
    if not (ltb_ℤ (pos 0) elapsed)
    then ok (negsuc 0)
    else if eqb_ℤ seconds (pos 0)
    then panic
    else ok (div64 (sub64 elapsed (pos 1)) seconds)

-- The session number `i`, of the day of `t` or of the day before.
unfoldable pub bucket_in : ℕ → ℤ → ℕ → TradingSession → ℕ → Outcome (Option Bucket)
bucket_in n t i s back =
    let begin = begins_at t back s in
    if ltb_ℤ t begin || ltb_ℤ (ends_at t back s) t
    then ok none
    else (bucket_index n (t -ℤ begin) >>= λ index.
        ok (some (record { anchor = begin; session = i; index = index })))

abbrev pub or_else : Option Bucket → Outcome Bucket → Outcome Bucket
or_else (some b) next = ok b
or_else none next = next

-- The first session that holds the time, with an error where there is none.
unfoldable pub find_bucket : ℕ → ℤ → ℕ → List TradingSession → Outcome Bucket
find_bucket n t i [] = err outside
find_bucket n t i (s ∷ ss) =
    let rest = find_bucket n t (i + 1) ss in
    bucket_in n t i s 0 >>= λ today.
    or_else today (bucket_in n t i s 1 >>= λ before. or_else before rest)

module _ {F : Type 0} (fl : Floats F) where
  abbrev pub into_minute : KlineMinute F → KlineMinute F → KlineMinute F
  into_minute l k = record l {
    high = fl.larger l.high k.high;
    low = fl.smaller l.low k.low;
    close = k.close;
    unix = k.unix;
    volume = add64 l.volume k.volume;
    amount = fl.add l.amount k.amount;
    source = if is_blank k.source then l.source else k.source;
  }

  module _ (bucket : ℤ → Outcome Bucket) where
    -- Behind a candle that is being filled, and its bucket.
    unfoldable pub session_loop :
        Bucket → KlineMinute F → List (KlineMinute F) → Outcome (List (KlineMinute F))
    session_loop previous last [] = ok (last ∷ [])
    session_loop previous last (k ∷ ks) = elim (bucket k.unix) [
      | ok current ↦ elim (same_bucket current previous) [
        | true ↦ session_loop current (into_minute last k) ks
        | false ↦ session_loop current k ks >>= λ rest. ok (last ∷ rest)
      ]
      | err e ↦ err e
      | panic ↦ panic
    ]

    unfoldable pub session_minutes : List (KlineMinute F) → Outcome (List (KlineMinute F))
    session_minutes [] = ok []
    session_minutes (k ∷ ks) = elim (bucket k.unix) [
      | ok current ↦ session_loop current k ks
      | err e ↦ err e
      | panic ↦ panic
    ]

  unfoldable pub minute_to_sessions :
      List (Option (KlineMinute F)) → ℤ → ℤ → List TradingSession → Outcome (List (KlineMinute F))
  minute_to_sessions ks (negsuc n) zone sessions = err bad_period
  minute_to_sessions ks (pos zero) zone sessions = err bad_period
  minute_to_sessions ks (pos (suc n)) zone [] = err bad_session
  minute_to_sessions ks (pos (suc n)) zone (s ∷ ss) =
      check_sessions (s ∷ ss) (λ m. false) >>= λ checked. without_nil ks >>= λ minutes.
      session_minutes (λ unix. find_bucket (suc n) (local_time zone unix) 0 (s ∷ ss))
        (sort_by (λ (k : KlineMinute F). k.unix) minutes)
