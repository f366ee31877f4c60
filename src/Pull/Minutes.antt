-- ===== src/Pull/Minutes.antt =====
-- `MinuteToSessions` loses no volume, whatever the order of its input.
use Prim.{tt}
use tdx.Base.{
  ℕ, suc, ◌+◌, ◌*◌, ◌^◌, ◌≤◌, ◌<◌, ◌||◌, ◌⊎◌, arith, ◌≡◌, refl, sym, ap, ◌∙◌, inl, inr, false, true,
  ◌≢◌, Bool-cases, List, [], ◌∷◌, map, some, none, All,
}
use mathlib.Core.List.{Permᴰ}
use tdx.Base.Int.{
  ℤ, pos, negsuc, ◌-ℤ◌, ◌≤ℤ◌, pos_part, neg_part, add64, sub64, mul64, div64, wrap64, wrap64_self,
  mul_pos, eqb_ℤ, ltb_ℤ,
}
use tdx.Base.Outcome.{Outcome, ok}
use tdx.Kline.Modular.{total, add64_assoc}
use tdx.Pull.Candles.{Floats, KlineMinute}
use tdx.Pull.Calendar.{insert_by, sort_by}
use tdx.Pull.Order.{Distinct, sort_by-perm}
use tdx.Pull.Whole.{without_nil-some, total-sort_by}
use tdx.Pull.Sessions.{
  TradingSession, check_sessions, Bucket, same_bucket, local_time, begins_at, ends_at, bucket_index,
  bucket_in, find_bucket, into_minute, session_loop, session_minutes, minute_to_sessions,
}

module _ {κ} {A : Type 0} (unix : A → ℤ) (P : A → Type κ) where
  All-insert_by : (k : A) (ls : List A) → P k → All P ls → All P (insert_by unix k ls)
  unfolding insert_by
  All-insert_by k [] h hs = (h, hs)
  All-insert_by k (l ∷ ls) h hs = elim (Bool-cases (ltb_ℤ (unix l) (unix k))) [
    | inl later ↦ rw (insert_by, later) (hs.0, All-insert_by k ls h hs.1)
    | inr here ↦ rw (insert_by, here) (h, hs)
  ]

  All-sort_by : (ks : List A) → All P ks → All P (sort_by unix ks)
  unfolding sort_by
  All-sort_by [] h = h
  All-sort_by (k ∷ ks) h = All-insert_by k (sort_by unix ks) h.0 (All-sort_by ks h.1)

-- Not before the begin of a session and not after its end; the session is of the day of `t`, or of
-- the day `back` days before.
abbrev pub IsWithin : ℤ → ℕ → TradingSession → Type 0
IsWithin t back s = (begins_at t back s ≤ℤ t) × (t ≤ℤ ends_at t back s)

-- Within 2 ^ 62 seconds of the year 1, where no time of Go wraps around.
abbrev pub IsDated : ℤ → Type 0
IsDated t = (pos_part t < 2 ^ 62) × (neg_part t < 2 ^ 62)

abbrev pub InSession : ℤ → List TradingSession → Type 0
InSession t [] = ⊥
InSession t (s ∷ ss) = (IsWithin t 0 s ⊎ IsWithin t 1 s) ⊎ InSession t ss

bucket_index_ok :
    (n : ℕ) (elapsed : ℤ) → 1 ≤ n → n ≤ 2 ^ 57 → (i : ℤ) × (bucket_index n elapsed ≡ ok i)
unfolding bucket_index
bucket_index_ok n elapsed lo few =
    let seconds : mul64 (pos n) (pos 60) ≡ pos (n * 60) =
      ap wrap64 (mul_pos n 60) ∙ wrap64_self (pos (n * 60)) (omega arith, omega arith) in
    let more : eqb_ℤ (pos (n * 60)) (pos 0) ≡ false = ground arith in
    elim (Bool-cases (ltb_ℤ (pos 0) elapsed)) [
      | inl later ↦ (div64 (sub64 elapsed (pos 1)) (pos (n * 60)), rw (later, seconds, more) refl)
      | inr first ↦ (negsuc 0, rw first refl)
    ]

not_away : (t begin end : ℤ) → begin ≤ℤ t → t ≤ℤ end → (ltb_ℤ t begin || ltb_ℤ end t) ≢ true
not_away t begin end lo hi away = ground arith

later_session :
    (t : ℤ) (s : TradingSession) (ss : List TradingSession)
    → ¬ IsWithin t 0 s
    → ¬ IsWithin t 1 s
    → InSession t (s ∷ ss)
    → InSession t ss
later_session t s ss out out' (inl (inl here)) = absurd (out here)
later_session t s ss out out' (inl (inr here)) = absurd (out' here)
later_session t s ss out out' (inr there) = there

module _ (n : ℕ) (t : ℤ) (some_minutes : 1 ≤ n) (few : n ≤ 2 ^ 57) where
  -- Within the session or not, the search does not panic.
  bucket_in_ok :
      (i : ℕ) (s : TradingSession) (back : ℕ)
      → ((b : Bucket) × (bucket_in n t i s back ≡ ok (some b)))
        ⊎ ((bucket_in n t i s back ≡ ok none) × ¬ (IsWithin t back s))
  unfolding bucket_in
  bucket_in_ok i s back =
      let (index, e) = bucket_index_ok n (t -ℤ begins_at t back s) some_minutes few in
      elim (Bool-cases (ltb_ℤ t (begins_at t back s) || ltb_ℤ (ends_at t back s) t)) [
        | inl away ↦ inr (
          rw away refl,
          λ within. not_away t (begins_at t back s) (ends_at t back s) within.0 within.1 away,
        )
        | inr here ↦
            inl (
              record { anchor = begins_at t back s; session = i; index = index },
              rw (here, e) refl,
            )
      ]

  find_bucket_ok :
      (i : ℕ) (ss : List TradingSession)
      → InSession t ss
      → (b : Bucket) × (find_bucket n t i ss ≡ ok b)
  unfolding find_bucket
  find_bucket_ok i [] h = absurd h
  find_bucket_ok i (s ∷ ss) h = elim (bucket_in_ok i s 0) [
    | inl (b, e) ↦ (b, rw e refl)
    | inr (e, out) ↦ elim (bucket_in_ok i s 1) [
      | inl (b, e') ↦ (b, rw (e, e') refl)
      | inr (e', out') ↦
          let (b, found) = find_bucket_ok (i + 1) ss (later_session t s ss out out' h) in
          (b, rw (e, e') found)
    ]
  ]

module _ {F : Type 0} (fl : Floats F) where
  abbrev pub minute_volume : KlineMinute F → ℤ
  minute_volume k = k.volume

  -- A time that has a bucket.
  abbrev HasBucket : (ℤ → Outcome Bucket) → KlineMinute F → Type 0
  HasBucket bucket k = (b : Bucket) × (bucket k.unix ≡ ok b)

  module _ (bucket : ℤ → Outcome Bucket) where
    session_loop-total :
        (previous : Bucket) (last : KlineMinute F) (ks : List (KlineMinute F))
        → All (HasBucket bucket) ks
        → (out : List (KlineMinute F)) × (session_loop fl bucket previous last ks ≡ ok out)
          × (total minute_volume out ≡ total minute_volume (last ∷ ks))
    unfolding session_loop
    session_loop-total previous last [] h = (last ∷ [], refl, refl)
    session_loop-total previous last (k ∷ ks) h =
        let (b, found) = h.0 in
        elim (Bool-cases (same_bucket b previous)) [
          | inl same ↦
              let (out, looped, kept) = session_loop-total b (into_minute fl last k) ks h.1 in
              (
                out,
                rw (session_loop, found, same) looped,
                kept ∙ add64_assoc last.volume k.volume (total minute_volume ks),
              )
          | inr other ↦
              let (out, looped, kept) = session_loop-total b k ks h.1 in
              (
                last ∷ out,
                rw (session_loop, found, other, looped) refl,
                ap (add64 last.volume) kept,
              )
        ]

    session_minutes-total :
        (ks : List (KlineMinute F))
        → All (HasBucket bucket) ks
        → (out : List (KlineMinute F)) × (session_minutes fl bucket ks ≡ ok out)
          × (total minute_volume out ≡ total minute_volume ks)
    unfolding session_minutes
    session_minutes-total [] h = ([], refl, refl)
    session_minutes-total (k ∷ ks) h =
        let (b, found) = h.0 in
        let (out, looped, kept) = session_loop-total b k ks h.1 in
        (out, rw (session_minutes, found) looped, kept)

  -- The bucket of a time in Unix seconds.
  abbrev pub bucket_of : ℕ → ℤ → List TradingSession → ℤ → Outcome Bucket
  bucket_of n zone sessions unix = find_bucket n (local_time zone unix) 0 sessions

  All-HasBucket :
      (n : ℕ) (zone : ℤ) (ss : List TradingSession)
      → suc n ≤ 2 ^ 57
      → (ks : List (KlineMinute F))
      → All (λ (k : KlineMinute F). InSession (local_time zone k.unix) ss) ks
      → All (HasBucket (bucket_of (suc n) zone ss)) ks
  All-HasBucket n zone ss few [] h = tt
  All-HasBucket n zone ss few (k ∷ ks) h = (
    find_bucket_ok (suc n) (local_time zone k.unix) (omega arith) few 0 ss h.0,
    All-HasBucket n zone ss few ks h.1,
  )

  minute_to_sessions-some :
      (ks : List (KlineMinute F)) (n : ℕ) (zone : ℤ) (s : TradingSession) (ss : List TradingSession)
      → check_sessions (s ∷ ss) (λ m. false) ≡ ok tt
      → minute_to_sessions fl (map (λ k. some k) ks) (pos (suc n)) zone (s ∷ ss)
        ≡ session_minutes fl
            (bucket_of (suc n) zone (s ∷ ss))
            (sort_by (λ (k : KlineMinute F). k.unix) ks)
  unfolding minute_to_sessions
  minute_to_sessions-some ks n zone s ss valid =
      rw (minute_to_sessions, valid, without_nil-some ks) refl

  -- For some sessions that are valid and do not overlap, a number of minutes from 1 to 2 ^ 57, and
  -- candles that all lie within 2 ^ 62 seconds of the year 1 and between the ends of a session, of
  -- their day or the day before, and of which no two have the same time, `MinuteToSessions` neither fails nor panics, returns the same candles
  -- in whatever order the input comes, and these have the total volume of the input, as an int64
  -- sum.
  pub minute_to_sessions-total :
      (n : ℕ) (zone : ℤ) (s : TradingSession) (ss : List TradingSession)
      → suc n ≤ 2 ^ 57
      → check_sessions (s ∷ ss) (λ m. false) ≡ ok tt
      → (ks ls : List (KlineMinute F)) → Permᴰ ks ls
      → Distinct (λ (k : KlineMinute F). k.unix) ks
      → All (λ (k : KlineMinute F). IsDated (local_time zone k.unix)) ks
      → All (λ (k : KlineMinute F). InSession (local_time zone k.unix) (s ∷ ss)) ks
      → (out : List (KlineMinute F)) × (minute_to_sessions fl
            (map (λ k. some k) ks)
            (pos (suc n))
            zone
            (s ∷ ss)
          ≡ ok out)
        × (minute_to_sessions fl (map (λ k. some k) ls) (pos (suc n)) zone (s ∷ ss) ≡ ok out)
        × (total minute_volume out ≡ total minute_volume ks)
  minute_to_sessions-total n zone s ss few valid ks ls p apart dated inside =
      let unix : KlineMinute F → ℤ = λ k. k.unix in
      let bucket = bucket_of (suc n) zone (s ∷ ss) in
      let (out, looped, kept) =
        session_minutes-total bucket (sort_by unix ks)
          (All-sort_by unix (HasBucket bucket) ks (All-HasBucket n zone (s ∷ ss) few ks inside)) in
      (
        out,
        minute_to_sessions-some ks n zone s ss valid ∙ looped,
        minute_to_sessions-some ls n zone s ss valid
            ∙ ap (session_minutes fl bucket) (sym (sort_by-perm unix p apart))
            ∙ looped,
        kept ∙ total-sort_by unix minute_volume ks,
      )
