-- ===== src/Client/Own.antt =====
-- client.go: an answer is decoded with the cache of its own request, whatever is sent and handled
-- between the two.
use tdx.Base.{
  ℕ, suc, ◌+◌, ◌%◌, ◌^◌, ◌<◌, ◌==◌, ◌≡◌, refl, ap, ◌∙◌, arith, true, false, Bool-cases, inl, inr,
  List, [], ◌∷◌, Option, none, some,
}
use tdx.Base.Outcome.{Outcome, ok, err, panic}
use tdx.Base.Text.{Bytes}
use tdx.Wire.Frame.{Frame, Response, decode_response}
use tdx.Client.Session.{
  Cache, Answer, Session, Decoders, find_cache, without_cache, keep_cache, told, decode_answer,
  handle_response, handle_message, send_frame,
}

find_cache-without_cache :
    (id j : ℕ)
    → ¬ (j ≡ id)
    → (es : List (ℕ × Cache)) → find_cache id (without_cache j es) ≡ find_cache id es
find_cache-without_cache id j other [] = refl
find_cache-without_cache id j other (e ∷ es) =
    let ih = find_cache-without_cache id j other es in
    elim (Bool-cases (e.0 == j)) [
      | inl here ↦ let elsewhere : (e.0 == id) ≡ false = ground arith in rw (here, elsewhere) ih
      | inr away ↦ elim (Bool-cases (e.0 == id)) [
        | inl found ↦ rw (away, found) refl
        | inr missed ↦ rw (away, missed) ih
      ]
    ]

find_cache-without_cache_same :
    (id : ℕ) (es : List (ℕ × Cache)) → find_cache id (without_cache id es) ≡ none
find_cache-without_cache_same id [] = refl
find_cache-without_cache_same id (e ∷ es) =
    let ih = find_cache-without_cache_same id es in
    elim (Bool-cases (e.0 == id)) [ inl here ↦ rw here ih | inr away ↦ rw (away, away) ih ]

find_cache-keep_cache :
    (id j : ℕ)
    → ¬ (j ≡ id)
    → (cache : Option Cache) (es : List (ℕ × Cache))
    → find_cache id (keep_cache j cache es) ≡ find_cache id es
find_cache-keep_cache id j other none es = refl
find_cache-keep_cache id j other (some val) es =
    let ih = find_cache-without_cache id j other es in
    elim (Bool-cases (j == id)) [ inl here ↦ absurd (ground arith) | inr away ↦ rw away ih ]

find_cache-keep_cache_same :
    (id : ℕ) (val : Cache) (es : List (ℕ × Cache))
    → find_cache id (keep_cache id (some val) es) ≡ some val
find_cache-keep_cache_same id val es = let same : (id == id) ≡ true = ground arith in rw same refl

told-msg_id : (s : Session) (id : ℕ) (a : Outcome Answer) → (told s id a).msg_id ≡ s.msg_id
told-msg_id s id (ok a) = refl
told-msg_id s id (err e) = refl
told-msg_id s id panic = refl

told-cached : (s : Session) (id : ℕ) (a : Outcome Answer) → (told s id a).cached ≡ s.cached
told-cached s id (ok a) = refl
told-cached s id (err e) = refl
told-cached s id panic = refl

module _ (d : Decoders) where
  -- The payload is no response with this id.
  abbrev pub NotFor : ℕ → Bytes → Type 0
  NotFor id payload =
      (r : Response) → decode_response d.reader.conv d.inflate payload ≡ ok r → ¬ (r.msg_id ≡ id)

  -- From one state to another by `n` frames sent and any messages handled that are not for `id`.
  pub data Between (id : ℕ) (s : Session) : ℕ → Session → Type 0 where
    nothing : Between id s 0 s
    sending :
        {n : ℕ} {t : Session} (f : Frame) (cache : Option Cache)
        → Between id s n t
        → Between id s (suc n) (send_frame d t f cache).0
    handling :
        {n : ℕ} {t : Session} (payload : Bytes)
        → NotFor id payload
        → Between id s n t
        → Between id s n (handle_message d t payload)

  pub record Waits (id : ℕ) (s : Session) (n : ℕ) (t : Session) : Type 0 where
    pub counted : t.msg_id ≡ (id + n) % 2 ^ 32
    pub kept : find_cache id t.cached ≡ find_cache id s.cached

  handle_response_other :
      (id : ℕ) (t : Session) (o : Outcome Response)
      → ((r : Response) → o ≡ ok r → ¬ (r.msg_id ≡ id))
      → ((handle_response d t o).msg_id ≡ t.msg_id)
        × (find_cache id (handle_response d t o).cached ≡ find_cache id t.cached)
  unfolding handle_response
  handle_response_other id t (ok r) other =
      let answer = decode_answer d r.kind (find_cache r.msg_id t.cached) r.body in
      (
        told-msg_id _ r.msg_id answer,
        ap (find_cache id) (told-cached _ r.msg_id answer)
            ∙ find_cache-without_cache id r.msg_id (other r refl) t.cached,
      )
  handle_response_other id t (err e) other = (refl, refl)
  handle_response_other id t panic other = (refl, refl)

  Between-Waits :
      (id : ℕ) (s : Session) (n : ℕ) (t : Session)
      → s.msg_id ≡ id
      → id < 2 ^ 32
      → n < 2 ^ 32
      → Between id s n t
      → Waits id s n t
  unfolding send_frame handle_message
  Between-Waits id s n t e small few nothing = record { counted = omega arith; kept = refl }
  Between-Waits id s n t e small few (sending {n = m} {t = u} f cache b) =
      let w = Between-Waits id s m u e small (omega arith) b in
      record {
        counted = let c = w.counted in omega arith;
        kept =
            find_cache-keep_cache id ((u.msg_id + 1) % 2 ^ 32)
              (λ same. let c = w.counted in omega arith) cache u.cached
            ∙ w.kept;
      }
  Between-Waits id s n t e small few (handling {t = u} payload other b) =
      let w = Between-Waits id s n u e small few b in
      let h = handle_response_other id u (decode_response d.reader.conv d.inflate payload) other in
      record { counted = h.0 ∙ w.counted; kept = h.1 ∙ w.kept }

  -- What the client does with the answer to a request, whatever came between: it is decoded with the
  -- request's own cache, told to the one who waits for it, and the cache is gone.
  pub handle_message_own :
      (s : Session) (f : Frame) (cache : Cache) (n : ℕ) (t : Session) (payload : Bytes)
      (r : Response)
      → n < 2 ^ 32
      → Between (send_frame d s f (some cache)).1.0 (send_frame d s f (some cache)).0 n t
      → decode_response d.reader.conv d.inflate payload ≡ ok r
      → r.msg_id ≡ (send_frame d s f (some cache)).1.0
      → (handle_message d t payload
          ≡ told
              (record t { cached = without_cache r.msg_id t.cached })
              r.msg_id
              (decode_answer d r.kind (some cache) r.body))
        × (find_cache r.msg_id (handle_message d t payload).cached ≡ none)
  unfolding handle_message handle_response send_frame
  handle_message_own s f cache n t payload r few b e own =
      let id : ℕ = (s.msg_id + 1) % 2 ^ 32 in
      let w = Between-Waits id (send_frame d s f (some cache)).0 n t refl (omega arith) few b in
      let found : find_cache r.msg_id t.cached ≡ some cache =
        ap (λ i. find_cache i t.cached) own
        ∙ (w.kept ∙ find_cache-keep_cache_same id cache s.cached) in
      let gone = find_cache-without_cache_same r.msg_id t.cached in
      let answer = decode_answer d r.kind (some cache) r.body in
      let handled : handle_message d t payload
          ≡ told (record t { cached = without_cache r.msg_id t.cached }) r.msg_id answer =
        ap (handle_response d t) e
        ∙ ap
            (λ v.
              told (record t { cached = without_cache r.msg_id t.cached }) r.msg_id
                (decode_answer d r.kind v r.body))
            found in
      (
        handled,
        ap (λ u. find_cache r.msg_id u.cached) handled
            ∙ (ap (find_cache r.msg_id) (told-cached _ r.msg_id answer) ∙ gone),
      )
