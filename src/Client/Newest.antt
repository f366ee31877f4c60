-- ===== src/Client/Newest.antt =====
-- The loop over pages of candles, page by page: what it returns is one chained list.
use tdx.Base.{
  ℕ, zero, suc, ◌+◌, ◌-◌, ◌*◌, ◌%◌, ◌^◌, ◌≤◌, ◌<◌, ◌≡◌, refl, sym, ap, ap₂, ◌∙◌, subst, ◌⊎◌, inl,
  inr, Bool, false, List, [], ◌∷◌, ◌++◌, length, take, drop, Option, none, some, arith, append-nil,
  append_assoc, length-append, length-take, length-drop, take_past, drop_past, take_within,
  drop_within,
}
use native.Mathlib.Decide.{dec_lt}
use tdx.Base.Int.{ℤ, pos}
use tdx.Base.Outcome.{Outcome, ok}
use tdx.Kline.Defs.{Kline}
use tdx.Client.Paging.{Page}
use tdx.Client.Whole.{newest, length-newest, take-append-newest, newest_all}
use tdx.Client.Until.{
  link_last, find_last, later_or, until_loop, get_kline_until, get_kline_all, get_index_until,
  get_index_all,
}
use tdx.Client.Chained.{
  chained, close_after, find_last-append, find_last-append_some, find_last-lt, find_last-chained,
}
use tdx.Client.Resume.{
  chained_page, ServesKlines, from_last, left_off, close_after-resumes, linked, linked_from,
  until_loop_found, until_loop_last, until_loop_next, from_last_found, from_last-none,
}

-- What the loop gives: the candles from the last that passes, chained, the first with the close
-- before it or, where a page begins there, with nothing.
abbrev pub IsResumed : (Kline → Bool) → List Kline → Option (Outcome (Page Kline)) → Type 0
IsResumed f all result =
    (z : ℤ) × (result ≡ some (ok (chained_page z (from_last f all))))
    × ((z ≡ pos 0) ⊎ (z ≡ close_after (pos 0) (left_off f all)))

module _ (f : Kline → Bool) (all older p newer : List Kline) (e : all ≡ older ++ (p ++ newer)) where
  found_in_page :
      (i : ℕ)
      → find_last f p ≡ some i
      → find_last f newer ≡ none
      → (from_last f all ≡ drop i p ++ newer) × (left_off f all ≡ older ++ take i p)
  found_in_page i found passed =
      let at : find_last f all ≡ some (length older + i) =
        ap (find_last f) e
        ∙ find_last-append_some f older (p ++ newer) i
            (find_last-append f p newer passed ∙ found) in
      let cut = from_last_found f all (length older + i) at in
      let inside : i ≤ length p = omega (arith, find_last-lt f p i found) in
      (
        cut.0
            ∙ ap (drop (length older + i)) e
            ∙ drop_past older (p ++ newer) i
            ∙ drop_within i p newer inside,
        cut.1
            ∙ ap (take (length older + i)) e
            ∙ take_past older (p ++ newer) i
            ∙ ap (λ t. older ++ t) (take_within i p newer inside),
      )

  page-IsResumed :
      (i : ℕ)
      → length all < 2 ^ 16
      → find_last f p ≡ some i
      → find_last f newer ≡ none
      → IsResumed f all (
          some (
            ok (record {
              count = (length newer + length p + (2 ^ 16 - i % 2 ^ 16)) % 2 ^ 16;
              list =
                  drop i (chained (pos 0) p)
                  ++ link_last (chained (pos 0) p) (chained (pos 0) newer);
            })))
  page-IsResumed i small found passed =
      let cut = found_in_page i found passed in
      let inside = find_last-lt f p i found in
      let sizes = ap length e ∙ length-append older (p ++ newer) in
      let rest = length-append p newer in
      let kept : (length newer + length p + (2 ^ 16 - i % 2 ^ 16)) % 2 ^ 16
          ≡ length (from_last f all) =
        omega
          (arith, ap length cut.0, length-append (drop i p) newer, length-drop i p, sizes, rest) in
      let z = close_after (pos 0) (take i p) in
      let listed = linked_from i (pos 0) p newer ∙ ap (chained z) (sym cut.0) in
      (
        z,
        ap₂ (λ n l. some (ok (record { count = n; list = l }))) kept listed,
        elim (close_after-resumes older (take i p)) [
          | inl none_before ↦ inl none_before
          | inr same ↦ inr (same ∙ ap (close_after (pos 0)) (sym cut.1))
        ],
      )

module _ (f : Kline → Bool) (all p newer : List Kline)
    (clear : find_last f (p ++ newer) ≡ none) where
  joined_count :
      length p + length newer < 2 ^ 16 → (length newer + length p) % 2 ^ 16 ≡ length (p ++ newer)
  joined_count small = omega (arith, length-append p newer)

  all-IsResumed :
      all ≡ p ++ newer
      → length all < 2 ^ 16
      → IsResumed f all (
          some (
            ok (record {
              count = (length newer + length p) % 2 ^ 16;
              list = chained (pos 0) p ++ link_last (chained (pos 0) p) (chained (pos 0) newer);
            })))
  all-IsResumed e small =
      let whole = (from_last-none f all (ap (find_last f) e ∙ clear)).0 ∙ e in
      let sizes = ap length e ∙ length-append p newer in
      (
        pos 0,
        ap₂ (λ n l. some (ok (record { count = n; list = l })))
            (joined_count (omega (arith, sizes)) ∙ ap length (sym whole))
            (linked (pos 0) p newer ∙ ap (chained (pos 0)) (sym whole)),
        inl refl,
      )

Option-cases {ℓ} : {A : Type ℓ} (o : Option A) → ((a : A) × (o ≡ some a)) ⊎ (o ≡ none)
Option-cases (some a) = inl (a, refl)
Option-cases none = inr refl

-- Where no candle passes, the first is the first of all.
find_last_never : (xs : List Kline) → find_last (λ k. false) xs ≡ none
unfolding find_last later_or
find_last_never [] = refl
find_last_never (k ∷ ks) = ap (λ o. later_or o false) (find_last_never ks)

resume-all :
    (all : List Kline) {r : Option (Outcome (Page Kline))}
    → IsResumed (λ k. false) all r
    → r ≡ some (ok (chained_page (pos 0) all))
unfolding close_after
resume-all all (z, e, first) =
    let cut = from_last-none (λ k. false) all (find_last_never all) in
    let starts : z ≡ pos 0 = elim first [
      | inl zero_close ↦ zero_close
      | inr close ↦ close ∙ ap (close_after (pos 0)) cut.1
    ] in
    e ∙ ap₂ (λ y xs. some (ok (chained_page y xs))) starts cut.0

module _ (f : Kline → Bool) (blind : (k : Kline) (z : ℤ) → f (record k { last = z }) ≡ f k) where
  module _ (request : ℕ → Outcome (Page Kline)) (all : List Kline) where
    until_loop-IsResumed :
        ServesKlines request all
        → length all + 800 < 2 ^ 16
        → (fuel : ℕ) (older newer : List Kline) → all ≡ older ++ newer
        → find_last f newer ≡ none
        → length older < fuel * 800
        → IsResumed f all (until_loop f request fuel (length newer) (chained_page (pos 0) newer))
    until_loop-IsResumed serves small zero older newer e passed h = absurd (omega arith)
    until_loop-IsResumed serves small (suc fuel) older newer e passed h =
        let p = newest 800 older in
        let older' = take (length older - 800) older in
        let one = length-newest 800 older in
        let whole : all ≡ older' ++ (p ++ newer) =
          e
          ∙ ap (λ xs. xs ++ newer) (sym (take-append-newest 800 older))
          ∙ append_assoc older' p newer in
        let sizes = ap length e ∙ length-append older newer in
        let seen = find_last-chained f blind (pos 0) p in
        let page = chained_page (pos 0) p in
        let done = chained_page (pos 0) newer in
        let answer = serves older newer e in
        elim (Option-cases (find_last f p)) [
          | inl (i, found) ↦
              subst (IsResumed f all)
                (sym (
                  until_loop_found f request fuel (length newer) done page answer i (seen ∙ found)))
                (page-IsResumed f all older' p newer whole i (omega arith) found passed)
          | inr missed ↦
              let clear = find_last-append f p newer passed ∙ missed in
              elim (dec_lt (length older) 800) [
                | yes last ↦
                    subst (IsResumed f all)
                      (sym (
                        until_loop_last f request fuel (length newer) done page answer
                          (seen ∙ missed) (omega (arith, one))))
                      (all-IsResumed f all p newer clear
                        (e ∙ ap (λ xs. xs ++ newer) (sym (newest_all 800 older (omega arith))))
                        (omega arith))
                | no more ↦
                    let joined = joined_count f all p newer clear (omega (arith, one, sizes)) in
                    let start : (length newer + 800) % 2 ^ 16 ≡ length (p ++ newer) =
                      omega (arith, one, sizes, length-append p newer) in
                    subst (IsResumed f all)
                      (sym (
                        until_loop_next f request fuel (length newer) done page answer
                          (seen ∙ missed) (omega (arith, one))
                        ∙ ap₂ (until_loop f request fuel) start (
                            ap₂ (λ n l. record { count = n; list = l }) joined
                              (linked (pos 0) p newer))))
                      (until_loop-IsResumed serves small fuel older' (p ++ newer) whole clear
                        (omega (arith, length-take (length older - 800) older)))
              ]
        ]

    get_kline_until-IsResumed :
        ServesKlines request all
        → length all + 800 < 2 ^ 16
        → (fuel : ℕ) → length all < fuel * 800
        → IsResumed f all (get_kline_until f request fuel)
          × IsResumed f all (get_index_until f request fuel)
    unfolding get_kline_until get_index_until find_last chained
    get_kline_until-IsResumed serves small fuel enough =
        let whole =
          until_loop-IsResumed serves small fuel all [] (sym (append-nil all)) refl enough in
        (whole, whole)

-- Where the server answers with pages of 800 candles, newest pages first, of a code with fewer than
-- 64736 candles, and the test does not look at `last`, the loops of `GetKlineUntil` and
-- `GetIndexUntil` end within one round per 800 candles and one more. They return the candles from
-- the last one on that passes the test, or all of them: each candle's `last` is the close of the
-- candle before it, over the borders of the pages too, and that of the first candle is the close
-- before it or 0. `GetKlineAll` and `GetIndexAll` return all candles, the first with 0.
pub get_kline-chained :
    (f : Kline → Bool)
    → ((k : Kline) (z : ℤ) → f (record k { last = z }) ≡ f k)
    → (request : ℕ → Outcome (Page Kline)) (all : List Kline) → ServesKlines request all
    → length all + 800 < 2 ^ 16
    → (fuel : ℕ) → length all < fuel * 800
    → IsResumed f all (get_kline_until f request fuel)
      × IsResumed f all (get_index_until f request fuel)
      × (get_kline_all request fuel ≡ some (ok (chained_page (pos 0) all)))
      × (get_index_all request fuel ≡ some (ok (chained_page (pos 0) all)))
unfolding get_kline_all get_index_all
get_kline-chained f blind request all serves small fuel enough =
    let some_pass = get_kline_until-IsResumed f blind request all serves small fuel enough in
    let no_pass =
      get_kline_until-IsResumed (λ k. false) (λ k z. refl) request all serves small fuel enough in
    (some_pass.0, some_pass.1, resume-all all no_pass.0, resume-all all no_pass.1)
