-- ===== src/Client/Resume.antt =====
-- Client/Until.antt against a server that holds the candles of a code and answers with pages of
-- them, decoded one by one.
use tdx.Base.{
  ℕ, suc, ◌+◌, ◌-◌, ◌%◌, ◌^◌, ◌≤◌, ◌<◌, ◌≡◌, refl, sym, ap, ap₂, ◌∙◌, ◌⊎◌, inl, inr, Bool, List, [],
  ◌∷◌, ◌++◌, length, take, drop, none, some, arith, take-append-drop,
}
use tdx.Base.Int.{ℤ, pos}
use tdx.Base.Outcome.{Outcome, ok}
use tdx.Kline.Defs.{Kline}
use tdx.Client.Paging.{Page}
use tdx.Client.Whole.{newest}
use tdx.Client.Until.{link_last, find_last, until_loop}
use tdx.Client.Chained.{chained, close_after, chained-append, link_last-chained, drop-chained}

abbrev pub chained_page : ℤ → List Kline → Page Kline
chained_page z xs = record { count = length xs; list = chained z xs }

-- The documented paging; the first candle of a page has no candle before it.
abbrev pub ServesKlines : (ℕ → Outcome (Page Kline)) → List Kline → Type 0
ServesKlines request all =
    (older newer : List Kline)
    → all ≡ older ++ newer
    → request (length newer) ≡ ok (chained_page (pos 0) (newest 800 older))

-- The candles from the last one that passes the test, or all, and those before.
unfoldable pub from_last : (Kline → Bool) → List Kline → List Kline
unfolding find_last
from_last f xs = elim (find_last f xs) [ some i ↦ drop i xs | none ↦ xs ]

unfoldable pub left_off : (Kline → Bool) → List Kline → List Kline
unfolding find_last
left_off f xs = elim (find_last f xs) [ some i ↦ take i xs | none ↦ [] ]

close_after-append :
    (z : ℤ) (xs ys : List Kline) → close_after z (xs ++ ys) ≡ close_after (close_after z xs) ys
unfolding close_after
close_after-append z [] ys = refl
close_after-append z (x ∷ xs) ys = close_after-append x.close xs ys

pub close_after-resumes :
    (left xs : List Kline)
    → (close_after (pos 0) xs ≡ pos 0) ⊎ (close_after (pos 0) xs ≡ close_after (pos 0) (left ++ xs))
unfolding close_after
close_after-resumes left [] = inl refl
close_after-resumes left (x ∷ xs) = inr (sym (close_after-append (pos 0) left (x ∷ xs)))

-- What a page adds in front of the candles that were read before.
pub linked :
    (z : ℤ) (xs ys : List Kline)
    → chained z xs ++ link_last (chained z xs) (chained z ys) ≡ chained z (xs ++ ys)
linked z xs ys =
    ap (λ t. chained z xs ++ t) (link_last-chained z xs ys) ∙ sym (chained-append z xs ys)

pub linked_from :
    (i : ℕ) (z : ℤ) (xs ys : List Kline)
    → drop i (chained z xs) ++ link_last (chained z xs) (chained z ys)
      ≡ chained (close_after z (take i xs)) (drop i xs ++ ys)
linked_from i z xs ys =
    ap₂ ◌++◌ (drop-chained i z xs) (
      link_last-chained z xs ys
      ∙ ap (λ c. chained c ys)
          (ap (close_after z) (sym (take-append-drop i xs))
            ∙ close_after-append z (take i xs) (drop i xs)))
    ∙ sym (chained-append (close_after z (take i xs)) (drop i xs) ys)

module _ (f : Kline → Bool) (request : ℕ → Outcome (Page Kline)) (fuel start : ℕ) where
  module _ (resp r : Page Kline) (answer : request start ≡ ok r) where
    pub until_loop_found :
        (i : ℕ)
        → find_last f r.list ≡ some i
        → until_loop f request (suc fuel) start resp
          ≡ some (
              ok (record {
                count = (resp.count + r.count + (2 ^ 16 - i % 2 ^ 16)) % 2 ^ 16;
                list = drop i r.list ++ link_last r.list resp.list;
              }))
    unfolding until_loop
    until_loop_found i h = rw (until_loop, answer, h) refl

    pub until_loop_last :
        find_last f r.list ≡ none
        → r.count < 800
        → until_loop f request (suc fuel) start resp
          ≡ some (
              ok (record {
                count = (resp.count + r.count) % 2 ^ 16;
                list = r.list ++ link_last r.list resp.list;
              }))
    unfolding until_loop
    until_loop_last h small = rw (until_loop, answer, h) (ground arith)

    pub until_loop_next :
        find_last f r.list ≡ none
        → 800 ≤ r.count
        → until_loop f request (suc fuel) start resp
          ≡ until_loop f request fuel ((start + 800) % 2 ^ 16) (record {
            count = (resp.count + r.count) % 2 ^ 16;
            list = r.list ++ link_last r.list resp.list;
          })
    unfolding until_loop
    until_loop_next h big = rw (until_loop, answer, h) (ground arith)

pub from_last_found :
    (f : Kline → Bool) (xs : List Kline) (i : ℕ)
    → find_last f xs ≡ some i
    → (from_last f xs ≡ drop i xs) × (left_off f xs ≡ take i xs)
unfolding from_last left_off
from_last_found f xs i h = (rw (from_last, h) refl, rw (left_off, h) refl)

pub from_last-none :
    (f : Kline → Bool) (xs : List Kline)
    → find_last f xs ≡ none
    → (from_last f xs ≡ xs) × (left_off f xs ≡ [])
unfolding from_last left_off
from_last-none f xs h = (rw (from_last, h) refl, rw (left_off, h) refl)
