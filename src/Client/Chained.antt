-- ===== src/Client/Chained.antt =====
-- Candles that carry the closing price of the one before, and what the loop over pages keeps of
-- it.
use tdx.Base.{
  ℕ, zero, suc, ◌+◌, ◌<◌, ◌≡◌, refl, ap, ap₂, ◌∙◌, Bool, true, false, List, [], ◌∷◌, ◌++◌, length,
  take, drop, Option, none, some, arith,
}
use tdx.Base.Int.{ℤ}
use tdx.Kline.Defs.{Kline, last_price}
use tdx.Client.Until.{link_last, later_or, find_last}

-- Each candle's `last` is the close of the candle before it, and `z` that of the first.
unfoldable pub chained : ℤ → List Kline → List Kline
chained z [] = []
chained z (k ∷ ks) = record k { last = z } ∷ chained k.close ks

-- The close before the candle after `xs`.
unfoldable pub close_after : ℤ → List Kline → ℤ
close_after z [] = z
close_after z (k ∷ ks) = close_after k.close ks

pub length-chained : (z : ℤ) (xs : List Kline) → length (chained z xs) ≡ length xs
unfolding chained
length-chained z [] = refl
length-chained z (k ∷ ks) = ap suc (length-chained k.close ks)

pub chained-append :
    (z : ℤ) (xs ys : List Kline)
    → chained z (xs ++ ys) ≡ chained z xs ++ chained (close_after z xs) ys
unfolding chained close_after
chained-append z [] ys = refl
chained-append z (k ∷ ks) ys = ap (◌∷◌ (record k { last = z })) (chained-append k.close ks ys)

last_price-chained :
    (y z : ℤ) (k : Kline) (ks : List Kline)
    → last_price (chained y (k ∷ ks)) ≡ close_after z (k ∷ ks)
unfolding last_price chained close_after
last_price-chained y z k [] = refl
last_price-chained y z k (l ∷ ks) = last_price-chained k.close k.close l ks

-- The first candle of what was read before gets the close of the older page.
pub link_last-chained :
    (z : ℤ) (xs ys : List Kline)
    → link_last (chained z xs) (chained z ys) ≡ chained (close_after z xs) ys
unfolding link_last chained close_after
link_last-chained z [] ys = refl
link_last-chained z (k ∷ ks) [] = refl
link_last-chained z (k ∷ ks) (l ∷ ys) =
    ap (λ c. record l { last = c } ∷ chained l.close ys) (last_price-chained z z k ks)

pub drop-chained :
    (i : ℕ) (z : ℤ) (xs : List Kline)
    → drop i (chained z xs) ≡ chained (close_after z (take i xs)) (drop i xs)
unfolding chained close_after
drop-chained zero z xs = refl
drop-chained (suc i) z [] = refl
drop-chained (suc i) z (k ∷ ks) = drop-chained i k.close ks

later_or-lt :
    (o : Option ℕ) (here : Bool) (i n : ℕ)
    → ((j : ℕ) → o ≡ some j → j < n)
    → later_or o here ≡ some i
    → i < suc n
unfolding later_or
later_or-lt (some j) here i n below h = let e : suc j ≡ i = cc in omega (arith, below j refl)
later_or-lt none true i n below h = let e : 0 ≡ i = cc in omega arith
later_or-lt none false i n below h = cc

module _ (f : Kline → Bool) where
  pub find_last-append :
      (xs ys : List Kline) → find_last f ys ≡ none → find_last f (xs ++ ys) ≡ find_last f xs
  unfolding find_last
  find_last-append [] ys h = h
  find_last-append (x ∷ xs) ys h = ap (λ o. later_or o (f x)) (find_last-append xs ys h)

  pub find_last-append_some :
      (xs ys : List Kline) (i : ℕ)
      → find_last f ys ≡ some i
      → find_last f (xs ++ ys) ≡ some (length xs + i)
  unfolding find_last later_or
  find_last-append_some [] ys i h = h ∙ ap (λ n. some n) (omega arith)
  find_last-append_some (x ∷ xs) ys i h =
      ap (λ o. later_or o (f x)) (find_last-append_some xs ys i h) ∙ ap (λ n. some n) (omega arith)

  pub find_last-lt : (xs : List Kline) (i : ℕ) → find_last f xs ≡ some i → i < length xs
  unfolding find_last
  find_last-lt [] i h = cc
  find_last-lt (x ∷ xs) i h = later_or-lt (find_last f xs) (f x) i (length xs) (find_last-lt xs) h

  -- A test that does not look at `last` finds the same candle.
  pub find_last-chained :
      ((k : Kline) (z : ℤ) → f (record k { last = z }) ≡ f k)
      → (z : ℤ) (xs : List Kline) → find_last f (chained z xs) ≡ find_last f xs
  unfolding find_last chained
  find_last-chained blind z [] = refl
  find_last-chained blind z (k ∷ ks) = ap₂ later_or (find_last-chained blind k.close ks) (blind k z)
