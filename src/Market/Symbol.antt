-- ===== src/Market/Symbol.antt =====
-- protocol/unit.go: the shapes of a code (`isDigits`, `isStockSymbol`, `isFuturesCode`),
-- `normalizeCode` and `splitPrefix`. The source walks runes where the model walks bytes: a byte from
-- 0x80 on stands for a rune that every test refuses as well.
use tdx.Base.{ℕ, Bool, true, false, ◌&&◌, ◌||◌, not, ◌==◌, ltb, if◌then◌else◌}
use tdx.Base.{List, [], ◌∷◌, ◌++◌, length, drop, Option, none, some}
use tdx.Base.Outcome.{
  Outcome, ok, err, panic, empty_code, bad_symbol, code_too_long, bad_code_length,
}
use tdx.Base.Text.{Bytes, starts_with, to_lower, to_upper, within}
use tdx.Market.Exchange.{
  exchange_us, exchange_hk, exchange_sho, exchange_szo, exchange_of, exchange_cff, exchange_czc,
  exchange_dce, exchange_shf, exchange_gfe, exchange_qhz, exchange_hi, exchange_hg, exchange_nq,
  exchange_string, exchange_name, all_exchanges,
}

abbrev pub is_digit : ℕ → Bool
is_digit c = within b'0' b'9' c

abbrev pub is_letter : ℕ → Bool
is_letter c = within b'a' b'z' c || within b'A' b'Z' c

abbrev pub all_bytes : (ℕ → Bool) → Bytes → Bool
all_bytes p [] = true
all_bytes p (c ∷ s) = p c && all_bytes p s

abbrev any_byte : (ℕ → Bool) → Bytes → Bool
any_byte p [] = false
any_byte p (c ∷ s) = p c || any_byte p s

unfoldable pub is_digits : Bytes → Bool
is_digits s = if length s == 0 then false else all_bytes is_digit s

abbrev pub is_symbol_byte : ℕ → Bool
is_symbol_byte c = is_letter c || c == b'.' || c == b'-'

unfoldable pub is_stock_symbol : Bytes → Bool
is_stock_symbol s = if length s == 0 || ltb 5 (length s) then false else all_bytes is_symbol_byte s

unfoldable pub is_futures_code : Bytes → Bool
is_futures_code s =
    if ltb (length s) 2 || ltb 6 (length s)
    then false
    else all_bytes (λ c. is_letter c || is_digit c) s
      && (any_byte is_letter s && any_byte is_digit s)

abbrev is_one_of : ℕ → List ℕ → Bool
is_one_of e [] = false
is_one_of e (x ∷ xs) = e == x || is_one_of e xs

-- The markets of the second case of the `switch`.
abbrev pub mixed_markets : List ℕ
mixed_markets =
    exchange_hk ∷ exchange_sho ∷ exchange_szo ∷ exchange_of ∷ exchange_cff ∷ exchange_czc
    ∷ exchange_dce ∷ exchange_shf ∷ exchange_gfe ∷ exchange_qhz ∷ exchange_hi ∷ exchange_hg
    ∷ exchange_nq ∷ []

unfoldable pub normalize_code : ℕ → Bytes → Outcome Bytes
unfolding is_stock_symbol is_digits
normalize_code e body =
    if length body == 0
    then err empty_code
    else if e == exchange_us
    then if is_stock_symbol body then ok (to_upper body) else err bad_symbol
    else if is_one_of e mixed_markets
    then if is_stock_symbol body
      then err bad_symbol
      else if ltb 6 (length body)
      then err code_too_long
      else ok body
    else if not (length body == 6) || not (is_digits body)
    then err bad_code_length
    else ok body

-- `cand`: a market, and the length of the name that the code begins with.
pub record Candidate : Type 0 where
  pub ex : ℕ
  pub ln : ℕ

abbrev pub candidate : Bytes → ℕ → Bytes → List Candidate
candidate s e name =
    if ltb (length name) (length s) && starts_with (to_lower s) name
    then record { ex = e; ln = length name } ∷ []
    else []

-- The first loop, over the markets that are left.
unfoldable pub candidates : Bytes → List ℕ → List Candidate
candidates s [] = []
candidates s (e ∷ es) =
    candidate s e (to_lower (exchange_string e))
    ++ (candidate s e (to_lower (exchange_name e)) ++ candidates s es)

-- The inner loop of the sort moves `x` to the left past what is shorter; the list holds what stands
-- left of it, the nearest first.
abbrev sift : Candidate → List Candidate → List Candidate
sift x [] = x ∷ []
sift x (y ∷ ys) = if ltb y.ln x.ln then y ∷ sift x ys else x ∷ y ∷ ys

-- The outer loop; the first list is the sorted part from its end.
abbrev sort_onto : List Candidate → List Candidate → List Candidate
sort_onto done [] = done
sort_onto done (x ∷ xs) = sort_onto (sift x done) xs

abbrev reverse_onto : List Candidate → List Candidate → List Candidate
reverse_onto acc [] = acc
reverse_onto acc (x ∷ xs) = reverse_onto (x ∷ acc) xs

abbrev pub longest_first : List Candidate → List Candidate
longest_first cs = reverse_onto [] (sort_onto [] cs)

-- A candidate counts if its market accepts the rest of the code, which is returned as it is.
abbrev accepted : Candidate → Bytes → Outcome Bytes → Option (ℕ × Bytes)
accepted x body (ok _) = some (x.ex, body)
accepted x body (err _) = none
accepted x body panic = none

abbrev first_some : Option (ℕ × Bytes) → Option (ℕ × Bytes) → Option (ℕ × Bytes)
first_some (some r) later = some r
first_some none later = later

abbrev first_accepted : Bytes → List Candidate → Option (ℕ × Bytes)
first_accepted s [] = none
first_accepted s (x ∷ xs) =
    first_some (accepted x (drop x.ln s) (normalize_code x.ex (drop x.ln s))) (first_accepted s xs)

unfoldable pub split_prefix : Bytes → Option (ℕ × Bytes)
split_prefix s = first_accepted s (longest_first (candidates s all_exchanges))
