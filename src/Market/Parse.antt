-- ===== src/Market/Parse.antt =====
-- `ParseExchange` against the two `switch` statements that name the markets.
use tdx.Base.{
  ℕ, zero, suc, ◌^◌, ◌<◌, ◌≡◌, ◌≢◌, ◌⊎◌, Bool, true, false, ◌&&◌, ◌||◌, not, ltb, ◌==◌, List, [],
  ◌∷◌,
}
use tdx.Base.Outcome.{Outcome, ok, err, panic}
use tdx.Base.Text.{Bytes, text, eqb_text, to_lower}
use tdx.Market.Exchange.{exchange_string, exchange_name, find_exchange}

-- A uint8 that `String` has a case for, and a text that is one of its two names in lower case.
pub record IsNamed (s : Bytes) (e : ℕ) : Type 0 where
  pub is_uint8 : e < 2 ^ 8
  pub known : exchange_string e ≢ text "unknown"
  pub named : (s ≡ to_lower (exchange_string e)) ⊎ (s ≡ to_lower (exchange_name e))

unfoldable is_known : ℕ → Bool
is_known e = ltb e (2 ^ 8) && not (eqb_text (exchange_string e) (text "unknown"))

abbrev all_known : List ℕ → Bool
all_known [] = true
all_known (e ∷ es) = is_known e && all_known es

-- The search for a name gives the market itself.
abbrev gives : ℕ → Outcome ℕ → Bool
gives e (ok x) = x == e
gives e (err why) = false
gives e panic = false

unfoldable is_found : List ℕ → Bytes → ℕ → Bool
is_found es s e = gives e (find_exchange s es)

unfoldable is_complete : List ℕ → ℕ → Bool
is_complete es e =
    not (is_known e)
    || (is_found es (to_lower (exchange_string e)) e && is_found es (to_lower (exchange_name e)) e)

abbrev all_complete : List ℕ → ℕ → Bool
all_complete es zero = true
all_complete es (suc n) = is_complete es n && all_complete es n
