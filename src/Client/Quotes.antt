-- ===== src/Client/Quotes.antt =====
-- `GetQuote` of client.go. `models` is `DefaultCodes`: none where it is nil, and for a code that it
-- knows the correction of a price, which is float64 arithmetic.
use tdx.Base.{◌==◌, ◌&&◌, not, Bool, if◌then◌else◌, List, [], ◌∷◌, length, Option, none, some}
use tdx.Base.Int.{ℤ}
use tdx.Base.Outcome.{Outcome, ok, err, panic, ◌>>=◌, no_codes, no_model, bad_count}
use tdx.Base.Text.{Bytes}
use tdx.Wire.Endian.{Conv}
use tdx.Wire.Frame.{Frame}
use tdx.Market.Kinds.{add_prefix, is_stock, is_index}
use tdx.Quote.Defs.{PriceLevel, Quote, quote_frame}
use tdx.Client.Session.{Cache, Answer, quote_answer}

abbrev pub as_quotes : Answer → Outcome (List Quote)
as_quotes a = elim a [ quote_answer qs ↦ ok qs | _ ↦ panic ]

-- Neither a stock nor an index.
abbrev pub needs_model : Bytes → Bool
needs_model code = not (is_stock code) && not (is_index code)

abbrev pub scale_levels : (ℤ → ℤ) → List PriceLevel → List PriceLevel
scale_levels price [] = []
scale_levels price (l ∷ ls) = record l { price = price l.price } ∷ scale_levels price ls

unfoldable pub scale_quote : (ℤ → ℤ) → Quote → Quote
scale_quote price q = record q {
  sell_level = scale_levels price q.sell_level;
  buy_level = scale_levels price q.buy_level;
  kline = record q.kline {
    last = price q.kline.last;
    open_price = price q.kline.open_price;
    high = price q.kline.high;
    low = price q.kline.low;
    close = price q.kline.close;
  };
}

module _ (models : Option (Bytes → Option (ℤ → ℤ))) where
  unfoldable pub prefix_codes : List Bytes → Outcome (List Bytes)
  prefix_codes [] = ok []
  prefix_codes (code ∷ codes) =
      let first = add_prefix code in
      let again : Outcome Bytes = elim models [
        | none ↦ err no_codes
        | some get ↦ ok (add_prefix first)
      ] in
      (if needs_model first then again else ok first) >>= λ v.
      prefix_codes codes >>= λ vs. ok (v ∷ vs)

  unfoldable pub model_of : Bytes → Outcome (ℤ → ℤ)
  model_of code = elim models [
    | none ↦ panic
    | some get ↦ elim (get code) [ none ↦ err no_model | some price ↦ ok price ]
  ]

  -- `quotes[i]` for each index of the codes.
  unfoldable pub correct_quotes : List Bytes → List Quote → Outcome (List Quote)
  correct_quotes [] qs = ok qs
  correct_quotes (code ∷ codes) [] = panic
  correct_quotes (code ∷ codes) (q ∷ qs) =
      (if needs_model code then (model_of code >>= λ price. ok (scale_quote price q)) else ok q)
      >>= λ q'. correct_quotes codes qs >>= λ rest. ok (q' ∷ rest)

  unfoldable pub get_quote :
      Conv → (Frame → Option Cache → Outcome Answer) → List Bytes → Outcome (List Quote)
  get_quote c ask codes = prefix_codes codes >>= λ full. quote_frame c full >>= λ f.
      ask f none >>= as_quotes >>= λ qs.
      if not (length qs == length full) then err bad_count else correct_quotes full qs
