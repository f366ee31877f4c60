-- ===== src/Tests/Market.antt =====
-- Runs of the code classifiers and of `DecodeCode`.
use tdx.Base.{ℕ, ◌≡◌, refl, arith, true, false, ◌++◌, ◌⊎◌}
use tdx.Base.Outcome.{ok, err, unknown_code}
use tdx.Base.Text.{text}
use tdx.Market.Exchange.{exchange_us, exchange_sh, exchange_string, parse_exchange}
use tdx.Market.Kinds.{is_stock, is_etf, is_index, is_convertible_bond, add_prefix}
use tdx.Market.Symbol.{is_digits, is_stock_symbol, normalize_code, candidates}
use tdx.Market.Symbol.{split_prefix}
use tdx.Market.Decode.{decode_code, decode_step, split_suffix}
use tdx.Market.Exclusive.{kinds_exclude}
use tdx.Market.Names.{decode_code-us}
use tdx.Market.Prefixed.{IsMainland, decode_code-digits}

decode_chinese : decode_code (text "上海600000") ≡ ok (exchange_sh, text "600000")
unfolding decode_code decode_step split_prefix candidates normalize_code is_digits split_suffix
    parse_exchange
decode_chinese = refl

-- The same symbol by its suffix is in upper case.
decode_suffix : decode_code (text "aapl.us") ≡ ok (exchange_us, text "AAPL")
unfolding decode_code decode_step split_prefix candidates normalize_code is_digits is_stock_symbol
    split_suffix parse_exchange
decode_suffix = refl

-- A symbol of three letters is cut down to its last.
decode_usb : decode_code (text "USB") ≡ ok (exchange_us, text "B")
unfolding decode_code decode_step split_prefix candidates normalize_code is_digits is_stock_symbol
    split_suffix parse_exchange
decode_usb = refl

kinds_exclude_example :
    (is_stock (text "sh600000") ≡ true
      → (is_etf (text "sh600000") ≡ false)
        × (is_index (text "sh600000") ≡ false)
        × (is_convertible_bond (text "sh600000") ≡ false))
    × (is_etf (text "sh600000") ≡ true
        → (is_index (text "sh600000") ≡ false) × (is_convertible_bond (text "sh600000") ≡ false))
    × (is_index (text "sh600000") ≡ true → is_convertible_bond (text "sh600000") ≡ false)
kinds_exclude_example = kinds_exclude (text "sh600000")

decode_code-digits_example :
    ((add_prefix (text "000001") ≡ text "000001")
      × (decode_code (text "000001") ≡ err unknown_code))
    ⊎ ((e : ℕ) × IsMainland e
        × (add_prefix (text "000001") ≡ exchange_string e ++ text "000001")
        × (decode_code (text "000001") ≡ ok (e, text "000001")))
decode_code-digits_example = decode_code-digits (text "000001") (omega arith) refl

decode_code-us_example : decode_code (text "usb") ≡ ok (exchange_us, text "b")
unfolding is_stock_symbol
decode_code-us_example = decode_code-us (text "b") refl
