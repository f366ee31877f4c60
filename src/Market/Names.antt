-- ===== src/Market/Names.antt =====
-- The name of the American market as a prefix.
use tdx.Base.{ℕ, ◌<◌, true, false, [], ◌∷◌, ◌++◌, ◌≡◌, refl, arith, length, some}
use tdx.Base.Outcome.{ok}
use tdx.Base.Text.{Bytes, text, to_upper, trim_space, is_space, trim_left, trim_right}
use tdx.Market.Exchange.{exchange_us, all_exchanges}
use tdx.Market.Symbol.{
  is_stock_symbol, is_symbol_byte, normalize_code, split_prefix, candidates, all_bytes,
}
use tdx.Market.Decode.{decode_code, decode_step}

no_space : (c : ℕ) → is_symbol_byte c ≡ true → is_space c ≡ false
no_space c h = ground arith

trim_left-symbol : (c : ℕ) (s : Bytes) → is_symbol_byte c ≡ true → trim_left (c ∷ s) ≡ c ∷ s
trim_left-symbol c s h = rw (no_space c h)

trim_right-symbols : (s : Bytes) → all_bytes is_symbol_byte s ≡ true → trim_right s ≡ s
trim_right-symbols [] h = refl
trim_right-symbols (c ∷ []) h = ground (arith, no_space c)
trim_right-symbols (c ∷ d ∷ s) h = rw (trim_right-symbols (d ∷ s) (ground arith))

all_bytes-symbol : (w : Bytes) → is_stock_symbol w ≡ true → all_bytes is_symbol_byte w ≡ true
unfolding is_stock_symbol
all_bytes-symbol w h = ground arith

nonempty-symbol : (w : Bytes) → is_stock_symbol w ≡ true → 0 < length w
unfolding is_stock_symbol
nonempty-symbol w h = ground arith

trim-us : (w : Bytes) → is_stock_symbol w ≡ true → trim_space (text "us" ++ w) ≡ text "us" ++ w
trim-us w h = trim_right-symbols (text "us" ++ w) (ground (arith, all_bytes-symbol w h))

candidates_us :
    (w : Bytes)
    → 0 < length w
    → candidates (text "us" ++ w) all_exchanges ≡ record { ex = exchange_us; ln = 2 } ∷ []
unfolding candidates
candidates_us [] h = absurd (omega arith)
candidates_us (c ∷ w) h = ground arith

normalize-symbol :
    (w : Bytes) → is_stock_symbol w ≡ true → normalize_code exchange_us w ≡ ok (to_upper w)
unfolding normalize_code
normalize-symbol w h = ground (arith, nonempty-symbol w h)

split-us :
    (w : Bytes) → is_stock_symbol w ≡ true → split_prefix (text "us" ++ w) ≡ some (exchange_us, w)
unfolding split_prefix
split-us w h = rw (candidates_us w (nonempty-symbol w h), normalize-symbol w h)

-- An American symbol behind `us` comes back as it was typed, without the upper case that
-- `normalizeCode` gives it; so a symbol that itself begins with `us`, such as `usb`, loses those
-- two letters.
pub decode_code-us :
    (w : Bytes) → is_stock_symbol w ≡ true → decode_code (text "us" ++ w) ≡ ok (exchange_us, w)
unfolding decode_code decode_step
decode_code-us w h = rw (trim-us w h, split-us w h) (ground arith)
