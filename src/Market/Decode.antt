-- ===== src/Market/Decode.antt =====
-- protocol/unit.go: `DecodeCode`.
use tdx.Base.{ℕ, ◌&&◌, ◌==◌, if◌then◌else◌}
use tdx.Base.{length, Option, none, some}
use tdx.Base.Outcome.{Outcome, ok, err, panic, empty_code, unknown_code, lone_prefix, needs_prefix}
use tdx.Base.Text.{Bytes, eqb_text, to_upper, trim_space, cut_last}
use tdx.Market.Exchange.{exchange_us, exchange_hk, parse_exchange, is_exchange_name}
use tdx.Market.Kinds.{add_prefix}
use tdx.Market.Symbol.{is_digits, is_stock_symbol, is_futures_code, normalize_code, split_prefix}

abbrev keep_ok : ℕ → Outcome Bytes → Option (ℕ × Bytes)
keep_ok e (ok number) = some (e, number)
keep_ok e (err _) = none
keep_ok e panic = none

abbrev suffix_market : Bytes → Outcome ℕ → Option (ℕ × Bytes)
suffix_market body (ok e) = keep_ok e (normalize_code e body)
suffix_market body (err _) = none
suffix_market body panic = none

abbrev suffix_cut : Option (Bytes × Bytes) → Option (ℕ × Bytes)
suffix_cut none = none
suffix_cut (some (body, suffix)) =
    if length body == 0 then none else suffix_market body (parse_exchange suffix)

-- Step 2, the form `body.market`; `none` where the source goes on to step 3.
unfoldable pub split_suffix : Bytes → Option (ℕ × Bytes)
split_suffix code = suffix_cut (cut_last b'.' code)

-- Step 3, by the shape of the code. `again` is the recursive call.
unfoldable pub decode_bare : (Bytes → Outcome (ℕ × Bytes)) → Bytes → Outcome (ℕ × Bytes)
decode_bare again code =
    let prefixed = add_prefix code in
    if length code == 6 && is_digits code
    then if eqb_text prefixed code then err unknown_code else again prefixed
    else if length code == 5 && is_digits code
    then ok (exchange_hk, code)
    else if is_stock_symbol code
    then if is_exchange_name code then err lone_prefix else ok (exchange_us, to_upper code)
    else if is_futures_code code
    then err needs_prefix
    else err unknown_code

abbrev decode_rest :
    (Bytes → Outcome (ℕ × Bytes))
    → Bytes
    → Option (ℕ × Bytes)
    → Option (ℕ × Bytes)
    → Outcome (ℕ × Bytes)
decode_rest again code (some r) suffixed = ok r
decode_rest again code none (some r) = ok r
decode_rest again code none none = decode_bare again code

-- One activation of `DecodeCode`.
unfoldable pub decode_step : (Bytes → Outcome (ℕ × Bytes)) → Bytes → Outcome (ℕ × Bytes)
decode_step again raw =
    let code = trim_space raw in
    if length code == 0
    then err empty_code
    else decode_rest again code (split_prefix code) (split_suffix code)

-- The function calls itself on a code with a market in front only, which the first step of that
-- call answers: two activations are enough, and a third one would be a `panic` here.
unfoldable pub decode_code : Bytes → Outcome (ℕ × Bytes)
decode_code raw = decode_step (decode_step (λ _. panic)) raw
