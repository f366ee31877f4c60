-- ===== src/Market/Kinds.antt =====
-- protocol/unit.go: which codes are stocks, funds, indexes, blocks and convertible bonds, and
-- `AddPrefix`. A slice `code[:k]` is taken only of a code whose length was tested before.
use tdx.Base.{ℕ, Bool, false, ◌&&◌, ◌||◌, ◌==◌, if◌then◌else◌, ◌++◌}
use tdx.Base.{length, take, drop}
use tdx.Base.Text.{Bytes, text, eqb_text, starts_with, to_lower}
use tdx.Market.Exchange.{exchange_string, exchange_sz, exchange_sh, exchange_bj}

-- The test `len(code) != 6 { return false }` in front of each classifier of a bare code.
abbrev six : Bytes → Bool → Bool
six code test = if length code == 6 then test else false

-- `code[:k] == p` for a literal of length k.
abbrev heads : Bytes → Bytes → Bool
heads code p = eqb_text (take (length p) code) p

unfoldable pub is_sh_stock_number : Bytes → Bool
is_sh_stock_number code = six code (heads code (text "6"))

unfoldable pub is_sz_stock_number : Bytes → Bool
is_sz_stock_number code = six code (heads code (text "0") || heads code (text "30"))

unfoldable pub is_bj_stock_number : Bytes → Bool
is_bj_stock_number code = six code (heads code (text "92"))

unfoldable pub is_sh_etf : Bytes → Bool
is_sh_etf code = six code (
    heads code (text "50")
    || heads code (text "51")
    || heads code (text "52")
    || heads code (text "53")
    || heads code (text "56")
    || heads code (text "58"))

unfoldable pub is_sz_etf : Bytes → Bool
is_sz_etf code = six code (heads code (text "15") || heads code (text "16"))

unfoldable pub is_bj_etf : Bytes → Bool
is_bj_etf code = six code false

unfoldable pub is_sh_index : Bytes → Bool
is_sh_index code = six code (heads code (text "000") || eqb_text code (text "999999"))

unfoldable pub is_sz_index : Bytes → Bool
is_sz_index code = six code (heads code (text "399"))

unfoldable pub is_bj_index : Bytes → Bool
is_bj_index code = six code (heads code (text "899"))

unfoldable pub is_block : Bytes → Bool
is_block code = six code (heads code (text "880") || heads code (text "881"))

-- The prefixes of the two cases of `IsConvertibleBond`.
unfoldable pub sh_bond_number : Bytes → Bool
sh_bond_number number =
    starts_with number (text "110")
    || starts_with number (text "111")
    || starts_with number (text "113")
    || starts_with number (text "118")

unfoldable pub sz_bond_number : Bytes → Bool
sz_bond_number number =
    starts_with number (text "123")
    || starts_with number (text "125")
    || starts_with number (text "126")
    || starts_with number (text "127")
    || starts_with number (text "128")

unfoldable pub is_sh_bond : Bytes → Bool
unfolding sh_bond_number
is_sh_bond code = six code (sh_bond_number code)

unfoldable pub is_sz_bond : Bytes → Bool
unfolding sz_bond_number
is_sz_bond code = six code (sz_bond_number code)

-- `len(code) == 8 && strings.ToLower(code[0:2]) == e.String()`.
abbrev of_market : ℕ → Bytes → Bool
of_market e code = length code == 8 && eqb_text (to_lower (take 2 code)) (exchange_string e)

unfoldable pub is_sz_stock : Bytes → Bool
is_sz_stock code = of_market exchange_sz code && is_sz_stock_number (drop 2 code)

unfoldable pub is_sh_stock : Bytes → Bool
is_sh_stock code = of_market exchange_sh code && is_sh_stock_number (drop 2 code)

unfoldable pub is_bj_stock : Bytes → Bool
is_bj_stock code = of_market exchange_bj code && is_bj_stock_number (drop 2 code)

unfoldable pub is_stock : Bytes → Bool
unfolding is_sz_stock is_sh_stock is_bj_stock
is_stock code = is_sz_stock code || is_sh_stock code || is_bj_stock code

-- The whole code is lowered first here, and then cut.
abbrev market_is : ℕ → Bytes → Bool
market_is e code = eqb_text (take 2 code) (exchange_string e)

unfoldable pub is_etf : Bytes → Bool
is_etf code =
    let low = to_lower code in
    if length code == 8
    then market_is exchange_sh low && is_sh_etf (drop 2 low)
      || market_is exchange_sz low && is_sz_etf (drop 2 low)
    else false

unfoldable pub is_index : Bytes → Bool
is_index code =
    let low = to_lower code in
    if length code == 8
    then market_is exchange_sh low && is_sh_index (drop 2 low)
      || market_is exchange_sz low && is_sz_index (drop 2 low)
      || market_is exchange_bj low && is_bj_index (drop 2 low)
      || market_is exchange_sh low && is_block (drop 2 low)
    else false

unfoldable pub is_convertible_bond : Bytes → Bool
is_convertible_bond code =
    let low = to_lower code in
    let number = drop 2 low in
    if length code == 8
    then if market_is exchange_sh low
      then sh_bond_number number
      else if market_is exchange_sz low
      then sz_bond_number number
      else false
    else false

-- `AddPrefix`, in the order of its `switch`.
unfoldable pub add_prefix : Bytes → Bytes
add_prefix code =
    if length code == 6
    then if is_sh_stock_number code
      then exchange_string exchange_sh ++ code
      else if is_sz_stock_number code
      then exchange_string exchange_sz ++ code
      else if is_bj_stock_number code
      then exchange_string exchange_bj ++ code
      else if is_sh_etf code
      then exchange_string exchange_sh ++ code
      else if is_sz_etf code
      then exchange_string exchange_sz ++ code
      else if is_bj_etf code
      then exchange_string exchange_bj ++ code
      else if is_sh_index code
      then exchange_string exchange_sh ++ code
      else if is_sz_index code
      then exchange_string exchange_sz ++ code
      else if is_bj_index code
      then exchange_string exchange_bj ++ code
      else if is_block code
      then exchange_string exchange_sh ++ code
      else if is_sh_bond code
      then exchange_string exchange_sh ++ code
      else if is_sz_bond code
      then exchange_string exchange_sz ++ code
      else code
    else code
