-- ===== src/Block/Config.antt =====
-- `Uint16FromStr`, `ParseTdxZs`, `ParseTdxBjMore` and `ParseTdxHy` of protocol/model_block.go, and
-- `ParseTdxBk` of protocol/model_tdxbk.go.
use tdx.Base.{
  ℕ, ◌+◌, ◌-◌, ◌*◌, ◌%◌, ltb, leb, Bool, ◌||◌, not, if◌then◌else◌, List, [], ◌∷◌, length, Option,
  none, some,
}
use tdx.Base.Text.{Bytes, within, starts_with, trim_space}
use tdx.Block.Lines.{utf8_to_gbk, trim_end, split_at, is_blank, field}

-- `strconv.ParseUint(s, 10, 16)`: 0 at a byte that is no digit, the greatest value at the digit
-- where the number gets too large.
unfoldable pub parse_uint16 : ℕ → Bytes → ℕ
parse_uint16 n [] = n
parse_uint16 n (c ∷ s) =
    let m = n * 10 + (c - b'0') in
    let rest = parse_uint16 m s in
    if not (within b'0' b'9' c) then 0 else if ltb 65535 m then 65535 else rest

unfoldable pub uint16_from_str : Bytes → ℕ
unfolding parse_uint16
uint16_from_str s = parse_uint16 0 (trim_space s)

pub record TdxZs : Type 0 where
  pub name : Bytes
  pub code : Bytes
  pub kind : ℕ
  pub sub_kind : ℕ
  pub ref : Bytes

pub record TdxHy : Type 0 where
  pub market : ℕ
  pub code : Bytes
  pub tdx_hy : Bytes
  pub sw_hy : Bytes

pub record TdxBk : Type 0 where
  pub short : Bytes
  pub full : Bytes

pub record NamedCode : Type 0 where
  pub name : Bytes
  pub code : Bytes

-- One line: without its returns, none where the source goes on to the next.
abbrev pub filter_lines {ℓ} : {A : Type ℓ} → (Bytes → Option A) → List Bytes → List A
filter_lines parse [] = []
filter_lines parse (ln ∷ lines) =
    let rest = filter_lines parse lines in
    elim (parse (trim_end 13 ln)) [ none ↦ rest | some a ↦ a ∷ rest ]

abbrev pub is_comment : Bytes → Bool
is_comment ln = is_blank ln || starts_with ln (b'#' ∷ [])

unfoldable pub tdx_zs_line : Bytes → Option TdxZs
unfolding split_at uint16_from_str
tdx_zs_line ln =
    let f = split_at b'|' ln in
    if is_comment ln || ltb (length f) 2 || is_blank (field f 0) || is_blank (field f 1)
    then none
    else some (record {
      name = field f 0;
      code = field f 1;
      kind = if leb 3 (length f) then uint16_from_str (field f 2) else 0;
      sub_kind = if leb 4 (length f) then uint16_from_str (field f 3) else 0;
      ref = if leb 6 (length f) then field f 5 else [];
    })

unfoldable pub parse_tdx_zs : (Bytes → Bytes) → Bytes → List TdxZs
unfolding tdx_zs_line utf8_to_gbk split_at
parse_tdx_zs decode file = filter_lines tdx_zs_line (split_at 10 (utf8_to_gbk decode file))

unfoldable pub tdx_bj_more_line : Bytes → Option NamedCode
unfolding split_at
tdx_bj_more_line ln =
    let f = split_at b'|' ln in
    if is_comment ln || ltb (length f) 4 || is_blank (field f 1)
    then none
    else some (record { code = field f 1; name = field f 3 })

unfoldable pub parse_tdx_bj_more : (Bytes → Bytes) → Bytes → List NamedCode
unfolding tdx_bj_more_line utf8_to_gbk split_at
parse_tdx_bj_more decode file =
    filter_lines tdx_bj_more_line (split_at 10 (utf8_to_gbk decode file))

unfoldable pub tdx_bk_line : Bytes → Option TdxBk
unfolding split_at
tdx_bk_line ln =
    let f = split_at b'|' ln in
    if is_comment ln || ltb (length f) 3 || is_blank (field f 1) || is_blank (field f 2)
    then none
    else some (record { short = field f 1; full = field f 2 })

unfoldable pub parse_tdx_bk : (Bytes → Bytes) → Bytes → List TdxBk
unfolding tdx_bk_line utf8_to_gbk split_at
parse_tdx_bk decode file = filter_lines tdx_bk_line (split_at 10 (utf8_to_gbk decode file))

-- `uint8(f[0][0] - '0')`
abbrev pub market_digit : Bytes → ℕ
market_digit [] = 0
market_digit (c ∷ s) = (c + 256 - b'0') % 256

unfoldable pub tdx_hy_line : Bytes → Option TdxHy
unfolding split_at
tdx_hy_line ln =
    let f = split_at b'|' ln in
    if is_blank ln || ltb (length f) 3 || is_blank (field f 0)
    then none
    else some (record {
      market = market_digit (field f 0);
      code = field f 1;
      tdx_hy = field f 2;
      sw_hy = if leb 6 (length f) then field f 5 else field f (length f - 1);
    })

-- This file is read without a conversion.
unfoldable pub parse_tdx_hy : Bytes → List TdxHy
unfolding tdx_hy_line split_at
parse_tdx_hy file = filter_lines tdx_hy_line (split_at 10 file)
