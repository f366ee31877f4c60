-- ===== src/Block/Special.antt =====
-- protocol/model_spblock.go: `ParseSpBlock`, `isSpCode` and `SpBlockByName`.
use tdx.Base.{
  ◌==◌, Bool, true, ◌&&◌, if◌then◌else◌, List, [], ◌∷◌, ◌++◌, length, drop, Option, none, some,
}
use tdx.Base.Text.{Bytes, within, starts_with, trim_space, eqb_text}
use tdx.Block.Lines.{utf8_to_gbk, trim_end, trim_start, split_at, is_blank}

pub record SpBlock : Type 0 where
  pub name : Bytes
  pub codes : List Bytes

abbrev pub all_digits : Bytes → Bool
all_digits [] = true
all_digits (c ∷ s) = within b'0' b'9' c && all_digits s

unfoldable pub is_sp_code : Bytes → Bool
is_sp_code s = length s == 7 && all_digits s

-- `cur` is the last block of the list, and nil while the list is empty.
unfoldable pub add_to_current : List SpBlock → Bytes → List SpBlock
add_to_current [] code = []
add_to_current (b ∷ []) code = record b { codes = b.codes ++ code ∷ [] } ∷ []
add_to_current (b ∷ d ∷ bs) code = b ∷ add_to_current (d ∷ bs) code

-- One line, with its returns and zero bytes taken off.
unfoldable pub sp_line : List SpBlock → Bytes → List SpBlock
unfolding add_to_current is_sp_code
sp_line out ln =
    if is_blank ln
    then out
    else if starts_with ln (b'#' ∷ [])
    then out ++ record { name = trim_space (drop 1 ln); codes = [] } ∷ []
    else if is_sp_code ln
    then add_to_current out ln
    else out

unfoldable pub sp_loop : List SpBlock → List Bytes → List SpBlock
unfolding sp_line
sp_loop out [] = out
sp_loop out (ln ∷ lines) = sp_loop (sp_line out (trim_end 0 (trim_start 0 (trim_end 13 ln)))) lines

unfoldable pub parse_sp_block : (Bytes → Bytes) → Bytes → List SpBlock
unfolding sp_loop utf8_to_gbk split_at
parse_sp_block decode file = sp_loop [] (split_at 10 (utf8_to_gbk decode file))

unfoldable pub sp_block_by_name : List SpBlock → Bytes → Option SpBlock
sp_block_by_name [] name = none
sp_block_by_name (b ∷ bs) name =
    let rest = sp_block_by_name bs name in if eqb_text b.name name then some b else rest
