-- ===== src/Block/File.antt =====
-- `Block` and `ParseBlockFile`. A position in the file is the list of the bytes from it on, which
-- is empty past the end.
use tdx.Base.{ℕ, zero, suc, ltb, if◌then◌else◌, List, [], ◌∷◌, length, take, drop}
use tdx.Base.Text.{Bytes}
use tdx.Wire.Endian.{Conv, uint16}
use tdx.Block.Lines.{utf8_to_gbk, trim_end, is_blank}

pub record Block : Type 0 where
  pub name : Bytes
  pub index : Bytes
  pub kind : ℕ
  pub codes : List Bytes

-- The codes of one block, up to the end of the file.
unfoldable pub code_cells : ℕ → Bytes → List Bytes
code_cells zero rest = []
code_cells (suc n) rest =
    let c = trim_end 0 (take 7 rest) in
    let more = code_cells n (drop 7 rest) in
    if ltb (length rest) 7 then [] else if is_blank c then more else c ∷ more

module _ (c : Conv) (decode : Bytes → Bytes) where
  unfoldable pub block_cell : Bytes → Block
  unfolding code_cells utf8_to_gbk
  block_cell rest = record {
    name = trim_end 0 (utf8_to_gbk decode (take 9 rest));
    index = [];
    kind = uint16 c (take 2 (drop 11 rest));
    codes = code_cells (uint16 c (take 2 (drop 9 rest))) (drop 13 rest);
  }

  -- Each block takes 13 bytes and 400 codes of 7.
  unfoldable pub block_cells : ℕ → Bytes → List Block
  unfolding block_cell
  block_cells zero rest = []
  block_cells (suc n) rest =
      let more = block_cells n (drop 2813 rest) in
      if ltb (length rest) 13 then [] else block_cell rest ∷ more

  unfoldable pub parse_block_file : Bytes → List Block
  unfolding block_cells
  parse_block_file file =
      if ltb (length file) 386
      then []
      else block_cells (uint16 c (take 2 (drop 384 file))) (drop 386 file)
