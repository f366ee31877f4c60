-- ===== src/Block/RoundTrip.antt =====
-- A block file that is written is read back.
use tdx.Base.{
  ltb-below, ℕ, suc, ◌+◌, ◌^◌, ◌≤◌, ◌<◌, ◌≡◌, refl, sym, ap, ap₂, ◌∙◌, List, [], ◌∷◌, ◌++◌, length,
  take, drop, All, arith, append_assoc, length-append, drop-append_self, drop_past,
}
use tdx.Base.Text.{Bytes}
use tdx.Wire.Endian.{Conv, IsBigEndian, uint16}
use tdx.Block.File.{Block, block_cell, block_cells, parse_block_file}
use tdx.Block.Cells.{
  put_uint16, block_bytes, blocks_bytes, IsBlock, KeepsAscii, length-block_bytes,
  block_cell-block_bytes, uint16-put_uint16,
}

abbrev pub file_bytes : Bytes → List Block → Bytes → Bytes
file_bytes head bs rest = head ++ put_uint16 (length bs) (blocks_bytes bs ++ rest)

module _ (c : Conv) (decode : Bytes → Bytes) where
  block_cells-next :
      (n : ℕ) (rest : Bytes)
      → 13 ≤ length rest
      → block_cells c decode (suc n) rest
        ≡ block_cell c decode rest ∷ block_cells c decode n (drop 2813 rest)
  unfolding block_cells
  block_cells-next n rest long = rw (block_cells, ltb-below (length rest) 13 long) refl

  parse_block_file-long :
      (file : Bytes)
      → 386 ≤ length file
      → parse_block_file c decode file
        ≡ block_cells c decode (uint16 c (take 2 (drop 384 file))) (drop 386 file)
  unfolding parse_block_file
  parse_block_file-long file long = rw (parse_block_file, ltb-below (length file) 386 long) refl

  module _ (big : IsBigEndian c) (keeps : KeepsAscii decode) where
    block_cells-blocks_bytes :
        (bs : List Block) (rest : Bytes)
        → All IsBlock bs
        → block_cells c decode (length bs) (blocks_bytes bs ++ rest) ≡ bs
    unfolding block_cells
    block_cells-blocks_bytes [] rest h = refl
    block_cells-blocks_bytes (b ∷ bs) rest h =
        let after = blocks_bytes bs ++ rest in
        let size = length-block_bytes b h.0 in
        ap (block_cells c decode (suc (length bs)))
          (append_assoc (block_bytes b) (blocks_bytes bs) rest)
        ∙ block_cells-next (length bs) (block_bytes b ++ after)
            (omega (arith, size, length-append (block_bytes b) after))
        ∙ ap₂ ◌∷◌ (block_cell-block_bytes b h.0 c decode big keeps after) (
            ap (λ n. block_cells c decode (length bs) (drop n (block_bytes b ++ after))) (sym size)
            ∙ ap (block_cells c decode (length bs)) (drop-append_self (block_bytes b) after)
            ∙ block_cells-blocks_bytes bs rest h.1)

    -- With the documented byte order of the conversions and a GBK decoder that keeps ASCII: behind any
    -- head of 384 bytes, and with anything after the last block, `ParseBlockFile` reads the blocks
    -- back that were written: at most 65535, each with a name of at most 9 ASCII characters and at
    -- most 400 codes of 1 to 7 characters, in fields filled up with zeros.
    pub parse_block_file-file_bytes :
        (head : Bytes) (bs : List Block) (rest : Bytes)
        → length head ≡ 384
        → length bs < 2 ^ 16
        → All IsBlock bs
        → parse_block_file c decode (file_bytes head bs rest) ≡ bs
    parse_block_file-file_bytes head bs rest size few good =
        let after = put_uint16 (length bs) (blocks_bytes bs ++ rest) in
        let behind : (i : ℕ) → drop (384 + i) (head ++ after) ≡ drop i after =
          λ i. ap (λ n. drop (n + i) (head ++ after)) (sym size) ∙ drop_past head after i in
        parse_block_file-long (head ++ after) (omega (arith, length-append head after))
        ∙ ap₂ (block_cells c decode)
            (ap (λ t. uint16 c (take 2 t)) (behind 0) ∙ uint16-put_uint16 c big (length bs) few)
            (behind 2)
        ∙ block_cells-blocks_bytes bs rest good
