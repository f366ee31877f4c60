-- ===== src/Tests/Block.antt =====
-- Runs of the parsers of block files and configuration files.
use Prim.{tt}
use tdx.Base.{◌≡◌, refl, arith, [], ◌∷◌, replicate}
use tdx.Base.Text.{text}
use tdx.Block.Lines.{without_nul, utf8_to_gbk, split_at}
use tdx.Block.File.{Block, parse_block_file}
use tdx.Block.Cells.{IsBlock}
use tdx.Block.RoundTrip.{file_bytes, parse_block_file-file_bytes}
use tdx.Block.Config.{uint16_from_str, parse_uint16, parse_tdx_zs, tdx_zs_line}
use tdx.Block.Special.{add_to_current, is_sp_code, sp_line, sp_loop, parse_sp_block}
use tdx.Block.Index.{name_to_code, short_to_full, find_alias, fill_block_index_alias}
use tdx.Tests.Wire.{big_endian, big_endian-IsBigEndian}

abbrev chips : Block
chips = record {
  name = text "chips";
  index = [];
  kind = 2;
  codes = text "1600000" ∷ text "0000001" ∷ [];
}

chips-IsBlock : IsBlock chips
chips-IsBlock = record {
  name_fits = omega arith;
  ascii = ground arith;
  no_index = refl;
  kind_fits = omega arith;
  few = omega arith;
  codes_good = ground arith;
}

parse_block_file-file_bytes_example :
    parse_block_file big_endian
      (λ s. s)
      (file_bytes (replicate 384 1) (chips ∷ chips ∷ []) (5 ∷ []))
    ≡ chips ∷ chips ∷ []
parse_block_file-file_bytes_example =
    parse_block_file-file_bytes big_endian (λ s. s) big_endian-IsBigEndian (λ s h. refl)
      (replicate 384 1) (chips ∷ chips ∷ []) (5 ∷ []) refl (omega arith)
      (chips-IsBlock, (chips-IsBlock, tt))

-- A number that is too large becomes the greatest uint16.
too_large : uint16_from_str (text "70000") ≡ 65535
unfolding uint16_from_str parse_uint16
too_large = refl

no_number : uint16_from_str (text "7x") ≡ 0
unfolding uint16_from_str parse_uint16
no_number = refl

zs_lines :
    parse_tdx_zs (λ s. s) (text "#name\nTrend|880081|5|2|0|Trend\r\nbad|\n")
    ≡ record {
      name = text "Trend";
      code = text "880081";
      kind = 5;
      sub_kind = 2;
      ref = text "Trend";
    }
      ∷ []
unfolding parse_tdx_zs tdx_zs_line utf8_to_gbk without_nul split_at uint16_from_str parse_uint16
zs_lines = refl

sp_lines :
    parse_sp_block (λ s. s) (text "0000014\r\n#A500\r\n0000011\r\nx\r\n1600000\r\n")
    ≡ record { name = text "A500"; codes = text "0000011" ∷ text "1600000" ∷ [] } ∷ []
unfolding parse_sp_block sp_loop sp_line add_to_current is_sp_code utf8_to_gbk without_nul split_at
sp_lines = refl

-- A short name is found through its full name.
by_alias :
    fill_block_index_alias
      (chips ∷ [])
      (record { name = text "chips all"; code = text "880081"; kind = 5; sub_kind = 0; ref = [] }
        ∷ [])
      (record { short = text "chips"; full = text "chips all" } ∷ [])
    ≡ (record chips { index = text "880081" } ∷ [], 1)
unfolding fill_block_index_alias find_alias name_to_code short_to_full
by_alias = refl
