-- ===== src/Client/Archive.antt =====
-- client.go: `GetZHBFiles` and the operations that parse one of its files or a block file. `unzip` is
-- the reader of zip archives: the files by name, or an error.
use tdx.Base.{◌==◌, if◌then◌else◌, List, [], length, Option, none, some}
use tdx.Base.Outcome.{Outcome, ok, err, ◌>>=◌, no_file}
use tdx.Base.Text.{Bytes, text}
use tdx.Wire.Endian.{Conv}
use tdx.Block.File.{Block, parse_block_file}
use tdx.Block.Config.{TdxZs, TdxBk, TdxHy, parse_tdx_zs, parse_tdx_bk, parse_tdx_hy}
use tdx.Block.Special.{SpBlock, parse_sp_block}
use tdx.Block.Index.{fill_block_index_alias}

abbrev pub Files : Type 0
Files = Bytes → Option Bytes

unfoldable pub get_zhb_files : (Bytes → Outcome Files) → Outcome Bytes → Outcome Files
get_zhb_files unzip report = report >>= λ raw. if length raw == 0 then err no_file else unzip raw

-- `data, ok := files[name]`
abbrev pub parse_file {ℓ} : {A : Type ℓ} → Bytes → (Bytes → A) → Outcome Files → Outcome A
parse_file name parse files =
    files >>= λ get. elim (get name) [ none ↦ err no_file | some found ↦ ok (parse found) ]

-- What `files[name]` is without the test: no bytes where there is no such file.
abbrev pub content : Option Bytes → Bytes
content none = []
content (some found) = found

module _ (decode : Bytes → Bytes) (files : Outcome Files) where
  unfoldable pub get_tdx_zs : Outcome (List TdxZs)
  get_tdx_zs = parse_file (text "tdxzs.cfg") (parse_tdx_zs decode) files

  unfoldable pub get_tdx_bk : Outcome (List TdxBk)
  get_tdx_bk = parse_file (text "tdxbk.cfg") (parse_tdx_bk decode) files

  unfoldable pub get_sp_block : Outcome (List SpBlock)
  get_sp_block = parse_file (text "spblock.dat") (parse_sp_block decode) files

-- `raw` is the outcome of `GetBlockFileRaw`.
unfoldable pub get_tdx_hy : Outcome Bytes → Outcome (List TdxHy)
get_tdx_hy raw = raw >>= λ buf. ok (parse_tdx_hy buf)

module _ (c : Conv) (decode : Bytes → Bytes) where
  unfoldable pub get_block_data : Outcome Bytes → Outcome (List Block)
  get_block_data raw = raw >>= λ buf. ok (parse_block_file c decode buf)

  -- The blocks of a file with the indices that their names have.
  unfoldable pub get_block_data_with_index : Outcome Bytes → Outcome Files → Outcome (List Block)
  get_block_data_with_index raw files = get_block_data raw >>= λ blocks. files >>= λ get.
      let zs = parse_tdx_zs decode (content (get (text "tdxzs.cfg"))) in
      let bk = parse_tdx_bk decode (content (get (text "tdxbk.cfg"))) in
      ok (fill_block_index_alias blocks zs bk).0
