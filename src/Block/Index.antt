-- ===== src/Block/Index.antt =====
-- `FillBlockIndex` of protocol/model_block.go and `FillBlockIndexAlias` of protocol/model_tdxbk.go.
use tdx.Base.{ℕ, suc, if◌then◌else◌, List, [], ◌∷◌, Option, none, some}
use tdx.Base.Text.{Bytes, eqb_text}
use tdx.Block.File.{Block}
use tdx.Block.Config.{TdxZs, TdxBk}

-- A map that is filled in order: a later entry takes the place of an earlier one.
unfoldable pub name_to_code : List TdxZs → Bytes → Option Bytes
name_to_code [] name = none
name_to_code (z ∷ zs) name = elim (name_to_code zs name) [
  | some code ↦ some code
  | none ↦ if eqb_text z.name name then some z.code else none
]

unfoldable pub short_to_full : List TdxBk → Bytes → Option Bytes
short_to_full [] name = none
short_to_full (b ∷ bs) name = elim (short_to_full bs name) [
  | some full ↦ some full
  | none ↦ if eqb_text b.short name then some b.full else none
]

-- The blocks with their indices, and how many were found.
abbrev pub fill_with : (Bytes → Option Bytes) → List Block → List Block × ℕ
fill_with find [] = ([], 0)
fill_with find (b ∷ bs) =
    let rest = fill_with find bs in
    elim (find b.name) [
      | some code ↦ (record b { index = code } ∷ rest.0, suc rest.1)
      | none ↦ (b ∷ rest.0, rest.1)
    ]

unfoldable pub fill_block_index : List Block → List TdxZs → List Block × ℕ
unfolding name_to_code
fill_block_index blocks zs = fill_with (name_to_code zs) blocks

unfoldable pub find_alias : List TdxZs → List TdxBk → Bytes → Option Bytes
unfolding name_to_code short_to_full
find_alias zs bk name = elim (name_to_code zs name) [
  | some code ↦ some code
  | none ↦ elim (short_to_full bk name) [ some full ↦ name_to_code zs full | none ↦ none ]
]

unfoldable pub fill_block_index_alias : List Block → List TdxZs → List TdxBk → List Block × ℕ
unfolding find_alias
fill_block_index_alias blocks zs bk = fill_with (find_alias zs bk) blocks
