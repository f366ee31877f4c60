-- ===== src/Block/Lines.antt =====
-- What the parsers share: `UTF8ToGBK` of protocol/unit.go, whose decoder is a parameter, and the
-- functions of package strings that cut a text into lines and fields.
use tdx.Base.{ℕ, zero, suc, ◌==◌, Bool, true, false, if◌then◌else◌, List, [], ◌∷◌}
use tdx.Base.Text.{Bytes}

-- `bytes.ReplaceAll(content, []byte{0x00}, []byte{})`
unfoldable pub without_nul : Bytes → Bytes
without_nul [] = []
without_nul (c ∷ s) = let rest = without_nul s in if c == 0 then rest else c ∷ rest

unfoldable pub utf8_to_gbk : (Bytes → Bytes) → Bytes → Bytes
unfolding without_nul
utf8_to_gbk decode s = without_nul (decode s)

-- `strings.TrimRight(s, cut)` for a cut set of one byte.
abbrev pub cons_cut : ℕ → ℕ → Bytes → Bytes
cons_cut cut c [] = if c == cut then [] else c ∷ []
cons_cut cut c (d ∷ s) = c ∷ d ∷ s

abbrev pub trim_end : ℕ → Bytes → Bytes
trim_end cut [] = []
trim_end cut (c ∷ s) = cons_cut cut c (trim_end cut s)

-- `strings.TrimLeft`.
abbrev pub trim_start : ℕ → Bytes → Bytes
trim_start cut [] = []
trim_start cut (c ∷ s) = if c == cut then trim_start cut s else c ∷ s

-- `strings.Split(s, sep)` for a separator of one byte: one part more than there are separators.
abbrev pub add_to_first : ℕ → List Bytes → List Bytes
add_to_first c [] = (c ∷ []) ∷ []
add_to_first c (p ∷ parts) = (c ∷ p) ∷ parts

unfoldable pub split_at : ℕ → Bytes → List Bytes
split_at sep [] = [] ∷ []
split_at sep (c ∷ s) =
    let parts = split_at sep s in if c == sep then [] ∷ parts else add_to_first c parts

abbrev pub is_blank : Bytes → Bool
is_blank [] = true
is_blank (c ∷ s) = false

-- `f[i]`, where the caller has tested the length.
abbrev pub field : List Bytes → ℕ → Bytes
field [] i = []
field (f ∷ fs) zero = f
field (f ∷ fs) (suc i) = field fs i
