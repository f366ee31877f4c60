-- ===== src/Base/Text.antt =====
-- A Go string is its list of bytes. `text` writes a literal of the source in UTF-8. The functions
-- of package strings fold the case of ASCII letters and trim ASCII space only: the program's own
-- literals are ASCII or Chinese, which has neither.
use Prim.Native.Char.{code}
use Prim.Native.Nat.{ℕ, ◌+◌, ◌-◌, ◌/◌, ◌%◌, ◌<◌}
use Prim.Native.String.{String}
use mathlib.Core.Bool.{Bool, true, false, ◌&&◌, ◌||◌}
use mathlib.Core.List.{List, [], ◌∷◌}
use mathlib.Core.Logic.{◌↔◌}
use mathlib.Core.Option.{Option, none, some}
use mathlib.Core.Path.{◌≡◌}
use native.Mathlib.Omega.{arith}
use tdx.Base.Tests.{ltb, leb, ◌==◌, if◌then◌else◌}

abbrev pub Bytes : Type 0
Bytes = List ℕ

abbrev pub IsByte : ℕ → Type 0
IsByte b = b < 256

-- The UTF-8 bytes of a code point below 2 ^ 16, in front of more.
abbrev pub utf8 : ℕ → Bytes → Bytes
utf8 c rest =
    if ltb c 0x80
    then c ∷ rest
    else if ltb c 0x800
    then (0xc0 + c / 64) ∷ (0x80 + c % 64) ∷ rest
    else (0xe0 + c / 4096) ∷ (0x80 + c / 64 % 64) ∷ (0x80 + c % 64) ∷ rest

abbrev pub text : String → Bytes
text String.[] = []
text (String.◌∷◌ c s) = utf8 (code c) (text s)

-- Go's `==` on strings.
abbrev pub eqb_text : Bytes → Bytes → Bool
eqb_text [] [] = true
eqb_text (x ∷ xs) (y ∷ ys) = x == y && eqb_text xs ys
eqb_text _ _ = false

pub eqb_text_iff : (a b : Bytes) → (eqb_text a b ≡ true) ↔ (a ≡ b)
eqb_text_iff (x ∷ a) (y ∷ b) = ground (arith, eqb_text_iff a b)
eqb_text_iff _ _ = ground arith

-- `strings.HasPrefix`.
abbrev pub starts_with : Bytes → Bytes → Bool
starts_with s [] = true
starts_with [] (p ∷ ps) = false
starts_with (x ∷ xs) (p ∷ ps) = x == p && starts_with xs ps

abbrev pub within : ℕ → ℕ → ℕ → Bool
within lo hi c = leb lo c && leb c hi

abbrev pub lower_byte : ℕ → ℕ
lower_byte c = if within b'A' b'Z' c then c + 32 else c

abbrev pub upper_byte : ℕ → ℕ
upper_byte c = if within b'a' b'z' c then c - 32 else c

-- `strings.ToLower` and `strings.ToUpper`.
abbrev pub to_lower : Bytes → Bytes
to_lower [] = []
to_lower (c ∷ s) = lower_byte c ∷ to_lower s

abbrev pub to_upper : Bytes → Bytes
to_upper [] = []
to_upper (c ∷ s) = upper_byte c ∷ to_upper s

abbrev pub is_space : ℕ → Bool
is_space c = c == b' ' || within 9 13 c

abbrev pub trim_left : Bytes → Bytes
trim_left [] = []
trim_left (c ∷ s) = if is_space c then trim_left s else c ∷ s

-- A byte in front of a string without trailing space: a space before nothing goes too.
abbrev pub cons_trimmed : ℕ → Bytes → Bytes
cons_trimmed c [] = if is_space c then [] else c ∷ []
cons_trimmed c (d ∷ s) = c ∷ d ∷ s

abbrev pub trim_right : Bytes → Bytes
trim_right [] = []
trim_right (c ∷ s) = cons_trimmed c (trim_right s)

-- `strings.TrimSpace`.
abbrev pub trim_space : Bytes → Bytes
trim_space s = trim_right (trim_left s)

-- `strings.LastIndex` of one byte, with the two parts that the source cuts at it.
abbrev pub cut_last : ℕ → Bytes → Option (Bytes × Bytes)
cut_last d [] = none
cut_last d (c ∷ s) = elim (cut_last d s) [
  | some (front, back) ↦ some (c ∷ front, back)
  | none ↦ if c == d then some ([], s) else none
]
