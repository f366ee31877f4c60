-- ===== src/Wire/Endian.antt =====
-- protocol/unit.go: `Reverse`, `Bytes`, `Uint16` and `Uint32`.
-- `Conv` holds the functions of github.com/injoyai/conv that the source calls: `conv.Bytes` of a
-- uint16 and of a uint32, `conv.Uint16` and `conv.Uint32` of a byte slice.
use tdx.Base.{ℕ, ◌+◌, ◌*◌, ◌/◌, ◌%◌, ◌^◌, ◌<◌, ◌≡◌, refl, ◌∙◌, arith}
use tdx.Base.{[], ◌∷◌, ◌++◌}
use tdx.Base.Text.{Bytes, IsByte}

pub record Conv : Type 0 where
  pub bytes16 : ℕ → Bytes
  pub bytes32 : ℕ → Bytes
  pub uint16 : Bytes → ℕ
  pub uint32 : Bytes → ℕ

-- The documented order of these conversions: the high byte first.
pub record IsBigEndian (c : Conv) : Type 0 where
  pub of_u16 : (n : ℕ) → n < 2 ^ 16 → c.bytes16 n ≡ n / 256 ∷ n % 256 ∷ []
  pub of_u32 :
      (n : ℕ)
      → n < 2 ^ 32
      → c.bytes32 n ≡ n / 2 ^ 24 ∷ n / 2 ^ 16 % 256 ∷ n / 2 ^ 8 % 256 ∷ n % 256 ∷ []
  pub to_u16 : (h l : ℕ) → IsByte h → IsByte l → c.uint16 (h ∷ l ∷ []) ≡ h * 256 + l
  pub to_u32 :
      (a b d e : ℕ)
      → IsByte a
      → IsByte b
      → IsByte d
      → IsByte e
      → c.uint32 (a ∷ b ∷ d ∷ e ∷ []) ≡ a * 2 ^ 24 + b * 2 ^ 16 + d * 2 ^ 8 + e

-- `for i, v := range bs { x[len(bs)-i-1] = v }`: each byte goes in front of those before it.
reverse_onto : Bytes → Bytes → Bytes
reverse_onto x [] = x
reverse_onto x (v ∷ bs) = reverse_onto (v ∷ x) bs

unfoldable pub reverse_bytes : Bytes → Bytes
unfolding reverse_onto
reverse_bytes bs = reverse_onto [] bs

module _ (c : Conv) where
  unfoldable pub le_bytes16 : ℕ → Bytes
  unfolding reverse_bytes
  le_bytes16 n = reverse_bytes (c.bytes16 n)

  unfoldable pub le_bytes32 : ℕ → Bytes
  unfolding reverse_bytes
  le_bytes32 n = reverse_bytes (c.bytes32 n)

  unfoldable pub uint16 : Bytes → ℕ
  unfolding reverse_bytes
  uint16 bs = c.uint16 (reverse_bytes bs)

  unfoldable pub uint32 : Bytes → ℕ
  unfolding reverse_bytes
  uint32 bs = c.uint32 (reverse_bytes bs)

module _ (c : Conv) (big : IsBigEndian c) where
  pub le_bytes16_lem : (n : ℕ) → n < 2 ^ 16 → le_bytes16 c n ≡ n % 256 ∷ n / 256 ∷ []
  unfolding le_bytes16
  le_bytes16_lem n h = rw (big.of_u16 n h)

  pub le_bytes32_lem :
      (n : ℕ)
      → n < 2 ^ 32
      → le_bytes32 c n ≡ n % 256 ∷ n / 2 ^ 8 % 256 ∷ n / 2 ^ 16 % 256 ∷ n / 2 ^ 24 ∷ []
  unfolding le_bytes32
  le_bytes32_lem n h = rw (big.of_u32 n h)

  pub uint16_lem : (l h : ℕ) → IsByte l → IsByte h → uint16 c (l ∷ h ∷ []) ≡ h * 256 + l
  unfolding uint16
  uint16_lem l h p q = big.to_u16 h l q p

  pub uint32_lem :
      (e d b a : ℕ)
      → IsByte e
      → IsByte d
      → IsByte b
      → IsByte a
      → uint32 c (e ∷ d ∷ b ∷ a ∷ []) ≡ a * 2 ^ 24 + b * 2 ^ 16 + d * 2 ^ 8 + e
  unfolding uint32
  uint32_lem e d b a he hd hb ha = big.to_u32 a b d e ha hb hd he

  pub uint16-le_bytes16 : (n : ℕ) → n < 2 ^ 16 → uint16 c (le_bytes16 c n) ≡ n
  uint16-le_bytes16 n h =
      rw (le_bytes16_lem n h)
        (uint16_lem (n % 256) (n / 256) (omega arith) (omega arith) ∙ omega arith)

  pub uint32-le_bytes32 : (n : ℕ) → n < 2 ^ 32 → uint32 c (le_bytes32 c n) ≡ n
  uint32-le_bytes32 n h = rw (le_bytes32_lem n h) (
      uint32_lem (n % 256) (n / 2 ^ 8 % 256) (n / 2 ^ 16 % 256) (n / 2 ^ 24) (omega arith)
        (omega arith) (omega arith) (omega arith)
      ∙ omega arith)

reverse_onto-append : (x y bs : Bytes) → reverse_onto (x ++ y) bs ≡ reverse_onto x bs ++ y
unfolding reverse_onto
reverse_onto-append x y [] = refl
reverse_onto-append x y (v ∷ bs) = reverse_onto-append (v ∷ x) y bs

reverse_bytes-cons : (v : ℕ) (bs : Bytes) → reverse_bytes (v ∷ bs) ≡ reverse_bytes bs ++ (v ∷ [])
unfolding reverse_bytes
reverse_bytes-cons v bs = reverse_onto-append [] (v ∷ []) bs
