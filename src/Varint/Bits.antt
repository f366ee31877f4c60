-- ===== src/Varint/Bits.antt =====
-- The masks of one byte as arithmetic, each a table of 256 entries checked by evaluation.
use tdx.Base.{ℕ, zero, suc, ◌*◌, ◌/◌, ◌%◌, ◌<◌, ◌≡◌, refl, arith, Bool, true, ◌&&◌, ◌==◌, bit_and}

agrees : (ℕ → ℕ) → (ℕ → ℕ) → ℕ → Bool
agrees f g zero = true
agrees f g (suc n) = f n == g n && agrees f g n

agrees_sound : (f g : ℕ → ℕ) (n b : ℕ) → agrees f g n ≡ true → b < n → f b ≡ g b
unfolding agrees
agrees_sound f g zero b h lt = absurd (omega arith)
agrees_sound f g (suc n) b h lt = ground (arith, agrees_sound f g n b)

pub low_six : (b : ℕ) → b < 256 → bit_and b 0x3f ≡ b % 64
unfolding agrees
low_six b = agrees_sound (λ x. bit_and x 0x3f) (λ x. x % 64) 256 b refl

pub low_seven : (b : ℕ) → b < 256 → bit_and b 0x7f ≡ b % 128
unfolding agrees
low_seven b = agrees_sound (λ x. bit_and x 0x7f) (λ x. x % 128) 256 b refl

pub sign_bit : (b : ℕ) → b < 256 → bit_and b 0x40 ≡ b / 64 % 2 * 64
unfolding agrees
sign_bit b = agrees_sound (λ x. bit_and x 0x40) (λ x. x / 64 % 2 * 64) 256 b refl

pub more_bit : (b : ℕ) → b < 256 → bit_and b 0x80 ≡ b / 128 * 128
unfolding agrees
more_bit b = agrees_sound (λ x. bit_and x 0x80) (λ x. x / 128 * 128) 256 b refl
