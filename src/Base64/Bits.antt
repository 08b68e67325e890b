-- ===== src/Base64/Bits.antt =====
-- The masks of src/base64.cpp as division and remainder, and its characters as numbers below 64.
use worker_log.Base.{
  ℕ, ◌*◌, ◌/◌, ◌%◌, ◌<◌, bit_and, ◌≡◌, refl, true, not, ◌&&◌, ◌==◌, ==_iff, passes, passes_sound,
}
use worker_log.Base64.{is_base64, char_at, find_char}

-- A law of bytes that holds of each of them.
byte_law : (f g : ℕ → ℕ) → passes (λ x. f x == g x) 256 ≡ true → (x : ℕ) → x < 256 → f x ≡ g x
byte_law f g tried x h = (==_iff (f x) (g x)).0 (passes_sound (λ x. f x == g x) 256 tried x h)

module _ (x : ℕ) (h : x < 256) where
  pub bit_and_fc : bit_and x 0xfc ≡ x / 4 * 4
  unfolding passes
  bit_and_fc = byte_law (λ x. bit_and x 0xfc) (λ x. x / 4 * 4) refl x h

  pub bit_and_03 : bit_and x 0x03 ≡ x % 4
  unfolding passes
  bit_and_03 = byte_law (λ x. bit_and x 0x03) (λ x. x % 4) refl x h

  pub bit_and_f0 : bit_and x 0xf0 ≡ x / 16 * 16
  unfolding passes
  bit_and_f0 = byte_law (λ x. bit_and x 0xf0) (λ x. x / 16 * 16) refl x h

  pub bit_and_0f : bit_and x 0x0f ≡ x % 16
  unfolding passes
  bit_and_0f = byte_law (λ x. bit_and x 0x0f) (λ x. x % 16) refl x h

  pub bit_and_c0 : bit_and x 0xc0 ≡ x / 64 * 64
  unfolding passes
  bit_and_c0 = byte_law (λ x. bit_and x 0xc0) (λ x. x / 64 * 64) refl x h

  pub bit_and_3f : bit_and x 0x3f ≡ x % 64
  unfolding passes
  bit_and_3f = byte_law (λ x. bit_and x 0x3f) (λ x. x % 64) refl x h

  pub bit_and_30 : bit_and x 0x30 ≡ x / 16 % 4 * 16
  unfolding passes
  bit_and_30 = byte_law (λ x. bit_and x 0x30) (λ x. x / 16 % 4 * 16) refl x h

  pub bit_and_3c : bit_and x 0x3c ≡ x / 4 % 16 * 4
  unfolding passes
  bit_and_3c = byte_law (λ x. bit_and x 0x3c) (λ x. x / 4 % 16 * 4) refl x h

-- A number below 64 has a character, which the decoder takes and finds again.
pub char_at-taken : (n : ℕ) → n < 64 → (not (char_at n == b'=') && is_base64 (char_at n)) ≡ true
unfolding passes char_at is_base64
char_at-taken n h = passes_sound (λ n. not (char_at n == b'=') && is_base64 (char_at n)) 64 refl n h

pub find_char-char_at : (n : ℕ) → n < 64 → find_char (char_at n) ≡ n
unfolding passes char_at find_char
find_char-char_at n h =
    (==_iff (find_char (char_at n)) n).0
      (passes_sound (λ n. find_char (char_at n) == n) 64 refl n h)
