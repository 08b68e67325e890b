-- ===== src/Base/Decimal.antt =====
-- Decimal numbers in texts: `<<` of an unsigned number, and `strtol` with base 10.
use Prim.Native.Nat.{ℕ, zero, suc, ◌+◌, ◌-◌, ◌*◌, ◌/◌, ◌%◌, ◌^◌, ◌<◌, min}
use mathlib.Core.Path.{◌≡◌, refl, ◌∙◌, ap}
use mathlib.Core.Logic.{inl, inr}
use mathlib.Core.Bool.{Bool, true, false, ◌&&◌, ◌||◌}
use mathlib.Core.List.{[], ◌∷◌, ◌++◌}
use native.Mathlib.Omega.{arith}
use worker_log.Base.Cond.{ltb, leb, ltb→lt, ◌==◌, if◌then◌else◌, Bool-cases}
use worker_log.Base.Lists.{All}
use worker_log.Base.Text.{Bytes}

abbrev pub is_digit : ℕ → Bool
is_digit c = leb b'0' c && leb c b'9'

abbrev pub IsDigit : ℕ → Type 0
IsDigit c = is_digit c ≡ true

-- The digits of `n` in front of `rest`, on fuel.
unfoldable pub decimal_onto : ℕ → ℕ → Bytes → Bytes
decimal_onto zero n rest = rest
decimal_onto (suc fuel) n rest =
    let more = decimal_onto fuel (n / 10) ((b'0' + n % 10) ∷ rest) in
    if ltb n 10 then (b'0' + n) ∷ rest else more

unfoldable pub decimal : ℕ → Bytes
unfolding decimal_onto
decimal n = decimal_onto (suc n) n []

-- The digits at the head of a text, on top of `n`, and what stands behind them.
unfoldable pub read_digits : ℕ → Bytes → ℕ × Bytes
read_digits n [] = (n, [])
read_digits n (c ∷ s) =
    let more = read_digits (n * 10 + (c - b'0')) s in if is_digit c then more else (n, c ∷ s)

-- `isspace` in the C locale.
abbrev is_space : ℕ → Bool
is_space c = c == b' ' || leb 9 c && leb c 13

unfoldable skip_spaces : Bytes → Bytes
skip_spaces [] = []
skip_spaces (c ∷ s) = if is_space c then skip_spaces s else c ∷ s

abbrev starts_digit : Bytes → Bool
starts_digit [] = false
starts_digit (c ∷ s) = is_digit c

-- The number behind a sign, as the bits of a `long`; out of range it is the nearest one. With no
-- digit nothing is read.
signed_number : Bytes → Bool → Bytes → ℕ × Bytes
signed_number whole negative s =
    let (n, rest) = read_digits 0 s in
    if starts_digit s
    then (if negative then (2 ^ 64 - min n (2 ^ 63)) % 2 ^ 64 else min n (2 ^ 63 - 1), rest)
    else (0, whole)

number_at : Bytes → Bytes → ℕ × Bytes
unfolding signed_number
number_at whole [] = (0, whole)
number_at whole (c ∷ s) =
    if c == b'-'
    then signed_number whole true s
    else if c == b'+'
    then signed_number whole false s
    else signed_number whole false (c ∷ s)

-- `strtol (s, &end, 10)`: the bits of the `long`, and the text at `end`.
unfoldable pub strtol : Bytes → ℕ × Bytes
unfolding number_at skip_spaces read_digits
strtol s = number_at s (skip_spaces s)

read_digits_cons :
    (n d : ℕ) (s : Bytes) → d < 10 → read_digits n ((b'0' + d) ∷ s) ≡ read_digits (n * 10 + d) s
unfolding read_digits
read_digits_cons n d s h =
    let value : b'0' + d - b'0' ≡ d = omega arith in
    let digit : is_digit (b'0' + d) ≡ true = ground arith in rw (digit, value)

read_digits-decimal_onto :
    (fuel n : ℕ) (rest : Bytes)
    → n < fuel
    → read_digits 0 (decimal_onto fuel n rest) ≡ read_digits n rest
unfolding decimal_onto
read_digits-decimal_onto zero n rest h = elim h [ ]
read_digits-decimal_onto (suc fuel) n rest h = elim (Bool-cases (ltb n 10)) [
  | inl small ↦ rw small (
      read_digits_cons 0 n rest (ltb→lt n 10 small)
      ∙ ap (λ k. read_digits k rest) {x = 0 * 10 + n} {y = n} (omega arith))
  | inr large ↦ rw large (
      read_digits-decimal_onto fuel (n / 10) _ (ground arith)
      ∙ read_digits_cons (n / 10) (n % 10) rest (omega arith)
      ∙ ap (λ k. read_digits k rest) {x = n / 10 * 10 + n % 10} {y = n} (omega arith))
]

All-decimal_onto :
    (fuel n : ℕ) (rest : Bytes) → All IsDigit rest → All IsDigit (decimal_onto fuel n rest)
unfolding decimal_onto
All-decimal_onto zero n rest h = h
All-decimal_onto (suc fuel) n rest h =
    let digit : is_digit (b'0' + n % 10) ≡ true = ground arith in
    elim (Bool-cases (ltb n 10)) [
      | inl small ↦ rw small (ground arith, h)
      | inr large ↦ rw large (All-decimal_onto fuel (n / 10) _ (digit, h))
    ]

pub All-decimal : (n : ℕ) → All IsDigit (decimal n)
unfolding decimal
All-decimal n = All-decimal_onto (suc n) n [] tt

pub read_digits-decimal : (n : ℕ) → read_digits 0 (decimal n) ≡ (n, [])
unfolding decimal read_digits
read_digits-decimal n = read_digits-decimal_onto (suc n) n [] (omega arith)

read_digits-All : (n : ℕ) (s : Bytes) → All IsDigit s → (read_digits n s).1 ≡ []
unfolding read_digits
read_digits-All n [] h = refl
read_digits-All n (c ∷ s) h = rw h.0 (read_digits-All (n * 10 + (c - b'0')) s h.1)

-- A text of digits is read whole, and its number is cut off at the largest `long`.
pub strtol-All : (s : Bytes) → All IsDigit s → strtol s ≡ (min (read_digits 0 s).0 (2 ^ 63 - 1), [])
unfolding strtol
strtol-All [] h = refl
strtol-All (c ∷ s) h = ground (arith, h.0, read_digits-All (0 * 10 + (c - b'0')) s h.1)

read_digits-append :
    (n : ℕ) (s : Bytes) (c : ℕ) (t : Bytes)
    → All IsDigit s
    → is_digit c ≡ false
    → read_digits n (s ++ c ∷ t) ≡ ((read_digits n s).0, c ∷ t)
unfolding read_digits
read_digits-append n [] c t h e = rw e refl
read_digits-append n (d ∷ s) c t h e = rw h.0 (read_digits-append (n * 10 + (d - b'0')) s c t h.1 e)

-- Digits in front of another byte are read up to it.
pub strtol-append :
    (d : ℕ) (s : Bytes) (c : ℕ) (t : Bytes)
    → All IsDigit (d ∷ s)
    → is_digit c ≡ false
    → strtol (d ∷ s ++ c ∷ t) ≡ (min (read_digits 0 (d ∷ s)).0 (2 ^ 63 - 1), c ∷ t)
unfolding strtol
strtol-append d s c t h e =
    ground (arith, h.0, read_digits-append (0 * 10 + (d - b'0')) s c t h.1 e)
