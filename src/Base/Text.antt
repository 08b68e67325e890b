-- ===== src/Base/Text.antt =====
-- Texts as lists of bytes: the contents of a `std::string` or of a C string.
use Prim.Native.Char.{code}
use Prim.Native.Nat.{ℕ, ◌+◌, ◌/◌, ◌%◌}
use Prim.Native.String.{String}
use mathlib.Core.Path.{◌≡◌, refl}
use mathlib.Core.Logic.{◌↔◌}
use mathlib.Core.Bool.{Bool, true, false}
use mathlib.Core.List.{List, [], ◌∷◌}
use native.Mathlib.Omega.{arith}
use worker_log.Base.Cond.{◌==◌, ltb, if◌then◌else◌}

abbrev pub Bytes : Type 0
Bytes = List ℕ

-- The bytes of an ASCII literal.
abbrev pub codes : String → Bytes
codes String.[] = []
codes (String.◌∷◌ c s) = code c ∷ codes s

-- A character in UTF-8, the encoding of the source files, below U+0800.
abbrev character : ℕ → Bytes → Bytes
character c rest = if ltb c 128 then c ∷ rest else (192 + c / 64) ∷ (128 + c % 64) ∷ rest

-- The bytes of any literal.
abbrev pub utf8 : String → Bytes
utf8 String.[] = []
utf8 (String.◌∷◌ c s) = character (code c) (utf8 s)

-- `std::string (p)`: the bytes up to the first zero.
unfoldable pub c_string : Bytes → Bytes
c_string [] = []
c_string (c ∷ s) = if c == 0 then [] else c ∷ c_string s

-- `operator==` of two strings.
unfoldable pub equal : Bytes → Bytes → Bool
equal [] [] = true
equal [] (b ∷ right) = false
equal (a ∷ left) [] = false
equal (a ∷ left) (b ∷ right) = if a == b then equal left right else false

-- `std::string::empty`.
abbrev pub empty {ℓ} : {A : Type ℓ} → List A → Bool
empty [] = true
empty (x ∷ xs) = false

pub equal_iff : (left right : Bytes) → (equal left right ≡ true) ↔ (left ≡ right)
unfolding equal
equal_iff [] [] = ground arith
equal_iff [] (b ∷ right) = ground arith
equal_iff (a ∷ left) [] = ground arith
equal_iff (a ∷ left) (b ∷ right) = let tails = equal_iff left right in ground (arith, tails)

pub equal_refl : (text : Bytes) → equal text text ≡ true
equal_refl text = (equal_iff text text).1 refl
