-- ===== src/Base64.antt =====
-- src/base64.cpp and include/base64.h: base64 for URLs. The length of a text is cut to 32 bits on its
-- way into `in_len`, an `unsigned` in the encoder and an `int` in the decoder; what the decoder does with
-- a text of 2^31 bytes or more, whose `int` is out of range, is not defined in C++.
pub mod Bits
pub mod RoundTrip
pub mod Shape
pub mod Whole
use worker_log.Base.{
  ℕ, ◌+◌, ◌-◌, ◌*◌, ◌/◌, ◌%◌, ◌^◌, bit_and, Bool, true, false, not, ◌&&◌, ◌||◌, Option, none, some,
  List, [], ◌∷◌, ◌++◌, Bytes, codes, ltb, ◌==◌, if◌then◌else◌, get_or, take, length,
}

abbrev pub base64_chars : Bytes
base64_chars = codes "ABCDEFGHIJKLMNOPQRSTUVWXYZabcdefghijklmnopqrstuvwxyz0123456789-_"

-- `lo <= c && c <= hi`.
abbrev within : ℕ → ℕ → ℕ → Bool
within lo hi c = not (ltb c lo) && not (ltb hi c)

unfoldable pub is_base64 : ℕ → Bool
is_base64 c =
    within b'0' b'9' c || within b'A' b'Z' c || within b'a' b'z' c || c == b'-' || c == b'_'

-- `base64_chars[n]`.
unfoldable pub char_at : ℕ → ℕ
char_at n = get_or base64_chars n 0

-- `base64_chars.find (c)` as an `unsigned char`, of which `npos` is the largest.
abbrev find_in : Bytes → ℕ → ℕ → ℕ
find_in [] at c = 2 ^ 64 - 1
find_in (b ∷ chars) at c = let later = find_in chars (at + 1) c in if b == c then at else later

unfoldable pub find_char : ℕ → ℕ
find_char c = find_in base64_chars 0 c % 2 ^ 8

-- `char_array_4` of three bytes, and its characters.
unfoldable pub quad : ℕ → ℕ → ℕ → List ℕ
quad a b c =
    bit_and a 0xfc / 4
    ∷ (bit_and a 0x03 * 16 + bit_and b 0xf0 / 16) % 2 ^ 8
    ∷ (bit_and b 0x0f * 4 + bit_and c 0xc0 / 64) % 2 ^ 8
    ∷ bit_and c 0x3f
    ∷ []

abbrev pub chars_of : List ℕ → Bytes
chars_of [] = []
chars_of (n ∷ ns) = char_at n ∷ chars_of ns

-- The bytes that `char_array_3` holds, `i` of them.
pub data Held : Type 0 where
  held0 : Held
  held1 : ℕ → Held
  held2 : ℕ → ℕ → Held

-- The loop of `base64_encode` and what follows it; `ret` is last.
unfoldable pub encode_loop : Bytes → Held → Bytes → Bytes
unfolding quad char_at
encode_loop [] held0 ret = ret
encode_loop [] (held1 a) ret = ret ++ (chars_of (take 2 (quad a 0 0)) ++ codes "==")
encode_loop [] (held2 a b) ret = ret ++ (chars_of (take 3 (quad a b 0)) ++ codes "=")
encode_loop (c ∷ s) held0 ret = encode_loop s (held1 c) ret
encode_loop (c ∷ s) (held1 a) ret = encode_loop s (held2 a c) ret
encode_loop (c ∷ s) (held2 a b) ret = encode_loop s held0 (ret ++ chars_of (quad a b c))

unfoldable pub base64_encode : Bytes → Bytes
unfolding encode_loop
base64_encode s = encode_loop (take (length s % 2 ^ 32) s) held0 []

-- `char_array_3` of four characters.
unfoldable pub triple : ℕ → ℕ → ℕ → ℕ → Bytes
unfolding find_char
triple p q r s =
    let a = find_char p in
    let b = find_char q in
    let c = find_char r in
    let d = find_char s in
    (a * 4 + bit_and b 0x30 / 16) % 2 ^ 8
    ∷ (bit_and b 0xf * 16 + bit_and c 0x3c / 4) % 2 ^ 8
    ∷ (bit_and c 0x3 * 64 + d) % 2 ^ 8
    ∷ []

-- The characters that `char_array_4` holds.
pub data Read : Type 0 where
  read0 : Read
  read1 : ℕ → Read
  read2 : ℕ → ℕ → Read
  read3 : ℕ → ℕ → ℕ → Read

-- What follows the loop of `base64_decode`: the places that are empty are zeros, which are no
-- characters.
abbrev decode_rest : Read → Bytes → Bytes
decode_rest read0 ret = ret
decode_rest (read1 p) ret = ret ++ take 0 (triple p 0 0 0)
decode_rest (read2 p q) ret = ret ++ take 1 (triple p q 0 0)
decode_rest (read3 p q r) ret = ret ++ take 2 (triple p q r 0)

-- A character more: what is held then, and `ret`.
abbrev take_char : ℕ → Read → Bytes → Read × Bytes
take_char c read0 ret = (read1 c, ret)
take_char c (read1 p) ret = (read2 p c, ret)
take_char c (read2 p q) ret = (read3 p q c, ret)
take_char c (read3 p q r) ret = (read0, ret ++ triple p q r c)

unfoldable pub decode_loop : Bytes → Read → Bytes → Bytes
unfolding triple
decode_loop [] held ret = decode_rest held ret
decode_loop (c ∷ s) held ret =
    let (held', ret') = take_char c held ret in
    let rest = decode_loop s held' ret' in
    if not (c == b'=') && is_base64 c then rest else decode_rest held ret

unfoldable pub base64_decode : Bytes → Bytes
unfolding decode_loop
base64_decode s = decode_loop (take (length s % 2 ^ 32) s) read0 []
