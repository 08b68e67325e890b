-- ===== src/UrlParser/Hex.antt =====
-- `is_hex_digit` and `hex_digit_to_int` of src/UrlParser.cpp.
use worker_log.Base.{
  ℕ, ◌*◌, ◌+◌, ◌-◌, ◌/◌, ◌%◌, ◌<◌, ◌≡◌, refl, Bool, true, false, ◌&&◌, ◌||◌, bit_or, arith, leb,
  ◌==◌, if◌then◌else◌, passes, passes_sound, ==_iff, &&-split,
}

-- The labels of the first `switch`.
unfoldable pub is_hex_digit : ℕ → Bool
is_hex_digit c = leb b'0' c && leb c b'9' || leb b'a' c && leb c b'f' || leb b'A' c && leb c b'F'

-- The second `switch`; 0 for any other byte.
unfoldable pub hex_digit_to_int : ℕ → ℕ
hex_digit_to_int c =
    if leb b'0' c && leb c b'9'
    then c - b'0'
    else if leb b'a' c && leb c b'f'
    then c - b'a' + 10
    else if leb b'A' c && leb c b'F'
    then c - b'A' + 10
    else 0

pub hex_digit_to_int-lt : (c : ℕ) → hex_digit_to_int c < 16
unfolding hex_digit_to_int
hex_digit_to_int-lt c = ground arith

-- The digit for a number below 16, with a small letter or a capital one.
abbrev pub digit_in : Bool → ℕ → ℕ
digit_in small n = if leb n 9 then b'0' + n else (if small then b'a' else b'A') + (n - 10)

abbrev pub hex_digit : ℕ → ℕ
hex_digit = digit_in false

-- What the two functions make of the escape of a byte.
abbrev reads_back : Bool → Bool → ℕ → Bool
reads_back small small' b =
    let hi = digit_in small (b / 16) in
    let lo = digit_in small' (b % 16) in
    is_hex_digit hi
    && is_hex_digit lo
    && bit_or (hex_digit_to_int hi * 16) (hex_digit_to_int lo) == b

every_byte : (small small' : Bool) → passes (reads_back small small') 256 ≡ true
unfolding passes is_hex_digit hex_digit_to_int
every_byte false false = refl
every_byte false true = refl
every_byte true false = refl
every_byte true true = refl

-- Both digits of a byte are read as digits, and joined they give the byte.
pub record IsEscape (b hi lo : ℕ) : Type 0 where
  pub hi_digit : is_hex_digit hi ≡ true
  pub lo_digit : is_hex_digit lo ≡ true
  pub joined : bit_or (hex_digit_to_int hi * 16) (hex_digit_to_int lo) ≡ b

pub digit_in-IsEscape :
    (small small' : Bool) (b : ℕ)
    → b < 256
    → IsEscape b (digit_in small (b / 16)) (digit_in small' (b % 16))
digit_in-IsEscape small small' b h =
    let read = passes_sound (reads_back small small') 256 (every_byte small small') b h in
    record {
      hi_digit = (&&-split _ _ (&&-split _ _ read).0).0;
      lo_digit = (&&-split _ _ (&&-split _ _ read).0).1;
      joined = (==_iff _ b).0 (&&-split _ _ read).1;
    }
