-- ===== src/UrlParser/Percent/Laws.antt =====
-- `percent_decode` against an encoder, and what it does with an escape that is cut off.
use worker_log.Base.{
  ℕ, ◌+◌, ◌*◌, ◌/◌, ◌%◌, ◌≤◌, ◌<◌, ◌≡◌, refl, sym, ap, ◌∙◌, Bool, true, false, not, ◌&&◌, [], ◌∷◌,
  ◌++◌, append-nil, append_assoc, arith, ◌==◌, if◌then◌else◌, Bool-cases, inl, inr, bit_or, Bytes,
  length, length-append, All, Lacks,
}
use worker_log.UrlParser.Hex.{
  is_hex_digit, hex_digit_to_int, hex_digit, digit_in, digit_in-IsEscape,
}
use worker_log.UrlParser.Percent.{
  State, general, first_percent_encoded_digit, second_percent_encoded_digit, Decoder, start,
  step_in, run, percent_decode,
}

-- An encoder: a byte stands for itself where `keep` allows it, and `%` never does.
abbrev encode_byte : (ℕ → Bool) → ℕ → Bytes
encode_byte keep b =
    if keep b && not (b == b'%')
    then b ∷ []
    else b'%' ∷ hex_digit (b / 16) ∷ hex_digit (b % 16) ∷ []

abbrev pub percent_encode : (ℕ → Bool) → Bytes → Bytes
percent_encode keep [] = []
percent_encode keep (b ∷ s) = encode_byte keep b ++ percent_encode keep s

abbrev pub IsByte : ℕ → Type 0
IsByte b = b < 256

run-append : (d : Decoder) (s t : Bytes) → run d (s ++ t) ≡ run (run d s) t
unfolding run
run-append d [] t = refl
run-append d (c ∷ s) t = run-append (step_in d.state d c) s t

-- One encoded byte brings a machine in `general` back there with that byte written.
run-encode_byte :
    (keep : ℕ → Bool) (b : ℕ) (d : Decoder) (rest : Bytes)
    → IsByte b
    → d.state ≡ general
    → (c : ℕ) × (run d (encode_byte keep b ++ rest)
        ≡ run (record { state = general; first_char = c; result = d.result ++ b ∷ [] }) rest)
unfolding run
run-encode_byte keep b d rest h g =
    let q = digit_in-IsEscape false false b h in
    elim (Bool-cases (keep b && not (b == b'%'))) [
      | inl plain ↦ (d.first_char, rw plain (ground arith))
      | inr escaped ↦
          (hex_digit (b / 16), rw (escaped, g, run, q.hi_digit, q.lo_digit, q.joined) refl)
    ]

run-percent_encode :
    (keep : ℕ → Bool) (s : Bytes) (d : Decoder)
    → All IsByte s
    → d.state ≡ general
    → (run d (percent_encode keep s)).result ≡ d.result ++ s
unfolding run
run-percent_encode keep [] d h g = rw append-nil
run-percent_encode keep (b ∷ s) d h g =
    let (c, e) = run-encode_byte keep b d (percent_encode keep s) h.0 g in
    rw e (run-percent_encode keep s _ h.1 refl ∙ append_assoc d.result (b ∷ []) s)

-- Decoding is a left inverse of the encoder above, whichever bytes it leaves as they are.
pub percent_decode-percent_encode :
    (keep : ℕ → Bool) (s : Bytes) → All IsByte s → percent_decode (percent_encode keep s) ≡ s
unfolding percent_decode
percent_decode-percent_encode keep s h = run-percent_encode keep s start h refl

-- The texts `t` that are percent encodings of `s`: each byte that is not `%` may stand for itself, and
-- each byte may be `%` and its two hexadecimal digits, whose letters are small or capital.
pub data IsEncoding : Bytes → Bytes → Type 0 where
  empty_code : IsEncoding [] []
  as_itself :
      {s t : Bytes} (b : ℕ) → (b == b'%') ≡ false → IsEncoding s t → IsEncoding (b ∷ s) (b ∷ t)
  as_digits :
      {s t : Bytes} (b : ℕ) (small small' : Bool)
      → IsByte b
      → IsEncoding s t
      → IsEncoding (b ∷ s) (b'%' ∷ digit_in small (b / 16) ∷ digit_in small' (b % 16) ∷ t)

run-IsEncoding :
    {s t : Bytes} (d : Decoder)
    → IsEncoding s t
    → d.state ≡ general
    → (run d t).result ≡ d.result ++ s
unfolding run
run-IsEncoding d empty_code g = sym (append-nil d.result)
run-IsEncoding {s = _ ∷ s} d (as_itself b other e) g =
    rw (g, run, other) (run-IsEncoding _ e refl ∙ append_assoc d.result (b ∷ []) s)
run-IsEncoding {s = _ ∷ s} d (as_digits b small small' byte e) g =
    let q = digit_in-IsEscape small small' b byte in
    rw (g, run, q.hi_digit, q.lo_digit, q.joined)
      (run-IsEncoding _ e refl ∙ append_assoc d.result (b ∷ []) s)

-- Decoding any percent encoding of a text gives the text, whichever bytes are escaped and whichever
-- letters are capital.
pub percent_decode-IsEncoding : (s t : Bytes) → IsEncoding s t → percent_decode t ≡ s
unfolding percent_decode
percent_decode-IsEncoding s t e = run-IsEncoding start e refl

run-Lacks :
    (s : Bytes) (d : Decoder)
    → Lacks b'%' s
    → d.state ≡ general
    → run d s ≡ record d { result = d.result ++ s }
unfolding run
run-Lacks [] d h g = rw append-nil
run-Lacks (c ∷ s) d h g = rw (g, h.0) (run-Lacks s _ h.1 refl ∙ rw append_assoc)

-- The bytes that are held back in a state.
abbrev pending : State → ℕ
pending general = 0
pending first_percent_encoded_digit = 1
pending second_percent_encoded_digit = 2

step_in-length :
    (m : State) (d : Decoder) (c : ℕ)
    → d.state ≡ m
    → length (step_in m d c).result + pending (step_in m d c).state
      ≤ length d.result + pending m + 1
unfolding step_in
step_in-length general d c e = ground (arith, length-append d.result (c ∷ []))
step_in-length first_percent_encoded_digit d c e =
    ground (arith, length-append d.result (b'%' ∷ c ∷ []))
step_in-length second_percent_encoded_digit d c e = ground (
  arith,
  length-append d.result (b'%' ∷ d.first_char ∷ c ∷ []),
  length-append d.result (bit_or (hex_digit_to_int d.first_char * 16) (hex_digit_to_int c) ∷ []),
)

run-length :
    (s : Bytes) (d : Decoder)
    → length (run d s).result + pending (run d s).state
      ≤ length d.result + pending d.state + length s
unfolding run
run-length [] d = omega arith
run-length (c ∷ s) d =
    omega (arith, run-length s (step_in d.state d c), step_in-length d.state d c refl)

-- Decoding never makes a text longer.
pub percent_decode-length : (s : Bytes) → length (percent_decode s) ≤ length s
unfolding percent_decode
percent_decode-length s = omega (arith, run-length s start)

percent_decode-append :
    (s t : Bytes)
    → Lacks b'%' s
    → percent_decode (s ++ t)
      ≡ (run (record { state = general; first_char = 0; result = s }) t).result
unfolding percent_decode
percent_decode-append s t p =
    ap (λ d. d.result) (run-append start s t ∙ ap (λ d. run d t) (run-Lacks s start p refl))

-- After a text with no `%`, an escape of two digits is one byte and one that is broken by another
-- byte is kept as it stands, but one that the end of the input cuts off is dropped.
percent_decode_escape :
    (s : Bytes) (h l : ℕ)
    → Lacks b'%' s
    → is_hex_digit h ≡ true
    → (percent_decode (s ++ b'%' ∷ []) ≡ s)
      × (percent_decode (s ++ b'%' ∷ h ∷ []) ≡ s)
      × (percent_decode (s ++ b'%' ∷ h ∷ l ∷ [])
          ≡ s
            ++ (if is_hex_digit l
                then bit_or (hex_digit_to_int h * 16) (hex_digit_to_int l) ∷ []
                else b'%' ∷ h ∷ l ∷ []))
unfolding run
percent_decode_escape s h l p q = (
  rw (percent_decode-append s _ p),
  rw (percent_decode-append s _ p, q, run),
  rw (percent_decode-append s _ p, q, run) (ground arith),
)
