-- ===== src/Base64/RoundTrip.antt =====
-- What src/base64.cpp encodes, it decodes.
use worker_log.Base.{
  ℕ, ◌+◌, ◌*◌, ◌/◌, ◌%◌, ◌<◌, ◌≡◌, refl, sym, ap, ◌∙◌, List, [], ◌∷◌, ◌++◌, Bytes, codes, All,
  arith, take, append_assoc, append-nil,
}
use worker_log.Base64.{
  held0, Read, read0, read1, read2, char_at, quad, triple, chars_of, encode_loop, decode_loop,
  take_char,
}
use worker_log.Base64.Bits.{
  bit_and_fc, bit_and_03, bit_and_f0, bit_and_0f, bit_and_c0, bit_and_3f, bit_and_30, bit_and_3c,
  char_at-taken, find_char-char_at,
}

-- The four numbers of three bytes.
abbrev pub first : ℕ → ℕ
first a = a / 4

abbrev pub second : ℕ → ℕ → ℕ
second a b = a % 4 * 16 + b / 16

abbrev pub third : ℕ → ℕ → ℕ
third b c = b % 16 * 4 + c / 64

abbrev pub fourth : ℕ → ℕ
fourth c = c % 64

cons_eq : {x x' : ℕ} {s s' : List ℕ} → x ≡ x' → s ≡ s' → x ∷ s ≡ x' ∷ s'
cons_eq e f = cc

abbrev pub IsByte : ℕ → Type 0
IsByte b = b < 256

module _ (a b c : ℕ) (ha : IsByte a) (hb : IsByte b) (hc : IsByte c) where
  pub quad_lem : quad a b c ≡ first a ∷ second a b ∷ third b c ∷ fourth c ∷ []
  unfolding quad
  quad_lem =
      rw
        (
          bit_and_fc a ha,
          bit_and_03 a ha,
          bit_and_f0 b hb,
          bit_and_0f b hb,
          bit_and_c0 c hc,
          bit_and_3f c hc,
        )
        (cons_eq (omega arith) (cons_eq (omega arith) (cons_eq (omega arith) refl)))

  triple_lem :
      triple (char_at (first a)) (char_at (second a b)) (char_at (third b c)) (char_at (fourth c))
      ≡ a ∷ b ∷ c ∷ []
  unfolding triple
  triple_lem =
      rw
        (
          find_char-char_at (first a) (omega arith),
          find_char-char_at (second a b) (omega arith),
          find_char-char_at (third b c) (omega arith),
          find_char-char_at (fourth c) (omega arith),
          bit_and_30 (second a b) (omega arith),
          bit_and_0f (second a b) (omega arith),
          bit_and_3c (third b c) (omega arith),
          bit_and_03 (third b c) (omega arith),
        )
        (cons_eq (omega arith) (cons_eq (omega arith) (cons_eq (omega arith) refl)))

  -- The bytes that fewer characters give.
  triple_two : (r s : ℕ) → take 1 (triple (char_at (first a)) (char_at (second a b)) r s) ≡ a ∷ []
  unfolding triple
  triple_two r s =
      rw
        (
          find_char-char_at (first a) (omega arith),
          find_char-char_at (second a b) (omega arith),
          bit_and_30 (second a b) (omega arith),
        )
        (cons_eq (omega arith) refl)

  triple_three :
      (s : ℕ)
      → take 2 (triple (char_at (first a)) (char_at (second a b)) (char_at (third b c)) s)
        ≡ a ∷ b ∷ []
  unfolding triple
  triple_three s =
      rw
        (
          find_char-char_at (first a) (omega arith),
          find_char-char_at (second a b) (omega arith),
          find_char-char_at (third b c) (omega arith),
          bit_and_30 (second a b) (omega arith),
          bit_and_0f (second a b) (omega arith),
          bit_and_3c (third b c) (omega arith),
        )
        (cons_eq (omega arith) (cons_eq (omega arith) refl))

decode_loop-char_at :
    (n : ℕ) (s : Bytes) (held : Read) (ret : Bytes)
    → n < 64
    → decode_loop (char_at n ∷ s) held ret
      ≡ decode_loop s (take_char (char_at n) held ret).0 (take_char (char_at n) held ret).1
unfolding decode_loop
decode_loop-char_at n s held ret h = rw (char_at-taken n h) refl

-- Four characters of three bytes, and what the end of a text leaves of them.
module _ (a b c : ℕ) (ha : IsByte a) (hb : IsByte b) (hc : IsByte c) (t ret : Bytes) where
  decode_loop-quad :
      decode_loop (chars_of (quad a b c) ++ t) read0 ret
      ≡ decode_loop t read0 (ret ++ (a ∷ b ∷ c ∷ []))
  decode_loop-quad =
      ap (λ ns. decode_loop (chars_of ns ++ t) read0 ret) (quad_lem a b c ha hb hc)
      ∙ decode_loop-char_at (first a) _ read0 ret (omega arith)
      ∙ decode_loop-char_at (second a b) _ _ ret (omega arith)
      ∙ decode_loop-char_at (third b c) _ _ ret (omega arith)
      ∙ decode_loop-char_at (fourth c) t _ ret (omega arith)
      ∙ ap (λ bytes. decode_loop t read0 (ret ++ bytes)) (triple_lem a b c ha hb hc)

  encode_loop-ret :
      encode_loop (a ∷ b ∷ c ∷ t) held0 ret ≡ encode_loop t held0 (ret ++ chars_of (quad a b c))
  unfolding encode_loop
  encode_loop-ret = refl

-- The characters found before are in front of those to come.
pub encode_loop-append : (s ret : Bytes) → encode_loop s held0 ret ≡ ret ++ encode_loop s held0 []
unfolding encode_loop
encode_loop-append [] ret = sym (append-nil ret)
encode_loop-append (a ∷ []) ret = refl
encode_loop-append (a ∷ b ∷ []) ret = refl
encode_loop-append (a ∷ b ∷ c ∷ s) ret =
    encode_loop-append s (ret ++ chars_of (quad a b c))
    ∙ append_assoc ret (chars_of (quad a b c)) (encode_loop s held0 [])
    ∙ ap (ret ++◌) (sym (encode_loop-append s (chars_of (quad a b c))))

decode_one :
    (a : ℕ) (ret : Bytes)
    → IsByte a
    → decode_loop (encode_loop (a ∷ []) held0 []) read0 ret ≡ ret ++ a ∷ []
unfolding encode_loop decode_loop
decode_one a ret ha =
    ap (λ ns. decode_loop (chars_of (take 2 ns) ++ codes "==") read0 ret)
      (quad_lem a 0 0 ha (omega arith) (omega arith))
    ∙ decode_loop-char_at (first a) (char_at (second a 0) ∷ codes "==") read0 ret (omega arith)
    ∙ decode_loop-char_at (second a 0) (codes "==") (read1 (char_at (first a))) ret (omega arith)
    ∙ ap (ret ++◌) (triple_two a 0 0 ha (omega arith) (omega arith) 0 0)

decode_two :
    (a b : ℕ) (ret : Bytes)
    → IsByte a
    → IsByte b
    → decode_loop (encode_loop (a ∷ b ∷ []) held0 []) read0 ret ≡ ret ++ a ∷ b ∷ []
unfolding encode_loop decode_loop
decode_two a b ret ha hb =
    ap (λ ns. decode_loop (chars_of (take 3 ns) ++ codes "=") read0 ret)
      (quad_lem a b 0 ha hb (omega arith))
    ∙ decode_loop-char_at (first a) (char_at (second a b) ∷ char_at (third b 0) ∷ codes "=") read0
        ret (omega arith)
    ∙ decode_loop-char_at (second a b) (char_at (third b 0) ∷ codes "=") (read1 (char_at (first a)))
        ret (omega arith)
    ∙ decode_loop-char_at (third b 0) (codes "=") (read2 (char_at (first a)) (char_at (second a b)))
        ret (omega arith)
    ∙ ap (ret ++◌) (triple_three a b 0 ha hb (omega arith) 0)

pub decode_loop-encode_loop :
    (s ret : Bytes) → All IsByte s → decode_loop (encode_loop s held0 []) read0 ret ≡ ret ++ s
unfolding encode_loop decode_loop
decode_loop-encode_loop [] ret h = sym (append-nil ret)
decode_loop-encode_loop (a ∷ []) ret h = decode_one a ret h.0
decode_loop-encode_loop (a ∷ b ∷ []) ret h = decode_two a b ret h.0 h.1.0
decode_loop-encode_loop (a ∷ b ∷ c ∷ s) ret h =
    ap (λ text. decode_loop text read0 ret) (encode_loop-append s (chars_of (quad a b c)))
    ∙ decode_loop-quad a b c h.0 h.1.0 h.1.1.0 (encode_loop s held0 []) ret
    ∙ decode_loop-encode_loop s (ret ++ (a ∷ b ∷ c ∷ [])) h.1.1.1
    ∙ append_assoc ret (a ∷ b ∷ c ∷ []) s
