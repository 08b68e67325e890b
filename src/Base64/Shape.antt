-- ===== src/Base64/Shape.antt =====
-- What the texts look like that src/base64.cpp writes.
use worker_log.Base.{
  ℕ, ◌+◌, ◌*◌, ◌/◌, ◌<◌, ◌≡◌, refl, sym, ap, subst, true, ◌||◌, List, [], ◌∷◌, Bytes, codes, All,
  All-append, arith, length, length-append, take, ◌==◌, passes, passes_sound,
}
use worker_log.Base64.{char_at, is_base64, held0, quad, chars_of, encode_loop}
use worker_log.Base64.RoundTrip.{quad_lem, IsByte, encode_loop-append}

-- Each three bytes that are begun give four characters, so that the length is a multiple of 4.
pub encode_loop-length : (s : Bytes) → length (encode_loop s held0 []) ≡ (length s + 2) / 3 * 4
unfolding encode_loop quad
encode_loop-length [] = refl
encode_loop-length (a ∷ []) = refl
encode_loop-length (a ∷ b ∷ []) = refl
encode_loop-length (a ∷ b ∷ c ∷ s) =
    let rest = encode_loop-length s in
    let parts = ap length (encode_loop-append s (chars_of (quad a b c))) in
    let whole = length-append (chars_of (quad a b c)) (encode_loop s held0 []) in
    omega (arith, rest, parts, whole)

-- The characters of a code that can stand in a URL: letters, digits, `-`, `_`, and `=` at the end.
abbrev pub IsUrlSafe : ℕ → Type 0
IsUrlSafe c = (is_base64 c || c == b'=') ≡ true

char_at-IsUrlSafe : (n : ℕ) → n < 64 → IsUrlSafe (char_at n)
unfolding passes char_at is_base64
char_at-IsUrlSafe n h = passes_sound (λ n. is_base64 (char_at n) || char_at n == b'=') 64 refl n h

quad-All : (a b c : ℕ) → IsByte a → IsByte b → IsByte c → All (λ n. n < 64) (quad a b c)
quad-All a b c ha hb hc =
    subst (All (λ n. n < 64)) (sym (quad_lem a b c ha hb hc))
      (omega arith, (omega arith, (omega arith, (omega arith, tt))))

chars_of-All : (ns : List ℕ) → All (λ n. n < 64) ns → All IsUrlSafe (chars_of ns)
chars_of-All [] h = tt
chars_of-All (n ∷ ns) h = (char_at-IsUrlSafe n h.0, chars_of-All ns h.1)

-- The code of a text of bytes has only characters that can stand in a URL.
encode_loop-All : (s : Bytes) → All IsByte s → All IsUrlSafe (encode_loop s held0 [])
unfolding encode_loop quad is_base64
encode_loop-All [] h = tt
encode_loop-All (a ∷ []) h =
    let digits = quad-All a 0 0 h.0 (omega arith) (omega arith) in
    All-append IsUrlSafe (chars_of (take 2 (quad a 0 0))) (codes "==")
      (chars_of-All (take 2 (quad a 0 0)) (digits.0, (digits.1.0, tt))) (refl, (refl, tt))
encode_loop-All (a ∷ b ∷ []) h =
    let digits = quad-All a b 0 h.0 h.1.0 (omega arith) in
    All-append IsUrlSafe (chars_of (take 3 (quad a b 0))) (codes "=")
      (chars_of-All (take 3 (quad a b 0)) (digits.0, (digits.1.0, (digits.1.1.0, tt)))) (refl, tt)
encode_loop-All (a ∷ b ∷ c ∷ s) h =
    subst (All IsUrlSafe) (sym (encode_loop-append s (chars_of (quad a b c)))) (
      All-append IsUrlSafe (chars_of (quad a b c)) (encode_loop s held0 [])
        (chars_of-All (quad a b c) (quad-All a b c h.0 h.1.0 h.1.1.0)) (encode_loop-All s h.1.1.1))
