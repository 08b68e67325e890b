-- ===== src/Base64/Whole.antt =====
-- `base64_encode` and `base64_decode` of src/base64.cpp on whole texts.
use worker_log.Base.{
  ◌+◌, ◌*◌, ◌/◌, ◌%◌, ◌^◌, ◌<◌, ◌≡◌, ap, ◌∙◌, [], Bytes, All, arith, take, take-length, length,
}
use worker_log.Base64.{held0, encode_loop, read0, decode_loop, base64_encode, base64_decode}
use worker_log.Base64.RoundTrip.{IsByte, decode_loop-encode_loop}
use worker_log.Base64.Shape.{encode_loop-length}

-- A length below 2^32 is kept as it is.
whole : (s : Bytes) → length s < 2 ^ 32 → take (length s % 2 ^ 32) s ≡ s
whole s h =
    ap (λ n. take n s) {x = length s % 2 ^ 32} {y = length s} (omega (arith, h)) ∙ take-length s

-- A text of bytes whose code is shorter than 2^31, as an `int` can count, is what the decoder makes of
-- that code, whatever the length of the text leaves over.
pub base64_decode-base64_encode :
    (s : Bytes)
    → All IsByte s
    → (length s + 2) / 3 * 4 < 2 ^ 31
    → base64_decode (base64_encode s) ≡ s
unfolding base64_decode base64_encode
base64_decode-base64_encode s h short =
    let code = encode_loop s held0 [] in
    ap (λ t. let c = encode_loop t held0 [] in decode_loop (take (length c % 2 ^ 32) c) read0 [])
      (whole s (omega (arith, short)))
    ∙ ap (λ c. decode_loop c read0 []) (whole code (omega (arith, short, encode_loop-length s)))
    ∙ decode_loop-encode_loop s [] h
