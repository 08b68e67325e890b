-- ===== src/Tests/Codes.antt =====
-- src/base64.cpp at concrete inputs, and the theorems there.
use worker_log.Base.{◌≡◌, refl, arith, codes}
use worker_log.Base64.{base64_encode, base64_decode, encode_loop, decode_loop, is_base64}
use worker_log.Base64.Whole.{base64_decode-base64_encode}

encode_run : base64_encode (codes "any?") ≡ codes "YW55Pw=="
unfolding base64_encode encode_loop
encode_run = refl

decode_run : base64_decode (codes "Zm9vYg==") ≡ codes "foob"
unfolding base64_decode decode_loop is_base64
decode_run = refl

base64_decode-base64_encode_example : base64_decode (base64_encode (codes "any?")) ≡ codes "any?"
base64_decode-base64_encode_example =
    base64_decode-base64_encode (codes "any?")
      (omega arith, (omega arith, (omega arith, (omega arith, tt)))) (omega arith)
