-- ===== src/CgiService/Body.antt =====
-- The body of a request, as `CgiService::ProcessRequest` of src/CgiService.cpp reads it.
use Prim.Native.Nat.{min}
use worker_log.Base.{
  ℕ, zero, suc, ◌^◌, ◌<◌, ◌-◌, ◌≡◌, refl, ◌∙◌, ap, List, [], ◌∷◌, ◌++◌, arith, ltb, ◌==◌, Bytes,
  codes, c_string, empty, length, length-append, take, replicate, length-replicate, length-take-le,
  sym, if◌then◌else◌, Option, false, none, some, Bool-cases, inl, inr,
}
use worker_log.Base.Decimal.{strtol, decimal, strtol-All, All-decimal, read_digits-decimal}
use worker_log.CgiService.Events.{Event, warn}

abbrev pub stdin_max : ℕ
stdin_max = 6000000

-- `std::string::resize (n)`.
unfoldable pub resize : ℕ → Bytes → Bytes
resize n s = take n s ++ replicate (n - length s) 0

-- The buffer of `n` bytes: filled with blanks, and then with what `FCGX_GetStr` finds.
unfoldable pub buffer : ℕ → Bytes → Bytes
buffer n stdin = take n stdin ++ replicate (n - length (take n stdin)) b' '

-- `postq` for a length that is not 0. The buffer has no end mark, so that the string is read on into
-- the bytes `behind` it.
unfoldable pub post_body : ℕ → Bytes → Bytes → Bytes
unfolding c_string resize buffer
post_body n stdin behind = resize n (c_string (buffer n stdin ++ behind))

abbrev pub clamp : ℕ → ℕ
clamp n = if ltb stdin_max n then stdin_max else n

-- What the parameter CONTENT_LENGTH makes of the body: the events, and `postq`.
unfoldable pub read_body : Option Bytes → Bytes → Bytes → List Event × Bytes
read_body none stdin behind = ([], [])
read_body (some text) stdin behind =
    let (bits, rest) = strtol text in
    let n = clamp bits in
    (
      if empty rest then [] else warn (codes "Can't Parse 'CONTENT_LENGTH'") ∷ [],
      if n == 0 then [] else post_body n stdin behind,
    )

-- Everything from the first zero on is zero.
abbrev pub zeroed : Bytes → Bytes
zeroed [] = []
zeroed (c ∷ s) = if c == 0 then replicate (suc (length s)) 0 else c ∷ zeroed s

length-buffer : (n : ℕ) (stdin : Bytes) → length (buffer n stdin) ≡ n
unfolding buffer
length-buffer n stdin = omega (
  arith,
  length-append (take n stdin) (replicate (n - length (take n stdin)) b' '),
  length-replicate {A = ℕ} (n - length (take n stdin)) b' ',
  length-take-le n stdin,
)

resize-c_string : (s behind : Bytes) → resize (length s) (c_string (s ++ behind)) ≡ zeroed s
unfolding resize c_string
resize-c_string [] behind =
    let none_left : 0 - length (c_string behind) ≡ 0 = omega arith in rw none_left
resize-c_string (c ∷ s) behind = elim (Bool-cases (c == 0)) [
  | inl end ↦ let whole : suc (length s) - 0 ≡ suc (length s) = omega arith in rw (end, whole)
  | inr more ↦
      let t = c_string (s ++ behind) in
      let fewer : suc (length s) - suc (length t) ≡ length s - length t = omega arith in
      rw (more, fewer) (ap (◌∷◌ c) (resize-c_string s behind))
]

length-zeroed : (s : Bytes) → length (zeroed s) ≡ length s
length-zeroed [] = refl
length-zeroed (c ∷ s) = ground (arith, length-zeroed s, length-replicate {A = ℕ} (length s) 0)

-- A body that is read has `n` bytes, and it does not depend on what lies behind the buffer: it is the bytes that were sent, blanks for those that are missing, and zeros from the first zero on.
pub post_body_lem :
    (n : ℕ) (stdin behind : Bytes)
    → (post_body n stdin behind ≡ zeroed (buffer n stdin)) × (length (post_body n stdin behind) ≡ n)
unfolding post_body
post_body_lem n stdin behind =
    let bytes : post_body n stdin behind ≡ zeroed (buffer n stdin) =
      ap (λ k. resize k (c_string (buffer n stdin ++ behind))) (sym (length-buffer n stdin))
      ∙ resize-c_string (buffer n stdin) behind in
    (bytes, ap length bytes ∙ length-zeroed (buffer n stdin) ∙ length-buffer n stdin)

body_at :
    (n : ℕ) (stdin behind : Bytes)
    → (if n == 0 then [] else post_body n stdin behind) ≡ zeroed (buffer n stdin)
unfolding buffer
body_at zero stdin behind = refl
body_at (suc n) stdin behind =
    let some_ : (suc n == 0) ≡ false = ground arith in
    rw some_ (post_body_lem (suc n) stdin behind).0

-- Where the parameter gives a length below 2^63 in decimal, nothing is logged, and the body has as many
-- bytes as announced, at most 6000000, and does not depend on what lies behind the buffer: it is the bytes
-- that were sent, blanks for those that are missing, and zeros from the first zero on.
pub read_body-decimal :
    (n : ℕ) (stdin behind : Bytes)
    → n < 2 ^ 63
    → (read_body (some (decimal n)) stdin behind ≡ ([], zeroed (buffer (min n stdin_max) stdin)))
      × (length (read_body (some (decimal n)) stdin behind).1 ≡ min n stdin_max)
unfolding read_body
read_body-decimal n stdin behind h =
    let parsed : strtol (decimal n) ≡ (n, []) =
      strtol-All (decimal n) (All-decimal n)
      ∙ ap (λ r. (min r.0 (2 ^ 63 - 1), [])) (read_digits-decimal n)
      ∙ ap (λ k. (k, [])) {x = min n (2 ^ 63 - 1)} {y = n} (ground arith) in
    let clamped : clamp n ≡ min n stdin_max = ground arith in
    let body : (if min n stdin_max == 0 then [] else post_body (min n stdin_max) stdin behind)
        ≡ zeroed (buffer (min n stdin_max) stdin) =
      body_at (min n stdin_max) stdin behind in
    let whole : read_body (some (decimal n)) stdin behind
        ≡ ([], zeroed (buffer (min n stdin_max) stdin)) =
      rw (parsed, read_body, clamped) (ap (λ s. ([], s)) body) in
    (
      whole,
      ap (λ r. length r.1) whole
          ∙ length-zeroed (buffer (min n stdin_max) stdin)
          ∙ length-buffer (min n stdin_max) stdin,
    )
