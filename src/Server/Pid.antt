-- ===== src/Server/Pid.antt =====
-- The pid file of src/Server.cpp: `Server::writePid`.
use worker_log.Base.{
  ℕ, zero, suc, ◌+◌, ◌-◌, ◌/◌, ◌^◌, ◌<◌, ◌≡◌, refl, sym, ap, ◌∙◌, Bool, true, false, not, [], ◌∷◌,
  ◌++◌, Bytes, empty, length, length-append, take, drop, replicate, All, Lacks, ltb, ◌==◌,
  if◌then◌else◌, Bool-cases, inl, inr, arith, append_assoc, take-length,
}
use worker_log.Base.Decimal.{
  decimal, decimal_onto, IsDigit, All-decimal, read_digits-decimal, strtol-All,
}
use worker_log.BoostHelpers.{atoi}
use worker_log.Server.{until_zero}
use worker_log.Server.Processes.{until_zero-append}

-- `log10` of a positive number, as an `int`, on fuel.
unfoldable log10_onto : ℕ → ℕ → ℕ
log10_onto zero n = 0
log10_onto (suc fuel) n = let rest = log10_onto fuel (n / 10) in if ltb n 10 then 0 else rest + 1

unfoldable pub log10 : ℕ → ℕ
unfolding log10_onto
log10 n = log10_onto (suc n) n

-- `snprintf (buf, len, …)` into `len` zero bytes: an end mark always fits.
unfoldable snprintf : ℕ → Bytes → Bytes
snprintf len text = let kept = take (len - 1) text in kept ++ replicate (len - length kept) 0

-- What a file holds after the first `count` bytes of a text were written at its start.
abbrev overwrite : ℕ → Bytes → Bytes → Bytes
overwrite count text old = take count text ++ drop count old

-- No file is asked for; it cannot be opened, which exits; or what it holds, and whether an error is logged.
pub data PidFile : Type 0 where
  unwanted unopened : PidFile
  holds : Bytes → Bool → PidFile

-- `Server::writePid` for the process `p`, on a file that holds `old`, of which `write` takes `count`
-- bytes.
unfoldable pub write_pid : Bytes → ℕ → Bool → ℕ → Bytes → PidFile
unfolding log10 snprintf
write_pid name p opens count old =
    let len = log10 p + 2 in
    if empty name
    then unwanted
    else if not opens
    then unopened
    else holds (overwrite count (snprintf len (decimal p)) old) (not (count == len))

length-decimal_onto :
    (fuel n : ℕ) (rest : Bytes)
    → n < fuel
    → length (decimal_onto fuel n rest) ≡ log10_onto fuel n + 1 + length rest
unfolding decimal_onto log10_onto
length-decimal_onto zero n rest h = elim h [ ]
length-decimal_onto (suc fuel) n rest h = elim (Bool-cases (ltb n 10)) [
  | inl small ↦ rw small (omega arith)
  | inr large ↦ rw large (length-decimal_onto fuel (n / 10) _ (ground arith) ∙ omega arith)
]

length-decimal : (n : ℕ) → length (decimal n) ≡ log10 n + 1
unfolding decimal log10
length-decimal n = omega (arith, length-decimal_onto (suc n) n [] (omega arith))

-- The text that is written for a process: its number and an end mark.
snprintf-decimal : (p : ℕ) → snprintf (log10 p + 2) (decimal p) ≡ decimal p ++ 0 ∷ []
unfolding snprintf
snprintf-decimal p =
    let room : log10 p + 2 - 1 ≡ length (decimal p) = omega (arith, length-decimal p) in
    let kept : take (log10 p + 2 - 1) (decimal p) ≡ decimal p =
      ap (λ n. take n (decimal p)) room ∙ take-length (decimal p) in
    let left : log10 p + 2 - length (decimal p) ≡ 1 = omega (arith, length-decimal p) in
    rw (kept, left) refl

length-snprintf-decimal : (p : ℕ) → length (decimal p ++ 0 ∷ []) ≡ log10 p + 2
length-snprintf-decimal p = omega (arith, length-append (decimal p) (0 ∷ []), length-decimal p)

Lacks-digits : (s : Bytes) → All IsDigit s → Lacks 0 s
Lacks-digits [] h = tt
Lacks-digits (c ∷ s) h = (ground (arith, h.0), Lacks-digits s h.1)

atoi-decimal : (p : ℕ) → p < 2 ^ 31 → atoi (decimal p) ≡ p
atoi-decimal p h =
    let digits = strtol-All (decimal p) (All-decimal p) in
    let value = ap (λ r. r.0) (read_digits-decimal p) in
    rw (ap (λ r. r.0) digits, value) (omega arith)

-- The number of a process, below 2^31, that is written to a pid file that has a name, can be opened and
-- takes all of it, is read back whatever the file held before.
pub atoi-write_pid :
    (name old : Bytes) (p : ℕ)
    → empty name ≡ false
    → p < 2 ^ 31
    → (file : Bytes) × (write_pid name p true (log10 p + 2) old ≡ holds file false)
      × (atoi (until_zero file) ≡ p)
unfolding write_pid
atoi-write_pid name old p named h =
    let text = decimal p ++ 0 ∷ [] in
    let file = text ++ drop (log10 p + 2) old in
    let all : take (log10 p + 2) text ≡ text =
      ap (λ n. take n text) (sym (length-snprintf-decimal p)) ∙ take-length text in
    let full : (log10 p + 2 == log10 p + 2) ≡ true = ground arith in
    let read : until_zero file ≡ decimal p =
      ap until_zero (append_assoc (decimal p) (0 ∷ []) (drop (log10 p + 2) old))
      ∙ until_zero-append (decimal p) (drop (log10 p + 2) old)
          (Lacks-digits (decimal p) (All-decimal p)) in
    (file, rw (named, write_pid, snprintf-decimal p, all, full) refl, rw read (atoi-decimal p h))
