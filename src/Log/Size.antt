-- ===== src/Log/Size.antt =====
-- What `Log::memUsage` of src/Log.cpp finds in the file of its process, and that its loops end.
use Prim.Native.Nat.{min}
use worker_log.Base.{
  ℕ, zero, suc, ◌+◌, ◌-◌, ◌%◌, ◌^◌, ◌≤◌, ◌<◌, ◌≡◌, refl, ap, ◌∙◌, true, false, some, List, [], ◌∷◌,
  ◌++◌, Bytes, codes, equal, c_string, Lacks, Lacks-append, All, ◌==◌, length, length-append, drop,
  drop-append, ltb, append_assoc, arith,
}
use worker_log.Base.Decimal.{is_digit, IsDigit, read_digits, strtol-append}
use worker_log.Log.Memory.{
  walk, set_zero, cut_line, parse_line, fgets, is_size, read_lines, mem_usage,
}
use worker_log.Log.Messages.{c_string-append}

abbrev pub IsBlank : ℕ → Type 0
IsBlank c = (is_digit c ≡ false) × ((c == 0) ≡ false)

walk-append :
    (s : Bytes) (d : ℕ) (t : Bytes)
    → All IsBlank s
    → is_digit d ≡ true
    → walk (s ++ d ∷ t) ≡ some (length s)
unfolding walk
walk-append [] d t h e = rw e refl
walk-append (c ∷ s) d t h e = rw (h.0.0, walk-append s d t h.1 e) refl

set_zero_within : (s : Bytes) (i : ℕ) → i < length s → (after : Bytes) × (set_zero i s ≡ some after)
unfolding set_zero
set_zero_within [] i h = elim h [ ]
set_zero_within (c ∷ s) zero h = (0 ∷ s, refl)
set_zero_within (c ∷ s) (suc i) h =
    let (after, e) = set_zero_within s i (omega (arith, h)) in (c ∷ after, rw e refl)

-- A zero byte behind a text leaves the text alone.
set_zero-append :
    (s : Bytes) (behind : Bytes) (i : ℕ)
    → length s ≤ i
    → i < length (s ++ 0 ∷ behind)
    → (after : Bytes) × (set_zero i (s ++ 0 ∷ behind) ≡ some (s ++ 0 ∷ after))
unfolding set_zero
set_zero-append [] behind zero h l = (behind, refl)
set_zero-append [] behind (suc i) h l =
    let (after, e) = set_zero_within behind i (omega (arith, l)) in (after, rw e refl)
set_zero-append (c ∷ s) behind zero h l = absurd (omega (arith, h))
set_zero-append (c ∷ s) behind (suc i) h l =
    let (after, e) = set_zero-append s behind i (omega (arith, h)) (omega (arith, l)) in
    (after, rw e refl)

Lacks-blank : (s : Bytes) → All IsBlank s → Lacks 0 s
Lacks-blank [] h = tt
Lacks-blank (c ∷ s) h = (h.0.1, Lacks-blank s h.1)

Lacks-digit : (s : Bytes) → All IsDigit s → Lacks 0 s
Lacks-digit [] h = tt
Lacks-digit (c ∷ s) h = (ground (arith, h.0), Lacks-digit s h.1)

module _ (pre : Bytes) (d : ℕ) (s : Bytes) (c : ℕ) (t : Bytes) where
  -- What stands from the first digit on, and the line.
  abbrev pub number_on : Bytes
  number_on = d ∷ s ++ c ∷ t

  abbrev pub line_of : Bytes
  line_of = pre ++ number_on

  -- The number of a line that has three bytes at least in front of its first digit and another byte
  -- behind the last one, if the array has room for the zero byte, which is put behind the line.
  parse_line-number :
      (behind : Bytes)
      → All IsBlank pre
      → 3 ≤ length pre
      → All IsDigit (d ∷ s)
      → is_digit c ≡ false
      → Lacks 0 (c ∷ t)
      → length pre + length line_of - 3 < length (line_of ++ 0 ∷ behind)
      → parse_line (line_of ++ 0 ∷ behind)
        ≡ some (min (read_digits 0 (d ∷ s)).0 (2 ^ 63 - 1) % 2 ^ 32)
  unfolding parse_line cut_line
  parse_line-number behind blank long digits e lacks room =
      let text : c_string (line_of ++ 0 ∷ behind) ≡ line_of = c_string-append line_of behind (
        Lacks-append 0 pre number_on (Lacks-blank pre blank)
          (Lacks-append 0 (d ∷ s) (c ∷ t) (Lacks-digit (d ∷ s) digits) lacks)) in
      let start : walk (line_of ++ 0 ∷ behind) ≡ some (length pre) =
        ap walk (append_assoc pre number_on (0 ∷ behind))
        ∙ walk-append pre d (s ++ c ∷ t ++ 0 ∷ behind) blank digits.0 in
      let size : length line_of ≤ length pre + length line_of - 3 = omega (arith, long) in
      let (after, put) =
        set_zero-append line_of behind (length pre + length line_of - 3) size room in
      let far : ltb (length pre + length line_of) 3 ≡ false = ground (arith, long) in
      let rest : drop (length pre) (line_of ++ 0 ∷ after) ≡ number_on ++ 0 ∷ after =
        ap (drop (length pre)) (append_assoc pre number_on (0 ∷ after))
        ∙ drop-append pre (number_on ++ 0 ∷ after) in
      let number : c_string (number_on ++ 0 ∷ after) ≡ number_on =
        c_string-append number_on after
          (Lacks-append 0 (d ∷ s) (c ∷ t) (Lacks-digit (d ∷ s) digits) lacks) in
      rw (start, parse_line, text, cut_line, far, put, rest, number, strtol-append d s c t digits e)
        refl

length-drop : (n : ℕ) (s : Bytes) → length (drop n s) ≡ length s - n
length-drop zero s = omega arith
length-drop (suc n) [] = omega arith
length-drop (suc n) (c ∷ s) = omega (arith, length-drop n s)

length-fgets :
    (line memory : Bytes) → length line < length memory → length (fgets line memory) ≡ length memory
length-fgets line memory h = omega (
  arith,
  length-append line (0 ∷ drop (length line + 1) memory),
  length-drop (length line + 1) memory,
)

-- A line of the file fits into the array, and is not the one that is looked for.
abbrev pub IsOther : Bytes → Type 0
IsOther line = (length line < 128) × (is_size line ≡ false)

module _ (blanks : Bytes) (d : ℕ) (s : Bytes) (c : ℕ) (t : Bytes) where
  abbrev pub size_line : Bytes
  size_line = line_of (codes "VmSize:" ++ blanks) d s c t

  -- The size of the process is the number of the first line that starts with VmSize:, whatever the
  -- array held and the lines before it are, where the lines fit into the array, there is no digit and no
  -- zero byte in front of the number, and the line is short enough for the zero byte, which is put
  -- behind it.
  pub mem_usage-number :
      (before after : List Bytes) (memory : Bytes)
      → length memory ≡ 128
      → All IsOther before
      → All IsBlank blanks
      → All IsDigit (d ∷ s)
      → is_digit c ≡ false
      → Lacks 0 (c ∷ t)
      → length size_line < 128
      → length blanks + length size_line < 124
      → mem_usage (some (before ++ size_line ∷ after)) memory
        ≡ some (min (read_digits 0 (d ∷ s)).0 (2 ^ 63 - 1) % 2 ^ 32)
  unfolding mem_usage read_lines equal
  mem_usage-number [] after memory m other blank digits e lacks short room =
      let pre = codes "VmSize:" ++ blanks in
      let size : length (fgets size_line memory) ≡ 128 =
        length-fgets size_line memory (omega (arith, m, short)) ∙ m in
      let blank' : All IsBlank pre = (
        (refl, refl),
        (
          (refl, refl),
          ((refl, refl), ((refl, refl), ((refl, refl), ((refl, refl), ((refl, refl), blank))))),
        ),
      ) in
      let front : length pre ≡ length blanks + 7 = omega arith in
      let whole : length (line_of pre d s c t) ≡ length size_line = refl in
      let array : length (line_of pre d s c t ++ 0 ∷ drop (length size_line + 1) memory) ≡ 128 =
        size in
      parse_line-number pre d s c t (drop (length size_line + 1) memory) blank' (omega arith) digits
        e lacks (omega (arith, front, whole, array, room))
  mem_usage-number (line ∷ before) after memory m other blank digits e lacks short room =
      let size = length-fgets line memory (omega (arith, m, other.0.0)) ∙ m in
      rw other.0.1 (
        mem_usage-number before after (fgets line memory) size other.1 blank digits e lacks short
          room)
