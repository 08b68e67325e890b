-- ===== src/Log/Memory.antt =====
-- `Log::memUsage` and `Log::parseLine` of src/Log.cpp, on an array of 128 bytes.
use mathlib.Core.Option
use worker_log.Base.{
  ℕ, zero, suc, ◌+◌, ◌-◌, ◌^◌, Bool, Option, none, some, List, [], ◌∷◌, ◌++◌, Bytes, codes, equal,
  c_string, length, take, drop, ltb, if◌then◌else◌,
}
use worker_log.Base.Decimal.{is_digit}
use worker_log.BoostHelpers.{atoi}

-- `while (*line < '0' || *line > '9') line++`: how far it goes; `none` is beyond the array.
unfoldable pub walk : Bytes → Option ℕ
walk [] = none
walk (c ∷ s) = let rest = Option.map suc (walk s) in if is_digit c then some 0 else rest

-- A zero byte at a place; `none` is outside of the array.
unfoldable pub set_zero : ℕ → Bytes → Option Bytes
set_zero i [] = none
set_zero zero (c ∷ s) = some (0 ∷ s)
set_zero (suc i) (c ∷ s) = Option.map (◌∷◌ c) (set_zero i s)

-- What `line[i - 3]` is from the start of the array, with `line` at `k`.
unfoldable pub cut_line : ℕ → ℕ → Bytes → Option Bytes
cut_line k i memory = if ltb (k + i) 3 then none else set_zero (k + i - 3) memory

-- `Log::parseLine`: the number.
unfoldable pub parse_line : Bytes → Option ℕ
unfolding walk cut_line
parse_line memory = elim (walk memory) [
  | none ↦ none
  | some k ↦
      Option.map (λ after. atoi (c_string (drop k after)))
        (cut_line k (length (c_string memory)) memory)
]

-- `fgets` into the array: the line and an end mark, over what was there.
abbrev pub fgets : Bytes → Bytes → Bytes
fgets line memory = line ++ 0 ∷ drop (length line + 1) memory

abbrev pub is_size : Bytes → Bool
is_size line = equal (take 7 line) (codes "VmSize:")

-- The loop over the lines of the file.
unfoldable pub read_lines : List Bytes → Bytes → Option ℕ
unfolding parse_line
read_lines [] memory = some (2 ^ 32 - 1)
read_lines (line ∷ lines) memory =
    let rest = read_lines lines (fgets line memory) in
    if is_size line then parse_line (fgets line memory) else rest

-- `Log::memUsage`; a file that cannot be opened is read all the same.
unfoldable pub mem_usage : Option (List Bytes) → Bytes → Option ℕ
unfolding read_lines
mem_usage none memory = none
mem_usage (some lines) memory = read_lines lines memory
