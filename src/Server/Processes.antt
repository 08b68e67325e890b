-- ===== src/Server/Processes.antt =====
-- Which processes `getProcIdByName` of src/Server.cpp finds.
use worker_log.Base.{
  ℕ, ◌≡◌, refl, sym, ap, ◌∙◌, Bool, true, false, not, ◌&&◌, Option, none, some, List, [], ◌∷◌, ◌++◌,
  Bytes, empty, equal, equal_refl, Lacks, Lacks-append, ◌==◌, if◌then◌else◌, append_assoc,
  Bool-cases, inl, inr,
}
use worker_log.BoostHelpers.{atoi}
use worker_log.Server.{
  Entry, until_zero, after_slash, program, positive, is_process, get_proc_id_by_name,
}

pub until_zero-append : (s t : Bytes) → Lacks 0 s → until_zero (s ++ 0 ∷ t) ≡ s
unfolding until_zero
until_zero-append [] t h = refl
until_zero-append (c ∷ s) t h = rw h.0 (ap (◌∷◌ c) (until_zero-append s t h.1))

after_slash-Lacks : (last s : Bytes) → Lacks b'/' s → after_slash last s ≡ last
unfolding after_slash
after_slash-Lacks last [] h = refl
after_slash-Lacks last (c ∷ s) h = rw h.0 (after_slash-Lacks last s h.1)

after_slash-append :
    (last dir name : Bytes) → Lacks b'/' name → after_slash last (dir ++ b'/' ∷ name) ≡ name
unfolding after_slash
after_slash-append last [] name h = after_slash-Lacks name name h
after_slash-append last (c ∷ dir) name h =
    after_slash-append (if c == b'/' then dir ++ b'/' ∷ name else last) dir name h

-- The program of a command line that starts with a path to it, whatever its arguments are.
program-path :
    (dir name arguments : Bytes)
    → Lacks 0 dir
    → Lacks 0 name
    → Lacks b'/' name
    → program (dir ++ b'/' ∷ (name ++ 0 ∷ arguments)) ≡ name
unfolding program
program-path dir name arguments hd hn hs =
    let path = dir ++ b'/' ∷ name in
    let split : dir ++ b'/' ∷ (name ++ 0 ∷ arguments) ≡ path ++ 0 ∷ arguments =
      sym (append_assoc dir (b'/' ∷ name) (0 ∷ arguments)) in
    let first : until_zero (dir ++ b'/' ∷ (name ++ 0 ∷ arguments)) ≡ path =
      ap until_zero split
      ∙ until_zero-append path arguments (Lacks-append 0 dir (b'/' ∷ name) hd (refl, hn)) in
    ap (λ p. after_slash p p) first ∙ after_slash-append path dir name hs

empty-append : (s : Bytes) (c : ℕ) (t : Bytes) → empty (s ++ c ∷ t) ≡ false
empty-append [] c t = refl
empty-append (b ∷ s) c t = refl

all_four : {a b c d : Bool} → a ≡ true → b ≡ true → c ≡ true → d ≡ true → (a && b && c && d) ≡ true
all_four h i j k = rw (h, i, j, k) refl

-- A process is found.
abbrev pub is_found : Option ℕ → Bool
is_found none = false
is_found (some id) = true

get_proc_id_by_name-append :
    (name : Bytes) (self : ℕ) (before after : List Entry) (entry : Entry)
    → is_process name self entry ≡ true
    → is_found (get_proc_id_by_name name self (before ++ entry ∷ after)) ≡ true
unfolding get_proc_id_by_name
get_proc_id_by_name-append name self [] after entry h = rw h refl
get_proc_id_by_name-append name self (other ∷ before) after entry h =
    elim (Bool-cases (is_process name self other)) [
      | inl taken ↦ rw taken refl
      | inr passed ↦ rw passed (get_proc_id_by_name-append name self before after entry h)
    ]

-- If another process, of a positive number, runs the program, by whatever path without a zero byte and
-- with whatever arguments, one is found; the name of the program holds no `/` and no zero byte.
get_proc_id_by_name_finds :
    (name dir arguments d_name : Bytes) (self : ℕ) (before after : List Entry)
    → positive (atoi d_name) ≡ true
    → (atoi d_name == self) ≡ false
    → Lacks 0 dir
    → Lacks 0 name
    → Lacks b'/' name
    → let entry : Entry = record {
      d_name = d_name;
      cmdline = dir ++ b'/' ∷ (name ++ 0 ∷ arguments);
    } in
      is_found (get_proc_id_by_name name self (before ++ entry ∷ after)) ≡ true
unfolding is_process
get_proc_id_by_name_finds name dir arguments d_name self before after hp hs hd hn hl =
    let cmdline = dir ++ b'/' ∷ (name ++ 0 ∷ arguments) in
    let named : equal name (program cmdline) ≡ true =
      ap (equal name) (program-path dir name arguments hd hn hl) ∙ equal_refl name in
    get_proc_id_by_name-append name self before after _
      (all_four hp (ap not (empty-append dir b'/' (name ++ 0 ∷ arguments))) named (ap not hs))
