-- ===== src/BoostHelpers.antt =====
-- src/BoostHelpers.cpp and include/BoostHelpers.h: whether a path can be used.
pub mod Steps
pub mod Paths
use worker_log.Base.{
  ℕ, ◌%◌, ◌^◌, ◌-◌, bit_and, Bool, true, false, not, ◌&&◌, ◌||◌, Option, none, some, List, [], ◌∷◌,
  ◌++◌, Bytes, codes, equal, ◌==◌, if◌then◌else◌,
}
use worker_log.Base.Decimal.{strtol}
use worker_log.External.Files.{FileKind, regular, directory, other, Stat, FileSystem}

-- The user and the group of the process.
pub record Process : Type 0 where
  pub uid : ℕ
  pub gid : ℕ

-- The bits that are tested: those of others, of the user or of the group, to read and write a file and
-- to read and search a directory.
abbrev mask : Bool → Bool → FileKind → ℕ
mask user group regular =
    if not user && not group then 0o6 else if not user && group then 0o60 else 0o600
mask user group directory =
    if not user && not group then 0o5 else if not user && group then 0o50 else 0o500
mask user group other = 0

-- One of the bits is enough.
unfoldable pub allowed : Process → Stat → Bool
allowed process info = not (
    bit_and info.st_mode (mask (info.st_uid == process.uid) (info.st_gid == process.gid) info.kind)
    == 0)

-- `test.string () == "" || test.string () == "/"`.
abbrev pub is_root : Bytes → Bool
is_root test = equal test (codes "") || equal test (codes "/")

-- The steps from `begin ()` to `toEnd`, which is one before the end for a file.
abbrev without_last : List Bytes → List Bytes
without_last [] = []
without_last (p ∷ []) = []
without_last (p ∷ q ∷ ps) = p ∷ without_last (q ∷ ps)

module _ (F : FileSystem) where
  unfoldable pub walked : Bytes → Bool → List Bytes
  walked path is_file = if is_file then without_last (F.prefixes path) else F.prefixes path

  -- A step that has to be created: whether it goes on, and the files.
  create : Bool → Bytes → F.Files → Bool × F.Files
  create check_write test s =
      if check_write
      then elim (F.create_directories s test) [ none ↦ (false, s) | some made ↦ made ]
      else (false, s)

  -- The body of the loop.
  abbrev of_kind : Process → Bool → Bytes → F.Files → Stat → FileKind → Bool × F.Files
  of_kind process check_write test s info regular = (allowed process info, s)
  of_kind process check_write test s info directory = (allowed process info, s)
  of_kind process check_write test s info other = create check_write test s

  check_step : Process → Bool → Bytes → F.Files → Bool × F.Files
  unfolding create
  check_step process check_write test s = if is_root test then (true, s) else elim (F.stat s test) [
    | none ↦ create check_write test s
    | some info ↦ of_kind process check_write test s info info.kind
  ]

  -- What goes on after a result that is true; after any other the function returns false.
  abbrev pub if_true : (F.Files → Bool × F.Files) → Bool × F.Files → Bool × F.Files
  if_true next (true, s) = next s
  if_true next (false, s) = (false, s)

  -- The loop.
  unfoldable pub check_loop : Process → Bool → List Bytes → F.Files → Bool × F.Files
  unfolding check_step
  check_loop process check_write [] s = (true, s)
  check_loop process check_write (test ∷ rest) s =
      if_true (λ s'. check_loop process check_write rest s') (check_step process check_write test s)

  -- `BoostHelpers::checkPath`: the result, and the files.
  unfoldable pub check_path : Process → Bytes → Bool → Bool → F.Files → Bool × F.Files
  unfolding check_loop walked
  check_path process path check_write is_file s =
      if_true
        (λ s'. (true, if is_file && check_write then F.probe s' (path ++ codes "test") else s'))
        (check_loop process check_write (walked path is_file) s)

  -- `BoostHelpers::getConfigDir`.
  unfoldable pub get_config_dir : Bytes → F.Files → Bytes
  get_config_dir path s = elim (F.stat s path) [
    | none ↦ []
    | some info ↦ elim info.kind [
      | regular ↦ elim (F.parent_path path) [
        | none ↦ codes "./"
        | some parent ↦ parent ++ codes "/"
      ]
      | directory ↦ []
      | other ↦ []
    ]
  ]

-- `atoi`.
abbrev pub atoi : Bytes → ℕ
atoi text = (strtol text).0 % 2 ^ 32

-- `BoostHelpers::getSeconds`, given what `timeRegex` matches: the text from its second group on.
unfoldable pub get_seconds : (Bytes → Option Bytes) → Bytes → ℕ
get_seconds second_group s = elim (second_group s) [ none ↦ 2 ^ 32 - 1 | some text ↦ atoi text ]
