-- ===== src/External/Files.antt =====
-- The file system, as Boost.Filesystem and POSIX show it.
use worker_log.Base.{ℕ, ◌≡◌, Bool, true, false, Option, none, some, List, Bytes, equal}

-- What is tested of the kind of a file.
pub data FileKind : Type 0 where
  regular directory other : FileKind

-- `struct stat`, by the fields that are read.
pub record Stat : Type 0 where
  pub kind : FileKind
  pub st_uid : ℕ
  pub st_gid : ℕ
  pub st_mode : ℕ

pub record FileSystem : Type 1 where
  pub Files : Type 0
  -- `none` where nothing exists; of paths whose status can be read, on which `exists` does not throw.
  pub stat : Files → Bytes → Option Stat
  -- The result, with the files afterwards; `none` is an exception.
  pub create_directories : Files → Bytes → Option (Bool × Files)
  -- `open` with O_CREAT, `close` and `unlink`; and `unlink` alone.
  pub probe : Files → Bytes → Files
  pub unlink : Files → Bytes → Files
  -- What `test /= *it` goes through from `begin ()` to `end ()` of a path.
  pub prefixes : Bytes → List Bytes
  pub parent_path : Bytes → Option Bytes

abbrev pub is_there : Option Stat → Bool
is_there none = false
is_there (some info) = true

abbrev pub exists : (F : FileSystem) → F.Files → Bytes → Bool
exists F s path = is_there (F.stat s path)

pub record IsFileSystem (F : FileSystem) : Type 0 where
  -- A directory that was created exists, and what existed does.
  pub create-exists :
      (s s' : F.Files) (p : Bytes)
      → F.create_directories s p ≡ some (true, s')
      → exists F s' p ≡ true
  pub create-keeps :
      (s s' : F.Files) (p q : Bytes)
      → F.create_directories s p ≡ some (true, s')
      → exists F s q ≡ true
      → exists F s' q ≡ true
  -- A probe leaves other files alone.
  pub probe-keeps :
      (s : F.Files) (p q : Bytes) → equal p q ≡ false → exists F (F.probe s p) q ≡ exists F s q
