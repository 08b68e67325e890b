-- ===== src/Tests/SampleFiles.antt =====
-- A file system that meets the laws, and an XML document, for the examples.
use worker_log.Base.{
  ℕ, ◌≡◌, refl, ap, ◌∙◌, subst, Bool, true, Option, none, some, some-inj, List, [], ◌∷◌, Bytes,
  codes, equal, equal_refl, Bool-cases, inl, inr, ◌==◌, ◌&&◌, if◌then◌else◌,
}
use worker_log.Base.Dict.{Dict, find, assign, find-assign}
use worker_log.External.Files.{FileSystem, IsFileSystem, Stat, directory, is_there}
use worker_log.External.Xml.{Xml}

-- A directory that was just created.
abbrev created : Stat
created = record { kind = directory; st_uid = 1000; st_gid = 1000; st_mode = 0o755 }

abbrev create_sample : Dict Stat → Bytes → Option (Bool × Dict Stat)
create_sample s p = some (true, assign s p created)

-- The files are a dictionary; a probe changes none of them, and every path is one below /var/run.
abbrev pub sample_files : FileSystem
sample_files = record {
  Files = Dict Stat;
  stat = find;
  create_directories = create_sample;
  probe = λ s p. s;
  unlink = λ s p. s;
  prefixes = λ path. codes "/" ∷ codes "/var" ∷ codes "/var/run" ∷ path ∷ [];
  parent_path = λ path. some (codes "/var/run");
}

made :
    (s s' : Dict Stat) (p : Bytes) → create_sample s p ≡ some (true, s') → assign s p created ≡ s'
made s s' p e = ap (λ (r : Bool × Dict Stat). r.1) (some-inj e)

assign-find : (s : Dict Stat) (p : Bytes) → is_there (find (assign s p created) p) ≡ true
assign-find s p = ap is_there (find-assign s p created p) ∙ rw (equal_refl p) refl

assign-keeps :
    (s : Dict Stat) (p q : Bytes)
    → is_there (find s q) ≡ true
    → is_there (find (assign s p created) q) ≡ true
assign-keeps s p q h =
    ap is_there (find-assign s p created q)
    ∙ elim (Bool-cases (equal p q)) [ inl same ↦ rw same refl | inr apart ↦ rw apart h ]

pub sample_files-IsFileSystem : IsFileSystem sample_files
sample_files-IsFileSystem = record {
  create-exists =
      λ s s' p e. subst (λ t. is_there (find t p) ≡ true) (made s s' p e) (assign-find s p);
  create-keeps = λ s s' p q e h.
      subst (λ t. is_there (find t q) ≡ true) (made s s' p e) (assign-keeps s p q h);
  probe-keeps = λ s p q apart. refl;
}

-- The children of a document: the element, the name and the child.
abbrev children : List (ℕ × Bytes × ℕ)
children =
    (0, codes "log", 1)
    ∷ (1, codes "commands", 2)
    ∷ (1, codes "monitor", 3)
    ∷ (0, codes "server", 4)
    ∷ (4, codes "geocity_path", 5)
    ∷ (4, codes "geocountry_path", 6)
    ∷ []

abbrev pub look_up : List (ℕ × Bytes × ℕ) → ℕ → Bytes → Option ℕ
look_up [] parent name = none
look_up ((from, key, child) ∷ rest) parent name =
    if from == parent && equal key name then some child else look_up rest parent name

abbrev text_at : ℕ → Option Bytes
text_at el =
    if el == 2
    then some (codes "0")
    else if el == 3
    then some (codes "1")
    else if el == 5
    then some (codes "/var/run/city.dat")
    else if el == 6
    then some (codes "/nowhere/country.dat")
    else none

abbrev pub sample_xml : Xml
sample_xml = record {
  Element = ℕ;
  first_child = look_up children;
  get_text = text_at;
  attribute = λ el name. some (codes "1");
}
