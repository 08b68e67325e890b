-- ===== src/BoostHelpers/Paths.antt =====
-- Which paths `checkPath` of src/BoostHelpers.cpp takes, and what it leaves behind.
use worker_log.Base.{
  ◌≡◌, inl, inr, refl, ap, subst, ◌∙◌, Bool, true, false, ◌&&◌, ◌||◌, Option, none, some, List, [],
  ◌∷◌, ◌++◌, Bytes, codes, equal, All, Bool-cases, Option-cases, if◌then◌else◌,
}
use worker_log.External.Files.{FileKind, regular, directory, other, Stat, FileSystem, IsFileSystem}
use worker_log.BoostHelpers.{
  Process, allowed, is_root, walked, create, of_kind, check_step, check_loop, check_path, if_true,
}
use worker_log.BoostHelpers.Steps.{or_map, if_true-cases, reached, check_loop-reached}

module _ (F : FileSystem) (process : Process) where
  -- A step that a check without writing goes through.
  abbrev of_file_kind : Stat → FileKind → Bool
  of_file_kind info regular = allowed process info
  of_file_kind info directory = allowed process info
  of_file_kind info other = false

  abbrev pub of_stat : Option Stat → Bool
  of_stat none = false
  of_stat (some info) = of_file_kind info info.kind

  abbrev pub passable : F.Files → Bytes → Bool
  passable s test = is_root test || of_stat (F.stat s test)

  abbrev pub all_passable : F.Files → List Bytes → Bool
  all_passable s [] = true
  all_passable s (test ∷ rest) = passable s test && all_passable s rest

  of_kind-of_file_kind :
      (test : Bytes) (s : F.Files) (info : Stat) (kind : FileKind)
      → of_kind F process false test s info kind ≡ (of_file_kind info kind, s)
  unfolding create
  of_kind-of_file_kind test s info regular = refl
  of_kind-of_file_kind test s info directory = refl
  of_kind-of_file_kind test s info other = refl

  check_step-passable :
      (test : Bytes) (s : F.Files) → check_step F process false test s ≡ (passable s test, s)
  unfolding check_step create
  check_step-passable test s = elim (Bool-cases (is_root test)) [
    | inl root ↦ rw root refl
    | inr step ↦ elim (Option-cases (F.stat s test)) [
      | inl n ↦ rw (step, n) refl
      | inr (info, e) ↦ rw (step, e) (of_kind-of_file_kind test s info info.kind)
    ]
  ]

  check_loop-passable :
      (rest : List Bytes) (s : F.Files)
      → check_loop F process false rest s ≡ (all_passable s rest, s)
  unfolding check_loop
  check_loop-passable [] s = refl
  check_loop-passable (test ∷ rest) s =
      ap (if_true F (λ s'. check_loop F process false rest s')) (check_step-passable test s)
      ∙ elim (Bool-cases (passable s test)) [
        | inl ok ↦ rw ok (check_loop-passable rest s)
        | inr stopped ↦ rw stopped refl
      ]

  no_probe :
      (path : Bytes) (is_file ok : Bool) (s : F.Files)
      → if_true F
          (λ s'. (true, if is_file && false then F.probe s' (path ++ codes "test") else s'))
          (ok, s)
        ≡ (ok, s)
  no_probe path is_file false s = refl
  no_probe path true true s = refl
  no_probe path false true s = refl

  -- A check without writing leaves the files alone, and it is true exactly if each step on the way is
  -- the root, or a file or a directory of which one of the two bits is set that are tested.
  pub check_path-passable :
      (path : Bytes) (is_file : Bool) (s : F.Files)
      → check_path F process path false is_file s ≡ (all_passable s (walked F path is_file), s)
  unfolding check_path
  check_path-passable path is_file s =
      ap
        (if_true F
          (λ s'. (true, if is_file && false then F.probe s' (path ++ codes "test") else s')))
        (check_loop-passable (walked F path is_file) s)
      ∙ no_probe path is_file (all_passable s (walked F path is_file)) s

module _ (F : FileSystem) (L : IsFileSystem F) (process : Process) where
  probe_reached :
      (path test : Bytes) (probed : Bool) (t : F.Files)
      → equal (path ++ codes "test") test ≡ false
      → reached F process t test ≡ true
      → reached F process (if probed && true then F.probe t (path ++ codes "test") else t) test
        ≡ true
  probe_reached path test false t apart h = h
  probe_reached path test true t apart h =
      or_map (is_root test) (λ z. L.probe-keeps t (path ++ codes "test") test apart ∙ z) h

  probe-All :
      (path : Bytes) (probed : Bool) (t : F.Files) (steps : List Bytes)
      → All (λ test. equal (path ++ codes "test") test ≡ false) steps
      → All (λ test. reached F process t test ≡ true) steps
      → All
          (λ test.
            reached F process (if probed && true then F.probe t (path ++ codes "test") else t) test
            ≡ true)
          steps
  probe-All path probed t [] apart h = tt
  probe-All path probed t (test ∷ steps) apart h =
      (probe_reached path test probed t apart.0 h.0, probe-All path probed t steps apart.1 h.1)

  -- If a check with writing is true, then afterwards every step of the path exists, or is the root. The file that is tried out and
  -- deleted must not be one of the steps.
  pub check_path-reached :
      (path : Bytes) (is_file : Bool) (s s' : F.Files)
      → check_path F process path true is_file s ≡ (true, s')
      → All (λ test. equal (path ++ codes "test") test ≡ false) (walked F path is_file)
      → All (λ test. reached F process s' test ≡ true) (walked F path is_file)
  unfolding check_path
  check_path-reached path is_file s s' e apart =
      let probed =
        λ (t : F.Files). if is_file && true then F.probe t (path ++ codes "test") else t in
      let (t, looped, last) =
        if_true-cases F (λ t. (true, probed t))
          (check_loop F process true (walked F path is_file) s) s' e in
      subst (λ end. All (λ test. reached F process end test ≡ true) (walked F path is_file))
        (ap (λ (r : Bool × F.Files). r.1) last)
        (probe-All path is_file t (walked F path is_file) apart
          (check_loop-reached F L process (walked F path is_file) s t looped))
