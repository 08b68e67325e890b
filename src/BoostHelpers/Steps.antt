-- ===== src/BoostHelpers/Steps.antt =====
-- What a check with writing of src/BoostHelpers.cpp leaves of each step of a path.
use worker_log.Base.{
  ◌≡◌, ◌⊎◌, inl, inr, refl, sym, ap, ◌∙◌, Bool, true, false, ◌||◌, some, List, [], ◌∷◌, Bytes, All,
  Bool-cases, Option-cases,
}
use worker_log.External.Files.{
  FileKind, regular, directory, other, Stat, FileSystem, IsFileSystem, exists, is_there,
}
use worker_log.BoostHelpers.{Process, is_root, create, of_kind, check_step, check_loop, if_true}

pub or_right : (a : Bool) {b : Bool} → b ≡ true → (a || b) ≡ true
or_right true e = refl
or_right false e = e

pub or_map : (a : Bool) {b c : Bool} → (b ≡ true → c ≡ true) → (a || b) ≡ true → (a || c) ≡ true
or_map true f e = refl
or_map false f e = f e

pub if_true-cases :
    (F : FileSystem) (next : F.Files → Bool × F.Files) (r : Bool × F.Files) (s' : F.Files)
    → if_true F next r ≡ (true, s')
    → (t : F.Files) × (r ≡ (true, t)) × (next t ≡ (true, s'))
if_true-cases F next (true, t) s' e = (t, refl, e)
if_true-cases F next (false, t) s' e =
    let wrong : false ≡ true = ap (λ (r : Bool × F.Files). r.0) e in cc

module _ (F : FileSystem) (process : Process) where
  -- A step that exists, or need not.
  abbrev pub reached : F.Files → Bytes → Bool
  reached s test = is_root test || exists F s test

module _ (F : FileSystem) (process : Process) where
  create-cases :
      (test : Bytes) (s s' : F.Files)
      → create F true test s ≡ (true, s')
      → F.create_directories s test ≡ some (true, s')
  unfolding create
  create-cases test s s' e = elim (Option-cases (F.create_directories s test)) [
    | inl n ↦
        let failed : create F true test s ≡ (false, s) = rw (n, create) refl in
        let wrong : false ≡ true = ap (λ (r : Bool × F.Files). r.0) (sym failed ∙ e) in cc
    | inr (made, m) ↦
        let result : create F true test s ≡ made = rw (m, create) refl in
        m ∙ ap some (sym result ∙ e)
  ]

  -- A step that was gone through was there, or was created.
  of_kind-cases :
      (test : Bytes) (s s' : F.Files) (info : Stat) (kind : FileKind)
      → of_kind F process true test s info kind ≡ (true, s')
      → (s ≡ s') ⊎ (F.create_directories s test ≡ some (true, s'))
  of_kind-cases test s s' info regular e = inl (ap (λ (r : Bool × F.Files). r.1) e)
  of_kind-cases test s s' info directory e = inl (ap (λ (r : Bool × F.Files). r.1) e)
  of_kind-cases test s s' info other e = inr (create-cases test s s' e)

  check_step-cases :
      (test : Bytes) (s s' : F.Files)
      → check_step F process true test s ≡ (true, s')
      → ((s ≡ s') × (reached F process s test ≡ true))
        ⊎ (F.create_directories s test ≡ some (true, s'))
  unfolding check_step
  check_step-cases test s s' e = elim (Bool-cases (is_root test)) [
    | inl root ↦
        let same : check_step F process true test s ≡ (true, s) = rw (root, check_step) refl in
        inl (ap (λ (r : Bool × F.Files). r.1) (sym same ∙ e), rw root refl)
    | inr step ↦ elim (Option-cases (F.stat s test)) [
      | inl n ↦
          let made : check_step F process true test s ≡ create F true test s =
            rw (step, check_step, n) refl in
          inr (create-cases test s s' (sym made ∙ e))
      | inr (info, h) ↦
          let found : check_step F process true test s
              ≡ of_kind F process true test s info info.kind =
            rw (step, check_step, h) refl in
          elim (of_kind-cases test s s' info info.kind (sym found ∙ e)) [
            | inl same ↦ inl (same, or_right (is_root test) (ap is_there h))
            | inr made ↦ inr made
          ]
    ]
  ]

module _ (F : FileSystem) (L : IsFileSystem F) (process : Process) where
  check_step-keeps :
      (test q : Bytes) (s s' : F.Files)
      → check_step F process true test s ≡ (true, s')
      → exists F s q ≡ true
      → exists F s' q ≡ true
  check_step-keeps test q s s' e h = elim (check_step-cases F process test s s' e) [
    | inl (same, _) ↦ ap (λ t. exists F t q) (sym same) ∙ h
    | inr made ↦ L.create-keeps s s' test q made h
  ]

  check_step-reached :
      (test : Bytes) (s s' : F.Files)
      → check_step F process true test s ≡ (true, s')
      → reached F process s' test ≡ true
  check_step-reached test s s' e = elim (check_step-cases F process test s s' e) [
    | inl (same, there) ↦ ap (λ t. reached F process t test) (sym same) ∙ there
    | inr made ↦ or_right (is_root test) (L.create-exists s s' test made)
  ]

  -- The loop as its steps.
  check_loop-cons :
      (test : Bytes) (rest : List Bytes) (s s' : F.Files)
      → check_loop F process true (test ∷ rest) s ≡ (true, s')
      → (t : F.Files) × (check_step F process true test s ≡ (true, t))
        × (check_loop F process true rest t ≡ (true, s'))
  unfolding check_loop
  check_loop-cons test rest s s' e =
      if_true-cases F (λ t. check_loop F process true rest t) (check_step F process true test s) s'
        e

  check_loop-keeps :
      (rest : List Bytes) (q : Bytes) (s s' : F.Files)
      → check_loop F process true rest s ≡ (true, s')
      → exists F s q ≡ true
      → exists F s' q ≡ true
  unfolding check_loop
  check_loop-keeps [] q s s' e h = ap (λ (r : Bool × F.Files). exists F r.1 q) (sym e) ∙ h
  check_loop-keeps (test ∷ rest) q s s' e h =
      let (t, first, later) = check_loop-cons test rest s s' e in
      check_loop-keeps rest q t s' later (check_step-keeps test q s t first h)

  pub check_loop-reached :
      (rest : List Bytes) (s s' : F.Files)
      → check_loop F process true rest s ≡ (true, s')
      → All (λ test. reached F process s' test ≡ true) rest
  check_loop-reached [] s s' e = tt
  check_loop-reached (test ∷ rest) s s' e =
      let (t, first, later) = check_loop-cons test rest s s' e in
      (
        or_map (is_root test) (check_loop-keeps rest test t s' later)
            (check_step-reached test s t first),
        check_loop-reached rest t s' later,
      )
