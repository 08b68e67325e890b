-- ===== src/Db/Names.antt =====
-- The registry of src/DB.cpp as a map from names to options.
use worker_log.Base.{
  ℕ, zero, suc, ◌<◌, ◌≡◌, ◌≢◌, refl, sym, ap, ◌∙◌, subst, arith, true, none, some, List, [], ◌∷◌,
  ◌++◌, Bytes, length, length-append, get_elem?, equal, equal_iff, Bool-cases, Option-cases, inl,
  inr, if◌then◌else◌,
}
use worker_log.Base.Dict.{find, assign, find-assign}
use worker_log.Db.{ConnectionOptions, Registry, write, add_options, look, connect}

-- Every pointer is to an object, and no two names share one.
pub record IsRegistry (r : Registry) : Type 0 where
  pub bounded : (name : Bytes) (at : ℕ) → find r.names name ≡ some at → at < length r.store
  pub apart :
      (name other : Bytes) (at : ℕ)
      → find r.names name ≡ some at
      → find r.names other ≡ some at
      → equal name other ≡ true

get_elem?-append :
    (store : List ConnectionOptions) (o : ConnectionOptions) (at : ℕ)
    → (at < length store → get_elem? (store ++ o ∷ []) at ≡ get_elem? store at)
      × (get_elem? (store ++ o ∷ []) (length store) ≡ some o)
get_elem?-append [] o at = (λ h. absurd (omega (arith, h)), refl)
get_elem?-append (old ∷ store) o zero = (λ h. refl, (get_elem?-append store o zero).1)
get_elem?-append (old ∷ store) o (suc at) =
    ((λ h. (get_elem?-append store o at).0 (omega arith)), (get_elem?-append store o at).1)

get_elem?-write :
    (store : List ConnectionOptions) (o : ConnectionOptions) (at : ℕ)
    → at < length store
    → get_elem? (write store at o) at ≡ some o
get_elem?-write [] o at h = absurd (omega (arith, h))
get_elem?-write (old ∷ store) o zero h = refl
get_elem?-write (old ∷ store) o (suc at) h = get_elem?-write store o at (omega arith)

get_elem?-write_other :
    (store : List ConnectionOptions) (o : ConnectionOptions) (at asked : ℕ)
    → asked ≢ at
    → get_elem? (write store at o) asked ≡ get_elem? store asked
get_elem?-write_other [] o at asked h = refl
get_elem?-write_other (old ∷ store) o zero zero h = absurd (h refl)
get_elem?-write_other (old ∷ store) o zero (suc asked) h = refl
get_elem?-write_other (old ∷ store) o (suc at) zero h = refl
get_elem?-write_other (old ∷ store) o (suc at) (suc asked) h =
    get_elem?-write_other store o at asked (λ e. h (ap suc e))

length-write :
    (store : List ConnectionOptions) (o : ConnectionOptions) (at : ℕ)
    → length (write store at o) ≡ length store
length-write [] o at = refl
length-write (old ∷ store) o zero = refl
length-write (old ∷ store) o (suc at) = ap suc (length-write store o at)

module _ (r : Registry) (V : IsRegistry r) (name : Bytes) (o : ConnectionOptions) where
  -- The two ways to register a name.
  add_new :
      find r.names name ≡ none
      → add_options r name o
        ≡ record { store = r.store ++ o ∷ []; names = assign r.names name (length r.store) }
  unfolding add_options
  add_new n = rw (n, add_options) refl

  add_old :
      (at : ℕ)
      → find r.names name ≡ some at
      → add_options r name o ≡ record { store = write r.store at o; names = assign r.names name at }
  unfolding add_options
  add_old at e = rw (e, add_options) refl

  look-add_new :
      (asked : Bytes)
      → find r.names name ≡ none
      → let s : Registry = record {
        store = r.store ++ o ∷ [];
        names = assign r.names name (length r.store);
      } in
        look s (connect s asked) ≡ (if equal name asked then some o else look r (connect r asked))
  look-add_new asked n = elim (Bool-cases (equal name asked)) [
    | inl same ↦
        rw (find-assign r.names name (length r.store) asked, same)
          (get_elem?-append r.store o zero).1
    | inr other ↦ elim (Option-cases (find r.names asked)) [
      | inl m ↦ rw (find-assign r.names name (length r.store) asked, other, m) refl
      | inr (at, e) ↦
          rw (find-assign r.names name (length r.store) asked, other, e)
            ((get_elem?-append r.store o at).0 (V.bounded asked at e))
    ]
  ]

  look-add_old :
      (asked : Bytes) (at : ℕ)
      → find r.names name ≡ some at
      → let s : Registry = record { store = write r.store at o; names = assign r.names name at } in
        look s (connect s asked) ≡ (if equal name asked then some o else look r (connect r asked))
  look-add_old asked at h = elim (Bool-cases (equal name asked)) [
    | inl same ↦
        rw (find-assign r.names name at asked, same)
          (get_elem?-write r.store o at (V.bounded name at h))
    | inr other ↦ elim (Option-cases (find r.names asked)) [
      | inl m ↦ rw (find-assign r.names name at asked, other, m) refl
      | inr (at', e) ↦
          rw (find-assign r.names name at asked, other, e)
            (get_elem?-write_other r.store o at at'
              (λ z. let both = V.apart name asked at h (e ∙ ap some z) in cc))
    ]
  ]

  -- The registry is a map: a database that is opened by a name finds the options that were registered
  -- last under it, and registering leaves the other names alone, although it writes into an object that
  -- open databases share.
  pub look-add_options :
      (asked : Bytes)
      → let s = add_options r name o in
        look s (connect s asked) ≡ (if equal name asked then some o else look r (connect r asked))
  look-add_options asked = elim (Option-cases (find r.names name)) [
    | inl n ↦ rw (add_new n) (look-add_new asked n)
    | inr (at, e) ↦ rw (add_old at e) (look-add_old asked at e)
  ]

  -- An open database of the name sees the options change under it.
  pub look_open :
      (at : ℕ) → connect r name ≡ some at → look (add_options r name o) (some at) ≡ some o
  look_open at e = rw (add_old at e) (get_elem?-write r.store o at (V.bounded name at e))

module _ (r : Registry) (V : IsRegistry r) (name : Bytes) (o : ConnectionOptions) where
  new-IsRegistry :
      IsRegistry
        (record { store = r.store ++ o ∷ []; names = assign r.names name (length r.store) })
  new-IsRegistry = record {
    bounded = λ a at e. ground (
      arith,
      e,
      find-assign r.names name (length r.store) a,
      V.bounded a at,
      length-append r.store (o ∷ []),
    );
    apart = λ a b at e f. ground (
      arith,
      e,
      f,
      find-assign r.names name (length r.store) a,
      find-assign r.names name (length r.store) b,
      V.bounded a at,
      V.bounded b at,
      V.apart a b at,
      equal_iff name a,
      equal_iff name b,
      equal_iff a b,
    );
  }

  old-IsRegistry :
      (at : ℕ)
      → find r.names name ≡ some at
      → IsRegistry (record { store = write r.store at o; names = assign r.names name at })
  old-IsRegistry at h = record {
    bounded = λ a at' e. ground (
      arith,
      e,
      h,
      find-assign r.names name at a,
      V.bounded a at',
      V.bounded name at,
      length-write r.store o at,
    );
    apart = λ a b at' e f. ground (
      arith,
      e,
      f,
      h,
      find-assign r.names name at a,
      find-assign r.names name at b,
      V.apart a b at',
      V.apart name a at',
      V.apart name b at',
      equal_iff name a,
      equal_iff name b,
      equal_iff a b,
    );
  }

  -- Registering keeps the registry sound: its pointers are to objects, and no two names share one.
  pub add_options-IsRegistry : IsRegistry (add_options r name o)
  add_options-IsRegistry = elim (Option-cases (find r.names name)) [
    | inl n ↦ subst IsRegistry (sym (add_new r V name o n)) new-IsRegistry
    | inr (at, e) ↦ subst IsRegistry (sym (add_old r V name o at e)) (old-IsRegistry at e)
  ]
