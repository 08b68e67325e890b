-- ===== src/CgiService/Database.antt =====
-- `CgiService::CheckLogDatabase` of src/CgiService.cpp: the collection of the log.
use worker_log.Base.{
  ℕ, ◌-◌, ◌^◌, ◌≡◌, ◌≢◌, refl, Bool, true, false, Option, none, some, Bytes, if◌then◌else◌, inl,
  inr, Option-cases, some-inj, subst, sym, ◌∙◌,
}

pub record CollectionOptions : Type 0 where
  pub capped : Bool
  pub max : ℕ
  pub size : ℕ

-- A database of MongoDB, by the calls of its driver; `none` is an exception.
pub record MongoDatabase : Type 1 where
  pub Data : Type 0
  pub has_collection : Data → Bytes → Option Bool
  pub create_collection : Data → Bytes → CollectionOptions → Option Data

-- A collection that was created is there, and the others are where they were.
pub record IsMongoDatabase (M : MongoDatabase) : Type 0 where
  pub create-has :
      (d d' : M.Data) (name : Bytes) (options : CollectionOptions)
      → M.create_collection d name options ≡ some d'
      → M.has_collection d' name ≡ some true
  pub create-keeps :
      (d d' : M.Data) (name other : Bytes) (options : CollectionOptions)
      → M.create_collection d name options ≡ some d'
      → name ≢ other
      → M.has_collection d' other ≡ M.has_collection d other

abbrev pub log_options : CollectionOptions
log_options = record { capped = true; max = 4000000; size = 2 ^ 31 - 1 }

module _ (M : MongoDatabase) where
  -- `CgiService::CheckLogDatabase`, for the collection of the impressions.
  unfoldable pub check_log_database : Bytes → M.Data → Option M.Data
  check_log_database name d = elim (M.has_collection d name) [
    | none ↦ none
    | some there ↦ if there then some d else M.create_collection d name log_options
  ]

  -- A check that throws nothing leaves the collection there and the others as they were, and makes
  -- nothing when it is done again.
  pub check_log_database_again :
      IsMongoDatabase M
      → (name : Bytes) (d d' : M.Data) → check_log_database name d ≡ some d'
      → (M.has_collection d' name ≡ some true)
        × (check_log_database name d' ≡ some d')
        × ((other : Bytes) → name ≢ other → M.has_collection d' other ≡ M.has_collection d other)
  unfolding check_log_database
  check_log_database_again L name d d' h = elim (Option-cases (M.has_collection d name)) [
    | inl failed ↦ cc
    | inr (true, there) ↦
        let same : some d ≡ some d' = sym (rw (there, check_log_database) refl) ∙ h in
        let again : check_log_database name d ≡ some d = rw (there, check_log_database) refl in
        subst
          (λ x.
            (M.has_collection x name ≡ some true)
            × (check_log_database name x ≡ some x)
            × ((other : Bytes)
                → name ≢ other
                → M.has_collection x other ≡ M.has_collection d other))
          (some-inj same) (there, again, λ other differs. refl)
    | inr (false, absent) ↦
        let made : M.create_collection d name log_options ≡ some d' =
          sym (rw (absent, check_log_database) refl) ∙ h in
        let there = L.create-has d d' name log_options made in
        (
          there,
          rw (there, check_log_database) refl,
          λ other differs. L.create-keeps d d' name other log_options made differs,
        )
  ]
