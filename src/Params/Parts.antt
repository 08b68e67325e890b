-- ===== src/Params/Parts.antt =====
-- What the parts of a request become: `Params::parse` of src/Params.cpp.
use worker_log.Base.{
  ◌≡◌, refl, ◌∙◌, ap, Bool, false, Option, none, some, Option-cases, Bool-cases, inl, inr, Bytes,
  codes, equal, if◌then◌else◌,
}
use worker_log.External.Json.{JsonLib, IsJsonLib, null, is_array, is_object, is_boolean}
use worker_log.Params.{Params, parse, section_of, take_items, take_params, take_informer, read_test}

-- What a part of the request sets: an entry of the right kind, and otherwise nothing.
abbrev pub pick {ℓ κ} : {A : Type ℓ} {B : Type κ} → (A → Bool) → (A → B) → Option A → B → B
pick test f none old = old
pick test f (some v) old = if test v then f v else old

module _ (J : JsonLib) (L : IsJsonLib J) where
  -- A part of the request is put where it belongs, and other entries are found as before.
  section-find :
      (key k : Bytes) (test : J.Json → Bool) (put : J.Json → Params J → Params J) (p : Params J)
      → ((v : J.Json) (q : Params J) → (put v q).json ≡ q.json)
      → equal k key ≡ false
      → J.find (section_of J key test put p).json k ≡ J.find p.json k
  unfolding section_of
  section-find key k test put p keeps ne = elim (Option-cases (J.index p.json key)) [
    | inl e ↦ rw (e, section_of)
    | inr ((v, j), e) ↦
        let other : J.find j k ≡ J.find p.json k = L.index_other p.json v j k key ne e in
        elim (Bool-cases (test v)) [
          | inl t ↦ rw (e, section_of, t) (ap (λ i. J.find i k) (keeps v _) ∙ other)
          | inr t ↦ rw (e, section_of, t) other
        ]
  ]

  -- `json_` may gain an entry, `rest`; of the other fields one part sets what `put` says.
  section_lem :
      (key : Bytes) (test : J.Json → Bool) (put : J.Json → Params J → Params J) (p : Params J)
      → ((v : J.Json) → J.kind v ≡ null → test v ≡ false)
      → (rest : J.Json) × (section_of J key test put p
          ≡ pick test
              (λ v. put v (record p { json = rest }))
              (J.find p.json key)
              (record p { json = rest }))
  unfolding section_of
  section_lem key test put p not_null = elim (Option-cases (J.find p.json key)) [
    | inr (w, f) ↦ (p.json, rw (f, L.index-of_find p.json w key f, section_of))
    | inl f ↦ elim (Option-cases (J.index p.json key)) [
      | inl e ↦ (p.json, rw (f, e, section_of))
      | inr ((v, j), e) ↦
          (j, rw (f, e, section_of, not_null v (L.index_missing p.json v j key f e)))
    ]
  ]

-- Setting one field of a record by a part is setting the field to what the part picks.
pick_field :
    {A : Type 0} {B C : Type 0} (test : A → Bool) (put : A → C) (o : Option A) (base : B)
    → (set : C → B) (old : C) → base ≡ set old
    → pick test (λ v. set (put v)) o base ≡ set (pick test put o old)
pick_field test put none base set old e = e
pick_field test put (some v) base set old e = elim (Bool-cases (test v)) [
  | inl t ↦ rw t
  | inr t ↦ rw t e
]

module _ (J : JsonLib) (L : IsJsonLib J) where
  abbrev same : J.Json → J.Json
  same v = v

  array-ne-null : (v : J.Json) → J.kind v ≡ null → is_array J v ≡ false
  array-ne-null v e = rw (e, is_array)

  object-ne-null : (v : J.Json) → J.kind v ≡ null → is_object J v ≡ false
  object-ne-null v e = rw (e, is_object)

  take_items_lem :
      (p : Params J)
      → (rest : J.Json) × (take_items J p ≡ record p {
        json = rest;
        offers = pick (is_array J) same (J.find p.json (codes "items")) p.offers;
      })
  unfolding take_items
  take_items_lem p =
      let (rest, e) =
        section_lem J L (codes "items") (is_array J) (λ v q. record q { offers = v }) p
          array-ne-null in
      (
        rest,
        e
            ∙ pick_field (is_array J) same (J.find p.json (codes "items")) _
                (λ v. record p { json = rest; offers = v }) p.offers refl,
      )

  take_params_lem :
      (p : Params J)
      → (rest : J.Json) × (take_params J p ≡ record p {
        json = rest;
        params = pick (is_object J) same (J.find p.json (codes "params")) p.params;
      })
  unfolding take_params
  take_params_lem p =
      let (rest, e) =
        section_lem J L (codes "params") (is_object J) (λ v q. record q { params = v }) p
          object-ne-null in
      (
        rest,
        e
            ∙ pick_field (is_object J) same (J.find p.json (codes "params")) _
                (λ v. record p { json = rest; params = v }) p.params refl,
      )

  take_informer_lem :
      (p : Params J)
      → (rest : J.Json) × (take_informer J p ≡ record p {
        json = rest;
        informer = pick (is_object J) same (J.find p.json (codes "informer")) p.informer;
      })
  unfolding take_informer
  take_informer_lem p =
      let (rest, e) =
        section_lem J L (codes "informer") (is_object J) (λ v q. record q { informer = v }) p
          object-ne-null in
      (
        rest,
        e
            ∙ pick_field (is_object J) same (J.find p.json (codes "informer")) _
                (λ v. record p { json = rest; informer = v }) p.informer refl,
      )

  find-take_items :
      (p : Params J) (k : Bytes)
      → equal k (codes "items") ≡ false
      → J.find (take_items J p).json k ≡ J.find p.json k
  unfolding take_items
  find-take_items p k ne =
      section-find J L (codes "items") k (is_array J) (λ v q. record q { offers = v }) p
        (λ v q. refl) ne

  find-take_params :
      (p : Params J) (k : Bytes)
      → equal k (codes "params") ≡ false
      → J.find (take_params J p).json k ≡ J.find p.json k
  unfolding take_params
  find-take_params p k ne =
      section-find J L (codes "params") k (is_object J) (λ v q. record q { params = v }) p
        (λ v q. refl) ne

  -- What the request says for the three parts.
  abbrev Parts : Params J → J.Json → Params J
  Parts p rest = record p {
    json = rest;
    offers = pick (is_array J) same (J.find p.json (codes "items")) p.offers;
    params = pick (is_object J) same (J.find p.json (codes "params")) p.params;
    informer = pick (is_object J) same (J.find p.json (codes "informer")) p.informer;
  }

  parse-read_test : (p : Params J) → (rest : J.Json) × (parse J p ≡ read_test J (Parts p rest))
  unfolding parse equal
  parse-read_test p =
      let (j1, e1) = take_items_lem p in
      let (j2, e2) = take_params_lem (take_items J p) in
      let (j3, e3) = take_informer_lem (take_params J (take_items J p)) in
      let f2 = find-take_items p (codes "params") refl in
      let f3 =
        find-take_params (take_items J p) (codes "informer") refl
        ∙ find-take_items p (codes "informer") refl in
      (j3, ap (read_test J) (e3 ∙ rw (f3, e2, f2, e1)))

  read_test_lem :
      (q : Params J)
      → let r = read_test J q in
        (r.offers ≡ q.offers)
        × (r.params ≡ q.params)
        × (r.informer ≡ q.informer)
        × (r.test_mode
            ≡ pick (is_boolean J) J.get_boolean (J.find r.params (codes "test")) q.test_mode)
        × (r.cookie_id ≡ q.cookie_id)
        × (r.key_long ≡ q.key_long)
  unfolding read_test
  read_test_lem q = elim (Option-cases (J.find q.params (codes "test"))) [
    | inl e ↦ rw (e, read_test) (refl, refl, refl, rw e, refl, refl)
    | inr (v, e) ↦ elim (Bool-cases (is_boolean J v)) [
      | inl t ↦ rw (e, read_test, t) (refl, refl, refl, rw (e, t), refl, refl)
      | inr t ↦ rw (e, read_test, t) (refl, refl, refl, rw (e, t), refl, refl)
    ]
  ]

  -- `parse` takes the offers, the parameters and the informer from the request, each if it is there and
  -- of its kind, whatever the other two are. It writes `test_mode` only if the parameters have a Boolean
  -- `test`, and it leaves the identity alone.
  pub parse_lem :
      (p : Params J)
      → let q = parse J p in
        (q.offers ≡ pick (is_array J) same (J.find p.json (codes "items")) p.offers)
        × (q.params ≡ pick (is_object J) same (J.find p.json (codes "params")) p.params)
        × (q.informer ≡ pick (is_object J) same (J.find p.json (codes "informer")) p.informer)
        × (q.test_mode
            ≡ pick (is_boolean J) J.get_boolean (J.find q.params (codes "test")) p.test_mode)
        × (q.cookie_id ≡ p.cookie_id)
        × (q.key_long ≡ p.key_long)
  parse_lem p = let (rest, e) = parse-read_test p in rw e (read_test_lem (Parts p rest))
