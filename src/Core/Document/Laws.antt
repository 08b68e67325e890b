-- ===== src/Core/Document/Laws.antt =====
-- What a document that could be built says of its offer.
use worker_log.Base.{
  ◌≡◌, refl, ◌∙◌, ap, Bool, false, Option, none, some, some-inj, Option-cases, inl, inr, Bytes,
  codes, equal,
}
use worker_log.Core.Clock.{ℤ}
use worker_log.External.Json.{JsonLib, IsJsonLib}
use worker_log.Core.Document.{
  Reader, then_read, got, ask, Shown, Document, build, build_retargeting, build_branch,
  read_campaign,
}

-- A run that gives a result gives one at its first step, and then at the rest.
then_read-eq_some :
    {S A B : Type 0} (o : Option (A × S)) (f : A → Reader S B) {r : B × S}
    → then_read o f ≡ some r
    → (a : A) × (t : S) × (o ≡ some (a, t)) × (f a t ≡ some r)
then_read-eq_some none f e = cc
then_read-eq_some (some (a, t)) f e = (a, t, refl, e)

got-eq_some :
    {S A : Type 0} (o : Option A) (s : S) {r : A × S}
    → got o s ≡ some r
    → (o ≡ some r.0) × (s ≡ r.1)
got-eq_some none s e = cc
got-eq_some (some a) s e = (ap (λ t. some t.0) (some-inj e), ap (λ t. t.1) (some-inj e))

-- The entry `k` of `j` is a text.
abbrev pub HasText : (J : JsonLib) → Bytes → J.Json → Type 0
HasText J k j = (v : J.Json) × (s : Bytes) × (J.find j k ≡ some v) × (J.get_string v ≡ some s)

module _ (J : JsonLib) (L : IsJsonLib J) where
  ask-find :
      {A : Type 0} (get : J.Json → Option A) (k : Bytes) (j : J.Json) {r : A × J.Json}
      → ask J get k j ≡ some r
      → (v : J.Json) × (J.find r.1 k ≡ some v) × (get v ≡ some r.0)
  ask-find get k j {r} e =
      let (v, t, found, g) = then_read-eq_some (J.index j k) (λ v. got (get v)) e in
      let (value, same) = got-eq_some (get v) t g in
      (v, rw (← same) (L.index-find j v t k found), value)

  ask_other :
      {A : Type 0} (get : J.Json → Option A) (k l : Bytes) (j : J.Json) {r : A × J.Json}
      → equal k l ≡ false
      → ask J get l j ≡ some r
      → J.find r.1 k ≡ J.find j k
  ask_other get k l j ne e =
      let (v, t, found, g) = then_read-eq_some (J.index j l) (λ v. got (get v)) e in
      let (value, same) = got-eq_some (get v) t g in rw (← same) (L.index_other j v t k l ne found)

  -- A text is no Boolean.
  get_boolean-string : (v : J.Json) {s : Bytes} → J.get_string v ≡ some s → J.get_boolean v ≡ none
  get_boolean-string v {s} e = elim (Option-cases (J.get_boolean v)) [
    | inl n ↦ n
    | inr (b, h) ↦ cc (L.get_string-kind v s e, L.get_boolean-kind v b h)
  ]

  -- The text at `retargeting` of an offer whose document is built is there afterwards.
  find-build :
      (dt : ℤ) (shown : Shown J) (test : Option Bool) (it : J.Json) {r : Document J × J.Json}
      → build J dt shown test it ≡ some r
      → HasText J (codes "retargeting") r.1
  unfolding build equal
  find-build dt shown test it {r} e =
      let (campaign, s, _, e1) =
        then_read-eq_some (read_campaign J it) (build_retargeting J dt shown test) e in
      let (text, t, asked, e2) =
        then_read-eq_some (ask J J.get_string (codes "retargeting") s)
          (build_branch J dt shown test campaign) e1 in
      let (branch, u, branched, e3) =
        then_read-eq_some (ask J J.get_string (codes "branch") t) _ e2 in
      let (v, found, is_text) = ask-find J.get_string (codes "retargeting") s asked in
      let stays = ask_other J.get_string (codes "retargeting") (codes "branch") t refl branched in
      (v, text, rw (← ap (λ q. q.1) (some-inj e3)) (stays ∙ found), is_text)

  -- So the test of `retargeting` as a Boolean throws.
  pub ask-build :
      (dt : ℤ) (shown : Shown J) (test : Option Bool) (it : J.Json) {doc : Document J}
      {it' : J.Json}
      → build J dt shown test it ≡ some (doc, it')
      → ask J J.get_boolean (codes "retargeting") it' ≡ none
  ask-build dt shown test it {doc} {it'} e =
      let (v, text, found, is_text) = find-build dt shown test it e in
      rw (L.index-of_find it' v (codes "retargeting") found, get_boolean-string v is_text) refl
