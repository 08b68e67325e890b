-- ===== src/CgiService/Request/Visitor.antt =====
-- A visitor's cookie from one AJAX request of src/CgiService.cpp to the next.
use worker_log.Base.{
  ℕ, ◌≡◌, ◌≢◌, refl, sym, ap, ◌∙◌, false, none, some, some-inj, List, [], ◌∷◌, ◌++◌, Bytes, All,
  Lacks, Option-cases, inl, inr,
}
use worker_log.External.Boost.{Boost, IsBoost, join}
use worker_log.External.Json.{JsonLib, IsJsonLib}
use worker_log.CgiService.CookieHeader.{contains, read_cookie}
use worker_log.CgiService.Request.{response_cookie, read_params}
use worker_log.CgiService.World.{Config}
use worker_log.CgiService.Session.{IsBlank, kept, session_keeps}
use worker_log.Cookie.Authority
use worker_log.Cookie.CookiePath
use worker_log.Cookie.Credentials
use worker_log.Cookie.Credentials.{Credentials, of_authority_path_expires}
use worker_log.Cookie.Defs.{of_name_value_credentials, to_string}
use worker_log.Cookie.Expires.{PosixTime, of_ptime}
use worker_log.Params as Setters
use worker_log.Params.{Params, initial, cookie_id, parse}
use worker_log.Params.Parts.{parse_lem}

module _ (T : PosixTime) (J : JsonLib) (L : IsJsonLib J) (B : Boost) (K : IsBoost B)
    (cfg : Config) where
  -- The part of `Params` that JSON does not touch.
  json_identity :
      (postq : Bytes) (q : Params J)
      → ((Setters.json J postq q).cookie_id ≡ q.cookie_id)
        × ((Setters.json J postq q).key_long ≡ q.key_long)
  unfolding Setters.json
  json_identity postq q = elim (Option-cases (J.parse postq)) [
    | inl n ↦ rw (n, Setters.json) (refl, refl)
    | inr (j, e) ↦ rw (e, Setters.json) (refl, refl)
  ]

  read_rest :
      (postq : Bytes) (q : Params J)
      → let prm = parse J (Setters.json J postq q) in
        (prm.cookie_id ≡ q.cookie_id) × (prm.key_long ≡ q.key_long)
  read_rest postq q =
      let (_, _, _, _, identity, key) = parse_lem J L (Setters.json J postq q) in
      let (identity', key') = json_identity postq q in (identity ∙ identity', key ∙ key')

  -- What `read_params` starts with.
  abbrev started : ℕ → Bytes → Bytes → Params J
  started now query postq = Setters.post J postq (Setters.get J query (initial J now))

  read_params-cookie_id :
      (now : ℕ) (query postq value : Bytes) {q : Params J}
      → cookie_id J B now value (started now query postq) ≡ some q
      → read_params T J B cfg now query postq value ≡ some (parse J (Setters.json J postq q))
  unfolding read_params
  read_params-cookie_id now query postq value e = rw (e, read_params) refl

  read_params-cases :
      (now : ℕ) (query postq value : Bytes) {prm : Params J}
      → read_params T J B cfg now query postq value ≡ some prm
      → (q : Params J) × (cookie_id J B now value (started now query postq) ≡ some q)
        × (parse J (Setters.json J postq q) ≡ prm)
  unfolding read_params
  read_params-cases now query postq value {prm} e =
      elim (Option-cases (cookie_id J B now value (started now query postq))) [
        | inl n ↦
            let gone : read_params T J B cfg now query postq value ≡ none =
              rw (n, read_params) refl in
            cc
        | inr (q, e') ↦ (q, e', some-inj (sym (read_params-cookie_id now query postq value e') ∙ e))
      ]

  abbrev credentials : T.Ptime → Credentials
  credentials year =
      of_authority_path_expires (Authority.of_string cfg.cookie_domain)
        (CookiePath.of_string cfg.cookie_path) (of_ptime T year)

  cookie_text :
      (year year' : T.Ptime) (p q : Params J)
      → p.cookie_id ≡ q.cookie_id
      → to_string (response_cookie T J B cfg year p) ≡ to_string (response_cookie T J B cfg year' q)
  unfolding to_string of_authority_path_expires Credentials.to_string
  cookie_text year year' p q e =
      ap (λ id. to_string (of_name_value_credentials cfg.cookie_name id (credentials year))) e

  -- A visitor is told the same cookie again, where the name of the cookie holds no `=` and no `;`. If an
  -- AJAX request was read and had an identity that is not empty, and the browser keeps the cookie that
  -- the response set and sends it back in a later AJAX request, behind any number of blanks and alone or
  -- among other cookies without `;` of which none behind it holds the cookie's name, then that request
  -- is read too, with the same key, and the cookie that its response sets is the same text.
  pub set_cookie_again :
      (now later : ℕ) (query postq value query' postq' : Bytes) (year year' : T.Ptime)
      (before after : List Bytes) (lead : Bytes) {prm : Params J}
      → read_params T J B cfg now query postq value ≡ some prm
      → prm.cookie_id ≢ []
      → Lacks b'=' cfg.cookie_name
      → Lacks b';' cfg.cookie_name
      → All (Lacks b';') before
      → All (Lacks b';') after
      → All (λ part. contains cfg.cookie_name part ≡ false) after
      → IsBlank lead
      → let set = to_string (response_cookie T J B cfg year prm) in
        let header = join b';' (before ++ (lead ++ kept set) ∷ after) in
        (again : Params J) × (read_params T J B cfg later query' postq'
            (read_cookie B cfg.cookie_name header)
          ≡ some again)
        × (again.key_long ≡ prm.key_long)
        × (to_string (response_cookie T J B cfg year' again) ≡ set)
  unfolding to_string
  set_cookie_again now later query postq value query' postq' year year' before after lead {prm} e ne
        n n' hb ha others blank =
      let (q, e', whole) = read_params-cases now query postq value e in
      let (identity, key) = read_rest postq q in
      let same : prm.cookie_id ≡ q.cookie_id =
        ap (λ (p : Params J). p.cookie_id) (sym whole) ∙ identity in
      let told = λ (set : Bytes).
        read_cookie B cfg.cookie_name (join b';' (before ++ (lead ++ kept set) ∷ after)) in
      let found =
        ap (λ set. cookie_id J B later (told set) (started later query' postq'))
          (cookie_text year year prm q same)
        ∙ session_keeps J B K cfg.cookie_name now later value (started now query postq)
            (started later query' postq') (credentials year) before after lead e'
            (λ z. ne (same ∙ z)) n n' hb ha others blank in
      let kept_identity = record (started later query' postq') {
        cookie_id = q.cookie_id;
        key_long = q.key_long;
      } in
      let (identity', key') = read_rest postq' kept_identity in
      let again = parse J (Setters.json J postq' kept_identity) in
      (
        again,
        read_params-cookie_id later query' postq' _ found,
        key' ∙ sym key ∙ ap (λ (p : Params J). p.key_long) whole,
        cookie_text year' year again prm (identity' ∙ sym same),
      )
