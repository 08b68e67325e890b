-- ===== src/CgiService/Session.antt =====
-- The visitor's identity across requests: the cookie that src/Cookie.cpp prints, the browser, the
-- search for it in src/CgiService.cpp and `Params::cookie_id`.
use worker_log.Base.{
  ℕ, ◌<◌, ◌≡◌, ◌≢◌, refl, ◌∙◌, ap, false, some, List, [], ◌∷◌, ◌++◌, ◌==◌, Bytes, All, All-append,
  Lacks, Lacks-append, if◌then◌else◌, append_assoc, arith,
}
use worker_log.Base.Decimal.{IsDigit}
use worker_log.External.Boost.{Boost, IsBoost, join}
use worker_log.External.Json.{JsonLib}
use worker_log.Cookie.Credentials
use worker_log.Cookie.Credentials.{Credentials}
use worker_log.Cookie.Defs.{of_name_value_credentials, to_string}
use worker_log.CgiService.CookieHeader.{contains, read_cookie}
use worker_log.CgiService.CookieHeader.Laws.{cookie_part, read_cookie_found}
use worker_log.Params.{Params, cookie_id}
use worker_log.Params.Identity.{cookie_id-IsIdentity, cookie_id-cookie_id}

-- What a browser keeps of a header Set-Cookie and sends back: the text in front of the first `;`.
abbrev pub kept : Bytes → Bytes
kept [] = []
kept (c ∷ s) = if c == b';' then [] else c ∷ kept s

kept-append : (s t : Bytes) → Lacks b';' s → kept (s ++ b';' ∷ t) ≡ s
kept-append [] t h = refl
kept-append (c ∷ s) t h = rw h.0 (ap (◌∷◌ c) (kept-append s t h.1))

digits-Lacks : (c : ℕ) (s : Bytes) → (b'9' < c) → All IsDigit s → Lacks c s
digits-Lacks c [] h d = tt
digits-Lacks c (b ∷ s) h d = (ground (arith, d.0), digits-Lacks c s h d.1)

-- Blanks only, or nothing.
abbrev pub IsBlank : Bytes → Type 0
IsBlank = All (λ c. c ≡ b' ')

blank-Lacks : (c : ℕ) (s : Bytes) → (b' ' < c) → IsBlank s → Lacks c s
blank-Lacks c [] h d = tt
blank-Lacks c (b ∷ s) h d = (ground (arith, d.0), blank-Lacks c s h d.1)

kept-to_string :
    (name value : Bytes) (credentials : Credentials)
    → Lacks b';' name
    → Lacks b';' value
    → kept (to_string (of_name_value_credentials name value credentials)) ≡ name ++ b'=' ∷ value
unfolding to_string
kept-to_string name value credentials n v =
    let whole : to_string (of_name_value_credentials name value credentials)
        ≡ (name ++ b'=' ∷ value) ++ b';' ∷ b' ' ∷ Credentials.to_string credentials =
      simp append_assoc in
    ap kept whole
    ∙ kept-append (name ++ b'=' ∷ value) (b' ' ∷ Credentials.to_string credentials)
        (Lacks-append b';' name (b'=' ∷ value) n (refl, v))

module _ (J : JsonLib) (B : Boost) (L : IsBoost B) (name : Bytes) where
  -- A visitor keeps the identity that a response gave. If the browser sends the cookie back, among
  -- others of which none behind it holds the cookie's name and behind blanks or none, the service reads the same identity and
  -- sets it with the same key, whenever the request comes and whatever the credentials said.
  pub session_keeps :
      (now later : ℕ) (id : Bytes) (p r : Params J) (credentials : Credentials)
      (before after : List Bytes) (lead : Bytes) {q : Params J}
      → cookie_id J B now id p ≡ some q
      → q.cookie_id ≢ []
      → Lacks b'=' name
      → Lacks b';' name
      → All (Lacks b';') before
      → All (Lacks b';') after
      → All (λ part. contains name part ≡ false) after
      → IsBlank lead
      → let set = to_string (of_name_value_credentials name q.cookie_id credentials) in
        let header = join b';' (before ++ (lead ++ kept set) ∷ after) in
        cookie_id J B later (read_cookie B name header) r
        ≡ some (record r { cookie_id = q.cookie_id; key_long = q.key_long })
  session_keeps now later id p r credentials before after lead {q} e ne n n' hb ha others blank =
      let digits = (cookie_id-IsIdentity J B L now id p e).0 in
      let v = digits-Lacks b'=' q.cookie_id (omega arith) digits in
      let v' = digits-Lacks b';' q.cookie_id (omega arith) digits in
      let part = cookie_part lead name q.cookie_id in
      let part' : Lacks b';' part =
        Lacks-append b';' lead (name ++ b'=' ∷ q.cookie_id)
          (blank-Lacks b';' lead (omega arith) blank)
          (Lacks-append b';' name (b'=' ∷ q.cookie_id) n' (refl, v')) in
      let parts : All (Lacks b';') (before ++ part ∷ after) =
        All-append (Lacks b';') before (part ∷ after) hb (part', ha) in
      ap
        (λ text.
          cookie_id J B later (read_cookie B name (join b';' (before ++ (lead ++ text) ∷ after))) r)
        (kept-to_string name q.cookie_id credentials n' v')
      ∙ ap (λ found. cookie_id J B later found r)
          (read_cookie_found B L lead name q.cookie_id before after parts
            (blank-Lacks b'=' lead (omega arith) blank) n v others)
      ∙ cookie_id-cookie_id J B L now later id p r e ne
