-- ===== src/Params/Identity.antt =====
-- The identity that a visitor is given: `Params::cookie_id` of src/Params.cpp.
use worker_log.Base.{
  ℕ, ◌-◌, ◌^◌, ◌≡◌, ◌≢◌, refl, ◌∙◌, sym, ap, some, some-inj, map-eq_some, [], ◌∷◌, Bytes, All,
}
use Prim.Native.Nat.{min}
use mathlib.Core.Option
use worker_log.Base.Decimal.{IsDigit, decimal, All-decimal, strtol, strtol-All, read_digits}
use worker_log.External.Json.{JsonLib}
use worker_log.External.Boost.{Boost, IsBoost}
use worker_log.Params.{Params, cookie_id, set_cookie_id}

-- An identity is digits, and its key is its number, cut off at the largest `long`.
abbrev pub IsIdentity : Bytes → ℕ → Type 0
IsIdentity id key = All IsDigit id × (key ≡ min (read_digits 0 id).0 (2 ^ 63 - 1))

module _ (J : JsonLib) (B : Boost) (L : IsBoost B) where
  -- What a call of `cookie_id` did: it set the digits `id`.
  record Sets (p q : Params J) : Type 0 where
    id : Bytes
    digits : All IsDigit id
    sets : q ≡ record p { cookie_id = id; key_long = min (read_digits 0 id).0 (2 ^ 63 - 1) }

  set_cookie_id_lem :
      (id : Bytes) (p : Params J)
      → All IsDigit id
      → set_cookie_id J B id p
        ≡ record p { cookie_id = id; key_long = min (read_digits 0 id).0 (2 ^ 63 - 1) }
  set_cookie_id_lem id p h =
      ap (λ s. record p { cookie_id = s; key_long = (strtol s).0 }) (L.trim-digits id h)
      ∙ ap (λ (r : ℕ × Bytes). record p { cookie_id = id; key_long = r.0 }) (strtol-All id h)

  cookie_id-Sets :
      (now : ℕ) (id : Bytes) (p : Params J) {q : Params J}
      → cookie_id J B now id p ≡ some q
      → Sets p q
  unfolding cookie_id
  cookie_id-Sets now [] p e = record {
    id = decimal now;
    digits = All-decimal now;
    sets = sym (some-inj e) ∙ set_cookie_id_lem (decimal now) p (All-decimal now);
  }
  cookie_id-Sets now (c ∷ id) p e =
      let (d, left, set) = map-eq_some _ (B.drop_non_digits (c ∷ id)) e in
      let h = L.drop-All (c ∷ id) d left in
      record { id = d; digits = h; sets = sym set ∙ set_cookie_id_lem d p h }

  -- What `cookie_id` sets is an identity, whatever the browser sent.
  pub cookie_id-IsIdentity :
      (now : ℕ) (id : Bytes) (p : Params J) {q : Params J}
      → cookie_id J B now id p ≡ some q
      → IsIdentity q.cookie_id q.key_long
  cookie_id-IsIdentity now id p e = let s = cookie_id-Sets now id p e in rw s.sets (s.digits, refl)

  cookie_id-digits :
      (now : ℕ) (id : Bytes) (p : Params J)
      → All IsDigit id
      → id ≢ []
      → cookie_id J B now id p
        ≡ some (record p { cookie_id = id; key_long = min (read_digits 0 id).0 (2 ^ 63 - 1) })
  unfolding cookie_id
  cookie_id-digits now [] p h ne = absurd (ne refl)
  cookie_id-digits now (c ∷ id) p h ne =
      ap (Option.map (λ d. set_cookie_id J B d p)) (L.drop-digits (c ∷ id) h)
      ∙ ap some (set_cookie_id_lem (c ∷ id) p h)

  -- An identity that has been given stays: sent back, it is set again with the same key, at any time.
  pub cookie_id-cookie_id :
      (now later : ℕ) (id : Bytes) (p r : Params J) {q : Params J}
      → cookie_id J B now id p ≡ some q
      → q.cookie_id ≢ []
      → cookie_id J B later q.cookie_id r
        ≡ some (record r { cookie_id = q.cookie_id; key_long = q.key_long })
  cookie_id-cookie_id now later id p r {q} e ne =
      let (digits, key) = cookie_id-IsIdentity now id p e in
      cookie_id-digits later q.cookie_id r digits ne
      ∙ ap (λ k. some (record r { cookie_id = q.cookie_id; key_long = k })) (sym key)
