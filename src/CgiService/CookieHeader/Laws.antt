-- ===== src/CgiService/CookieHeader/Laws.antt =====
-- Which value the service finds in a cookie header.
use worker_log.Base.{
  ◌≡◌, ◌≢◌, refl, sym, ◌∙◌, ap, Bool, true, false, ◌||◌, List, [], ◌∷◌, ◌++◌, ◌==◌, Bytes, All,
  Lacks, Lacks-append, append_assoc, arith,
}
use worker_log.External.Boost.{Boost, IsBoost, join}
use worker_log.CgiService.CookieHeader.{starts_with, contains, read_parts, read_cookie}

starts_with-append : (s t : Bytes) → starts_with s (s ++ t) ≡ true
unfolding starts_with
starts_with-append [] t = refl
starts_with-append (c ∷ s) t =
    let same : (c == c) ≡ true = ground arith in rw (same, starts_with-append s t)

or_true : (b : Bool) → (b || true) ≡ true
or_true true = refl
or_true false = refl

contains-append : (s pre t : Bytes) → contains s (pre ++ (s ++ t)) ≡ true
unfolding contains
contains-append [] [] [] = refl
contains-append [] [] (c ∷ t) = refl
contains-append (c ∷ s) [] t = rw (starts_with-append (c ∷ s) t)
contains-append s (c ∷ pre) t = rw (contains-append s pre t) (or_true _)

module _ (B : Boost) (name : Bytes) where
  read_parts-append :
      (before after : List Bytes) (old : Bytes)
      → read_parts B name (before ++ after) old
        ≡ read_parts B name after (read_parts B name before old)
  unfolding read_parts
  read_parts-append [] after old = refl
  read_parts-append (part ∷ before) after old = read_parts-append before after _

  read_parts_other :
      (parts : List Bytes) (old : Bytes)
      → All (λ part. contains name part ≡ false) parts
      → read_parts B name parts old ≡ old
  unfolding read_parts
  read_parts_other [] old h = refl
  read_parts_other (part ∷ parts) old h = rw h.0 (read_parts_other parts old h.1)

-- A part of the header: blanks or other bytes, the name, `=` and the value.
abbrev pub cookie_part : Bytes → Bytes → Bytes → Bytes
cookie_part blanks name value = blanks ++ (name ++ b'=' ∷ value)

append-ne-nil {ℓ} : {A : Type ℓ} (xs : List A) (y : A) (ys : List A) → xs ++ y ∷ ys ≢ []
append-ne-nil [] y ys e = cc
append-ne-nil (x ∷ xs) y ys e = cc

module _ (B : Boost) (L : IsBoost B) (blanks name value : Bytes) where
  split-cookie_part :
      Lacks b'=' blanks
      → Lacks b'=' name
      → Lacks b'=' value
      → B.split b'=' (cookie_part blanks name value) ≡ (blanks ++ name) ∷ value ∷ []
  split-cookie_part nb nn nv =
      ap (B.split b'=') (sym (append_assoc blanks name (b'=' ∷ value)))
      ∙ L.split-join b'=' ((blanks ++ name) ∷ value ∷ [])
          (Lacks-append b'=' blanks name nb nn, (nv, tt)) (λ e. cc)

  read_parts-cookie_part :
      (after : List Bytes) (old : Bytes)
      → Lacks b'=' blanks
      → Lacks b'=' name
      → Lacks b'=' value
      → All (λ part. contains name part ≡ false) after
      → read_parts B name (cookie_part blanks name value ∷ after) old ≡ value
  unfolding read_parts
  read_parts-cookie_part after old nb nn nv others =
      rw (contains-append name blanks (b'=' ∷ value), split-cookie_part nb nn nv)
        (read_parts_other B name after value others)

  -- In a header whose parts hold no `;`, the service finds the value of the part with its name, if no
  -- later part holds that name anywhere; the parts before it do not matter. The name, the value and
  -- what stands in front of the name hold no `=`.
  pub read_cookie_found :
      (before after : List Bytes)
      → All (Lacks b';') (before ++ cookie_part blanks name value ∷ after)
      → Lacks b'=' blanks
      → Lacks b'=' name
      → Lacks b'=' value
      → All (λ part. contains name part ≡ false) after
      → read_cookie B name (join b';' (before ++ cookie_part blanks name value ∷ after)) ≡ value
  unfolding read_cookie
  read_cookie_found before after h nb nn nv others =
      ap (λ parts. read_parts B name parts [])
        (L.split-join b';' (before ++ cookie_part blanks name value ∷ after) h
          (append-ne-nil before _ after))
      ∙ read_parts-append B name before (cookie_part blanks name value ∷ after) []
      ∙ read_parts-cookie_part after (read_parts B name before []) nb nn nv others
