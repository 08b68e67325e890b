-- ===== src/UrlParser/Query/Pairs.antt =====
-- The pairs of a query, read byte by byte with no positions: what `parse` is held against.
use worker_log.Base.{
  ◌≡◌, refl, ◌∙◌, List, [], ◌∷◌, ◌++◌, append-nil, append_assoc, ◌==◌, if◌then◌else◌, Bytes, Lacks,
}
use worker_log.Base.Dict.{Dict, assign}
use worker_log.UrlParser.Percent.{percent_decode}

abbrev pub Pair : Type 0
Pair = Bytes × Bytes

-- A name runs to the next `=`, a value to the next `&`; a name that nothing ends is no pair.
unfoldable mutual
  pub read_name : Bytes → Bytes → List Pair
  read_name [] name = []
  read_name (c ∷ s) name =
      let more = read_name s (name ++ c ∷ []) in if c == b'=' then read_value s name [] else more

  pub read_value : Bytes → Bytes → Bytes → List Pair
  read_value [] name value = (name, value) ∷ []
  read_value (c ∷ s) name value =
      let more = read_value s name (value ++ c ∷ []) in
      if c == b'&' then (name, value) ∷ read_name s [] else more

-- What stands behind the first `?`, or the whole text.
abbrev pub behind_mark : Bytes → Bytes → Bytes
behind_mark url [] = url
behind_mark url (c ∷ s) = if c == b'?' then s else behind_mark url s

unfoldable pub pairs : Bytes → List Pair
unfolding read_name
pairs url = read_name (behind_mark url url) []

-- Each pair is entered with its value decoded, a later one over an earlier one.
abbrev pub enter : List Pair → Dict Bytes → Dict Bytes
enter [] params = params
enter ((name, value) ∷ ps) params = enter ps (assign params name (percent_decode value))

pub read_name-Lacks : (s name : Bytes) → Lacks b'=' s → read_name s name ≡ []
unfolding read_name
read_name-Lacks [] name h = refl
read_name-Lacks (c ∷ s) name h = rw h.0 (read_name-Lacks s _ h.1)

pub read_name-append :
    (s t name : Bytes) → Lacks b'=' s → read_name (s ++ b'=' ∷ t) name ≡ read_value t (name ++ s) []
unfolding read_name
read_name-append [] t name h = rw append-nil
read_name-append (c ∷ s) t name h = rw h.0 (read_name-append s t _ h.1 ∙ rw append_assoc)

pub read_value-Lacks :
    (s name value : Bytes) → Lacks b'&' s → read_value s name value ≡ (name, value ++ s) ∷ []
unfolding read_value
read_value-Lacks [] name value h = rw append-nil
read_value-Lacks (c ∷ s) name value h = rw h.0 (read_value-Lacks s name _ h.1 ∙ rw append_assoc)

pub read_value-append :
    (s t name value : Bytes)
    → Lacks b'&' s
    → read_value (s ++ b'&' ∷ t) name value ≡ (name, value ++ s) ∷ read_name t []
unfolding read_value
read_value-append [] t name value h = rw append-nil
read_value-append (c ∷ s) t name value h =
    rw h.0 (read_value-append s t name _ h.1 ∙ rw append_assoc)
