-- ===== src/External/Json.antt =====
-- include/json.h, JSON for Modern C++ 2.1.0, by the calls that src/Params.cpp and src/Core.cpp make.
use worker_log.Base.{◌≡◌, Bool, true, false, Option, none, some, List, [], Bytes, equal}

-- `value_t`.
pub data Kind : Type 0 where
  null object array string boolean number : Kind

pub record JsonLib : Type 1 where
  pub Json : Type 0
  pub Number : Type 0
  pub kind : Json → Kind
  -- The default constructor, and the one from a text.
  pub default : Json
  pub of_string : Bytes → Json
  -- `none` is an exception in what follows.
  pub parse : Bytes → Option Json
  pub dump : Json → Option Bytes
  -- `operator[]`: the value, and the object with the entry, which is added if it is missing.
  pub index : Json → Bytes → Option (Json × Json)
  -- `j[key] = v`: the object afterwards.
  pub store : Json → Bytes → Json → Option Json
  -- The entry of an object, with nothing changed.
  pub find : Json → Bytes → Option Json
  pub get_string : Json → Option Bytes
  pub get_boolean : Json → Option Bool
  pub get_number : Json → Option Number
  -- The elements from `begin()` to `end()`.
  pub elements : Json → List Json

pub record IsJsonLib (J : JsonLib) : Type 0 where
  pub get_string-kind : (j : J.Json) (s : Bytes) → J.get_string j ≡ some s → J.kind j ≡ string
  pub get_boolean-kind : (j : J.Json) (b : Bool) → J.get_boolean j ≡ some b → J.kind j ≡ boolean
  -- `operator[]` gives the entry that is there, adds a null entry where there is none, leaves the
  -- other entries alone, and throws only on what has no entries.
  pub index-find : (j v j' : J.Json) (k : Bytes) → J.index j k ≡ some (v, j') → J.find j' k ≡ some v
  pub index-of_find : (j v : J.Json) (k : Bytes) → J.find j k ≡ some v → J.index j k ≡ some (v, j)
  pub index_missing :
      (j v j' : J.Json) (k : Bytes)
      → J.find j k ≡ none
      → J.index j k ≡ some (v, j')
      → J.kind v ≡ null
  pub index_other :
      (j w j' : J.Json) (k l : Bytes)
      → equal k l ≡ false
      → J.index j l ≡ some (w, j')
      → J.find j' k ≡ J.find j k
  pub index_throws : (j : J.Json) (k l : Bytes) → J.index j k ≡ none → J.find j l ≡ none
  -- The entry that is stored can be stored again, and nothing changes.
  pub store-store :
      (j v j' : J.Json) (k : Bytes) → J.store j k v ≡ some j' → J.store j' k v ≡ some j'
  pub default-elements : J.elements J.default ≡ []

abbrev pub is_array : (J : JsonLib) → J.Json → Bool
is_array J j = elim (J.kind j) [ array ↦ true | _ ↦ false ]

abbrev pub is_object : (J : JsonLib) → J.Json → Bool
is_object J j = elim (J.kind j) [ object ↦ true | _ ↦ false ]

abbrev pub is_boolean : (J : JsonLib) → J.Json → Bool
is_boolean J j = elim (J.kind j) [ boolean ↦ true | _ ↦ false ]

-- `count(key)`, as the test that it is not 0.
abbrev pub has : (J : JsonLib) → J.Json → Bytes → Bool
has J j k = elim (J.find j k) [ none ↦ false | some v ↦ true ]
