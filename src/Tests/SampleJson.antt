-- ===== src/Tests/SampleJson.antt =====
-- A JSON library that meets the laws, for the examples: values with objects as lists of entries.
use worker_log.Base.{
  ℕ, ◌≡◌, refl, subst, Bool, false, Option, none, some, some-inj, List, [], ◌∷◌, Bytes, equal,
  equal_iff, equal_refl, arith, ap, Bool-cases, inl, inr, if◌then◌else◌, codes,
}
use worker_log.External.Json.{JsonLib, IsJsonLib, Kind}

mutual
  pub data Value : Type 0 where
    null : Value
    boolean : Bool → Value
    number : ℕ → Value
    text : Bytes → Value
    array : Values → Value
    object : Entries → Value

  pub data Values : Type 0 where
    nil : Values
    cons : Value → Values → Values

  pub data Entries : Type 0 where
    end : Entries
    entry : Bytes → Value → Entries → Entries

abbrev kind : Value → Kind
kind null = Kind.null
kind (boolean b) = Kind.boolean
kind (number n) = Kind.number
kind (text s) = Kind.string
kind (array vs) = Kind.array
kind (object es) = Kind.object

abbrev find_entry : Bytes → Entries → Option Value
find_entry k end = none
find_entry k (entry l v es) = if equal l k then some v else find_entry k es

abbrev find : Value → Bytes → Option Value
find (object es) k = find_entry k es
find _ k = none

-- The entry at `k`, put in front if there is none.
abbrev index_entry : Bytes → Entries → Option Value → Value × Value
index_entry k es none = (null, object (entry k null es))
index_entry k es (some v) = (v, object es)

abbrev index : Value → Bytes → Option (Value × Value)
index null k = some (null, object (entry k null end))
index (object es) k = some (index_entry k es (find_entry k es))
index _ k = none

-- The entry at `k` replaced, or put at the end.
abbrev store_entry : Bytes → Value → Entries → Entries
store_entry k v end = entry k v end
store_entry k v (entry l w es) =
    let rest = store_entry k v es in if equal l k then entry l v es else entry l w rest

abbrev store : Value → Bytes → Value → Option Value
store null k v = some (object (entry k v end))
store (object es) k v = some (object (store_entry k v es))
store _ k v = none

abbrev elements_of : Values → List Value
elements_of nil = []
elements_of (cons v vs) = v ∷ elements_of vs

abbrev elements : Value → List Value
elements (array vs) = elements_of vs
elements _ = []

abbrev get_string : Value → Option Bytes
get_string (text s) = some s
get_string _ = none

abbrev get_boolean : Value → Option Bool
get_boolean (boolean b) = some b
get_boolean _ = none

abbrev get_number : Value → Option ℕ
get_number (number n) = some n
get_number _ = none

-- One text is JSON here.
abbrev parse_sample : Value → Bytes → Option Value
parse_sample v s = if equal s (codes "{...}") then some v else none

-- The library in which `{...}` is read as `v`, and every value is written as a fixed text.
abbrev pub sample : Value → JsonLib
sample v = record {
  Json = Value;
  Number = ℕ;
  kind = kind;
  default = null;
  of_string = text;
  parse = parse_sample v;
  dump = λ j. some (codes "{\"status\":\"OK\"}");
  index = index;
  store = store;
  find = find;
  get_string = get_string;
  get_boolean = get_boolean;
  get_number = get_number;
  elements = elements;
}

get_string-kind : (j : Value) (s : Bytes) → get_string j ≡ some s → kind j ≡ Kind.string
get_string-kind (text t) s e = refl
get_string-kind _ s e = cc

get_boolean-kind : (j : Value) (b : Bool) → get_boolean j ≡ some b → kind j ≡ Kind.boolean
get_boolean-kind (boolean c) b e = refl
get_boolean-kind _ b e = cc

equal_sym : (k l : Bytes) → equal k l ≡ false → equal l k ≡ false
equal_sym k l h = ground (arith, equal_iff k l, equal_iff l k)

index_entry-find :
    (k : Bytes) (es : Entries) (o : Option Value)
    → find_entry k es ≡ o
    → find (index_entry k es o).1 k ≡ some (index_entry k es o).0
index_entry-find k es none f = rw (equal_refl k)
index_entry-find k es (some w) f = f

index-find : (j v j' : Value) (k : Bytes) → index j k ≡ some (v, j') → find j' k ≡ some v
index-find null v j' k e =
    subst (λ (q : Value × Value). find q.1 k ≡ some q.0) (some-inj e) (rw (equal_refl k))
index-find (object es) v j' k e =
    subst (λ (q : Value × Value). find q.1 k ≡ some q.0) (some-inj e)
      (index_entry-find k es (find_entry k es) refl)
index-find _ v j' k e = cc

index-of_find : (j v : Value) (k : Bytes) → find j k ≡ some v → index j k ≡ some (v, j)
index-of_find (object es) v k f = rw f
index-of_find _ v k f = cc

index_missing :
    (j v j' : Value) (k : Bytes) → find j k ≡ none → index j k ≡ some (v, j') → kind v ≡ Kind.null
index_missing null v j' k f e =
    subst (λ (q : Value × Value). kind q.0 ≡ Kind.null) (some-inj e) refl
index_missing (object es) v j' k f e =
    subst (λ (q : Value × Value). kind q.0 ≡ Kind.null) (some-inj e) (rw f)
index_missing _ v j' k f e = cc

index_entry_other :
    (k l : Bytes) (es : Entries) (o : Option Value)
    → equal k l ≡ false
    → find (index_entry l es o).1 k ≡ find_entry k es
index_entry_other k l es none ne = rw (equal_sym k l ne)
index_entry_other k l es (some w) ne = refl

index_other :
    (j w j' : Value) (k l : Bytes)
    → equal k l ≡ false
    → index j l ≡ some (w, j')
    → find j' k ≡ find j k
index_other null w j' k l ne e =
    subst (λ (q : Value × Value). find q.1 k ≡ none) (some-inj e) (rw (equal_sym k l ne))
index_other (object es) w j' k l ne e =
    subst (λ (q : Value × Value). find q.1 k ≡ find_entry k es) (some-inj e)
      (index_entry_other k l es (find_entry l es) ne)
index_other _ w j' k l ne e = cc

index_throws : (j : Value) (k l : Bytes) → index j k ≡ none → find j l ≡ none
index_throws null k l e = refl
index_throws (object es) k l e = cc
index_throws _ k l e = refl

store_entry-store_entry :
    (k : Bytes) (v : Value) (es : Entries)
    → store_entry k v (store_entry k v es) ≡ store_entry k v es
store_entry-store_entry k v end = rw (equal_refl k) refl
store_entry-store_entry k v (entry l w es) = elim (Bool-cases (equal l k)) [
  | inl same ↦ rw same (rw same refl)
  | inr other ↦ rw other (rw other (ap (entry l w) (store_entry-store_entry k v es)))
]

store-store : (j v j' : Value) (k : Bytes) → store j k v ≡ some j' → store j' k v ≡ some j'
store-store null v j' k e =
    subst (λ (q : Value). store q k v ≡ some q) (some-inj e)
      (ap (λ q. some (object q)) (store_entry-store_entry k v end))
store-store (object es) v j' k e =
    subst (λ (q : Value). store q k v ≡ some q) (some-inj e)
      (ap (λ q. some (object q)) (store_entry-store_entry k v es))
store-store _ v j' k e = cc

pub sample-IsJsonLib : (v : Value) → IsJsonLib (sample v)
sample-IsJsonLib v = record {
  get_string-kind = get_string-kind;
  get_boolean-kind = get_boolean-kind;
  index-find = index-find;
  index-of_find = index-of_find;
  index_missing = index_missing;
  index_other = index_other;
  index_throws = index_throws;
  store-store = store-store;
  default-elements = refl;
}
