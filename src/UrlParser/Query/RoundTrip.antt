-- ===== src/UrlParser/Query/RoundTrip.antt =====
-- What `param` gives back of a query that was written with escapes.
use worker_log.Base.{
  ℕ, suc, ◌<◌, ◌≡◌, refl, ap, ◌∙◌, Bool, false, not, ◌&&◌, List, [], ◌∷◌, ◌++◌, arith, ◌==◌, Bytes,
  equal, if◌then◌else◌, length, All, Lacks, ◌/◌, ◌%◌,
}
use worker_log.Base.Dict.{Dict, vacant, find, assign, find-assign}
use worker_log.UrlParser.Hex.{hex_digit}
use worker_log.UrlParser.Percent.Laws.{percent_encode, IsByte, percent_decode-percent_encode}
use worker_log.UrlParser.Query.{npos, parsed, parse, param}
use worker_log.UrlParser.Query.Pairs.{
  Pair, read_name, read_name-append, read_value-Lacks, read_value-append, pairs, enter,
}
use worker_log.UrlParser.Query.Refines.{parse-pairs}

-- A value is written with `&` escaped, whatever else is.
abbrev write_value : (ℕ → Bool) → Bytes → Bytes
write_value keep = percent_encode (λ b. keep b && not (b == b'&'))

-- The pairs joined by `&`.
abbrev pub write_pairs : (ℕ → Bool) → List Pair → Bytes
write_pairs keep [] = []
write_pairs keep ((name, value) ∷ []) = name ++ b'=' ∷ write_value keep value
write_pairs keep ((name, value) ∷ p ∷ ps) =
    name ++ b'=' ∷ (write_value keep value ++ b'&' ∷ write_pairs keep (p ∷ ps))

-- A name can hold anything but `=`, and a value any bytes.
abbrev pub IsWritable : Pair → Type 0
IsWritable (name, value) = Lacks b'=' name × All IsByte value

-- The value of the last pair that is named `k`.
abbrev pub last_value : Bytes → Bytes → List Pair → Bytes
last_value k v [] = v
last_value k v ((name, value) ∷ ps) = last_value k (if equal name k then value else v) ps

hex_digit-ne-amp : (n : ℕ) → (hex_digit n == b'&') ≡ false
hex_digit-ne-amp n = ground arith

write_value-Lacks : (keep : ℕ → Bool) (s : Bytes) → Lacks b'&' (write_value keep s)
write_value-Lacks keep [] = tt
write_value-Lacks keep (b ∷ s) =
    ground (arith, write_value-Lacks keep s, hex_digit-ne-amp (b / 16), hex_digit-ne-amp (b % 16))

-- The pairs as the reader finds them, still encoded.
abbrev encoded : (ℕ → Bool) → List Pair → List Pair
encoded keep [] = []
encoded keep ((name, value) ∷ ps) = (name, write_value keep value) ∷ encoded keep ps

read_name-write_pairs :
    (keep : ℕ → Bool) (ps : List Pair)
    → All IsWritable ps
    → read_name (write_pairs keep ps) [] ≡ encoded keep ps
unfolding read_name
read_name-write_pairs keep [] h = refl
read_name-write_pairs keep ((name, value) ∷ []) h =
    rw (read_name-append name _ [] h.0.0, read_value-Lacks _ name [] (write_value-Lacks keep value))
read_name-write_pairs keep ((name, value) ∷ p ∷ ps) h = rw (
  read_name-append name _ [] h.0.0,
  read_value-append _ (write_pairs keep (p ∷ ps)) name [] (write_value-Lacks keep value),
  read_name-write_pairs keep (p ∷ ps) h.1,
)

param-assign :
    (name k value : Bytes) (m : Dict Bytes)
    → param (assign m name value) k ≡ (if equal name k then value else param m k)
unfolding param
param-assign name k value m = ground (arith, find-assign m name value k)

param-enter :
    (keep : ℕ → Bool) (ps : List Pair) (k : Bytes) (m : Dict Bytes)
    → All IsWritable ps
    → param (enter (encoded keep ps) m) k ≡ last_value k (param m k) ps
param-enter keep [] k m h = refl
param-enter keep ((name, value) ∷ ps) k m h =
    ap (λ v. param (enter (encoded keep ps) (assign m name v)) k)
      (percent_decode-percent_encode _ value h.0.1)
    ∙ param-enter keep ps k (assign m name value) h.1
    ∙ ap (λ v. last_value k v ps) (param-assign name k value m)

-- A query of any pairs, joined by `&` behind `?` with every value escaped, is read back: `param`
-- gives the value of the last pair of that name, and the empty text for a name that no pair has.
pub param-parse :
    (keep : ℕ → Bool) (ps : List Pair) (k : Bytes)
    → All IsWritable ps
    → suc (length (write_pairs keep ps)) < npos
    → (m : Dict Bytes) × (parse (b'?' ∷ write_pairs keep ps) ≡ parsed m)
      × (param m k ≡ last_value k [] ps)
unfolding pairs param find
param-parse keep ps k h small = (
  enter (encoded keep ps) vacant,
  parse-pairs _ small ∙ ap (λ q. parsed (enter q vacant)) (read_name-write_pairs keep ps h),
  param-enter keep ps k vacant h,
)
