-- ===== src/UrlParser/Query/Order.antt =====
-- The order of the pairs in a query that src/UrlParser.cpp reads.
use worker_log.Base.{
  ℕ, suc, ◌+◌, ◌≤◌, ◌<◌, length, ◌≡◌, refl, sym, ap, ◌∙◌, Bool, Bool-cases, inl, inr, Option, none,
  some, List, [], ◌∷◌, All, Bytes, equal, arith, if◌then◌else◌,
}
use mathlib.Core.List.{Perm, Permᴰ}
use mathlib.Core.Logic.{∥∥₁_elim}
use worker_log.UrlParser.Query.{npos, parse, Outcome, parsed, out_of_range, out_of_fuel, param}
use worker_log.UrlParser.Query.Pairs.{Pair}
use worker_log.UrlParser.Query.RoundTrip.{write_pairs, IsWritable, last_value, param-parse}

-- How many pairs are named `k`.
abbrev pub count_named : Bytes → List Pair → ℕ
count_named k [] = 0
count_named k ((name, value) ∷ ps) = (if equal name k then 1 else 0) + count_named k ps

count_named-Permᴰ :
    (k : Bytes) {ps qs : List Pair} → Permᴰ ps qs → count_named k ps ≡ count_named k qs
count_named-Permᴰ k Permᴰ.nil = refl
count_named-Permᴰ k (Permᴰ.cons {a} {b} e d) =
    let rest = count_named-Permᴰ k d in
    let first : equal a.0 k ≡ equal b.0 k = ap (λ (p : Pair). equal p.0 k) e in
    rw (first, rest) refl
count_named-Permᴰ k (Permᴰ.swap {a} {b} {a'} {b'} e e') =
    let first : equal a.0 k ≡ equal b'.0 k = ap (λ (p : Pair). equal p.0 k) e in
    let second : equal b.0 k ≡ equal a'.0 k = ap (λ (p : Pair). equal p.0 k) e' in
    rw (first, second) (omega arith)
count_named-Permᴰ k (Permᴰ.trans d d') = count_named-Permᴰ k d ∙ count_named-Permᴰ k d'

last_value-swap :
    (k v : Bytes) (p q : Pair) (ps : List Pair)
    → count_named k (p ∷ q ∷ ps) ≤ 1
    → last_value k v (q ∷ p ∷ ps) ≡ last_value k v (p ∷ q ∷ ps)
last_value-swap k v p q ps h = elim (Bool-cases (equal p.0 k)) [
  | inr other ↦ rw other refl
  | inl named ↦ elim (Bool-cases (equal q.0 k)) [
    | inr other ↦ rw (named, other) refl
    | inl both ↦ ground arith
  ]
]

last_value-Permᴰ :
    (k v : Bytes) {ps qs : List Pair}
    → Permᴰ ps qs
    → count_named k ps ≤ 1
    → last_value k v ps ≡ last_value k v qs
last_value-Permᴰ k v Permᴰ.nil h = refl
last_value-Permᴰ k v (Permᴰ.cons {a} {b} {l₁} {l₂} e d) h =
    ap (λ (p : Pair). last_value k (if equal p.0 k then p.1 else v) l₁) e
    ∙ last_value-Permᴰ k (if equal b.0 k then b.1 else v) d (omega arith)
last_value-Permᴰ k v (Permᴰ.swap {a} {b} {a'} {b'} {l} e e') h =
    ap (λ (p : Pair). last_value k v (p ∷ b ∷ l)) e
    ∙ ap (λ (p : Pair). last_value k v (b' ∷ p ∷ l)) e'
    ∙ last_value-swap k v a' b' l (omega (arith, count_named-Permᴰ k (Permᴰ.swap {l = l} e e')))
last_value-Permᴰ k v (Permᴰ.trans d d') h =
    last_value-Permᴰ k v d h ∙ last_value-Permᴰ k v d' (omega (arith, count_named-Permᴰ k d))

-- `param` of what a query is parsed to, if it is.
abbrev pub param_of : Bytes → Outcome → Option Bytes
param_of k (parsed m) = some (param m k)
param_of k out_of_range = none
param_of k out_of_fuel = none

param_of-parse :
    (keep : ℕ → Bool) (ps : List Pair) (k : Bytes)
    → All IsWritable ps
    → suc (length (write_pairs keep ps)) < npos
    → param_of k (parse (b'?' ∷ write_pairs keep ps)) ≡ some (last_value k [] ps)
param_of-parse keep ps k h small =
    let (m, e, found) = param-parse keep ps k h small in ap (param_of k) e ∙ ap some found

-- In whatever order the pairs of a query are written, with whatever bytes escaped: `param` gives the same for a name that at
-- most one of them has.
pub param_of-Perm :
    (keep keep' : ℕ → Bool) (ps qs : List Pair) (k : Bytes)
    → Perm ps qs
    → count_named k ps ≤ 1
    → All IsWritable ps
    → All IsWritable qs
    → suc (length (write_pairs keep ps)) < npos
    → suc (length (write_pairs keep' qs)) < npos
    → param_of k (parse (b'?' ∷ write_pairs keep ps))
      ≡ param_of k (parse (b'?' ∷ write_pairs keep' qs))
param_of-Perm keep keep' ps qs k perm one hp hq small small' =
    let alone : IsProp (last_value k [] ps ≡ last_value k [] qs) = hlevel in
    let same = ∥∥₁_elim perm alone (λ d. last_value-Permᴰ k [] d one) in
    param_of-parse keep ps k hp small ∙ ap some same ∙ sym (param_of-parse keep' qs k hq small')
