-- ===== src/UrlParser/Query/Refines.antt =====
-- The loop over positions reads the same pairs as the byte-by-byte reading, ends, and never throws.
use worker_log.Base.{
  ℕ, zero, suc, ◌+◌, ◌≤◌, ◌<◌, ◌⊎◌, inl, inr, ◌≡◌, refl, ap, ◌∙◌, [], ◌∷◌, ◌++◌, append_assoc,
  arith, Bytes, length, length-append, absent, found, cut, Lacks,
}
use worker_log.Base.Dict.{Dict, vacant, assign}
use worker_log.UrlParser.Percent.{percent_decode}
use worker_log.UrlParser.Query.{npos, increment, returns, pair, round, parsed, parse_loop, parse}
use worker_log.UrlParser.Query.Pairs.{
  read_name, read_name-Lacks, read_name-append, read_value-Lacks, read_value-append, behind_mark,
  pairs, enter,
}
use worker_log.UrlParser.Query.Read.{
  increment-lt, past_name, past_name-append, round-Lacks, round_last, round_more,
  find_first_of-Lacks, find_first_of-append,
}

-- The loop goes on at a place inside the text, and at `npos`.
abbrev Enters : Bytes → ℕ → Type 0
Enters url pos = (pos < length url) ⊎ (pos ≡ npos)

loop_returns :
    (fuel : ℕ) (url : Bytes) (pos : ℕ) (m : Dict Bytes)
    → Enters url pos
    → round url pos ≡ returns
    → parse_loop (suc fuel) url pos m ≡ parsed m
unfolding parse_loop
loop_returns fuel url pos m h e = ground arith

loop_pair :
    (fuel : ℕ) (url name value : Bytes) (pos stop : ℕ) (m : Dict Bytes)
    → Enters url pos
    → round url pos ≡ pair name value stop
    → parse_loop (suc fuel) url pos m
      ≡ parse_loop fuel url stop (assign m name (percent_decode value))
unfolding parse_loop
loop_pair fuel url name value pos stop m h e = ground arith

loop_end :
    (fuel : ℕ) (url : Bytes) (m : Dict Bytes)
    → length url < npos
    → parse_loop (suc fuel) url (length url) m ≡ parsed m
unfolding parse_loop
loop_end fuel url m h = ground arith

-- Where the text stands once a value and its `&` have been read behind `pre`.
record PastValue (url pre value rest : Bytes) : Type 0 where
  splits : url ≡ (pre ++ (value ++ b'&' ∷ [])) ++ rest
  here : increment (length pre + length value) ≡ length (pre ++ (value ++ b'&' ∷ []))
  inside : length pre + length value < length url

past_value :
    (url pre value rest : Bytes)
    → url ≡ pre ++ (value ++ b'&' ∷ rest)
    → length url < npos
    → PastValue url pre value rest
past_value url pre value rest e small =
    let inside : length pre + length value < length url = omega (
      arith,
      ap length e,
      length-append pre (value ++ b'&' ∷ rest),
      length-append value (b'&' ∷ rest),
    ) in
    record {
      splits = e ∙ simp append_assoc;
      here = omega (
        arith,
        increment-lt (length pre + length value),
        length-append pre (value ++ b'&' ∷ []),
        length-append value (b'&' ∷ []),
      );
      inside = inside;
    }

length_rest :
    (name value rest : Bytes) → length rest + 2 ≤ length (name ++ b'=' ∷ (value ++ b'&' ∷ rest))
length_rest name value rest =
    omega
      (arith, length-append name (b'=' ∷ (value ++ b'&' ∷ rest)), length-append value (b'&' ∷ rest))

loop-read_name :
    (fuel : ℕ) (url pre s : Bytes) (pos : ℕ) (m : Dict Bytes)
    → url ≡ pre ++ s
    → length url < npos
    → increment pos ≡ length pre
    → Enters url pos
    → length s < fuel
    → parse_loop (suc fuel) url pos m ≡ parsed (enter (read_name s []) m)
loop-read_name zero url pre s pos m e small here inside h = absurd (omega arith)
loop-read_name (suc fuel) url pre s pos m e small here inside h = elim (cut b'=' s) [
  | absent l ↦
      rw (read_name-Lacks s [] l)
        (loop_returns (suc fuel) url pos m inside (round-Lacks url pre s pos here e l))
  | found name t l c ↦ elim (cut b'&' t) [
    | absent k ↦
        let e' : url ≡ pre ++ (name ++ b'=' ∷ t) = e ∙ ap (λ r. pre ++ r) c in
        rw (c, read_name-append name t [] l, read_value-Lacks t name [] k)
          (loop_pair (suc fuel) url name t pos _ m inside
              (round_last url pre name t pos here e' l k small)
            ∙ loop_end fuel url _ small)
    | found value rest k d ↦
        let cd : s ≡ name ++ b'=' ∷ (value ++ b'&' ∷ rest) = c ∙ ap (λ r. name ++ b'=' ∷ r) d in
        let e' : url ≡ pre ++ (name ++ b'=' ∷ (value ++ b'&' ∷ rest)) = e ∙ ap (λ r. pre ++ r) cd in
        let past =
          past_value url (past_name pre name) value rest (e' ∙ past_name-append pre name _) small in
        rw
          (
            cd,
            read_name-append name (value ++ b'&' ∷ rest) [] l,
            read_value-append value rest name [] k,
          )
          (loop_pair (suc fuel) url name value pos _ m inside
              (round_more url pre name value pos here rest e' l k small)
            ∙ loop-read_name fuel url _ rest _ _ past.splits small past.here (inl past.inside)
                (omega (arith, ap length cd, length_rest name value rest)))
  ]
]

behind_mark-Lacks : (url s : Bytes) → Lacks b'?' s → behind_mark url s ≡ url
behind_mark-Lacks url [] h = refl
behind_mark-Lacks url (c ∷ s) h = rw h.0 (behind_mark-Lacks url s h.1)

behind_mark-append : (url s t : Bytes) → Lacks b'?' s → behind_mark url (s ++ b'?' ∷ t) ≡ t
behind_mark-append url [] t h = refl
behind_mark-append url (c ∷ s) t h = rw h.0 (behind_mark-append url s t h.1)

-- On a text that a `std::string` can hold, the constructor ends, no `substr` throws, and `params_`
-- holds what the byte-by-byte reading enters.
pub parse-pairs : (url : Bytes) → length url < npos → parse url ≡ parsed (enter (pairs url) vacant)
unfolding parse pairs increment
parse-pairs url small = elim (cut b'?' url) [
  | absent l ↦
      rw (find_first_of-Lacks url [] b'?' url refl l, behind_mark-Lacks url url l)
        (loop-read_name (suc (length url)) url [] url npos vacant refl small refl (inr refl)
          (omega arith))
  | found s t l e ↦
      let behind : behind_mark url url ≡ t =
        ap (behind_mark url) e ∙ behind_mark-append url s t l in
      let split : url ≡ (s ++ b'?' ∷ []) ++ t = e ∙ simp append_assoc in
      let long : length url ≡ length s + 1 + length t =
        omega (arith, ap length e, length-append s (b'?' ∷ t)) in
      let here : increment (0 + length s) ≡ length (s ++ b'?' ∷ []) =
        omega (arith, increment-lt (0 + length s), length-append s (b'?' ∷ [])) in
      rw (find_first_of-append url [] b'?' s t e l, behind)
        (loop-read_name (suc (length url)) url _ t _ vacant split small here (inl (omega arith))
          (omega arith))
]
