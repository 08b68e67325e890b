-- ===== src/UrlParser/Query/Read.antt =====
-- One round of `parse` at a place where the rest of the text is known.
use worker_log.Base.{
  ℕ, ◌+◌, ◌-◌, ◌<◌, ◌≡◌, refl, sym, ap, ◌∙◌, false, some, [], ◌∷◌, ◌++◌, append-nil, append_assoc,
  arith, ◌==◌, Bytes, length, length-append, take-append, drop-append, Lacks,
}
use worker_log.UrlParser.Query.{
  npos, increment, find_from, find_first_of, substr, returns, pair, round_value, round,
}

find_from-Lacks : (c : ℕ) (s : Bytes) (i : ℕ) → Lacks c s → find_from c s i ≡ npos
unfolding find_from
find_from-Lacks c [] i h = refl
find_from-Lacks c (b ∷ s) i h = rw h.0 (find_from-Lacks c s _ h.1)

find_from-append :
    (c : ℕ) (x y : Bytes) (i : ℕ) → Lacks c x → find_from c (x ++ c ∷ y) i ≡ i + length x
unfolding find_from
find_from-append c [] y i h = ground arith
find_from-append c (b ∷ x) y i h = rw h.0 (omega (arith, find_from-append c x y (i + 1) h.1))

-- `pre` is what has been read.
module _ (url pre : Bytes) where
  pub find_first_of-Lacks :
      (c : ℕ) (s : Bytes) → url ≡ pre ++ s → Lacks c s → find_first_of url c (length pre) ≡ npos
  unfolding find_first_of
  find_first_of-Lacks c s e h = rw (e, drop-append) (find_from-Lacks c s _ h)

  pub find_first_of-append :
      (c : ℕ) (x y : Bytes)
      → url ≡ pre ++ (x ++ c ∷ y)
      → Lacks c x
      → find_first_of url c (length pre) ≡ length pre + length x
  unfolding find_first_of
  find_first_of-append c x y e h = rw (e, drop-append) (find_from-append c x y _ h)

  pub substr-append :
      (x y : Bytes) (n : ℕ)
      → url ≡ pre ++ (x ++ y)
      → n ≡ length x
      → substr url (length pre) n ≡ some x
  unfolding substr
  substr-append x y n e h =
      rw (e, h, drop-append, take-append) (ground (arith, length-append pre (x ++ y)))

module _ (url pre name : Bytes) (pos : ℕ) (here : increment pos ≡ length pre) where
  pub round-Lacks : url ≡ pre ++ name → Lacks b'=' name → round url pos ≡ returns
  unfolding round
  round-Lacks e h = rw (here, find_first_of-Lacks url pre b'=' name e h) refl

  -- A name is read up to its `=`; the value is left to `round_value`.
  round-append :
      (s : Bytes)
      → url ≡ pre ++ (name ++ b'=' ∷ s)
      → Lacks b'=' name
      → length url < npos
      → round url pos ≡ round_value url name (increment (length pre + length name))
  unfolding round
  round-append s e h small =
      let width : length pre + length name - length pre ≡ length name = omega arith in
      let place : (length pre + length name == npos) ≡ false =
        ground (
          arith,
          ap length e,
          length-append pre (name ++ b'=' ∷ s),
          length-append name (b'=' ∷ s),
        ) in
      simp (
        here,
        find_first_of-append url pre b'=' name s e h,
        place,
        width,
        substr-append url pre name (b'=' ∷ s) _ e refl,
      )

module _ (url pre name value : Bytes) where
  -- The value runs to the end of the text.
  round_value-Lacks :
      url ≡ pre ++ value
      → Lacks b'&' value
      → round_value url name (length pre) ≡ pair name value (length url)
  unfolding round_value
  round_value-Lacks e h =
      let whole : url ≡ pre ++ (value ++ []) = e ∙ ap (λ t. pre ++ t) (sym (append-nil value)) in
      let width : length url - length pre ≡ length value =
        omega (arith, ap length e, length-append pre value) in
      simp (
        find_first_of-Lacks url pre b'&' value e h,
        substr-append url pre value [] _ whole width,
        round_value,
      )

  round_value-append :
      (s : Bytes)
      → url ≡ pre ++ (value ++ b'&' ∷ s)
      → Lacks b'&' value
      → length url < npos
      → round_value url name (length pre) ≡ pair name value (length pre + length value)
  unfolding round_value
  round_value-append s e h small =
      let width : length pre + length value - length pre ≡ length value = omega arith in
      let place : (length pre + length value == npos) ≡ false = ground (
        arith,
        ap length e,
        length-append pre (value ++ b'&' ∷ s),
        length-append value (b'&' ∷ s),
      ) in
      simp (
        find_first_of-append url pre b'&' value s e h,
        place,
        width,
        substr-append url pre value (b'&' ∷ s) _ e refl,
        round_value,
      )

pub increment-lt : (pos : ℕ) → pos < npos → increment pos ≡ pos + 1
unfolding increment
increment-lt pos h = omega arith

-- What has been read once a name and its `=` are.
abbrev pub past_name : Bytes → Bytes → Bytes
past_name pre name = pre ++ (name ++ b'=' ∷ [])

pub past_name-append : (pre name s : Bytes) → pre ++ (name ++ b'=' ∷ s) ≡ past_name pre name ++ s
past_name-append pre name s = simp append_assoc

increment-past_name :
    (url pre name s : Bytes)
    → url ≡ pre ++ (name ++ b'=' ∷ s)
    → length url < npos
    → increment (length pre + length name) ≡ length (past_name pre name)
increment-past_name url pre name s e small = omega (
  arith,
  ap length e,
  length-append pre (name ++ b'=' ∷ s),
  length-append name (b'=' ∷ s),
  length-append pre (name ++ b'=' ∷ []),
  length-append name (b'=' ∷ []),
  increment-lt (length pre + length name),
)

module _ (url pre name value : Bytes) (pos : ℕ) (here : increment pos ≡ length pre) where
  -- A round that reads the last pair.
  pub round_last :
      url ≡ pre ++ (name ++ b'=' ∷ value)
      → Lacks b'=' name
      → Lacks b'&' value
      → length url < npos
      → round url pos ≡ pair name value (length url)
  round_last e h k small =
      round-append url pre name pos here value e h small
      ∙ ap (round_value url name) (increment-past_name url pre name value e small)
      ∙ round_value-Lacks url (past_name pre name) name value (e ∙ past_name-append pre name value)
          k

  -- A round that reads a pair and stops at its `&`.
  pub round_more :
      (s : Bytes)
      → url ≡ pre ++ (name ++ b'=' ∷ (value ++ b'&' ∷ s))
      → Lacks b'=' name
      → Lacks b'&' value
      → length url < npos
      → round url pos ≡ pair name value (length (past_name pre name) + length value)
  round_more s e h k small =
      round-append url pre name pos here (value ++ b'&' ∷ s) e h small
      ∙ ap (round_value url name) (increment-past_name url pre name (value ++ b'&' ∷ s) e small)
      ∙ round_value-append url (past_name pre name) name value s
          (e ∙ past_name-append pre name (value ++ b'&' ∷ s)) k small
