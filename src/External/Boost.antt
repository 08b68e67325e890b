-- ===== src/External/Boost.antt =====
-- The calls of Boost's string and regular expression libraries.
use worker_log.Base.{ℕ, ◌≡◌, ◌≢◌, Option, some, List, [], ◌∷◌, ◌++◌, Bytes, All, Lacks}
use worker_log.Base.Decimal.{IsDigit}

pub record Boost : Type 0 where
  -- `boost::split (out, s, boost::is_any_of (c))`.
  pub split : ℕ → Bytes → List Bytes
  -- `boost::trim`.
  pub trim : Bytes → Bytes
  -- `u32regex_replace (s, make_u32regex ("[^0-9]"), "")`; `none` is an exception, for a text that is
  -- not UTF-8.
  pub drop_non_digits : Bytes → Option Bytes

-- Texts with a byte between each two.
abbrev pub join : ℕ → List Bytes → Bytes
join c [] = []
join c (s ∷ []) = s
join c (s ∷ t ∷ ss) = s ++ c ∷ join c (t ∷ ss)

pub record IsBoost (B : Boost) : Type 0 where
  -- Splitting finds the texts between the separators.
  pub split-join :
      (c : ℕ) (ss : List Bytes) → All (Lacks c) ss → ss ≢ [] → B.split c (join c ss) ≡ ss
  -- Nothing is trimmed of a text of digits, and nothing of it is replaced.
  pub trim-digits : (s : Bytes) → All IsDigit s → B.trim s ≡ s
  pub drop-digits : (s : Bytes) → All IsDigit s → B.drop_non_digits s ≡ some s
  -- What is left is digits.
  pub drop-All : (s t : Bytes) → B.drop_non_digits s ≡ some t → All IsDigit t
