-- ===== src/Tests/SampleBoost.antt =====
-- Boost functions that meet the laws, for the examples.
use worker_log.Base.{
  ℕ, ◌≡◌, ◌≢◌, refl, ap, ◌∙◌, true, some, some-inj, List, [], ◌∷◌, ◌++◌, Bytes, arith, ◌==◌,
  if◌then◌else◌, All, Lacks, Bool-cases, inl, inr, subst,
}
use worker_log.Base.Decimal.{is_digit, IsDigit}
use worker_log.External.Boost.{Boost, IsBoost, join}

-- A byte in front of the first of some texts.
abbrev push : ℕ → List Bytes → List Bytes
push b [] = (b ∷ []) ∷ []
push b (s ∷ ss) = (b ∷ s) ∷ ss

abbrev split : ℕ → Bytes → List Bytes
split c [] = [] ∷ []
split c (b ∷ s) = let rest = split c s in if b == c then [] ∷ rest else push b rest

abbrev digits_of : Bytes → Bytes
digits_of [] = []
digits_of (c ∷ s) = let rest = digits_of s in if is_digit c then c ∷ rest else rest

abbrev pub sample_boost : Boost
sample_boost = record { split = split; trim = λ s. s; drop_non_digits = λ s. some (digits_of s) }

split-Lacks : (c : ℕ) (s : Bytes) → Lacks c s → split c s ≡ s ∷ []
split-Lacks c [] h = refl
split-Lacks c (b ∷ s) h = rw (h.0, split-Lacks c s h.1)

split-append : (c : ℕ) (s t : Bytes) → Lacks c s → split c (s ++ c ∷ t) ≡ s ∷ split c t
split-append c [] t h = let same : (c == c) ≡ true = ground arith in rw same
split-append c (b ∷ s) t h = rw (h.0, split-append c s t h.1)

split-join : (c : ℕ) (ss : List Bytes) → All (Lacks c) ss → ss ≢ [] → split c (join c ss) ≡ ss
split-join c [] h ne = absurd (ne refl)
split-join c (s ∷ []) h ne = split-Lacks c s h.0
split-join c (s ∷ t ∷ ss) h ne =
    split-append c s (join c (t ∷ ss)) h.0 ∙ ap (◌∷◌ s) (split-join c (t ∷ ss) h.1 (λ e. cc))

digits_of-All : (s : Bytes) → All IsDigit (digits_of s)
digits_of-All [] = tt
digits_of-All (c ∷ s) = elim (Bool-cases (is_digit c)) [
  | inl d ↦ rw d (d, digits_of-All s)
  | inr d ↦ rw d (digits_of-All s)
]

digits_of-digits : (s : Bytes) → All IsDigit s → digits_of s ≡ s
digits_of-digits [] h = refl
digits_of-digits (c ∷ s) h = rw h.0 (ap (◌∷◌ c) (digits_of-digits s h.1))

pub sample_boost-IsBoost : IsBoost sample_boost
sample_boost-IsBoost = record {
  split-join = split-join;
  trim-digits = λ s h. refl;
  drop-digits = λ s h. ap some (digits_of-digits s h);
  drop-All = λ s t e. subst (All IsDigit) (some-inj e) (digits_of-All s);
}
