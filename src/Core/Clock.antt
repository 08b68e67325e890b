-- ===== src/Core/Clock.antt =====
-- The time of the impressions in `Core::ProcessSaveResults` of src/Core.cpp.
use worker_log.Base.{
  ℕ, zero, suc, ◌+◌, ◌-◌, ◌*◌, ◌/◌, ◌≤◌, ◌<◌, ◌≡◌, ◌∙◌, refl, sym, ap, arith, Bool-cases, inl, inr,
  ltb, if◌then◌else◌,
}

pub data ℤ : Type 0 where
  pos : ℕ → ℤ
  negsuc : ℕ → ℤ

-- The difference of two natural numbers.
abbrev pub minus : ℕ → ℕ → ℤ
minus a b = if ltb a b then negsuc (b - a - 1) else pos (a - b)

-- The clocks, in the order in which they are read: the local one and the universal one, in seconds
-- since 1970, and that of the system, in milliseconds.
pub record Clocks : Type 0 where
  pub local : ℕ
  pub universal : ℕ
  pub system : ℕ

-- `dur.hours()`, which rounds towards 0.
abbrev pub hours : ℤ → ℤ
hours (pos s) = pos (s / 3600)
hours (negsuc s) = minus 0 ((s + 1) / 3600)

abbrev pub add_hours : ℕ → ℤ → ℤ
add_hours now (pos h) = pos (now + h * 3600000)
add_hours now (negsuc h) = minus now ((h + 1) * 3600000)

-- `dt`, as the milliseconds of `b_date`.
abbrev pub document_time : Clocks → ℤ
document_time c = add_hours c.system (hours (minus c.local c.universal))

minus-le : (a b : ℕ) → b ≤ a → minus a b ≡ pos (a - b)
minus-le a b h = elim (Bool-cases (ltb a b)) [ inl less ↦ ground arith | inr more ↦ rw more refl ]

minus-lt : (a b d : ℕ) → a + suc d ≡ b → minus a b ≡ negsuc d
minus-lt a b d h = elim (Bool-cases (ltb a b)) [
  | inl less ↦ rw less (ap negsuc (omega arith))
  | inr more ↦ ground arith
]

hours_ahead_of : (a b h : ℕ) → b ≤ a → (a - b) / 3600 ≡ h → hours (minus a b) ≡ pos h
hours_ahead_of a b h le e = rw (minus-le a b le) (ap pos e)

hours_behind : (a b s : ℕ) → a + s ≡ b → hours (minus a b) ≡ minus 0 (s / 3600)
hours_behind a b zero h = rw (minus-le a b (omega arith)) (ap pos (omega arith))
hours_behind a b (suc s) h = rw (minus-lt a b s h) (ap (λ n. minus 0 (n / 3600)) (omega arith))

add_hours-behind : (now h : ℕ) → add_hours now (minus 0 h) ≡ minus now (h * 3600000)
add_hours-behind now zero = sym (minus-le now 0 (omega arith) ∙ ap pos (omega arith))
add_hours-behind now (suc h) =
    rw (minus-lt 0 (suc h) h (omega arith)) (ap (λ n. minus now (n * 3600000)) (omega arith))

-- The whole hours of a zone that is ahead by `h` hours and `m` seconds, less one if the time between
-- the readings takes the seconds away.
abbrev pub hours_ahead : ℕ → ℕ → ℕ → ℕ
hours_ahead h m tick = if ltb m tick then h - 1 else h

document_time_ahead :
    (t h m tick now : ℕ)
    → m < 3600
    → tick < 3600
    → add_hours now (hours (minus (t + (h * 3600 + m)) (t + tick)))
      ≡ pos (now + hours_ahead h m tick * 3600000)
document_time_ahead t zero m tick now hm ht = elim (Bool-cases (ltb m tick)) [
  | inl less ↦
      let below : (tick - m) / 3600 ≡ 0 = omega arith in
      ap (add_hours now) (hours_behind (t + (0 * 3600 + m)) (t + tick) (tick - m) (ground arith))
      ∙ ap (λ n. add_hours now (minus 0 n)) below
      ∙ rw less (ap pos (omega arith))
  | inr more ↦
      ap (add_hours now)
        (hours_ahead_of (t + (0 * 3600 + m)) (t + tick) 0 (ground arith) (ground arith))
      ∙ rw more refl
]
document_time_ahead t (suc h) m tick now hm ht = ap (add_hours now) (
    hours_ahead_of (t + (suc h * 3600 + m)) (t + tick) (hours_ahead (suc h) m tick) (omega arith)
      (ground arith))

-- In a zone that is ahead or behind by some hours and a part of an hour, where the two clocks are read
-- less than an hour apart: the date of a document is the time shifted by the whole hours only. The time
-- between the readings takes an hour away from a zone that is ahead if it is more than the part of the
-- hour, and adds one to a zone that is behind if it fills the hour.
pub document_time_lem :
    (t h m tick now : ℕ)
    → m < 3600
    → tick < 3600
    → h * 3600 + m ≤ t
    → (document_time (record { local = t + (h * 3600 + m); universal = t + tick; system = now })
        ≡ pos (now + hours_ahead h m tick * 3600000))
      × (document_time (record { local = t - (h * 3600 + m); universal = t + tick; system = now })
          ≡ minus now ((h + (m + tick) / 3600) * 3600000))
document_time_lem t h m tick now hm ht ho = (
  document_time_ahead t h m tick now hm ht,
  ap (add_hours now)
        (hours_behind (t - (h * 3600 + m)) (t + tick) (h * 3600 + m + tick) (omega arith))
      ∙ add_hours-behind now ((h * 3600 + m + tick) / 3600)
      ∙ ap (λ n. minus now (n * 3600000)) (omega arith),
)
