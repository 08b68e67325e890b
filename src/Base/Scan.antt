-- ===== src/Base/Scan.antt =====
-- Bytes that a text does not hold.
use Prim.Native.Nat.{ℕ}
use mathlib.Core.Path.{◌≡◌, ap}
use mathlib.Core.Bool.{false}
use mathlib.Core.List.{[], ◌∷◌, ◌++◌}
use mathlib.Core.Logic.{inl, inr}
use worker_log.Base.Cond.{◌==◌, ==_iff, Bool-cases}
use worker_log.Base.Text.{Bytes}

-- No byte of the text is `c`.
abbrev pub Lacks : ℕ → Bytes → Type 0
Lacks c [] = Unit
Lacks c (b ∷ s) = ((b == c) ≡ false) × Lacks c s

pub Lacks-append : (c : ℕ) (s t : Bytes) → Lacks c s → Lacks c t → Lacks c (s ++ t)
Lacks-append c [] t p q = q
Lacks-append c (b ∷ s) t p q = (p.0, Lacks-append c s t p.1 q)

-- Where a byte first stands in a text, if it does.
pub data Cut (c : ℕ) (s : Bytes) : Type 0 where
  absent : Lacks c s → Cut c s
  found : (x y : Bytes) → Lacks c x → s ≡ x ++ c ∷ y → Cut c s

Cut-cons : {c : ℕ} {s : Bytes} (b : ℕ) → (b == c) ≡ false → Cut c s → Cut c (b ∷ s)
Cut-cons b h (absent l) = absent (h, l)
Cut-cons b h (found x y l e) = found (b ∷ x) y (h, l) (ap (◌∷◌ b) e)

pub cut : (c : ℕ) (s : Bytes) → Cut c s
cut c [] = absent tt
cut c (b ∷ s) = elim (Bool-cases (b == c)) [
  | inl same ↦ found [] s tt (ap (λ a. a ∷ s) ((==_iff b c).0 same))
  | inr other ↦ Cut-cons b other (cut c s)
]
