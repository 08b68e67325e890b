-- ===== src/Server/Waiting.antt =====
-- What the parent of the start in src/Server.cpp reports, and that it ends.
use worker_log.Base.{ℕ, ◌+◌, ◌≤◌, ◌≡◌, ◌≢◌, refl, Bool, true, false, some, Bytes, arith, inl, inr}
use worker_log.Server.{Identity, Users, Surroundings, Start, start, take_lock}
use worker_log.Server.Pid.{PidFile}
use worker_log.Server.Signals.{Exit, exit_success, child_handler}
use worker_log.Server.Locks.{is_started, start-is_started}
use worker_log.Server.Parent.{
  Parent, forked, alarmed, gone, Child, born, set_up, writing, going_on, stopped, Family, is_there,
  Step, sets_alarm, rings, takes_usr1, takes_chld, asks, fails, signals, stops, goes_on, Reach,
  here, next,
}

-- The child is behind its call of `kill`, or has ended.
abbrev pub is_past : Child → Bool
is_past born = false
is_past (set_up known) = false
is_past writing = true
is_past going_on = true
is_past stopped = true

-- Whoever was told that the start succeeded was told so by the child, after its set-up.
record IsHonest (set : Start) (f : Family) : Type 0 where
  told : f.usr1 ≡ true → (is_started set ≡ true) × (is_past f.child ≡ true)
  success : f.parent ≡ gone exit_success → (is_started set ≡ true) × (is_past f.child ≡ true)

early : (c : Child) → c ≡ born → is_past c ≡ true → ⊥
early born b p = cc
early (set_up known) b p = cc
early writing b p = cc
early going_on b p = cc
early stopped b p = cc

-- How many steps each process may still take.
abbrev pub parent_weight : Parent → ℕ
parent_weight forked = 2
parent_weight alarmed = 1
parent_weight (gone e) = 0

abbrev pub child_weight : Child → ℕ
child_weight born = 3
child_weight (set_up known) = 2
child_weight writing = 1
child_weight going_on = 0
child_weight stopped = 0

abbrev pub weight : Family → ℕ
weight f = parent_weight f.parent + child_weight f.child

is_there-weight : (p : Parent) → is_there p ≡ true → 1 ≤ parent_weight p
is_there-weight forked h = omega arith
is_there-weight alarmed h = omega arith
is_there-weight (gone e) h = cc

module _ {set : Start} {file : PidFile} where
  Step-IsHonest : {f g : Family} → Step set file f g → IsHonest set f → IsHonest set g
  unfolding child_handler
  Step-IsHonest (sets_alarm p) h = record { told = h.told; success = λ e. cc }
  Step-IsHonest (rings p q) h = record { told = h.told; success = λ e. cc }
  Step-IsHonest (takes_usr1 p u q) h = record { told = λ e. cc; success = λ e. h.told u }
  Step-IsHonest (takes_chld p c q) h = record { told = h.told; success = λ e. cc }
  Step-IsHonest (asks c) h = record {
    told = λ e. absurd (early _ c (h.told e).1);
    success = λ e. absurd (early _ c (h.success e).1);
  }
  Step-IsHonest (fails c s) h = record {
    told = λ e. ((h.told e).0, refl);
    success = λ e. ((h.success e).0, refl);
  }
  Step-IsHonest (signals c s) h = record {
    told = λ e. (rw s refl, refl);
    success = λ e. (rw s refl, refl);
  }
  Step-IsHonest (stops c s) h = record {
    told = λ e. ((h.told e).0, refl);
    success = λ e. ((h.success e).0, refl);
  }
  Step-IsHonest (goes_on c s) h = record {
    told = λ e. ((h.told e).0, refl);
    success = λ e. ((h.success e).0, refl);
  }

  Reach-IsHonest : {n : ℕ} {f : Family} → Reach set file n f → IsHonest set f
  Reach-IsHonest here = record { told = λ e. cc; success = λ e. cc }
  Reach-IsHonest (next r st) = Step-IsHonest st (Reach-IsHonest r)

  Step-weight : {f g : Family} → Step set file f g → weight g + 1 ≤ weight f
  Step-weight (sets_alarm p) = rw p (omega arith)
  Step-weight (rings p q) = rw p (omega arith)
  Step-weight (takes_usr1 p u q) = omega (arith, is_there-weight _ p)
  Step-weight (takes_chld p c q) = omega (arith, is_there-weight _ p)
  Step-weight (asks c) = rw c (omega arith)
  Step-weight (fails c s) = rw c (omega arith)
  Step-weight (signals c s) = rw c (omega arith)
  Step-weight (stops c s) = rw c (omega arith)
  Step-weight (goes_on c s) = rw c (omega arith)

  Reach-weight : {n : ℕ} {f : Family} → Reach set file n f → n + weight f ≤ 5
  Reach-weight here = omega arith
  Reach-weight (next r st) = omega (arith, Reach-weight r, Step-weight st)

-- In whatever order the two processes run and signals arrive, the parent exits with success only if
-- the child took the lock file, or none was asked for, and is past its set-up; the program was not a
-- daemon before.
pub success-locked :
    (users : Users) (user lock_file : Bytes) (ppid : ℕ) (w : Surroundings) (me : Identity)
    {file : PidFile} {n : ℕ} {f : Family}
    → ppid ≢ 1
    → Reach (start users user lock_file ppid (some 0) w me) file n f
    → f.parent ≡ gone exit_success
    → ((take_lock lock_file w).0 ≡ true) × (is_past f.child ≡ true)
success-locked users user lock_file ppid w me child r e =
    let (up, past) = (Reach-IsHonest r).success e in
    elim (start-is_started users user lock_file ppid w me (some 0) up) [
      | inl daemon ↦ absurd (child daemon)
      | inr locked ↦ (locked, past)
    ]

-- The two processes together take at most five steps from the fork, whatever the set-up and the pid
-- file come to, and where no step is left the parent has exited.
pub parent_ends :
    (set : Start) (file : PidFile) {n : ℕ} {f : Family}
    → Reach set file n f
    → (n ≤ 5) × (((g : Family) → Step set file f g → ⊥) → (e : Exit) × (f.parent ≡ gone e))
unfolding child_handler
parent_ends set file {f} r = (omega (arith, Reach-weight r), ended f.parent refl)
  where
    ended :
        (p : Parent)
        → f.parent ≡ p
        → ((g : Family) → Step set file f g → ⊥)
        → (e : Exit) × (f.parent ≡ gone e)
    ended forked q stuck = absurd (stuck _ (sets_alarm q))
    ended alarmed q stuck = absurd (stuck _ (rings q refl))
    ended (gone e) q stuck = (e, q)
