-- ===== src/Server/Locks.antt =====
-- Who goes on after the constructor in src/Server.cpp has taken the lock file.
use worker_log.Base.{
  ℕ, ◌≡◌, refl, sym, ◌∙◌, Bool, true, false, Option, none, some, Bytes, Bool-cases, inl, inr, ◌⊎◌,
  ◌==◌, ==_iff, Option-cases, empty, if◌then◌else◌, arith,
}
use worker_log.Server.{
  Identity, Users, Surroundings, Start, already, no_fork, parent, exits, runs, start, take_lock,
  get_proc_id_by_name,
}

-- The program goes on, as a daemon that it was or has become.
abbrev pub is_started : Start → Bool
is_started (runs now log) = true
is_started already = true
is_started (exits log) = false
is_started no_fork = false
is_started parent = false

module _ (users : Users) (user lock_file : Bytes) (ppid : ℕ) (w : Surroundings)
    (me : Identity) where
  start_unlocked :
      (forked : Option ℕ)
      → (ppid == 1) ≡ false
      → (take_lock lock_file w).0 ≡ false
      → is_started (start users user lock_file ppid forked w me) ≡ false
  unfolding start
  start_unlocked none child h = rw (child, start) refl
  start_unlocked (some pid) child h = elim (Bool-cases (pid == 0)) [
    | inl zero_ ↦ rw (child, start, zero_, h) refl
    | inr other ↦ rw (child, start, other) refl
  ]

  -- Only what was a daemon before goes on without the lock.
  pub start-is_started :
      (forked : Option ℕ)
      → is_started (start users user lock_file ppid forked w me) ≡ true
      → (ppid ≡ 1) ⊎ ((take_lock lock_file w).0 ≡ true)
  start-is_started forked up = elim (Bool-cases (ppid == 1)) [
    | inl daemon ↦ inl ((==_iff ppid 1).0 daemon)
    | inr child ↦ elim (Bool-cases (take_lock lock_file w).0) [
      | inl locked ↦ inr locked
      | inr failed ↦ let clash = sym up ∙ start_unlocked forked child failed in cc
    ]
  ]

-- No lock file was asked for, or it could be opened, and if it was there before, no other process of the
-- program's name was found.
abbrev pub IsLocked : Bytes → Surroundings → Type 0
IsLocked lock_file w =
    (empty lock_file ≡ true)
    ⊎ ((w.lock_opens ≡ true)
        × ((w.lock_exists ≡ false) ⊎ (get_proc_id_by_name w.progname w.self w.entries ≡ none)))

opened-IsLocked :
    (lock_file : Bytes) (w : Surroundings)
    → (w.lock_exists ≡ false) ⊎ (get_proc_id_by_name w.progname w.self w.entries ≡ none)
    → (if w.lock_opens then true else false) ≡ true
    → IsLocked lock_file w
opened-IsLocked lock_file w unused ok = elim (Bool-cases w.lock_opens) [
  | inl opens ↦ inr (opens, unused)
  | inr fails ↦ let clash : false ≡ true = sym (rw fails refl) ∙ ok in cc
]

-- What it means to go on with the lock file.
pub take_lock-IsLocked :
    (lock_file : Bytes) (w : Surroundings) → (take_lock lock_file w).0 ≡ true → IsLocked lock_file w
unfolding take_lock
take_lock-IsLocked lock_file w ok = elim (Bool-cases (empty lock_file)) [
  | inl unasked ↦ inl unasked
  | inr asked ↦ elim (Bool-cases w.lock_exists) [
    | inr anew ↦ opened-IsLocked lock_file w (inl anew) (ground arith)
    | inl there ↦ elim (Option-cases (get_proc_id_by_name w.progname w.self w.entries)) [
      | inl alone ↦ opened-IsLocked lock_file w (inr alone) (ground arith)
      | inr (id, found) ↦
          let clash : (take_lock lock_file w).0 ≡ false =
            rw (asked, take_lock, there, found) refl in
          cc
    ]
  ]
]
