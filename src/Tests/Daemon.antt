-- ===== src/Tests/Daemon.antt =====
-- src/Server.cpp and src/Log.cpp at a concrete system, and the theorems there.
use worker_log.Base.{
  ◌+◌, ◌≤◌, Bytes, ℕ, ◌≡◌, ◌≢◌, refl, true, false, Option, none, some, [], ◌∷◌, codes, ◌==◌,
  if◌then◌else◌, ==_iff, arith,
}
use worker_log.BoostHelpers.{atoi}
use worker_log.Server.Pid.{write_pid, log10, holds, unwanted, atoi-write_pid}
use worker_log.Server.Signals.{Exit, exit_success, child_handler}
use worker_log.Server.Parent.{
  Family, gone, writing, Reach, Step, here, next, sets_alarm, asks, signals, takes_usr1,
}
use worker_log.Server.Waiting.{is_past, success-locked, parent_ends}
use worker_log.Server.{
  Surroundings, start, take_lock, until_zero, Identity, IsUsers, Users, drop_privileges,
  error_setgid, setting_user,
}
use worker_log.Server.Privileges.{drop_privileges_group}

-- A system with one user, who is 33 and has the group 33.
abbrev set_user : Identity → ℕ → Option Identity
set_user me u = if me.uid == 0 then some (record me { uid = u }) else none

abbrev set_group : Identity → ℕ → Option Identity
set_group me g =
    if me.uid == 0 then some (record me { gid = g }) else if me.gid == g then some me else none

abbrev system : Users
system = record {
  getpwnam = λ name. some (record { uid = 33; gid = 33 });
  setuid = set_user;
  setgid = set_group;
}

set_user_root : (me : Identity) (u : ℕ) → me.uid ≡ 0 → set_user me u ≡ some (record me { uid = u })
set_user_root me u root = let r : (me.uid == 0) ≡ true = (==_iff me.uid 0).1 root in rw r refl

set_group_refused : (me : Identity) (g : ℕ) → me.uid ≢ 0 → me.gid ≢ g → set_group me g ≡ none
set_group_refused me g other group =
    let r : (me.uid == 0) ≡ false = ground (arith, other) in
    let q : (me.gid == g) ≡ false = ground (arith, group) in rw (r, q) refl

system-IsUsers : IsUsers system
system-IsUsers = record { setuid_root = set_user_root; setgid_refused = set_group_refused }

drop_privileges_group_example :
    drop_privileges system (codes "www-data") (record { uid = 0; gid = 0 })
    ≡ (record { uid = 33; gid = 0 }, setting_user ∷ error_setgid ∷ [])
drop_privileges_group_example =
    drop_privileges_group system system-IsUsers (codes "www-data") (record { uid = 0; gid = 0 })
      (record { uid = 33; gid = 33 }) refl refl (λ e. cc) (λ e. cc)

atoi-write_pid_example :
    (file : Bytes) × (write_pid (codes "/run/wl.pid") 4711 true (log10 4711 + 2) (codes "123456789")
      ≡ holds file false)
    × (atoi (until_zero file) ≡ 4711)
atoi-write_pid_example =
    atoi-write_pid (codes "/run/wl.pid") (codes "123456789") 4711 refl (omega arith)

abbrev alone : Surroundings
alone = record {
  lock_exists = false;
  entries = [];
  self = 8;
  progname = codes "wl";
  lock_opens = true;
}

-- The child signals before the alarm rings.
abbrev told : Family
told = record { parent = gone exit_success; child = writing; usr1 = false; chld = false }

abbrev me : Identity
me = record { uid = 33; gid = 33 }

told_run : Reach (start system [] (codes "/run/wl.lock") 7 (some 0) alone me) unwanted 4 told
unfolding start child_handler
told_run =
    next (next (next (next here (sets_alarm refl)) (asks refl)) (signals refl refl))
      (takes_usr1 refl refl refl)

success-locked_example :
    ((take_lock (codes "/run/wl.lock") alone).0 ≡ true) × (is_past writing ≡ true)
success-locked_example =
    success-locked system [] (codes "/run/wl.lock") 7 alone me (λ e. cc) told_run refl

parent_ends_example :
    (4 ≤ 5)
    × (((g : Family)
          → Step (start system [] (codes "/run/wl.lock") 7 (some 0) alone me) unwanted told g
          → ⊥)
        → (e : Exit) × (told.parent ≡ gone e))
parent_ends_example =
    parent_ends (start system [] (codes "/run/wl.lock") 7 (some 0) alone me) unwanted told_run
