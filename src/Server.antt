-- ===== src/Server.antt =====
-- src/Server.cpp and include/Server.h: becoming a daemon. What the system says is an argument.
pub mod Processes
pub mod Privileges
pub mod Pid
pub mod Signals
pub mod Parent
pub mod Locks
pub mod Waiting
use worker_log.Base.{
  ℕ, ◌+◌, ◌%◌, ◌^◌, Bool, true, false, not, ◌&&◌, ◌||◌, Option, none, some, List, [], ◌∷◌, ◌++◌,
  Bytes, codes, empty, equal, ◌≡◌, ◌≢◌, ltb, ◌==◌, if◌then◌else◌,
}
use worker_log.BoostHelpers.{atoi}

-- The user and the group that the process runs as, the real and the effective ones alike.
pub record Identity : Type 0 where
  pub uid : ℕ
  pub gid : ℕ

-- `setuid` and `setgid`: who the process is then, or `none` where the system refuses. `getpwnam` gives
-- the user and the group of a name.
pub record Users : Type 0 where
  pub getpwnam : Bytes → Option Identity
  pub setuid : Identity → ℕ → Option Identity
  pub setgid : Identity → ℕ → Option Identity

-- Root may become anybody, and who is not root may not take another group.
pub record IsUsers (users : Users) : Type 0 where
  pub setuid_root :
      (me : Identity) (u : ℕ) → me.uid ≡ 0 → users.setuid me u ≡ some (record me { uid = u })
  pub setgid_refused : (me : Identity) (g : ℕ) → me.uid ≢ 0 → me.gid ≢ g → users.setgid me g ≡ none

-- What is logged in between.
pub data Notice : Type 0 where
  setting_user error_setuid error_setgid another_running unable_lock starting exiting : Notice

-- A call that may be refused: who the process is, and what is logged.
abbrev after_set : Notice → Identity → Option Identity → Identity × List Notice
after_set failed old none = (old, failed ∷ [])
after_set failed old (some new) = (new, [])

-- `setuid` and `setgid` to the user of the configuration, for root: first the user is set, then the group.
unfoldable pub drop_privileges : Users → Bytes → Identity → Identity × List Notice
drop_privileges users name me =
    if me.uid == 0
    then elim (users.getpwnam name) [
      | none ↦ (me, [])
      | some pw ↦
          let (as_user, first) = after_set error_setuid me (users.setuid me pw.uid) in
          let (as_group, second) = after_set error_setgid as_user (users.setgid as_user pw.gid) in
          (as_group, setting_user ∷ first ++ second)
    ]
    else (me, [])

-- An entry of /proc: its name, and the first line of its `cmdline`, empty where there is none.
pub record Entry : Type 0 where
  pub d_name : Bytes
  pub cmdline : Bytes

-- `substr (0, find ('\\0'))`.
unfoldable pub until_zero : Bytes → Bytes
until_zero [] = []
until_zero (c ∷ s) = if c == 0 then [] else c ∷ until_zero s

-- `substr (rfind ('/') + 1)`, or all of it: `last` is what follows the last `/` so far.
unfoldable pub after_slash : Bytes → Bytes → Bytes
after_slash last [] = last
after_slash last (c ∷ s) = after_slash (if c == b'/' then s else last) s

unfoldable pub program : Bytes → Bytes
unfolding until_zero after_slash
program cmdline = let path = until_zero cmdline in after_slash path path

-- An `int` is positive.
abbrev positive : ℕ → Bool
positive n = not (n == 0) && ltb n (2 ^ 31)

unfoldable pub is_process : Bytes → ℕ → Entry → Bool
unfolding program
is_process name self entry =
    let id = atoi entry.d_name in
    positive id
    && not (empty entry.cmdline)
    && equal name (program entry.cmdline)
    && not (id == self)

-- `Server::getProcIdByName`; `none` is -1.
unfoldable pub get_proc_id_by_name : Bytes → ℕ → List Entry → Option ℕ
unfolding is_process
get_proc_id_by_name name self [] = none
get_proc_id_by_name name self (entry ∷ entries) =
    let later = get_proc_id_by_name name self entries in
    if is_process name self entry then some (atoi entry.d_name) else later

-- What the constructor meets in the child: whether the lock file is there, the processes, the own
-- number and name, and whether the lock file can be opened.
pub record Surroundings : Type 0 where
  pub lock_exists : Bool
  pub entries : List Entry
  pub self : ℕ
  pub progname : Bytes
  pub lock_opens : Bool

-- How it ends: it was a daemon before, `fork` failed, it is the parent, which waits for a signal and
-- exits, it exits, or it runs.
pub data Start : Type 0 where
  already no_fork parent : Start
  exits : List Notice → Start
  runs : Identity → List Notice → Start

-- The lock file; `true` is to go on.
unfoldable pub take_lock : Bytes → Surroundings → Bool × List Notice
take_lock lock_file w =
    let opened = if w.lock_opens then (true, []) else (false, unable_lock ∷ []) in
    if empty lock_file
    then (true, [])
    else if w.lock_exists
    then elim (get_proc_id_by_name w.progname w.self w.entries) [
      | none ↦ (opened.0, another_running ∷ opened.1)
      | some id ↦ (false, another_running ∷ exiting ∷ [])
    ]
    else opened

-- `Server::Server`, without the calls that have no effect here: signals, the session, the directory and
-- the standard streams. `forked` is the result of `fork`, `none` for an error.
unfoldable pub start : Users → Bytes → Bytes → ℕ → Option ℕ → Surroundings → Identity → Start
unfolding drop_privileges take_lock
start users user lock_file ppid forked w me = if ppid == 1 then already else elim forked [
  | none ↦ no_fork
  | some pid ↦
      if not (pid == 0)
      then parent
      else let (now, dropped) = drop_privileges users user me in
        let (ok, locked) = take_lock lock_file w in
        if ok then runs now (dropped ++ locked ++ starting ∷ []) else exits (dropped ++ locked)
]
