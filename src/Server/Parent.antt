-- ===== src/Server/Parent.antt =====
-- The two processes of the start in src/Server.cpp, and the signals between them: the parent of
-- `Server::Server`, which sets an alarm, waits and exits, and the child.
use worker_log.Base.{ℕ, suc, ◌||◌, ◌≡◌, ◌≢◌, Bool, true, false, List}
use worker_log.Server.Signals.{Exit, exited, child_handler, sigusr1, sigchld, sigalrm}
use worker_log.Server.Pid.{PidFile, unopened}
use worker_log.Server.{Notice, Identity, Start, runs, exits}

-- The parent: before `alarm (2)`, with the alarm set, or gone. `pause` never returns to it, since every
-- signal that it catches exits.
pub data Parent : Type 0 where
  forked alarmed : Parent
  gone : Exit → Parent

-- The child: before `getppid`, then in its set-up, with the number of the parent or, where that is gone,
-- of process 1; after `kill`, in `writePid`; then it has exited or goes on.
pub data Child : Type 0 where
  born : Child
  set_up : Bool → Child
  writing going_on stopped : Child

-- Both of them, and whether SIGUSR1 and SIGCHLD were sent to the parent and not taken yet.
pub record Family : Type 0 where
  pub parent : Parent
  pub child : Child
  pub usr1 : Bool
  pub chld : Bool

abbrev pub is_there : Parent → Bool
is_there forked = true
is_there alarmed = true
is_there (gone e) = false

-- A step of either process, where `set` is how the set-up of the child ends and `file` how `writePid`
-- does.
pub data Step (set : Start) (file : PidFile) (f : Family) : Family → Type 0 where
  sets_alarm : f.parent ≡ forked → Step set file f (record f { parent = alarmed })
  rings :
      {e : Exit}
      → f.parent ≡ alarmed
      → child_handler sigalrm ≡ exited e
      → Step set file f (record f { parent = gone e })
  takes_usr1 :
      {e : Exit}
      → is_there f.parent ≡ true
      → f.usr1 ≡ true
      → child_handler sigusr1 ≡ exited e
      → Step set file f (record f { parent = gone e; usr1 = false })
  takes_chld :
      {e : Exit}
      → is_there f.parent ≡ true
      → f.chld ≡ true
      → child_handler sigchld ≡ exited e
      → Step set file f (record f { parent = gone e; chld = false })
  asks : f.child ≡ born → Step set file f (record f { child = set_up (is_there f.parent) })
  fails :
      {known : Bool} {log : List Notice}
      → f.child ≡ set_up known
      → set ≡ exits log
      → Step set file f (record f { child = stopped; chld = true })
  signals :
      {known : Bool} {now : Identity} {log : List Notice}
      → f.child ≡ set_up known
      → set ≡ runs now log
      → Step set file f (record f { child = writing; usr1 = f.usr1 || known })
  stops :
      f.child ≡ writing
      → file ≡ unopened
      → Step set file f (record f { child = stopped; chld = true })
  goes_on : f.child ≡ writing → file ≢ unopened → Step set file f (record f { child = going_on })

abbrev pub at_fork : Family
at_fork = record { parent = forked; child = born; usr1 = false; chld = false }

-- What can be reached from the fork in so many steps.
pub data Reach (set : Start) (file : PidFile) : ℕ → Family → Type 0 where
  here : Reach set file 0 at_fork
  next : {n : ℕ} {f g : Family} → Reach set file n f → Step set file f g → Reach set file (suc n) g
