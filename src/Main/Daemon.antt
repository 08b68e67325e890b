-- ===== src/Main/Daemon.antt =====
-- What the options and the signals come to in src/main.cpp.
use worker_log.Base.{
  ℕ, ◌==◌, ==_iff, if◌then◌else◌, Bool-cases, ◌≡◌, ◌≢◌, ◌↔◌, refl, true, some, List, codes, empty,
  ◌⊎◌, inl, inr, ◌∷◌, ◌++◌,
}
use worker_log.BoostHelpers.{get_config_dir}
use worker_log.CgiService.Launch.{service_bindings, in_thread}
use worker_log.CgiService.Database.{MongoDatabase}
use worker_log.Config.{fresh}
use worker_log.Config.Load.{load, not_found}
use worker_log.External.Files.{FileSystem}
use worker_log.External.Xml.{Xml}
use worker_log.Main.{Flag, Options, defaults, read_flags, ends, Host, main, daemon_bindings}
use worker_log.Server.Signals.{
  child_handler, Signal, sighup, sigpipe, sigusr1, sigchld, sigalrm, sigterm, sigtstp, sigttou,
  sigttin, sigrtmin, Disposition, default, ignored, bind, before_fork, in_child, Handled, exited,
  exit_success, reloads, bind_all, deliver,
}

-- What a program that has just been loaded finds bound: handlers of the one before it are gone.
abbrev pub IsInherited : (Signal → Disposition) → Type 0
IsInherited before = (s : Signal) → (before s ≡ default) ⊎ (before s ≡ ignored)

-- A delivery does not reload, and exits with success just if `P` holds.
abbrev pub ExitsOnly : Handled → Type 0 → Type 0
ExitsOnly handled P = (handled ≢ reloads) × ((handled ≡ exited exit_success) ↔ P)

module _ (before : Signal → Disposition) where
  -- The child of `Server` has bound every one of the signals itself.
  forked :
      (s : Signal)
      → ExitsOnly
          (deliver
            (bind_all
              (bind sigpipe ignored ∷ before_fork ++ in_child ++ service_bindings ++ in_thread)
              before)
            s)
          (s ≡ sigusr1)
  unfolding bind_all deliver child_handler
  forked sighup = (λ e. cc, (λ e. cc, λ e. cc))
  forked sigpipe = (λ e. cc, (λ e. cc, λ e. cc))
  forked sigusr1 = (λ e. cc, (λ e. refl, λ e. refl))
  forked sigchld = (λ e. cc, (λ e. cc, λ e. cc))
  forked sigalrm = (λ e. cc, (λ e. cc, λ e. cc))
  forked sigterm = (λ e. cc, (λ e. cc, λ e. cc))
  forked sigtstp = (λ e. cc, (λ e. cc, λ e. cc))
  forked sigttou = (λ e. cc, (λ e. cc, λ e. cc))
  forked sigttin = (λ e. cc, (λ e. cc, λ e. cc))
  forked sigrtmin = (λ e. cc, (λ e. cc, λ e. cc))

  -- Where `Server` returns at once, only two signals are bound.
  unforked :
      (s : Signal)
      → (before s ≡ default) ⊎ (before s ≡ ignored)
      → ExitsOnly
          (deliver (bind_all (bind sigpipe ignored ∷ service_bindings ++ in_thread) before) s)
          ⊥
  unfolding bind_all deliver
  unforked sighup h = (λ e. cc, (λ e. cc, λ e. absurd e))
  unforked sigpipe h = (λ e. cc, (λ e. cc, λ e. absurd e))
  unforked sigusr1 (inl h) = rw h (λ e. cc, (λ e. cc, λ e. absurd e))
  unforked sigusr1 (inr h) = rw h (λ e. cc, (λ e. cc, λ e. absurd e))
  unforked sigchld (inl h) = rw h (λ e. cc, (λ e. cc, λ e. absurd e))
  unforked sigchld (inr h) = rw h (λ e. cc, (λ e. cc, λ e. absurd e))
  unforked sigalrm (inl h) = rw h (λ e. cc, (λ e. cc, λ e. absurd e))
  unforked sigalrm (inr h) = rw h (λ e. cc, (λ e. cc, λ e. absurd e))
  unforked sigterm (inl h) = rw h (λ e. cc, (λ e. cc, λ e. absurd e))
  unforked sigterm (inr h) = rw h (λ e. cc, (λ e. cc, λ e. absurd e))
  unforked sigtstp (inl h) = rw h (λ e. cc, (λ e. cc, λ e. absurd e))
  unforked sigtstp (inr h) = rw h (λ e. cc, (λ e. cc, λ e. absurd e))
  unforked sigttou (inl h) = rw h (λ e. cc, (λ e. cc, λ e. absurd e))
  unforked sigttou (inr h) = rw h (λ e. cc, (λ e. cc, λ e. absurd e))
  unforked sigttin (inl h) = rw h (λ e. cc, (λ e. cc, λ e. absurd e))
  unforked sigttin (inr h) = rw h (λ e. cc, (λ e. cc, λ e. absurd e))
  unforked sigrtmin (inl h) = rw h (λ e. cc, (λ e. cc, λ e. absurd e))
  unforked sigrtmin (inr h) = rw h (λ e. cc, (λ e. cc, λ e. absurd e))

-- Where the program has been loaded with every signal at its default or ignored, none of the signals that
-- the code names makes it read its configuration again; just SIGUSR1 makes it exit with success, and only
-- if init was not its parent at the start. If init was, SIGUSR1 does what it did before, which is to kill
-- the program where it was at its default.
pub daemon_signals :
    (ppid : ℕ) (before : Signal → Disposition) (s : Signal)
    → IsInherited before
    → (deliver (bind_all (daemon_bindings ppid) before) s ≢ reloads)
      × ((deliver (bind_all (daemon_bindings ppid) before) s ≡ exited exit_success)
          ↔ ((ppid ≢ 1) × (s ≡ sigusr1)))
      × (deliver (bind_all (daemon_bindings ppid) before) sigusr1
          ≡ (if ppid == 1 then deliver before sigusr1 else exited exit_success))
unfolding bind_all deliver child_handler
daemon_signals ppid before s h = elim (Bool-cases (ppid == 1)) [
  | inl init ↦
      let (goes_on, never) = unforked before s (h s) in
      rw init (goes_on, (λ e. absurd (never.0 e), λ p. absurd (p.0 ((==_iff ppid 1).0 init))), refl)
  | inr other ↦
      let (goes_on, only) = forked before s in
      let parent : ppid ≢ 1 = λ e. let met : (ppid == 1) ≡ true = rw e refl in cc in
      rw other (goes_on, (λ e. (parent, only.0 e), λ p. only.1 p.1), refl)
]

-- With `-t` among options of which none is wrong, the program says that the configuration is right, and
-- exits with 0, also where the file of the configuration is not found.
main_test :
    (X : Xml) (F : FileSystem) (M : MongoDatabase) (h : Host X F M) (flags : List Flag)
    (o : Options)
    → read_flags flags defaults ≡ some o
    → o.test_config ≡ true
    → empty (get_config_dir F o.config h.files) ≡ true
    → main X F M h flags ≡ ends 0 (codes "Config: Ok\n")
unfolding main load
main_test X F M h flags o read tests missing =
    let lost : load X F h.process h.second_group o.config (h.document o.config) fresh h.files
        ≡ not_found =
      rw (missing, load) refl in
    rw (read, main, lost, tests) refl
