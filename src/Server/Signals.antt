-- ===== src/Server/Signals.antt =====
-- The signals of src/Server.cpp: `child_handler`, and what the constructor binds it to.
use worker_log.Base.{ℕ, List, [], ◌∷◌, ◌==◌, if◌then◌else◌}

pub data Signal : Type 0 where
  sighup sigpipe sigusr1 sigchld sigalrm sigterm sigtstp sigttou sigttin sigrtmin : Signal

pub data Exit : Type 0 where
  exit_success exit_failure : Exit

-- What a signal leads to: the program exits, is ended by the system, is stopped, reads its configuration
-- again, or goes on.
pub data Handled : Type 0 where
  exited : Exit → Handled
  killed halted reloads returns : Handled

-- `Server::child_handler`.
unfoldable pub child_handler : Signal → Handled
child_handler sigalrm = exited exit_failure
child_handler sigusr1 = exited exit_success
child_handler sigchld = exited exit_failure
child_handler sighup = reloads
child_handler _ = returns

-- What is bound to a signal: SIG_DFL, SIG_IGN, a function.
pub data Disposition : Type 0 where
  default ignored : Disposition
  handler : (Signal → Handled) → Disposition

abbrev number : Signal → ℕ
number sighup = 1
number sigusr1 = 10
number sigpipe = 13
number sigalrm = 14
number sigterm = 15
number sigchld = 17
number sigtstp = 20
number sigttin = 21
number sigttou = 22
number sigrtmin = 34

pub record Binding : Type 0 where
  pub signal : Signal
  pub disposition : Disposition

-- `signal` and `sigaction`, one after the other.
unfoldable pub bind_all : List Binding → (Signal → Disposition) → Signal → Disposition
bind_all [] bound s = bound s
bind_all (b ∷ bindings) bound s =
    bind_all bindings (λ t. if number t == number b.signal then b.disposition else bound t) s

abbrev pub bind : Signal → Disposition → Binding
bind s d = record { signal = s; disposition = d }

-- What the constructor binds before `fork`, and then in the child.
abbrev pub before_fork : List Binding
before_fork =
    bind sigchld (handler child_handler)
    ∷ bind sigusr1 (handler child_handler)
    ∷ bind sigalrm (handler child_handler)
    ∷ []

abbrev pub in_child : List Binding
in_child =
    bind sighup default
    ∷ bind sigchld default
    ∷ bind sigtstp ignored
    ∷ bind sigttou ignored
    ∷ bind sigttin ignored
    ∷ bind sigterm default
    ∷ bind sigpipe default
    ∷ bind sigrtmin default
    ∷ []

-- What the system does with a signal that nothing is bound to.
abbrev default_action : Signal → Handled
default_action sigchld = returns
default_action sigtstp = halted
default_action sigttin = halted
default_action sigttou = halted
default_action _ = killed

-- What a signal leads to.
unfoldable pub deliver : (Signal → Disposition) → Signal → Handled
deliver bound s = elim (bound s) [
  | default ↦ default_action s
  | ignored ↦ returns
  | handler f ↦ f s
]
