-- ===== src/CgiService/Launch.antt =====
-- The constructor and the destructor of `CgiService` in src/CgiService.cpp, and its handler of signals.
pub mod Serves
use worker_log.Base.{
  ℕ, zero, suc, ◌+◌, ◌*◌, ◌%◌, ◌^◌, Bool, not, none, some, List, [], ◌∷◌, Bytes, codes, ltb,
  if◌then◌else◌,
}
use worker_log.CgiService.Database.{MongoDatabase, check_log_database}
use worker_log.Server.Signals.{Signal, sighup, sigpipe, returns, Binding, handler, ignored, bind}

-- What `CgiService::SignalHandler` logs; it returns.
unfoldable pub signal_handler : Signal → List Bytes
signal_handler sighup = codes "CgiService: sig hup" ∷ []
signal_handler sigpipe = codes "CgiService: sig pipe " ∷ []
signal_handler _ = []

abbrev pub service_bindings : List Binding
service_bindings =
    bind sigpipe ignored
    ∷ bind sighup (handler (λ s. returns))
    ∷ bind sigpipe (handler (λ s. returns))
    ∷ []

-- What each thread binds when it starts to serve.
abbrev pub in_thread : List Binding
in_thread = bind sigpipe ignored ∷ []

-- How the constructor ends: an exception leaves it, it exits with a message, or so many threads serve.
pub data Launch (D : Type 0) : Type 0 where
  thrown : Launch D
  quits : Bytes → Launch D
  serves : D → ℕ → Launch D

-- An `int` is negative.
abbrev pub is_negative : ℕ → Bool
is_negative n = not (ltb n (2 ^ 31))

module _ (M : MongoDatabase) where
  -- The loop over `pthread_create`, from thread `i` on: `creates` is whether a thread can be made.
  unfoldable pub create_threads : (ℕ → Bool) → M.Data → ℕ → ℕ → Launch M.Data
  create_threads creates d zero i = serves d i
  create_threads creates d (suc count) i =
      let rest = create_threads creates d count (i + 1) in
      if creates i then rest else quits (codes "creating thread failed")

  -- `CgiService::CgiService`, with its pool of connections, where `is_uri` is whether the driver takes an
  -- address, and `open_socket` whether `FCGX_OpenSocket` gives a socket for a path and a backlog.
  unfoldable pub launch :
      (Bytes → Bool)
      → Bytes
      → Bytes
      → Bytes
      → ℕ
      → (Bytes → ℕ → Bool)
      → (ℕ → Bool)
      → M.Data
      → Launch M.Data
  unfolding create_threads
  launch is_uri url collection socket_path children open_socket creates d =
      if not (is_uri url) then thrown else elim (check_log_database M collection d) [
        | none ↦ thrown
        | some d' ↦
            if not (open_socket socket_path (children * 4 % 2 ^ 32))
            then quits (codes "Error open socket. exit")
            else if is_negative ((children + 1) % 2 ^ 32)
            then thrown
            else create_threads creates d' (if is_negative children then 0 else children) 0
      ]
