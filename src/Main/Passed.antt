-- ===== src/Main/Passed.antt =====
-- What the program of src/main.cpp has passed when it serves.
use worker_log.Base.{ℕ, ◌++◌, ◌≡◌, refl, sym, ◌∙◌, true, Bytes, codes, Bool-cases, inl, inr}
use worker_log.CgiService.Database.{MongoDatabase}
use worker_log.Config.{Settings}
use worker_log.External.Files.{FileSystem}
use worker_log.External.Xml.{Xml}
use worker_log.Main.{
  Options, ends, serving, Host, become, serve_with, after_pid, after_start, after_config,
}
use worker_log.Server.{Start, already, no_fork, parent, exits, runs}
use worker_log.Server.Locks.{is_started}
use worker_log.Server.Pid.{PidFile, unwanted, unopened, holds}

module _ (X : Xml) (F : FileSystem) (M : MongoDatabase) (h : Host X F M) where
  after_pid-serving :
      (sock_path : Bytes) (c c' : Settings) (file : PidFile) (d : M.Data) (n : ℕ)
      → after_pid X F M h sock_path c file ≡ serving c' d n
      → serve_with X F M h sock_path c ≡ serving c' d n
  after_pid-serving sock_path c c' unopened d n e = cc
  after_pid-serving sock_path c c' unwanted d n e = e
  after_pid-serving sock_path c c' (holds file failed) d n e = e

  after_start-serving :
      (sock_path : Bytes) (c c' : Settings) (s : Start) (d : M.Data) (n : ℕ)
      → after_start X F M h sock_path c s ≡ serving c' d n
      → (is_started s ≡ true) × (serve_with X F M h sock_path c ≡ serving c' d n)
  after_start-serving sock_path c c' already d n e = (refl, e)
  after_start-serving sock_path c c' no_fork d n e = cc
  after_start-serving sock_path c c' parent d n e = cc
  after_start-serving sock_path c c' (exits log) d n e = cc
  after_start-serving sock_path c c' (runs now log) d n e =
      (refl, after_pid-serving sock_path c c' _ d n e)

  pub after_config-serving :
      (o : Options) (c c' : Settings) (d : M.Data) (n : ℕ)
      → after_config X F M h o c ≡ serving c' d n
      → (is_started (become X F M h c) ≡ true) × (serve_with X F M h o.sock_path c ≡ serving c' d n)
  after_config-serving o c c' d n e = elim (Bool-cases o.test_config) [
    | inl tests ↦
        let clash : ends 0 (codes "Config: Ok\n") ≡ serving c' d n = sym (rw tests refl) ∙ e in cc
    | inr goes ↦ elim (Bool-cases o.print_pid_file) [
      | inl prints ↦
          let clash : ends 0 (c.pid_file ++ codes "\n") ≡ serving c' d n =
            sym (rw (goes, prints) refl) ∙ e in
          cc
      | inr serves_ ↦
          after_start-serving o.sock_path c c' (become X F M h c) d n
            (sym (rw (goes, serves_) refl) ∙ e)
    ]
  ]
