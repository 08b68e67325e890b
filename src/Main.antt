-- ===== src/Main.antt =====
-- src/main.cpp: the options, and how the configuration, the daemon and the service are started.
pub mod Passed
pub mod Serves
pub mod Configured
pub mod Daemon
use worker_log.Base.{
  ℕ, ◌+◌, Bool, true, false, Option, none, some, List, [], ◌∷◌, ◌++◌, Bytes, codes, length, ltb,
  ◌==◌, if◌then◌else◌,
}
use worker_log.BoostHelpers.{Process}
use worker_log.CgiService.Database.{MongoDatabase}
use worker_log.CgiService.Launch.{
  service_bindings, in_thread, Launch, thrown, quits, serves, launch,
}
use worker_log.Config.{Settings, fresh}
use worker_log.Config.Load.{Loaded, loaded, not_found, exited, crashed, load}
use worker_log.External.Files.{FileSystem}
use worker_log.External.Xml.{Xml}
use worker_log.Server.{
  Start, Identity, Users, Surroundings, already, no_fork, parent, exits, runs, start,
}
use worker_log.Server.Signals.{Binding, bind, sigpipe, ignored, before_fork, in_child}
use worker_log.Server.Pid.{PidFile, unwanted, unopened, holds, write_pid}

-- What `getopt` gives for "tpc:s:", in order; anything else is `other`.
pub data Flag : Type 0 where
  flag_c flag_s : Bytes → Flag
  flag_p flag_t other : Flag

pub record Options : Type 0 where
  pub config : Bytes
  pub sock_path : Bytes
  pub print_pid_file : Bool
  pub test_config : Bool

abbrev pub defaults : Options
defaults = record {
  config = codes "config.xml";
  sock_path = [];
  print_pid_file = false;
  test_config = false;
}

take_flag : Flag → Options → Option Options
take_flag (flag_c optarg) o = some (record o { config = optarg })
take_flag (flag_s optarg) o = some (record o { sock_path = optarg })
take_flag flag_p o = some (record o { print_pid_file = true })
take_flag flag_t o = some (record o { test_config = true })
take_flag other o = none

-- The loop over the options; `none` is a wrong one.
unfoldable pub read_flags : List Flag → Options → Option Options
unfolding take_flag
read_flags [] o = some o
read_flags (flag ∷ flags) o = elim (take_flag flag o) [
  | none ↦ none
  | some o' ↦ read_flags flags o'
]

-- How the program goes on: it exits with a status and what it printed, an error of memory or an
-- exception ends it, it is the parent and waits, or it serves with so many threads.
pub data Outcome (D : Type 0) : Type 0 where
  ends : ℕ → Bytes → Outcome D
  falls waits : Outcome D
  serving : Settings → D → ℕ → Outcome D

-- What the program meets: its name, the document of a file, the files, the users and itself, the
-- parent's number, the result of `fork`, the other processes, the pid file with what it holds and how
-- much of it can be written, the addresses that the driver takes, the sockets, the threads and the
-- database; and the `int` that the memory of `server_children_` holds, which no constructor sets.
pub record Host (X : Xml) (F : FileSystem) (M : MongoDatabase) : Type 0 where
  pub argv_0 : Bytes
  pub document : Bytes → Option X.Element
  pub files : F.Files
  pub process : Process
  pub second_group : Bytes → Option Bytes
  pub users : Users
  pub me : Identity
  pub ppid : ℕ
  pub fork : Option ℕ
  pub surroundings : Surroundings
  pub pid_opens : Bool
  pub pid_count : ℕ
  pub pid_old : Bytes
  pub is_uri : Bytes → Bool
  pub open_socket : Bytes → ℕ → Bool
  pub creates : ℕ → Bool
  pub database : M.Data
  pub old_children : ℕ

-- `if (sock_path.size () > 8)`.
abbrev pub with_socket : Bytes → Settings → Settings
with_socket sock_path c =
    if ltb 8 (length sock_path) then record c { server_socket_path = sock_path } else c

-- `server_children_` when it is read.
abbrev pub children_of : Option ℕ → ℕ → ℕ
children_of none old = old
children_of (some children) old = children

module _ (X : Xml) (F : FileSystem) (M : MongoDatabase) (h : Host X F M) where
  abbrev pub after_launch : Settings → Launch M.Data → Outcome M.Data
  after_launch c thrown = falls
  after_launch c (quits message) = ends 1 message
  after_launch c (serves d threads) = serving c d threads

  -- `CgiService ()`, with the number of children that was set, or else the one in the memory.
  abbrev pub serve_as : Settings → Option ℕ → Outcome M.Data
  serve_as c set = after_launch c (
      launch M h.is_uri c.mongo_log_url c.mongo_log_collection_impression c.server_socket_path
        (children_of set h.old_children) h.open_socket h.creates h.database)

  abbrev pub serve_with : Bytes → Settings → Outcome M.Data
  serve_with sock_path c =
      serve_as (with_socket sock_path c) (with_socket sock_path c).server_children

  abbrev pub after_pid : Bytes → Settings → PidFile → Outcome M.Data
  after_pid sock_path c unopened = ends 1 []
  after_pid sock_path c unwanted = serve_with sock_path c
  after_pid sock_path c (holds file failed) = serve_with sock_path c

  -- `new Server`, whose child goes on with `writePid`, in a build without DEBUG.
  abbrev pub after_start : Bytes → Settings → Start → Outcome M.Data
  after_start sock_path c already = serve_with sock_path c
  after_start sock_path c no_fork = ends 1 []
  after_start sock_path c parent = waits
  after_start sock_path c (exits log) = ends 1 []
  after_start sock_path c (runs now log) =
      after_pid sock_path c
        (write_pid c.pid_file h.surroundings.self h.pid_opens h.pid_count h.pid_old)

  abbrev pub become : Settings → Start
  become c = start h.users c.user c.lock_file h.ppid h.fork h.surroundings h.me

  abbrev pub after_config : Options → Settings → Outcome M.Data
  after_config o c =
      if o.test_config
      then ends 0 (codes "Config: Ok\n")
      else if o.print_pid_file
      then ends 0 (c.pid_file ++ codes "\n")
      else after_start o.sock_path c (become c)

  -- The result of `LoadConfig` is not looked at.
  abbrev pub after_load : Options → Loaded F → Outcome M.Data
  after_load o exited = ends 1 []
  after_load o crashed = falls
  after_load o not_found = after_config o fresh
  after_load o (loaded c counters files) = after_config o c

  abbrev pub after_flags : Option Options → Outcome M.Data
  after_flags none =
      ends 1 (codes "Error found! " ++ h.argv_0 ++ codes " -c config_file -s socket_path\n")
  after_flags (some o) =
      after_load o (load X F h.process h.second_group o.config (h.document o.config) fresh h.files)

  unfoldable pub main : List Flag → Outcome M.Data
  main flags = after_flags (read_flags flags defaults)

-- What `Server` binds: nothing where the parent of the process is init, and else what its child, which
-- goes on, has then.
abbrev pub server_bindings : ℕ → List Binding
server_bindings ppid = if ppid == 1 then [] else before_fork ++ in_child

-- What is bound to the signals in the order of the code: here, in `Server`, and in `CgiService` with its
-- threads.
abbrev pub daemon_bindings : ℕ → List Binding
daemon_bindings ppid = bind sigpipe ignored ∷ server_bindings ppid ++ service_bindings ++ in_thread
