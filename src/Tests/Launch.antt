-- ===== src/Tests/Launch.antt =====
-- src/main.cpp and the start of src/CgiService.cpp at a concrete system, and the theorems there.
use worker_log.Base.{
  ◌≤◌, ◌↔◌, inl, subst, some-inj, equal_refl, equal_iff, ℕ, ◌%◌, ◌^◌, ◌≡◌, ◌≢◌, refl, Bool, true,
  false, Option, none, some, List, [], ◌∷◌, Bytes, codes, equal, arith, ◌==◌, if◌then◌else◌,
}
use worker_log.Base.Decimal.{strtol}
use worker_log.Base.Dict.{Dict, vacant, holds, find}
use worker_log.CgiService.Database.{
  CollectionOptions, MongoDatabase, IsMongoDatabase, log_options, check_log_database,
  check_log_database_again,
}
use worker_log.CgiService.Threads.{set_pc, idle, loaded, Threads, Run, begin, after, load, store}
use worker_log.CgiService.Threads.Counts.{Run-counter, Run-stale}
use worker_log.BoostHelpers.{get_config_dir}
use worker_log.Config.Described.Whole.{IsDescribed, load-IsDescribed}
use worker_log.Config.Load.{load as load_config, no_counts}
use worker_log.Config.{fresh, Settings}
use worker_log.External.Files.{Stat, regular}
use worker_log.External.Xml.{Xml}
use worker_log.Main.{flag_c, Options, defaults, read_flags, Host, main, daemon_bindings}
use worker_log.Main.Configured.{IsConfigured, main-IsConfigured}
use worker_log.Main.Daemon.{daemon_signals}
use worker_log.Main.Serves.{IsUp, main-IsUp}
use worker_log.Server.{Identity, Users}
use worker_log.Server.Signals.{
  default, deliver, bind_all, sighup, reloads, exited, exit_success, sigusr1,
}
use worker_log.Tests.SampleFiles.{sample_files, look_up}

-- A database is the collections that it has, with their options.
abbrev create_sample :
    Dict CollectionOptions → Bytes → CollectionOptions → Option (Dict CollectionOptions)
create_sample d name options = some (holds name options d)

abbrev has : Option CollectionOptions → Bool
has none = false
has (some options) = true

abbrev sample_mongo : MongoDatabase
sample_mongo = record {
  Data = Dict CollectionOptions;
  has_collection = λ d name. some (has (find d name));
  create_collection = create_sample;
}

sample_mongo-has :
    (d d' : Dict CollectionOptions) (name : Bytes) (options : CollectionOptions)
    → create_sample d name options ≡ some d'
    → some (has (find d' name)) ≡ some true
unfolding find
sample_mongo-has d d' name options e =
    subst (λ x. some (has (find x name)) ≡ some true) (some-inj e) (rw (equal_refl name) refl)

sample_mongo-keeps :
    (d d' : Dict CollectionOptions) (name other : Bytes) (options : CollectionOptions)
    → create_sample d name options ≡ some d'
    → name ≢ other
    → some (has (find d' other)) ≡ some (has (find d other))
unfolding find
sample_mongo-keeps d d' name other options e differs =
    let apart : equal name other ≡ false = ground (arith, equal_iff name other, differs) in
    subst (λ x. some (has (find x other)) ≡ some (has (find d other))) (some-inj e) (rw apart refl)

sample_mongo-IsMongoDatabase : IsMongoDatabase sample_mongo
sample_mongo-IsMongoDatabase = record {
  create-has = sample_mongo-has;
  create-keeps = sample_mongo-keeps;
}

abbrev with_log : Dict CollectionOptions
with_log = holds (codes "impressions") log_options vacant

check_log_database_again_example :
    (some (has (find with_log (codes "impressions"))) ≡ some true)
    × (check_log_database sample_mongo (codes "impressions") with_log ≡ some with_log)
    × ((other : Bytes)
        → codes "impressions" ≢ other
        → some (has (find with_log other)) ≡ some false)
unfolding find check_log_database
check_log_database_again_example =
    check_log_database_again sample_mongo sample_mongo-IsMongoDatabase (codes "impressions") vacant
      with_log refl

-- One thread that has counted one request.
abbrev one_round : Threads
one_round = record { counter = 1; served = 1; pc = set_pc (set_pc (λ i. idle) 0 (loaded 0)) 0 idle }

one_run : Run 1 one_round
one_run = after (after begin (load 0 (omega arith) refl)) (store 0 0 (omega arith) refl)

Run-counter_example : (1 ≤ 1) × (◌≡◌ {A = ℕ} 1 1 → 1 ≡ 1 % 2 ^ 64)
Run-counter_example = Run-counter one_run

Run-stale_example :
    (s : Threads) × Run 2 s × (s.counter ≡ 1) × (s.served ≡ 4) × ((i : ℕ) → s.pc i ≡ idle)
Run-stale_example = Run-stale 2 3 (omega arith)

-- A configuration with an address, a collection and two children.
abbrev elements : List (ℕ × Bytes × ℕ)
elements =
    (0, codes "mongo", 1)
    ∷ (1, codes "log", 2)
    ∷ (2, codes "url", 3)
    ∷ (2, codes "collection_impression", 4)
    ∷ (0, codes "server", 5)
    ∷ (5, codes "children", 6)
    ∷ (5, codes "lock_file", 7)
    ∷ []

abbrev text_of_element : ℕ → Option Bytes
text_of_element el =
    if el == 3
    then some (codes "mongodb://log")
    else if el == 4
    then some (codes "impressions")
    else if el == 6
    then some (codes "2")
    else if el == 7
    then some (codes "wl.lock")
    else none

abbrev small_xml : Xml
small_xml = record {
  Element = ℕ;
  first_child = look_up elements;
  get_text = text_of_element;
  attribute = λ el name. some (codes "1");
}

abbrev sample_users : Users
sample_users = record { getpwnam = λ name. none; setuid = λ me u. none; setgid = λ me g. none }

abbrev with_config : Dict Stat
with_config =
    holds (codes "wl.xml") (record { kind = regular; st_uid = 0; st_gid = 0; st_mode = 0o644 })
      vacant

abbrev host : Host small_xml sample_files sample_mongo
host = record {
  argv_0 = codes "worker";
  document = λ name. some 0;
  files = with_config;
  process = record { uid = 1000; gid = 1000 };
  second_group = λ text. none;
  users = sample_users;
  me = record { uid = 1000; gid = 1000 };
  ppid = 7;
  fork = some 0;
  surroundings = record {
    lock_exists = true;
    entries = [];
    self = 8;
    progname = codes "worker";
    lock_opens = true;
  };
  pid_opens = true;
  pid_count = 3;
  pid_old = [];
  is_uri = λ url. true;
  open_socket = λ path backlog. true;
  creates = λ i. true;
  database = vacant;
  old_children = 0;
}

abbrev settings : Settings
settings = record fresh {
  mongo_log_url = codes "mongodb://log";
  mongo_log_collection_impression = codes "impressions";
  server_children = some 2;
  lock_file = codes "wl.lock";
  instance_id = some 1;
  log = λ flag. some false;
}

main-IsUp_example : IsUp small_xml sample_files sample_mongo host settings with_log 2
unfolding main load_config read_flags get_config_dir find equal worker_log.Config.Load.run
    worker_log.Config.Load.on_text worker_log.Config.Load.geocity worker_log.Config.Load.geocountry
    worker_log.Server.start worker_log.Server.Pid.write_pid worker_log.CgiService.Launch.launch
    check_log_database strtol worker_log.BoostHelpers.check_path worker_log.Base.Dict.assign
    worker_log.Server.get_proc_id_by_name
main-IsUp_example =
    main-IsUp small_xml sample_files sample_mongo sample_mongo-IsMongoDatabase host
      (flag_c (codes "wl.xml") ∷ []) settings with_log 2 refl

main-IsConfigured_example :
    (o : Options) × (read_flags (flag_c (codes "wl.xml") ∷ []) defaults ≡ some o)
    × IsConfigured small_xml sample_files sample_mongo host o settings
unfolding main load_config read_flags get_config_dir find equal worker_log.Config.Load.run
    worker_log.Config.Load.on_text worker_log.Config.Load.geocity worker_log.Config.Load.geocountry
    worker_log.Server.start worker_log.Server.Pid.write_pid worker_log.CgiService.Launch.launch
    check_log_database strtol worker_log.BoostHelpers.check_path worker_log.Base.Dict.assign
    worker_log.Server.get_proc_id_by_name
main-IsConfigured_example =
    main-IsConfigured small_xml sample_files sample_mongo host (flag_c (codes "wl.xml") ∷ [])
      settings with_log 2 refl

load-IsDescribed_example :
    (root : ℕ) × (some 0 ≡ some root)
    × IsDescribed small_xml sample_files host.process host.second_group root fresh settings
    × (no_counts small_xml sample_files host.process host.second_group
        ≡ no_counts small_xml sample_files host.process host.second_group)
unfolding load_config read_flags get_config_dir find equal worker_log.Config.Load.run
    worker_log.Config.Load.on_text worker_log.Config.Load.geocity worker_log.Config.Load.geocountry
    strtol worker_log.BoostHelpers.check_path worker_log.Base.Dict.assign
load-IsDescribed_example =
    load-IsDescribed small_xml sample_files host.process host.second_group (codes "wl.xml") (some 0)
      fresh settings (no_counts small_xml sample_files host.process host.second_group) with_config _
      refl

daemon_signals_example :
    (deliver (bind_all (daemon_bindings 7) (λ s. default)) sighup ≢ reloads)
    × ((deliver (bind_all (daemon_bindings 7) (λ s. default)) sighup ≡ exited exit_success)
        ↔ ((◌≢◌ {A = ℕ} 7 1) × (sighup ≡ sigusr1)))
    × (deliver (bind_all (daemon_bindings 7) (λ s. default)) sigusr1 ≡ exited exit_success)
daemon_signals_example = daemon_signals 7 (λ s. default) sighup (λ s. inl refl)
