-- ===== src/Config/Load.antt =====
-- `Config::Load` of src/Config.cpp, against an XML library and a file system.
use worker_log.Base.{
  ◌-◌, ◌^◌, Bool, true, false, Option, none, some, List, [], ◌∷◌, Bytes, codes, empty, ◌==◌,
  if◌then◌else◌,
}
use worker_log.BoostHelpers.{Process, atoi, check_path, get_config_dir, get_seconds}
use worker_log.Config.{
  LogFlag, core_time, out_put_size, ip, country, region, cookie, context, search, informer_id,
  location, monitor, Settings, set_flag, is_on,
}
use worker_log.Core.{Counters}
use worker_log.External.Files.{FileSystem}
use worker_log.External.Xml.{Xml, text_of}

-- How the reading stands: it goes on with the settings and the files, or the program exits.
pub data Step (F : FileSystem) : Type 0 where
  goes_on : Settings → F.Files → Step F
  exits : Step F

-- How it ends: with the settings, the counters and the files, with false, with an exit, or with `atoi`
-- of a null pointer.
pub data Loaded (F : FileSystem) : Type 0 where
  loaded : Settings → Counters → F.Files → Loaded F
  not_found exited crashed : Loaded F

module _ (X : Xml) (F : FileSystem) (process : Process) (second_group : Bytes → Option Bytes) where
  abbrev pub Stage : Type 0
  Stage = Settings → F.Files → Step F

  -- Stages one after the other.
  unfoldable pub run : List Stage → Stage
  run [] c s = goes_on c s
  run (stage ∷ stages) c s = elim (stage c s) [ exits ↦ exits | goes_on c' s' ↦ run stages c' s' ]

  -- What is done with the text of a child, if there is one.
  unfoldable pub on_text : X.Element → Bytes → (Bytes → Stage) → Stage
  on_text parent name use_text c s = elim (text_of X parent name) [
    | none ↦ goes_on c s
    | some text ↦ use_text text c s
  ]

  abbrev pub put : (Bytes → Settings → Settings) → Bytes → Stage
  put field text c s = goes_on (field text c) s

  -- `if (!checkPath (…)) exit (1)`.
  abbrev pub need_path : Bytes → Bool → Stage
  need_path path check_write c s =
      let (ok, s') = check_path F process path check_write true s in
      if ok then goes_on c s' else exits

  abbrev pub mongo_stages : X.Element → List Stage
  mongo_stages log =
      on_text log (codes "db") (put (λ text c. record c { mongo_log_db = text }))
      ∷ on_text log (codes "url") (put (λ text c. record c { mongo_log_url = text }))
      ∷ on_text log (codes "collection_impression")
          (put (λ text c. record c { mongo_log_collection_impression = text }))
      ∷ on_text log (codes "collection_block")
          (put (λ text c. record c { mongo_log_collection_block = text }))
      ∷ []

  unfoldable pub load_mongo : X.Element → Stage
  load_mongo root c s = elim (X.first_child root (codes "mongo")) [
    | none ↦ exits
    | some mongo ↦ elim (X.first_child mongo (codes "log")) [
      | none ↦ exits
      | some log ↦ run (mongo_stages log) c s
    ]
  ]

  -- The two paths of GeoIP: the second is stored, and the first is checked again.
  unfoldable pub geocity : X.Element → Stage
  geocity server =
      on_text server (codes "geocity_path")
        (λ text c s. need_path text false (record c { geocity_path = text }) s)

  unfoldable pub geocountry : X.Element → Stage
  geocountry server =
      on_text server (codes "geocountry_path")
        (λ text c s. need_path c.geocity_path false (record c { geocountry_path = text }) s)

  -- The socket: what is there is deleted if the path can be used.
  abbrev pub use_socket : Bytes → Stage
  use_socket text c s =
      let (ok, s') = check_path F process text true true s in
      goes_on (record c { server_socket_path = text }) (if ok then F.unlink s' text else s')

  abbrev pub use_time : Bytes → Stage
  use_time text c s =
      let seconds = get_seconds second_group text in
      if seconds == 2 ^ 32 - 1 then exits else goes_on (record c { time_update = some seconds }) s

  -- A text that has to be there.
  abbrev pub need_text : X.Element → Bytes → (Bytes → Settings → Settings) → Stage
  need_text parent name field c s = elim (text_of X parent name) [
    | none ↦ exits
    | some text ↦ goes_on (field text c) s
  ]

  unfoldable pub load_cookie : X.Element → Stage
  load_cookie server c s = elim (X.first_child server (codes "cookie")) [
    | none ↦ goes_on c s
    | some part ↦
        run
          (need_text part (codes "name") (λ text c. record c { cookie_name = text })
            ∷ need_text part (codes "domain") (λ text c. record c { cookie_domain = text })
            ∷ need_text part (codes "path") (λ text c. record c { cookie_path = text })
            ∷ [])
          c s
  ]

  abbrev pub server_stages : X.Element → List Stage
  server_stages server =
      on_text server (codes "ip") (put (λ text c. record c { server_ip = text }))
      ∷ geocity server
      ∷ geocountry server
      ∷ on_text server (codes "socket_path") use_socket
      ∷ on_text server (codes "children")
          (put (λ text c. record c { server_children = some (atoi text) }))
      ∷ on_text server (codes "lock_file")
          (λ text c s. need_path text true (record c { lock_file = text }) s)
      ∷ on_text server (codes "pid_file")
          (λ text c s. need_path text true (record c { pid_file = text }) s)
      ∷ on_text server (codes "user") (put (λ text c. record c { user = text }))
      ∷ on_text server (codes "group") (put (λ text c. record c { group = text }))
      ∷ on_text server (codes "time_update") use_time
      ∷ load_cookie server
      ∷ []

  unfoldable pub load_server : X.Element → Stage
  unfolding load_cookie
  load_server root c s = elim (X.first_child root (codes "server")) [
    | none ↦ exits
    | some server ↦ run (server_stages server) c s
  ]

  -- The switches as they are read: the last of them sets the one before it again.
  abbrev pub switches : List (Bytes × LogFlag)
  switches =
      (codes "coretime", core_time)
      ∷ (codes "outsize", out_put_size)
      ∷ (codes "ip", ip)
      ∷ (codes "country", country)
      ∷ (codes "region", region)
      ∷ (codes "cookie", cookie)
      ∷ (codes "context", context)
      ∷ (codes "search", search)
      ∷ (codes "informerId", informer_id)
      ∷ (codes "location", location)
      ∷ (codes "monitor", monitor)
      ∷ (codes "commands", monitor)
      ∷ []

  unfoldable pub read_switches :
      X.Element → List (Bytes × LogFlag) → (LogFlag → Option Bool) → LogFlag → Option Bool
  unfolding set_flag
  read_switches log [] flags = flags
  read_switches log ((name, flag) ∷ rest) flags =
      read_switches log rest
        (elim (text_of X log name) [ none ↦ flags | some text ↦ set_flag flag (is_on text) flags ])

  -- The last part, which cannot fail.
  unfoldable pub load_log : X.Element → Settings → Settings
  unfolding read_switches
  load_log root c = elim (X.first_child root (codes "log")) [
    | none ↦ record c { log = λ flag. some false }
    | some log ↦ record c { log = read_switches log switches c.log }
  ]

  abbrev pub no_counts : Counters
  no_counts = record {
    request_processed = 0;
    last_time_request_processed = 0;
    offer_processed = 0;
    social_processed = 0;
    retargeting_processed = 0;
  }

  -- `Config::Load`, given the child `root` of the document, if the file can be loaded and has one.
  unfoldable pub load : Bytes → Option X.Element → Settings → F.Files → Loaded F
  unfolding load_mongo load_server load_log
  load name document c s = if empty (get_config_dir F name s) then not_found else elim document [
    | none ↦ exited
    | some root ↦ elim (X.attribute root (codes "id")) [
      | none ↦ crashed
      | some id ↦
          elim (run (load_mongo root ∷ load_server root ∷ [])
            (record c { instance_id = some (atoi id) }) s) [
              | exits ↦ exited
              | goes_on c' s' ↦ loaded (load_log root c') no_counts s'
            ]
    ]
  ]
