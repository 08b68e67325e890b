-- ===== src/Config/Described/Document.antt =====
-- That the sections of the document have been read by `Config::Load` of src/Config.cpp.
use worker_log.Base.{
  ◌≡◌, refl, sym, ◌∙◌, Bool, true, false, Option, none, some, [], ◌∷◌, Bytes, codes, Option-cases,
  inl, inr,
}
use worker_log.BoostHelpers.{Process, atoi, get_seconds}
use worker_log.Config.{Settings}
use worker_log.Config.Load.{
  goes_on, on_text, put, need_path, mongo_stages, geocity, geocountry, use_time, need_text,
  load_cookie, server_stages,
}
use worker_log.Config.Described.{
  given, as_it_is, Does, DoesAll, goes_on-inj, ◌>>◌, stop, on_text-Does, put-Does, need_path-Does,
  use_socket-Does, use_time-Does, need_text-Does,
}
use worker_log.External.Files.{FileSystem}
use worker_log.External.Xml.{Xml, text_of}

-- A text in the section of the cookie, if there is one.
abbrev pub in_cookie : (X : Xml) → Option X.Element → Bytes → Bytes → Bytes
in_cookie X none name old = old
in_cookie X (some part) name old = given as_it_is (text_of X part name) old

module _ (X : Xml) (F : FileSystem) (process : Process) (second_group : Bytes → Option Bytes) where
  -- What the sections say, where `c` has what was there before.
  abbrev pub mongo_described : X.Element → Settings → Settings
  mongo_described log c = record c {
    mongo_log_db = given as_it_is (text_of X log (codes "db")) c.mongo_log_db;
    mongo_log_url = given as_it_is (text_of X log (codes "url")) c.mongo_log_url;
    mongo_log_collection_impression =
        given as_it_is (text_of X log (codes "collection_impression"))
          c.mongo_log_collection_impression;
    mongo_log_collection_block =
        given as_it_is (text_of X log (codes "collection_block")) c.mongo_log_collection_block;
  }

  abbrev pub cookie_described : Option X.Element → Settings → Settings
  cookie_described cookie c = record c {
    cookie_name = in_cookie X cookie (codes "name") c.cookie_name;
    cookie_domain = in_cookie X cookie (codes "domain") c.cookie_domain;
    cookie_path = in_cookie X cookie (codes "path") c.cookie_path;
  }

  -- The server's entries from the lock file on.
  abbrev pub later_described : X.Element → Settings → Settings
  later_described server c = cookie_described (X.first_child server (codes "cookie")) (record c {
    lock_file = given as_it_is (text_of X server (codes "lock_file")) c.lock_file;
    pid_file = given as_it_is (text_of X server (codes "pid_file")) c.pid_file;
    user = given as_it_is (text_of X server (codes "user")) c.user;
    group = given as_it_is (text_of X server (codes "group")) c.group;
    time_update =
        given (λ text. some (get_seconds second_group text))
          (text_of X server (codes "time_update")) c.time_update;
  })

  abbrev pub server_described : X.Element → Settings → Settings
  server_described server c = later_described server (record c {
    server_ip = given as_it_is (text_of X server (codes "ip")) c.server_ip;
    geocity_path = given as_it_is (text_of X server (codes "geocity_path")) c.geocity_path;
    geocountry_path = given as_it_is (text_of X server (codes "geocountry_path")) c.geocountry_path;
    server_socket_path =
        given as_it_is (text_of X server (codes "socket_path")) c.server_socket_path;
    server_children =
        given (λ text. some (atoi text)) (text_of X server (codes "children")) c.server_children;
  })

  text-Does :
      (parent : X.Element) (name : Bytes) (get : Settings → Bytes)
      (set : Bytes → Settings → Settings)
      → ((c : Settings) → c ≡ set (get c) c)
      → Does X F process second_group
          (on_text X F process second_group parent name (put X F process second_group set))
          (λ c. set (given as_it_is (text_of X parent name) (get c)) c)
  text-Does parent name get set same =
      on_text-Does X F process second_group parent name (put X F process second_group set) as_it_is
        get set same (put-Does X F process second_group set)

  pub mongo-Does :
      (log : X.Element)
      → DoesAll X F process second_group
          (mongo_stages X F process second_group log)
          (mongo_described log)
  mongo-Does log =
      text-Does log (codes "db") (λ c. c.mongo_log_db) (λ text c. record c { mongo_log_db = text })
        (λ c. refl)
      >> text-Does log (codes "url") (λ c. c.mongo_log_url)
          (λ text c. record c { mongo_log_url = text }) (λ c. refl)
      >> text-Does log (codes "collection_impression") (λ c. c.mongo_log_collection_impression)
          (λ text c. record c { mongo_log_collection_impression = text }) (λ c. refl)
      >> text-Does log (codes "collection_block") (λ c. c.mongo_log_collection_block)
          (λ text c. record c { mongo_log_collection_block = text }) (λ c. refl)
      >> stop

  cookie-Does :
      (part : X.Element)
      → DoesAll X F process second_group
          (need_text X F process second_group part
              (codes "name")
              (λ text c. record c { cookie_name = text })
            ∷ need_text X F process second_group part
                (codes "domain")
                (λ text c. record c { cookie_domain = text })
            ∷ need_text X F process second_group part
                (codes "path")
                (λ text c. record c { cookie_path = text })
            ∷ [])
          (cookie_described (some part))
  cookie-Does part =
      need_text-Does X F process second_group part (codes "name") (λ c. c.cookie_name)
        (λ text c. record c { cookie_name = text })
      >> need_text-Does X F process second_group part (codes "domain") (λ c. c.cookie_domain)
          (λ text c. record c { cookie_domain = text })
      >> need_text-Does X F process second_group part (codes "path") (λ c. c.cookie_path)
          (λ text c. record c { cookie_path = text })
      >> stop

  load_cookie-Does :
      (server : X.Element)
      → Does X F process second_group
          (load_cookie X F process second_group server)
          (cookie_described (X.first_child server (codes "cookie")))
  unfolding load_cookie
  load_cookie-Does server = record {
    does = λ c c' s s' e. elim (Option-cases (X.first_child server (codes "cookie"))) [
      | inl n ↦
          let went : goes_on c s ≡ goes_on c' s' = sym (rw (n, load_cookie) refl) ∙ e in
          rw n (sym (goes_on-inj X F process second_group went))
      | inr (part, t) ↦
          rw t ((cookie-Does part).all.does c c' s s' (sym (rw (t, load_cookie) refl) ∙ e))
    ];
  }

  path-Does :
      (server : X.Element) (name : Bytes) (get : Settings → Bytes)
      (set : Bytes → Settings → Settings) (checked : Bytes → Settings → Bytes) (check_write : Bool)
      → ((c : Settings) → c ≡ set (get c) c)
      → Does X F process second_group
          (on_text X F process second_group server name (λ text c s.
            need_path X F process second_group (checked text c) check_write (set text c) s))
          (λ c. set (given as_it_is (text_of X server name) (get c)) c)
  path-Does server name get set checked check_write same =
      on_text-Does X F process second_group server name _ as_it_is get set same
        (need_path-Does X F process second_group set checked check_write)

  later-Does :
      (server : X.Element)
      → DoesAll X F process second_group
          (on_text X F process second_group server (codes "lock_file") (λ text c s.
              need_path X F process second_group text true (record c { lock_file = text }) s)
            ∷ on_text X F process second_group server (codes "pid_file") (λ text c s.
              need_path X F process second_group text true (record c { pid_file = text }) s)
            ∷ on_text X F process second_group server
                (codes "user")
                (put X F process second_group (λ text c. record c { user = text }))
            ∷ on_text X F process second_group server
                (codes "group")
                (put X F process second_group (λ text c. record c { group = text }))
            ∷ on_text X F process second_group server
                (codes "time_update")
                (use_time X F process second_group)
            ∷ load_cookie X F process second_group server
            ∷ [])
          (later_described server)
  later-Does server =
      path-Does server (codes "lock_file") (λ c. c.lock_file)
        (λ text c. record c { lock_file = text }) (λ text c. text) true (λ c. refl)
      >> path-Does server (codes "pid_file") (λ c. c.pid_file)
          (λ text c. record c { pid_file = text }) (λ text c. text) true (λ c. refl)
      >> text-Does server (codes "user") (λ c. c.user) (λ text c. record c { user = text })
          (λ c. refl)
      >> text-Does server (codes "group") (λ c. c.group) (λ text c. record c { group = text })
          (λ c. refl)
      >> on_text-Does X F process second_group server (codes "time_update") _
          (λ text. some (get_seconds second_group text)) (λ c. c.time_update)
          (λ n c. record c { time_update = n }) (λ c. refl) (use_time-Does X F process second_group)
      >> load_cookie-Does server
      >> stop

  pub server-Does :
      (server : X.Element)
      → DoesAll X F process second_group
          (server_stages X F process second_group server)
          (server_described server)
  unfolding geocity geocountry
  server-Does server =
      text-Does server (codes "ip") (λ c. c.server_ip) (λ text c. record c { server_ip = text })
        (λ c. refl)
      >> path-Does server (codes "geocity_path") (λ c. c.geocity_path)
          (λ text c. record c { geocity_path = text }) (λ text c. text) false (λ c. refl)
      >> path-Does server (codes "geocountry_path") (λ c. c.geocountry_path)
          (λ text c. record c { geocountry_path = text }) (λ text c. c.geocity_path) false
          (λ c. refl)
      >> on_text-Does X F process second_group server (codes "socket_path") _ as_it_is
          (λ c. c.server_socket_path) (λ text c. record c { server_socket_path = text }) (λ c. refl)
          (use_socket-Does X F process second_group)
      >> on_text-Does X F process second_group server (codes "children") _
          (λ text. some (atoi text)) (λ c. c.server_children)
          (λ n c. record c { server_children = n }) (λ c. refl)
          (λ text.
            put-Does X F process second_group (λ t c. record c { server_children = some (atoi t) })
              text)
      >> later-Does server
