-- ===== src/Config.antt =====
-- src/Config.cpp and include/Config.h: the configuration. `Load` reads it.
pub mod Load
pub mod Flags
pub mod GeoPaths
pub mod Described
pub mod Conversions
use worker_log.Base.{
  ℕ, Bool, false, ◌||◌, Option, none, some, [], ◌∷◌, Bytes, ltb, ◌==◌, not, if◌then◌else◌,
}

-- The switches of the log.
pub data LogFlag : Type 0 where
  core_time out_put_size ip country region cookie context search informer_id location monitor :
      LogFlag

-- A number for each, to tell them apart.
unfoldable pub index : LogFlag → ℕ
index core_time = 0
index out_put_size = 1
index ip = 2
index country = 3
index region = 4
index cookie = 5
index context = 6
index search = 7
index informer_id = 8
index location = 9
index monitor = 10

-- The constructor sets none of the numbers and switches: `none` is a value that nobody wrote.
pub record Settings : Type 0 where
  pub mongo_log_db : Bytes
  pub mongo_log_url : Bytes
  pub mongo_log_collection_impression : Bytes
  pub mongo_log_collection_block : Bytes
  pub server_ip : Bytes
  pub geocity_path : Bytes
  pub geocountry_path : Bytes
  pub server_socket_path : Bytes
  pub server_children : Option ℕ
  pub cookie_name : Bytes
  pub cookie_domain : Bytes
  pub cookie_path : Bytes
  pub instance_id : Option ℕ
  pub lock_file : Bytes
  pub pid_file : Bytes
  pub user : Bytes
  pub group : Bytes
  pub time_update : Option ℕ
  pub log : LogFlag → Option Bool

-- `Config::Config`.
abbrev pub fresh : Settings
fresh = record {
  mongo_log_db = [];
  mongo_log_url = [];
  mongo_log_collection_impression = [];
  mongo_log_collection_block = [];
  server_ip = [];
  geocity_path = [];
  geocountry_path = [];
  server_socket_path = [];
  server_children = none;
  cookie_name = [];
  cookie_domain = [];
  cookie_path = [];
  instance_id = none;
  lock_file = [];
  pid_file = [];
  user = [];
  group = [];
  time_update = none;
  log = λ flag. none;
}

-- One of the switches set.
unfoldable pub set_flag : LogFlag → Bool → (LogFlag → Option Bool) → LogFlag → Option Bool
unfolding index
set_flag flag value log asked = if index asked == index flag then some value else log asked

-- `strncmp (text, "1", 1) >= 0`.
unfoldable pub is_on : Bytes → Bool
is_on [] = false
is_on (c ∷ text) = not (ltb c b'1')
