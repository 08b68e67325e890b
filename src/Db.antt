-- ===== src/Db.antt =====
-- src/DB.cpp and include/DB.h: the registry of database connections. The options are objects that the
-- registry and the open databases point to: the store is a list, and a pointer a place in it.
pub mod Names
pub mod Hosts
use worker_log.Base.{
  ℕ, zero, suc, Bool, Option, none, some, List, [], ◌∷◌, ◌++◌, Bytes, codes, empty, length,
  get_elem?, if◌then◌else◌,
}
use worker_log.Base.Dict.{Dict, find, assign}

pub record ConnectionOptions : Type 0 where
  pub database : Bytes
  pub server_host : Bytes
  pub replica_set : Bytes
  pub slave_ok : Bool

-- The store, and `connection_options_map_`.
pub record Registry : Type 0 where
  pub store : List ConnectionOptions
  pub names : Dict ℕ

-- The assignments through a pointer.
abbrev pub write : List ConnectionOptions → ℕ → ConnectionOptions → List ConnectionOptions
write [] at options = []
write (old ∷ store) zero options = options ∷ store
write (old ∷ store) (suc at) options = old ∷ write store at options

-- `DB::options_by_name`: a pointer, or null.
abbrev pub options_by_name : Registry → Bytes → Option ℕ
options_by_name r name = find r.names name

-- `DB::_addDatabase`.
unfoldable pub add_options : Registry → Bytes → ConnectionOptions → Registry
add_options r name options = elim (options_by_name r name) [
  | none ↦ record { store = r.store ++ options ∷ []; names = assign r.names name (length r.store) }
  | some at ↦ record { store = write r.store at options; names = assign r.names name at }
]

-- The forms of `DB::addDatabase`: a host, or a set of replicas; without a name it is the empty one.
abbrev pub add_database : Registry → Bytes → Bytes → Bytes → Bool → Registry
add_database r name server_host database slave_ok = add_options r name (record {
  database = database;
  server_host = server_host;
  replica_set = [];
  slave_ok = slave_ok;
})

pub record ReplicaSetConnection : Type 0 where
  pub replica_set : Bytes
  pub connection_string : Bytes

abbrev pub add_replicas : Registry → Bytes → ReplicaSetConnection → Bytes → Bool → Registry
add_replicas r name c database slave_ok = add_options r name (record {
  database = database;
  server_host = c.connection_string;
  replica_set = c.replica_set;
  slave_ok = slave_ok;
})

-- The default connection, which has the empty name.
abbrev pub add_default_database : Registry → Bytes → Bytes → Bool → Registry
add_default_database r server_host database slave_ok = add_options r [] (record {
  database = database;
  server_host = server_host;
  replica_set = [];
  slave_ok = slave_ok;
})

abbrev pub add_default_replicas : Registry → ReplicaSetConnection → Bytes → Bool → Registry
add_default_replicas r c database slave_ok = add_options r [] (record {
  database = database;
  server_host = c.connection_string;
  replica_set = c.replica_set;
  slave_ok = slave_ok;
})

-- What a pointer shows.
abbrev pub look : Registry → Option ℕ → Option ConnectionOptions
look r none = none
look r (some at) = get_elem? r.store at

-- `DB::DB`: the pointer that the object keeps, or an exception.
abbrev pub connect : Registry → Bytes → Option ℕ
connect = options_by_name

-- One host of `DB::ConnectLogDatabase`, for the set, the database and the flag of the configuration.
abbrev pub connect_host : Bytes → Bytes → Bool → Bytes → Registry → Registry
connect_host log_set log_db slave_ok host r =
    if empty log_set
    then add_database r (codes "log") host log_db slave_ok
    else add_replicas r (codes "log") (record { replica_set = log_set; connection_string = host })
        log_db slave_ok

unfoldable pub connect_log_database : Bytes → Bytes → Bool → List Bytes → Registry → Registry
connect_log_database log_set log_db slave_ok [] r = r
connect_log_database log_set log_db slave_ok (host ∷ hosts) r =
    connect_log_database log_set log_db slave_ok hosts (connect_host log_set log_db slave_ok host r)
