-- ===== src/Db/Hosts.antt =====
-- Which of the hosts of a configuration `ConnectLogDatabase` of src/DB.cpp registers.
use worker_log.Base.{
  ◌≡◌, refl, ap, subst, sym, ◌∙◌, Bool, some, List, [], ◌∷◌, ◌++◌, Bytes, codes, equal_refl,
}
use worker_log.Db.{
  ConnectionOptions, Registry, add_options, look, connect, connect_host, connect_log_database,
}
use worker_log.Db.Names.{IsRegistry, look-add_options, add_options-IsRegistry}

module _ (log_set log_db : Bytes) (slave_ok : Bool) where
  abbrev pub host_options : Bytes → ConnectionOptions
  host_options host = record {
    database = log_db;
    server_host = host;
    replica_set = log_set;
    slave_ok = slave_ok;
  }

-- Both forms of a host register the same options.
connect_host_lem :
    (log_set log_db : Bytes) (slave_ok : Bool) (host : Bytes) (r : Registry)
    → connect_host log_set log_db slave_ok host r
      ≡ add_options r (codes "log") (host_options log_set log_db slave_ok host)
connect_host_lem [] log_db slave_ok host r = refl
connect_host_lem (c ∷ log_set) log_db slave_ok host r = refl

connect_host-IsRegistry :
    (log_set log_db : Bytes) (slave_ok : Bool) (host : Bytes) (r : Registry)
    → IsRegistry r
    → IsRegistry (connect_host log_set log_db slave_ok host r)
connect_host-IsRegistry log_set log_db slave_ok host r V =
    subst IsRegistry (sym (connect_host_lem log_set log_db slave_ok host r))
      (add_options-IsRegistry r V (codes "log") (host_options log_set log_db slave_ok host))

-- Of all the hosts that are configured only the last one is registered: each of them takes the place of
-- the one before it.
connect_log_database_last :
    (log_set log_db : Bytes) (slave_ok : Bool) (hosts : List Bytes) (last : Bytes) (r : Registry)
    → IsRegistry r
    → let s = connect_log_database log_set log_db slave_ok (hosts ++ last ∷ []) r in
      look s (connect s (codes "log")) ≡ some (host_options log_set log_db slave_ok last)
unfolding connect_log_database
connect_log_database_last log_set log_db slave_ok [] last r V =
    ap (λ s. look s (connect s (codes "log"))) (connect_host_lem log_set log_db slave_ok last r)
    ∙ look-add_options r V (codes "log") (host_options log_set log_db slave_ok last) (codes "log")
    ∙ rw (equal_refl (codes "log")) refl
connect_log_database_last log_set log_db slave_ok (host ∷ hosts) last r V =
    connect_log_database_last log_set log_db slave_ok hosts last
      (connect_host log_set log_db slave_ok host r)
      (connect_host-IsRegistry log_set log_db slave_ok host r V)
