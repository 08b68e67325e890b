-- ===== src/Tests/Connections.antt =====
-- src/DB.cpp at concrete registrations, and the theorems there.
use worker_log.Base.{◌≡◌, false, some, [], codes, equal}
use worker_log.Base.Dict.{vacant, find}
use worker_log.Db.{ConnectionOptions, Registry, add_options, look, connect}
use worker_log.Db.Hosts.{host_options}
use worker_log.Db.Names.{IsRegistry, add_options-IsRegistry, look-add_options}

abbrev nobody : Registry
nobody = record { store = []; names = vacant }

nobody-IsRegistry : IsRegistry nobody
unfolding find
nobody-IsRegistry = record { bounded = λ name at e. cc; apart = λ name other at e f. cc }

abbrev local : ConnectionOptions
local = host_options [] (codes "ads") false (codes "localhost")

add_options-IsRegistry_example : IsRegistry (add_options nobody (codes "ads") local)
add_options-IsRegistry_example = add_options-IsRegistry nobody nobody-IsRegistry (codes "ads") local

look-add_options_example :
    let s = add_options nobody (codes "ads") local in look s (connect s (codes "ads")) ≡ some local
unfolding equal
look-add_options_example =
    look-add_options nobody nobody-IsRegistry (codes "ads") local (codes "ads")
