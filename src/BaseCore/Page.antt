-- ===== src/BaseCore/Page.antt =====
-- What the status page of src/BaseCore.cpp says of the server's name.
use worker_log.Base.{ℕ, ◌≡◌, refl, ◌∷◌, Bytes}
use worker_log.Core.{Counters}
use worker_log.BaseCore.{State, Machine, page, status}

-- A server that has a name is shown as unknown: the page is the same whatever that name is.
pub status_name :
    (m : Machine) (s : State) (c : Counters) (now first first' : ℕ) (name name' : Bytes)
    → status m s c now (first ∷ name) ≡ status m s c now (first' ∷ name')
unfolding status page
status_name m s c now first first' name name' = refl
