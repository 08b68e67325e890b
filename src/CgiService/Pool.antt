-- ===== src/CgiService/Pool.antt =====
-- The threads of src/CgiService.cpp on one service: each has its core and its count of requests, and
-- they share the counters of src/Config.cpp, the status page's state and the server's name. A request
-- is a step here, from `FCGX_Accept_r` to the end of the loop's body.
pub mod Alone
use worker_log.Base.{ℕ, ◌+◌, ◌<◌, ◌≡◌, Bool, List, [], ◌∷◌, ◌==◌, if◌then◌else◌, Bytes}
use worker_log.External.Boost.{Boost}
use worker_log.External.Json.{JsonLib}
use worker_log.BaseCore.{State}
use worker_log.CgiService.Events.{Event}
use worker_log.CgiService.Request.{process_request}
use worker_log.CgiService.Request.SameAnswer.{view}
use worker_log.CgiService.Serve.{Thread, after_request}
use worker_log.CgiService.World.{Request, Moment, Config, Service, Done, returned}
use worker_log.Cookie.Expires.{PosixTime}
use worker_log.Core.{Counters}
use worker_log.Core.Document.{Document}

-- What a thread keeps for itself: `count_req` and `retJson` of `core`.
pub record Own (J : JsonLib) : Type 0 where
  pub count_req : ℕ
  pub ret_json : J.Json

pub record Pool (J : JsonLib) : Type 0 where
  pub counters : Counters
  pub bcore : State
  pub server_name : Bytes
  pub own : ℕ → Own J

-- A request that was handled: by which thread, when, and what was done for it.
pub record Reply (T : PosixTime) (J : JsonLib) : Type 0 where
  pub thread : ℕ
  pub moment : Moment T J
  pub request : Request
  pub seen : List Event × List (Document J)

-- The service as the thread `i` sees it.
abbrev pub seen_by : {J : JsonLib} → Pool J → ℕ → Service J
seen_by p i = record {
  counters = p.counters;
  bcore = p.bcore;
  server_name = p.server_name;
  ret_json = (p.own i).ret_json;
}

abbrev pub set_own : {J : JsonLib} → (ℕ → Own J) → ℕ → Own J → ℕ → Own J
set_own own i o j = if j == i then o else own j

abbrev thread_of : {J : JsonLib} → Pool J → ℕ → Thread J
thread_of p i = record { count_req = (p.own i).count_req; service = seen_by p i; events = [] }

module _ (T : PosixTime) (J : JsonLib) (B : Boost) (cfg : Config) where
  -- The pool when the thread `i` has done its request and counted it.
  pub advance : Pool J → ℕ → Done J → Pool J
  unfolding after_request
  advance p i done =
      let t = after_request T J B cfg (thread_of p i) done in
      record {
        counters = t.service.counters;
        bcore = t.service.bcore;
        server_name = t.service.server_name;
        own = set_own p.own i (record { count_req = t.count_req; ret_json = t.service.ret_json });
      }

-- The requests that `n` threads have handled one after the other, from a pool to a pool.
pub data Handles (T : PosixTime) (J : JsonLib) (B : Boost) (cfg : Config) (n : ℕ)
    : Pool J → List (Reply T J) → Pool J → Type 0 where
  rests : {p : Pool J} → Handles T J B cfg n p [] p
  handles :
      {p q : Pool J} {log : List (Reply T J)} (i : ℕ) (now : Moment T J) (req : Request)
      (done : Done J)
      → i < n
      → process_request T J B cfg now req (seen_by p i) ≡ returned done
      → Handles T J B cfg n (advance T J B cfg p i done) log q
      → Handles T J B cfg n p
          (record { thread = i; moment = now; request = req; seen = view done } ∷ log)
          q
