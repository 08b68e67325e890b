-- ===== src/CgiService/World.antt =====
-- What `CgiService::ProcessRequest` of src/CgiService.cpp works on, and what it leaves.
use worker_log.Base.{ℕ, Bool, Option, List, Bytes}
use worker_log.External.Json.{JsonLib}
use worker_log.BaseCore.{State, Machine}
use worker_log.CgiService.Events.{Event}
use worker_log.Cookie.Expires.{PosixTime}
use worker_log.Core.{Counters}
use worker_log.Core.Clock.{Clocks}
use worker_log.Core.Document.{Document}
use worker_log.Core.Save.{Client}

-- A request: the parameters that `FCGX_GetParam` gives, the bytes of the body and those behind the
-- buffer that it is read into, whether `req->err` has an error when the handler starts and when it
-- responds, and whether there is an output stream.
pub record Request : Type 0 where
  pub get_param : Bytes → Option Bytes
  pub stdin : Bytes
  pub behind : Bytes
  pub failed : Bool
  pub failed_later : Bool
  pub out : Bool

-- What a request meets: the clocks, in seconds, in microseconds, as a time a year from now and those of
-- a document, the client that `pool.acquire` gives, and what the status page shows.
pub record Moment (T : PosixTime) (J : JsonLib) : Type 0 where
  pub seconds : ℕ
  pub microseconds : ℕ
  pub in_a_year : T.Ptime
  pub clocks : Clocks
  pub acquire : Option (Client J)
  pub machine : Machine

pub record Config : Type 0 where
  pub cookie_name : Bytes
  pub cookie_domain : Bytes
  pub cookie_path : Bytes

-- The state that requests share: the counters, the status page's, the server's name, and `retJson` of
-- the thread's core.
pub record Service (J : JsonLib) : Type 0 where
  pub counters : Counters
  pub bcore : State
  pub server_name : Bytes
  pub ret_json : J.Json

-- The state afterwards, what was done in order, and the documents that were written to the log.
pub record Done (J : JsonLib) : Type 0 where
  pub service : Service J
  pub events : List Event
  pub documents : List (Document J)

-- How the handler ends; an exception of `UrlParser` would leave it.
pub data Ending (J : JsonLib) : Type 0 where
  returned : Done J → Ending J
  escaped : Ending J
