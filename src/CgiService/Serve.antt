-- ===== src/CgiService/Serve.antt =====
-- `CgiService::Serve` of src/CgiService.cpp: the loop of a thread over the requests that it accepts.
pub mod Totals
use worker_log.Base.{
  ℕ, ◌+◌, ◌%◌, ◌^◌, ◌<◌, length, ◌≡◌, ◌≢◌, refl, ap, ◌∙◌, Bool, false, true, Option, none, some,
  List, [], ◌∷◌, ◌++◌, All, ◌==◌, if◌then◌else◌, some-inj, arith,
}
use worker_log.External.Boost.{Boost}
use worker_log.External.Json.{JsonLib}
use worker_log.CgiService.Events.{Event, finish}
use worker_log.CgiService.Request.{process_request, read_query}
use worker_log.CgiService.World.{Request, Moment, Config, Service, Done, Ending, returned, escaped}
use worker_log.CgiService.Request.Answers.{process_request-finishes}
use worker_log.CgiService.Request.Finishes.{
  finishes, of_returned, one_if, accepted, finishes-append,
}
use worker_log.Cookie.Expires.{PosixTime}
use worker_log.UrlParser.Query.{npos}

-- What `FCGX_Accept_r` gives: a request, with what it meets, or an error.
pub data Accepted (T : PosixTime) (J : JsonLib) : Type 0 where
  accept : Moment T J → Request → Accepted T J
  refuse : Accepted T J

-- The state of the thread, with `count_req`, an `int`, and what was done so far; the loop goes on, an
-- error has ended it, or an exception has ended the program.
pub record Thread (J : JsonLib) : Type 0 where
  pub count_req : ℕ
  pub service : Service J
  pub events : List Event

pub data Served (J : JsonLib) : Type 0 where
  waiting broken : Thread J → Served J
  crashed : Served J

-- What `FCGX_Accept_r` does with the request that was accepted before it: it is finished, unless the
-- handler has done so.
abbrev pub closes : List Event → List Event
closes events = if finishes events == 0 then finish ∷ [] else []

module _ (T : PosixTime) (J : JsonLib) (B : Boost) (cfg : Config) where
  -- The core is made anew, once, when the count has this value.
  unfoldable pub renew : ℕ → Service J → Service J
  renew count s = if count == 10000000 then record s { ret_json = J.default } else s

  -- What follows `ProcessRequest` in the body of the loop, and the next `FCGX_Accept_r`, which finishes the
  -- request first.
  unfoldable pub after_request : Thread J → Done J → Thread J
  unfolding renew
  after_request t done = record {
    count_req = (t.count_req + 1) % 2 ^ 32;
    service = renew t.count_req done.service;
    events = t.events ++ done.events ++ closes done.events;
  }

  -- The loop, as long as requests come.
  unfoldable pub serve : List (Accepted T J) → Thread J → Served J
  unfolding after_request
  serve [] t = waiting t
  serve (refuse ∷ queue) t = broken t
  serve (accept now req ∷ queue) t = elim (process_request T J B cfg now req t.service) [
    | escaped ↦ crashed
    | returned done ↦ serve queue (after_request t done)
  ]

-- The requests that are accepted before the first error.
abbrev pub accepts : {T : PosixTime} {J : JsonLib} → List (Accepted T J) → ℕ
accepts [] = 0
accepts (refuse ∷ queue) = 0
accepts (accept now req ∷ queue) = 1 + accepts queue

-- A request has an output stream and a query of a possible size.
abbrev pub IsWhole : {T : PosixTime} {J : JsonLib} → Accepted T J → Type 0
IsWhole refuse = Unit
IsWhole (accept now req) = (req.out ≡ true) × (length (read_query req).1 < npos)

abbrev pub of_served : {J : JsonLib} {A : Type 0} → (Thread J → A) → Served J → Option A
of_served f (waiting t) = some (f t)
of_served f (broken t) = some (f t)
of_served f crashed = none

module _ (T : PosixTime) (J : JsonLib) (B : Boost) (cfg : Config) where
  returned-cases :
      {A : Type 0} (f : Done J → A) (e : Ending J) {a : A}
      → of_returned f e ≡ some a
      → (d : Done J) × (e ≡ returned d) × (f d ≡ a)
  returned-cases f (returned d) h = (d, refl, some-inj h)
  returned-cases f escaped h = cc

  -- A request that the handler has finished once or not at all is finished once.
  closed : (es : List Event) (b : Bool) → finishes es ≡ one_if b → finishes (es ++ closes es) ≡ 1
  closed es true n =
      let again : closes es ≡ [] =
        let other : (finishes es == 0) ≡ false = rw n refl in rw other refl in
      omega (arith, n, finishes-append es (closes es), ap finishes again)
  closed es false n =
      let late : closes es ≡ finish ∷ [] =
        let zero_ : (finishes es == 0) ≡ true = rw n refl in rw zero_ refl in
      omega (arith, n, finishes-append es (closes es), ap finishes late)

  -- Where every request has an output stream and a query of a possible size, JSON is never written as
  -- nothing, and each call of `Log` returns: no exception ends the program, and when the thread waits for
  -- the next request, or the call that waits has failed, a request has been finished just as many times
  -- as one was accepted, by its answer or else by the call.
  pub serve-finishes :
      (queue : List (Accepted T J)) (t : Thread J)
      → All IsWhole queue
      → ((j : J.Json) → J.dump j ≢ some [])
      → of_served (λ u. finishes u.events) (serve T J B cfg queue t)
        ≡ some (finishes t.events + accepts queue)
  unfolding serve after_request
  serve-finishes [] t h hd = ap some (omega arith)
  serve-finishes (refuse ∷ queue) t h hd = ap some (omega arith)
  serve-finishes (accept now req ∷ queue) t h hd =
      let (d, e, n) =
        returned-cases (λ d. finishes d.events) (process_request T J B cfg now req t.service)
          (process_request-finishes T J B cfg now req t.service h.0.0 hd h.0.1) in
      let rest = serve-finishes queue (after_request T J B cfg t d) h.1 hd in
      rw (e, serve)
        (rest
          ∙ ap some (
              omega (
                arith,
                closed d.events (accepted req) n,
                finishes-append (t.events ++ d.events) (closes d.events),
                finishes-append t.events d.events,
                finishes-append d.events (closes d.events),
              )))
