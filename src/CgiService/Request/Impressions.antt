-- ===== src/CgiService/Request/Impressions.antt =====
-- What `ProcessRequest` of src/CgiService.cpp writes to the log of impressions, and counts of it.
use worker_log.Base.{
  ℕ, ◌<◌, length, ◌≡◌, refl, ap, Option, none, some, List, [], Bytes, codes, equal, empty, ◌⊎◌,
  Option-cases, Bool-cases, inl, inr,
}
use worker_log.Base.Dict.{Dict, vacant}
use worker_log.External.Boost.{Boost}
use worker_log.External.Json.{JsonLib, IsJsonLib}
use worker_log.BaseCore.{status}
use worker_log.Core.{Counters, process}
use worker_log.Core.Document.{Document}
use worker_log.Core.Impressions.{count_request, process_save_results-cases}
use worker_log.Core.Clock.{Clocks}
use worker_log.Core.Save.{Client}
use worker_log.CgiService.Body.{read_body}
use worker_log.CgiService.Events.{Event}
use worker_log.CgiService.Request.{
  save, after_save, answer_result, caught, answer_ajax, answer_page, answer_status, name_server,
  answer, read_query, read_ajax, read_cookie_value, read_params, process_request,
}
use worker_log.CgiService.World.{Request, Moment, Config, Service, Done, Ending, returned}
use worker_log.CgiService.Request.Finishes.{of_returned, read_body-small}
use worker_log.Cookie.Expires.{PosixTime}
use worker_log.Params.{Params}
use worker_log.UrlParser.Query.{npos, param}
use worker_log.UrlParser.Query.Pairs.{enter, pairs}
use worker_log.UrlParser.Query.Refines.{parse-pairs}

-- The documents, and the counters of offers, of social and of retargeting ones.
abbrev pub Impressions : JsonLib → Type 0
Impressions J = List (Document J) × ℕ × ℕ × ℕ

abbrev pub impressions : {J : JsonLib} → Done J → Impressions J
impressions d = (
  d.documents, d.service.counters.offer_processed, d.service.counters.social_processed,
  d.service.counters.retargeting_processed,
)

-- Nothing, and the counters as they were.
abbrev pub no_impressions : {J : JsonLib} → Service J → Impressions J
no_impressions s =
    ([], s.counters.offer_processed, s.counters.social_processed, s.counters.retargeting_processed)

-- The same with the requests that were counted.
abbrev Tally : JsonLib → Type 0
Tally J = Impressions J × ℕ

abbrev pub tally : {J : JsonLib} → Done J → Tally J
tally d = (impressions d, d.service.counters.request_processed)

abbrev of_counters : (J : JsonLib) → Counters → Tally J
of_counters J c =
    (([], c.offer_processed, c.social_processed, c.retargeting_processed), c.request_processed)

-- A handler that started from these counters wrote nothing, and counted nothing or one request.
abbrev pub IsTallied : {J : JsonLib} → Counters → Done J → Type 0
IsTallied {J} c d = (tally d ≡ of_counters J c) ⊎ (tally d ≡ of_counters J (count_request c))

module _ (T : PosixTime) (J : JsonLib) (B : Boost) (cfg : Config) (L : IsJsonLib J) where
  save-IsTallied :
      (client : Option (Client J)) (clocks : Clocks) (prm : Params J) (logged : List Event)
      (s : Service J)
      → IsTallied s.counters (save T J B cfg client clocks prm logged s)
  unfolding save after_save
  save-IsTallied none clocks prm logged s = inl refl
  save-IsTallied (some client) clocks prm logged s =
      elim (process_save_results-cases J L client clocks prm s.counters) [
        | inl e ↦ inr (ap (λ r. tally (after_save T J B cfg r logged s)) e)
        | inr e ↦ inr (ap (λ r. tally (after_save T J B cfg r logged s)) e)
      ]

  answer_result-IsTallied :
      (now : Moment T J) (req : Request) (prm : Params J) (s : Service J)
      (r : J.Json × Option Bytes)
      → IsTallied s.counters (answer_result T J B cfg now req prm s r)
  unfolding answer_result caught
  answer_result-IsTallied now req prm s (ret, none) = inl refl
  answer_result-IsTallied now req prm s (ret, some result) =
      save-IsTallied now.acquire now.clocks prm _ (record s { ret_json = ret })

  answer_ajax-IsTallied :
      (now : Moment T J) (req : Request) (query postq cookie_value : Bytes) (s : Service J)
      → IsTallied s.counters (answer_ajax T J B cfg now req query postq cookie_value s)
  unfolding answer_ajax caught
  answer_ajax-IsTallied now req query postq cookie_value s =
      elim (Option-cases (read_params T J B cfg now.seconds query postq cookie_value)) [
        | inl n ↦ inl (rw (n, answer_ajax) refl)
        | inr (prm, e) ↦
            rw (e, answer_ajax) (answer_result-IsTallied now req prm s (process J s.ret_json))
      ]

  name_server-counters : (req : Request) (s : Service J) → (name_server req s).counters ≡ s.counters
  unfolding name_server
  name_server-counters req s = elim (Bool-cases (empty s.server_name)) [
    | inr named ↦ rw (named, name_server) refl
    | inl unnamed ↦ elim (Option-cases (req.get_param (codes "SERVER_NAME"))) [
      | inl n ↦ rw (unnamed, name_server, n) refl
      | inr (text, e) ↦ rw (unnamed, name_server, e) refl
    ]
  ]

  answer_page-IsTallied :
      (now : Moment T J) (req : Request) (url : Dict Bytes) (s : Service J)
      → IsTallied s.counters (answer_page T J B cfg now req url s)
  unfolding answer_page answer_status status
  answer_page-IsTallied now req url s =
      elim (Bool-cases (equal (param url (codes "show")) (codes "status"))) [
        | inr other ↦ rw other (inl refl)
        | inl shown ↦ rw shown (inl (ap (of_counters J) (name_server-counters req s)))
      ]

  -- How the handler ends: it returns, and has tallied.
  abbrev EndsTallied : Counters → Ending J → Type 0
  EndsTallied c e = (d : Done J) × (e ≡ returned d) × IsTallied c d

  answer-EndsTallied :
      (now : Moment T J) (req : Request) (before : List Event) (query postq : Bytes) (s : Service J)
      → length query < npos
      → length postq < npos
      → EndsTallied s.counters (answer T J B cfg now req before query postq s)
  unfolding answer
  answer-EndsTallied now req before query postq s hq hp =
      rw (parse-pairs query hq, answer, parse-pairs postq hp)
        (elim (Bool-cases (read_ajax req).1) [
          | inl is_ajax ↦
              rw is_ajax
                (_, refl, answer_ajax-IsTallied now req query postq (read_cookie_value B cfg req) s)
          | inr is_page ↦
              rw is_page (_, refl, answer_page-IsTallied now req (enter (pairs query) vacant) s)
        ])

  -- A request with a query of a possible size.
  pub process_request-EndsTallied :
      (now : Moment T J) (req : Request) (s : Service J)
      → length (read_query req).1 < npos
      → EndsTallied s.counters (process_request T J B cfg now req s)
  unfolding process_request
  process_request-EndsTallied now req s hq = elim (Bool-cases req.failed) [
    | inl failed ↦ rw (failed, process_request) (_, refl, inl refl)
    | inr sound ↦ elim (Option-cases (req.get_param (codes "REMOTE_ADDR"))) [
      | inl n ↦ rw (sound, process_request, n) (_, refl, inl refl)
      | inr (ip, e) ↦ elim (Option-cases (req.get_param (codes "SCRIPT_NAME"))) [
        | inl n ↦ rw (sound, process_request, e, n) (_, refl, inl refl)
        | inr (script_name, e') ↦
            let size = req.get_param (codes "CONTENT_LENGTH") in
            rw (sound, process_request, e, e')
              (answer-EndsTallied now req _ (read_query req).1
                (read_body size req.stdin req.behind).1 s hq
                (read_body-small size req.stdin req.behind))
      ]
    ]
  ]

  -- The service never logs an impression: whatever the state, the database and the request, with a
  -- query of a possible size, the handler returns with no document written and with the counters of
  -- offers, of social and of retargeting ones as they were.
  pub process_request_logs_nothing :
      (now : Moment T J) (req : Request) (s : Service J)
      → length (read_query req).1 < npos
      → of_returned impressions (process_request T J B cfg now req s) ≡ some (no_impressions s)
  process_request_logs_nothing now req s hq =
      let (d, e, counted) = process_request-EndsTallied now req s hq in
      rw e (elim counted [
        | inl same ↦ ap (λ (x : Tally J). some x.0) same
        | inr one ↦ ap (λ (x : Tally J). some x.0) one
      ])
