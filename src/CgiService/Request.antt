-- ===== src/CgiService/Request.antt =====
-- `CgiService::ProcessRequest` of src/CgiService.cpp, without what only a DEBUG build does.
pub mod Sent
pub mod Finishes
pub mod Answers
pub mod Replies
pub mod Impressions
pub mod Visitor
pub mod Cores
pub mod SameAnswer
use worker_log.Base.{
  ℕ, ◌+◌, Bool, true, false, ◌&&◌, ◌||◌, not, Option, none, some, List, [], ◌∷◌, ◌++◌, map, Bytes,
  codes, equal, empty, ltb, if◌then◌else◌,
}
use worker_log.Base.Dict.{Dict}
use worker_log.External.Boost.{Boost}
use worker_log.External.Json.{JsonLib}
use worker_log.BaseCore.{State, Machine, status}
use worker_log.CgiService.Body.{read_body}
use worker_log.CgiService.CookieHeader.{read_cookie}
use worker_log.CgiService.Events.{
  Event, warn, err, err_null, err_caught, error_mark, respond, respond_status,
}
use worker_log.CgiService.World.{Request, Moment, Config, Service, Done, Ending, returned, escaped}
use worker_log.Cookie.Authority
use worker_log.Cookie.CookiePath
use worker_log.Cookie.Credentials.{of_authority_path_expires}
use worker_log.Cookie.Defs.{Cookie, of_name_value_credentials, to_string}
use worker_log.Cookie.Expires.{PosixTime, of_ptime}
use worker_log.Core.{Counters, process}
use worker_log.Core.Clock.{Clocks}
use worker_log.Core.Document.{Document}
use worker_log.Core.Save.{Client, Saved, thrown, saved, process_save_results}
use worker_log.Params as Setters
use worker_log.Params.{Params, initial, cookie_id, parse}
use worker_log.UrlParser.Query
use worker_log.UrlParser.Query.{parsed, out_of_range, out_of_fuel, param}

abbrev to_lower : ℕ → ℕ
to_lower c = if not (ltb c b'A') && not (ltb b'Z' c) then c + 32 else c

-- `query`, with a warning where it is missing.
unfoldable pub read_query : Request → List Event × Bytes
read_query req = elim (req.get_param (codes "QUERY_STRING")) [
  | none ↦ (warn (codes "query string is not set") ∷ [], [])
  | some text ↦ ([], text)
]

-- `ajax`; without the header the null pointer itself is logged.
unfoldable pub read_ajax : Request → List Event × Bool
read_ajax req = elim (req.get_param (codes "HTTP_X_REQUESTED_WITH")) [
  | none ↦ (err_null ∷ [], false)
  | some text ↦ ([], equal (map to_lower text) (codes "xmlhttprequest"))
]

pub read_cookie_value : Boost → Config → Request → Bytes
unfolding read_cookie
read_cookie_value B cfg req = elim (req.get_param (codes "HTTP_COOKIE")) [
  | none ↦ []
  | some text ↦ read_cookie B cfg.cookie_name text
]

-- `server_name`, filled in from the request once.
name_server : {J : JsonLib} → Request → Service J → Service J
name_server req s =
    if empty s.server_name
    then elim (req.get_param (codes "SERVER_NAME")) [
      | none ↦ s
      | some text ↦ record s { server_name = text }
    ]
    else s

module _ (T : PosixTime) (J : JsonLib) (B : Boost) (cfg : Config) where
  -- The cookie of a response.
  abbrev pub response_cookie : T.Ptime → Params J → Cookie
  response_cookie in_a_year prm = of_name_value_credentials cfg.cookie_name prm.cookie_id (
      of_authority_path_expires (Authority.of_string cfg.cookie_domain)
        (CookiePath.of_string cfg.cookie_path) (of_ptime T in_a_year))

  -- The chain of `Params`; `none` is an exception.
  unfoldable pub read_params : ℕ → Bytes → Bytes → Bytes → Option (Params J)
  read_params now query postq cookie_value =
      elim (cookie_id J B now cookie_value
        (Setters.post J postq (Setters.get J query (initial J now)))) [
          | none ↦ none
          | some prm ↦ some (parse J (Setters.json J postq prm))
        ]

  -- `ProcessSaveResults` with its `catch`: the texts that are logged are the cookie's and the result.
  after_save : Saved J → List Event → Service J → Done J
  after_save (thrown c) logged s = record {
    service = record s { counters = c };
    events = logged;
    documents = [];
  }
  after_save (saved c docs) logged s = record {
    service = record s { counters = c };
    events = [];
    documents = docs;
  }

  save : Option (Client J) → Clocks → Params J → List Event → Service J → Done J
  unfolding after_save
  save none clocks prm logged s = record { service = s; events = logged; documents = [] }
  save (some client) clocks prm logged s =
      after_save (process_save_results J client clocks prm s.counters) logged s

  -- The `catch` of the whole branch.
  caught : Request → Service J → Done J
  caught req s = record {
    service = s;
    events = err_caught (read_query req).1 ∷ respond_status req.failed_later req.out 503;
    documents = [];
  }

  -- What is done with the result of `Core::Process`.
  answer_result : Moment T J → Request → Params J → Service J → J.Json × Option Bytes → Done J
  unfolding save caught
  answer_result now req prm s (ret, none) = caught req (record s { ret_json = ret })
  answer_result now req prm s (ret, some result) =
      let cookie = to_string (response_cookie now.in_a_year prm) in
      let logged = err cookie ∷ err result ∷ err_caught (read_query req).1 ∷ [] in
      let done = save now.acquire now.clocks prm logged (record s { ret_json = ret }) in
      record done {
        events = respond req.failed_later result (codes "application/json") cookie ++ done.events;
      }

  -- The branch of an AJAX request.
  pub answer_ajax : Moment T J → Request → Bytes → Bytes → Bytes → Service J → Done J
  unfolding read_params answer_result
  answer_ajax now req query postq cookie_value s =
      elim (read_params now.seconds query postq cookie_value) [
        | none ↦ caught req s
        | some prm ↦ answer_result now req prm s (process J s.ret_json)
      ]

  -- The status page, and the rest: an empty answer.
  answer_status : Moment T J → Request → Service J → Done J
  answer_status now req s =
      let (html, bcore, c) = status now.machine s.bcore s.counters now.microseconds s.server_name in
      record {
        service = record s { bcore = bcore; counters = c };
        events = respond req.failed_later html (codes "text/html") [];
        documents = [];
      }

  pub answer_page : Moment T J → Request → Dict Bytes → Service J → Done J
  unfolding name_server answer_status
  answer_page now req url s =
      if equal (param url (codes "show")) (codes "status")
      then answer_status now req (name_server req s)
      else record {
        service = s;
        events = respond_status req.failed_later req.out 200;
        documents = [];
      }

  -- What was done before the rest of the handler.
  abbrev pub behind : List Event → Done J → Done J
  behind before done = record done { events = before ++ done.events }

  -- An early return.
  abbrev refused : Service J → List Event → Ending J
  refused s events = returned (record { service = s; events = events; documents = [] })

  -- The part behind the parameters that have to be there.
  pub answer : Moment T J → Request → List Event → Bytes → Bytes → Service J → Ending J
  unfolding read_ajax read_cookie_value answer_ajax answer_page
  answer now req before query postq s =
      let (noted, ajax) = read_ajax req in
      elim (Query.parse query) [
        | out_of_range ↦ escaped
        | out_of_fuel ↦ escaped
        | parsed url ↦ elim (Query.parse postq) [
          | out_of_range ↦ escaped
          | out_of_fuel ↦ escaped
          | parsed post ↦ returned (
              behind (before ++ noted) (
                if ajax
                then answer_ajax now req query postq (read_cookie_value B cfg req) s
                else answer_page now req url s))
        ]
      ]

  unfoldable pub process_request : Moment T J → Request → Service J → Ending J
  unfolding read_query answer
  process_request now req s =
      if req.failed
      then refused s (warn error_mark ∷ [])
      else let (asked, query) = read_query req in
        let (sized, postq) =
          read_body (req.get_param (codes "CONTENT_LENGTH")) req.stdin req.behind in
        let noted = asked ++ sized in
        elim (req.get_param (codes "REMOTE_ADDR")) [
          | none ↦ refused s (noted ++ warn (codes "remote address is not set") ∷ [])
          | some ip ↦ elim (req.get_param (codes "SCRIPT_NAME")) [
            | none ↦ refused s (noted ++ warn (codes "script name is not set") ∷ [])
            | some script_name ↦ answer now req noted query postq s
          ]
        ]
