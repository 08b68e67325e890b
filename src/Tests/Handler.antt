-- ===== src/Tests/Handler.antt =====
-- `ProcessRequest` and `Serve` of src/CgiService.cpp at an AJAX request that brings an offer, and the
-- theorems there.
use worker_log.Base.{
  inl, ℕ, ◌+◌, ◌%◌, ◌^◌, ◌≤◌, ◌<◌, ◌≡◌, ◌≢◌, refl, arith, true, false, Option, none, some, List, [],
  ◌∷◌, Bytes, codes, equal, if◌then◌else◌, length,
}
use worker_log.Base.Decimal.{strtol}
use worker_log.External.Boost.{join}
use worker_log.CgiService.CookieHeader.{read_cookie, contains, starts_with}
use worker_log.CgiService.Request.{
  process_request, response_cookie, read_params, read_query, read_ajax,
}
use worker_log.CgiService.World.{Request, Moment, Config, Service}
use worker_log.CgiService.Request.Answers.{process_request-finishes}
use worker_log.CgiService.Request.Finishes.{finishes, of_returned}
use worker_log.CgiService.Request.Impressions.{
  impressions, no_impressions, process_request_logs_nothing,
}
use worker_log.CgiService.Request.Replies.{reply, process_request-reply}
use worker_log.CgiService.Request.Sent.{sent}
use worker_log.CgiService.Request.Visitor.{set_cookie_again}
use worker_log.CgiService.Serve.{accept, refuse, Thread, of_served, serve, serve-finishes}
use worker_log.CgiService.Serve.Totals.{offers_of, served_totals, serve-totals}
use worker_log.CgiService.Session.{kept}
use worker_log.Cookie.Defs.{to_string}
use worker_log.Params as Setters
use worker_log.Params.{Params, initial, cookie_id, parse}
use worker_log.UrlParser.Query.{npos}
use worker_log.Tests.Request.{body, client, moment}
use worker_log.Tests.SampleBoost.{sample_boost, sample_boost-IsBoost}
use worker_log.Tests.SampleJson.{sample, sample-IsJsonLib, Value}
use worker_log.Tests.SampleTime.{sample_time}
use worker_log.Tests.Service.{machine, busy, fresh}

abbrev pub config : Config
config = record {
  cookie_name = codes "id";
  cookie_domain = codes ".example.org";
  cookie_path = codes "/";
}

-- The parameters of a request, by name.
abbrev given : List (Bytes × Bytes) → Bytes → Option Bytes
given [] name = none
given ((key, value) ∷ more) name = if equal key name then some value else given more name

abbrev pub ajax : Request
ajax = record {
  get_param = given (
      (codes "QUERY_STRING", codes "?a=1")
      ∷ (codes "CONTENT_LENGTH", codes "5")
      ∷ (codes "REMOTE_ADDR", codes "10.0.0.1")
      ∷ (codes "SCRIPT_NAME", codes "/log")
      ∷ (codes "HTTP_X_REQUESTED_WITH", codes "XMLHttpRequest")
      ∷ (codes "HTTP_COOKIE", codes "id=42")
      ∷ []);
  stdin = codes "{...}";
  behind = [];
  failed = false;
  failed_later = false;
  out = true;
}

abbrev pub now : Moment sample_time (sample body)
now = record {
  seconds = 1500000000;
  microseconds = 40000000;
  in_a_year = 2018;
  clocks = moment;
  acquire = some client;
  machine = machine;
}

abbrev pub service : Service (sample body)
service = record { counters = busy; bcore = fresh; server_name = []; ret_json = Value.null }

never_empty : (j : Value) → (sample body).dump j ≢ some []
never_empty j e = cc

pub short : length (read_query ajax).1 < npos
unfolding read_query equal
short = omega arith

process_request-finishes_example :
    of_returned
      (λ d. finishes d.events)
      (process_request sample_time (sample body) sample_boost config now ajax service)
    ≡ some 1
unfolding equal
process_request-finishes_example =
    process_request-finishes sample_time (sample body) sample_boost config now ajax service refl
      never_empty short

process_request-reply_example :
    of_returned
      (λ d. sent d.events)
      (process_request sample_time (sample body) sample_boost config now ajax service)
    ≡ some (sent (reply sample_time (sample body) sample_boost config now ajax))
unfolding equal read_ajax
process_request-reply_example =
    process_request-reply sample_time (sample body) sample_boost config (sample-IsJsonLib body) now
      ajax service (codes "10.0.0.1") (codes "/log") refl refl refl refl short (inl refl)

process_request_logs_nothing_example :
    of_returned impressions
      (process_request sample_time (sample body) sample_boost config now ajax service)
    ≡ some (no_impressions service)
unfolding equal
process_request_logs_nothing_example =
    process_request_logs_nothing sample_time (sample body) sample_boost config
      (sample-IsJsonLib body) now ajax service short

abbrev thread : Thread (sample body)
thread = record { count_req = 10000000; service = service; events = [] }

-- The client is gone: nothing is answered, and the next accept finishes the request.
abbrev broken_off : Request
broken_off = record ajax { failed = true }

serve-finishes_example :
    of_served
      (λ u. finishes u.events)
      (serve sample_time
        (sample body)
        sample_boost
        config
        (accept now ajax ∷ accept now broken_off ∷ refuse ∷ [])
        thread)
    ≡ some 2
unfolding equal read_query
serve-finishes_example =
    serve-finishes sample_time (sample body) sample_boost config
      (accept now ajax ∷ accept now broken_off ∷ refuse ∷ []) thread
      ((refl, short), ((refl, short), (tt, tt))) never_empty

serve-totals_example :
    (k : ℕ) × (k ≤ 2)
    × (served_totals (
          serve sample_time
            (sample body)
            sample_boost
            config
            (accept now ajax ∷ accept now ajax ∷ refuse ∷ [])
            thread)
        ≡ some (
          offers_of thread.service.counters,
          (thread.service.counters.request_processed + k) % 2 ^ 64,
        ))
unfolding equal
serve-totals_example =
    serve-totals sample_time (sample body) sample_boost config (sample-IsJsonLib body)
      (accept now ajax ∷ accept now ajax ∷ refuse ∷ []) thread (short, (short, (tt, tt)))
      (omega arith)

-- A visitor who comes with the identity 42.
abbrev visitor : Params (sample body)
visitor =
    let start = initial (sample body) 1500000000 in
    parse (sample body)
      (Setters.json (sample body) [] (record start { cookie_id = codes "42"; key_long = 42 }))

visitor_run :
    read_params sample_time (sample body) sample_boost config 1500000000 [] [] (codes "42")
    ≡ some visitor
unfolding read_params cookie_id strtol
visitor_run = refl

named : visitor.cookie_id ≢ []
unfolding parse Setters.json equal
named e = cc

set_cookie_again_example :
    let set =
      to_string (response_cookie sample_time (sample body) sample_boost config 2018 visitor) in
    let header = join b';' (kept set ∷ codes " c=d" ∷ []) in
    (again : Params (sample body)) × (read_params sample_time
        (sample body)
        sample_boost
        config
        1500000900
        (codes "?b=2")
        []
        (read_cookie sample_boost (codes "id") header)
      ≡ some again)
    × (again.key_long ≡ visitor.key_long)
    × (to_string (response_cookie sample_time (sample body) sample_boost config 2019 again) ≡ set)
unfolding contains starts_with
set_cookie_again_example =
    set_cookie_again sample_time (sample body) (sample-IsJsonLib body) sample_boost
      sample_boost-IsBoost config 1500000000 1500000900 [] [] (codes "42") (codes "?b=2") [] 2018
      2019 [] (codes " c=d" ∷ []) [] visitor_run named (refl, (refl, tt)) (refl, (refl, tt)) tt
      ((refl, (refl, (refl, (refl, tt)))), tt) (refl, tt) tt
