-- ===== src/CgiService/Request/Replies.antt =====
-- What the client of `ProcessRequest` in src/CgiService.cpp gets for an AJAX request.
use worker_log.Base.{
  ◌<◌, ◌≡◌, refl, ap, ◌∙◌, true, false, Option, none, some, List, [], ◌∷◌, ◌++◌, Bytes, codes,
  length, append-nil, Option-cases, inl, inr,
}
use worker_log.External.Boost.{Boost}
use worker_log.External.Json.{JsonLib, IsJsonLib}
use worker_log.Core.{process}
use worker_log.Core.Clock.{Clocks}
use worker_log.Core.Save.{Client, Saved, thrown, saved, process_save_results}
use worker_log.CgiService.Body.{read_body}
use worker_log.CgiService.Events.{Event, err, err_caught, respond, respond_status}
use worker_log.CgiService.Request.{
  save, after_save, answer_result, caught, answer_ajax, answer, read_query, read_ajax,
  read_cookie_value, read_params, process_request, response_cookie,
}
use worker_log.CgiService.World.{Request, Moment, Config, Service}
use worker_log.CgiService.Request.Cores.{IsCore, process-IsCore}
use worker_log.CgiService.Request.Finishes.{of_returned, read_body-small}
use worker_log.CgiService.Request.Sent.{
  sent, sent-append, sent_behind, sent-read_query, sent-read_ajax, sent-read_body,
}
use worker_log.Cookie.Defs.{to_string}
use worker_log.Cookie.Expires.{PosixTime}
use worker_log.Params.{Params}
use worker_log.UrlParser.Query.{npos}
use worker_log.UrlParser.Query.Refines.{parse-pairs}

-- The text that every AJAX request is answered with: `{"status": "OK"}`, as the library writes it.
pub status_text : (J : JsonLib) → Option Bytes
status_text J = elim (J.store J.default (codes "status") (J.of_string (codes "OK"))) [
  | none ↦ none
  | some ret ↦ J.dump ret
]

module _ (T : PosixTime) (J : JsonLib) (B : Boost) (cfg : Config) where
  -- The reply to a visitor, and that to a visitor or a text that could not be made.
  abbrev reply_with : Moment T J → Request → Params J → Option Bytes → List Event
  reply_with now req prm none = respond_status req.failed_later req.out 503
  reply_with now req prm (some text) =
      respond req.failed_later text (codes "application/json")
        (to_string (response_cookie T J B cfg now.in_a_year prm))

  abbrev reply_to : Moment T J → Request → Option Bytes → Option (Params J) → List Event
  reply_to now req text none = respond_status req.failed_later req.out 503
  reply_to now req text (some prm) = reply_with now req prm text

  -- The reply as it depends on the request, without the service: the visitor is found by the query, the
  -- body and the cookie.
  abbrev pub reply : Moment T J → Request → List Event
  reply now req =
      let postq = (read_body (req.get_param (codes "CONTENT_LENGTH")) req.stdin req.behind).1 in
      reply_to now req (status_text J)
        (read_params T J B cfg now.seconds (read_query req).1 postq (read_cookie_value B cfg req))

module _ (T : PosixTime) (J : JsonLib) (B : Boost) (cfg : Config) (L : IsJsonLib J) where
  sent-after_save :
      (r : Saved J) (logged : List Event) (s : Service J)
      → sent logged ≡ []
      → sent (after_save T J B cfg r logged s).events ≡ []
  unfolding after_save
  sent-after_save (thrown c) logged s quiet = quiet
  sent-after_save (saved c docs) logged s quiet = refl

  sent-save :
      (client : Option (Client J)) (clocks : Clocks) (prm : Params J) (logged : List Event)
      (s : Service J)
      → sent logged ≡ []
      → sent (save T J B cfg client clocks prm logged s).events ≡ []
  unfolding save
  sent-save none clocks prm logged s quiet = quiet
  sent-save (some client) clocks prm logged s quiet =
      sent-after_save (process_save_results J client clocks prm s.counters) logged s quiet

  sent-answer_result :
      (now : Moment T J) (req : Request) (prm : Params J) (s : Service J)
      (r : J.Json × Option Bytes)
      → sent (answer_result T J B cfg now req prm s r).events
        ≡ sent (reply_with T J B cfg now req prm r.1)
  unfolding answer_result caught
  sent-answer_result now req prm s (ret, none) = refl
  sent-answer_result now req prm s (ret, some result) =
      let cookie = to_string (response_cookie T J B cfg now.in_a_year prm) in
      let logged = err cookie ∷ err result ∷ err_caught (read_query req).1 ∷ [] in
      let first = respond req.failed_later result (codes "application/json") cookie in
      let done = save T J B cfg now.acquire now.clocks prm logged (record s { ret_json = ret }) in
      let quiet = sent-save now.acquire now.clocks prm logged (record s { ret_json = ret }) refl in
      sent-append first done.events
      ∙ ap (λ (es : List Event). sent first ++ es) quiet
      ∙ append-nil (sent first)

  process-status_text : (process J J.default).1 ≡ status_text J
  unfolding process status_text
  process-status_text =
      elim (Option-cases (J.store J.default (codes "status") (J.of_string (codes "OK")))) [
        | inl n ↦ rw (n, process, status_text) refl
        | inr (ret, e) ↦ rw (e, process, status_text) refl
      ]

  sent-answer_ajax :
      (now : Moment T J) (req : Request) (query postq cookie_value : Bytes) (s : Service J)
      → IsCore J s.ret_json
      → sent (answer_ajax T J B cfg now req query postq cookie_value s).events
        ≡ sent (
            reply_to T J B cfg now req
              (status_text J)
              (read_params T J B cfg now.seconds query postq cookie_value))
  unfolding answer_ajax caught
  sent-answer_ajax now req query postq cookie_value s i =
      elim (Option-cases (read_params T J B cfg now.seconds query postq cookie_value)) [
        | inl n ↦ rw (n, answer_ajax) refl
        | inr (prm, e) ↦
            rw (e, answer_ajax, process-IsCore J L s.ret_json i)
              (sent-answer_result now req prm s (process J J.default)
                ∙ ap (λ text. sent (reply_with T J B cfg now req prm text)) process-status_text)
      ]

  sent-answer :
      (now : Moment T J) (req : Request) (before : List Event) (query postq : Bytes) (s : Service J)
      → (read_ajax req).1 ≡ true
      → IsCore J s.ret_json
      → length query < npos
      → length postq < npos
      → sent before ≡ []
      → of_returned (λ d. sent d.events) (answer T J B cfg now req before query postq s)
        ≡ some (
            sent (
              reply_to T J B cfg now req
                (status_text J)
                (read_params T J B cfg now.seconds query postq (read_cookie_value B cfg req))))
  unfolding answer
  sent-answer now req before query postq s ajax i hq hp quiet =
      let noted = before ++ (read_ajax req).0 in
      let silent = sent_behind before (read_ajax req).0 quiet ∙ sent-read_ajax req in
      let done = answer_ajax T J B cfg now req query postq (read_cookie_value B cfg req) s in
      rw (parse-pairs query hq, answer, parse-pairs postq hp, ajax)
        (ap some (
          sent_behind noted done.events silent
          ∙ sent-answer_ajax now req query postq (read_cookie_value B cfg req) s i))

  -- An AJAX request without an error on the stream, with REMOTE_ADDR and SCRIPT_NAME and a query of a
  -- possible size: the client is sent just the reply that belongs to it, whatever the state of the
  -- service is, where the core is new or has answered before. With a visitor who can be read, and a
  -- status that can be written, it is the JSON of the status with the cookie of this visitor, and else
  -- it is the status 503.
  pub process_request-reply :
      (now : Moment T J) (req : Request) (s : Service J) (ip script_name : Bytes)
      → req.failed ≡ false
      → req.get_param (codes "REMOTE_ADDR") ≡ some ip
      → req.get_param (codes "SCRIPT_NAME") ≡ some script_name
      → (read_ajax req).1 ≡ true
      → length (read_query req).1 < npos
      → IsCore J s.ret_json
      → of_returned (λ d. sent d.events) (process_request T J B cfg now req s)
        ≡ some (sent (reply T J B cfg now req))
  unfolding process_request
  process_request-reply now req s ip script_name sound e e' ajax hq i =
      let size = req.get_param (codes "CONTENT_LENGTH") in
      let body = read_body size req.stdin req.behind in
      let quiet =
        sent_behind (read_query req).0 body.0 (sent-read_query req)
        ∙ sent-read_body size req.stdin req.behind in
      rw (sound, process_request, e, e')
        (sent-answer now req _ (read_query req).1 body.1 s ajax i hq
          (read_body-small size req.stdin req.behind) quiet)
