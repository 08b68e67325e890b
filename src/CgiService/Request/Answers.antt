-- ===== src/CgiService/Request/Answers.antt =====
-- How often `ProcessRequest` of src/CgiService.cpp finishes a request.
use worker_log.Base.{
  ◌<◌, length, ◌≡◌, ◌≢◌, refl, ap, ◌∙◌, true, false, not, Option, none, some, List, [], ◌∷◌, ◌++◌,
  Bytes, codes, empty, arith, Option-cases, Bool-cases, inl, inr, equal,
}
use worker_log.Base.Dict.{Dict, vacant}
use worker_log.External.Boost.{Boost}
use worker_log.External.Json.{JsonLib}
use worker_log.BaseCore.{status, page}
use worker_log.Core.{process}
use worker_log.Core.Clock.{Clocks}
use worker_log.Core.Save.{Client, Saved, thrown, saved, process_save_results}
use worker_log.CgiService.Body.{read_body}
use worker_log.CgiService.Events.{Event, err, err_caught, respond}
use worker_log.CgiService.Request.{
  save, after_save, answer_ajax, answer_page, answer, answer_status, answer_result, caught,
  read_cookie_value, read_query, read_ajax, process_request, read_params, response_cookie,
}
use worker_log.CgiService.World.{Request, Moment, Config, Service}
use worker_log.CgiService.Request.Finishes.{
  finishes, of_returned, accepted, one_if, finishes-append, not_empty, finishes-respond,
  finishes-respond_status, finishes-read_query, finishes-read_ajax, finishes-read_body,
  read_body-small,
}
use worker_log.Cookie.Defs.{to_string}
use worker_log.Cookie.Expires.{PosixTime}
use worker_log.Params.{Params}
use worker_log.UrlParser.Query.{npos, param}
use worker_log.UrlParser.Query.Refines.{parse-pairs}
use worker_log.UrlParser.Query.Pairs.{enter, pairs}

module _ (T : PosixTime) (J : JsonLib) (B : Boost) (cfg : Config) where
  finishes-after_save :
      (r : Saved J) (logged : List Event) (s : Service J)
      → finishes logged ≡ 0
      → finishes (after_save T J B cfg r logged s).events ≡ 0
  unfolding after_save
  finishes-after_save (thrown c) logged s h = h
  finishes-after_save (saved c docs) logged s h = refl

  finishes-save :
      (client : Option (Client J)) (clocks : Clocks) (prm : Params J) (logged : List Event)
      (s : Service J)
      → finishes logged ≡ 0
      → finishes (save T J B cfg client clocks prm logged s).events ≡ 0
  unfolding save
  finishes-save none clocks prm logged s h = h
  finishes-save (some client) clocks prm logged s h =
      finishes-after_save (process_save_results J client clocks prm s.counters) logged s h

  finishes-caught :
      (req : Request) (s : Service J)
      → req.out ≡ true
      → finishes (caught T J B cfg req s).events ≡ one_if (not req.failed_later)
  unfolding caught
  finishes-caught req s ho =
      let sent = finishes-respond_status req.failed_later 503 in rw ho (omega (arith, sent))

  finishes-answer_result :
      (now : Moment T J) (req : Request) (prm : Params J) (s : Service J)
      (r : J.Json × Option Bytes)
      → req.out ≡ true
      → r.1 ≢ some []
      → finishes (answer_result T J B cfg now req prm s r).events ≡ one_if (not req.failed_later)
  unfolding answer_result
  finishes-answer_result now req prm s (ret, none) ho full =
      finishes-caught req (record s { ret_json = ret }) ho
  finishes-answer_result now req prm s (ret, some result) ho full =
      let cookie = to_string (response_cookie T J B cfg now.in_a_year prm) in
      let logged = err cookie ∷ err result ∷ err_caught (read_query req).1 ∷ [] in
      let sent = respond req.failed_later result (codes "application/json") cookie in
      let filled : empty result ≡ false = not_empty result (λ z. full (ap some z)) in
      let done = save T J B cfg now.acquire now.clocks prm logged (record s { ret_json = ret }) in
      omega (
        arith,
        finishes-append sent done.events,
        finishes-respond req.failed_later result (codes "application/json") cookie filled,
        finishes-save now.acquire now.clocks prm logged (record s { ret_json = ret }) refl,
      )

  process_filled :
      (ret : J.Json) → ((j : J.Json) → J.dump j ≢ some []) → (process J ret).1 ≢ some []
  unfolding process
  process_filled ret hd =
      elim (Option-cases (J.store ret (codes "status") (J.of_string (codes "OK")))) [
        | inl n ↦ rw (n, process) (λ e. cc)
        | inr (ret', e) ↦ rw (e, process) (hd ret')
      ]

  finishes-answer_ajax :
      (now : Moment T J) (req : Request) (query postq cookie_value : Bytes) (s : Service J)
      → req.out ≡ true
      → ((j : J.Json) → J.dump j ≢ some [])
      → finishes (answer_ajax T J B cfg now req query postq cookie_value s).events
        ≡ one_if (not req.failed_later)
  unfolding answer_ajax
  finishes-answer_ajax now req query postq cookie_value s ho hd =
      elim (Option-cases (read_params T J B cfg now.seconds query postq cookie_value)) [
        | inl n ↦ rw (n, answer_ajax) (finishes-caught req s ho)
        | inr (prm, e) ↦
            rw (e, answer_ajax)
              (finishes-answer_result now req prm s (process J s.ret_json) ho
                (process_filled s.ret_json hd))
      ]

  finishes-answer_page :
      (now : Moment T J) (req : Request) (url : Dict Bytes) (s : Service J)
      → req.out ≡ true
      → finishes (answer_page T J B cfg now req url s).events ≡ one_if (not req.failed_later)
  unfolding answer_page answer_status status page
  finishes-answer_page now req url s ho =
      elim (Bool-cases (equal (param url (codes "show")) (codes "status"))) [
        | inl shown ↦ rw shown (finishes-respond req.failed_later _ _ _ refl)
        | inr other ↦ rw (other, ho) (finishes-respond_status req.failed_later 200)
      ]

  finishes-answer :
      (now : Moment T J) (req : Request) (before : List Event) (query postq : Bytes) (s : Service J)
      → req.out ≡ true
      → ((j : J.Json) → J.dump j ≢ some [])
      → length query < npos
      → length postq < npos
      → finishes before ≡ 0
      → of_returned (λ d. finishes d.events) (answer T J B cfg now req before query postq s)
        ≡ some (one_if (not req.failed_later))
  unfolding answer
  finishes-answer now req before query postq s ho hd hq hp hb =
      let ajax = answer_ajax T J B cfg now req query postq (read_cookie_value B cfg req) s in
      let page = answer_page T J B cfg now req (enter (pairs query) vacant) s in
      let noted = (read_ajax req).0 in
      rw (parse-pairs query hq, answer, parse-pairs postq hp)
        (elim (Bool-cases (read_ajax req).1) [
          | inl is_ajax ↦ rw is_ajax (
              ap some (
                omega (
                  arith,
                  finishes-append (before ++ noted) ajax.events,
                  finishes-append before noted,
                  finishes-read_ajax req,
                  finishes-answer_ajax now req query postq (read_cookie_value B cfg req) s ho hd,
                )))
          | inr is_page ↦ rw is_page (
              ap some (
                omega (
                  arith,
                  finishes-append (before ++ noted) page.events,
                  finishes-append before noted,
                  finishes-read_ajax req,
                  finishes-answer_page now req (enter (pairs query) vacant) s ho,
                )))
        ])

  -- Where there is an output stream, the query has a possible size and JSON is never written as nothing: the handler returns, and it
  -- finishes the request once, if the parameters REMOTE_ADDR and SCRIPT_NAME are there and no error
  -- stands on the stream, and not at all otherwise.
  pub process_request-finishes :
      (now : Moment T J) (req : Request) (s : Service J)
      → req.out ≡ true
      → ((j : J.Json) → J.dump j ≢ some [])
      → length (read_query req).1 < npos
      → of_returned (λ d. finishes d.events) (process_request T J B cfg now req s)
        ≡ some (one_if (accepted req))
  unfolding process_request
  process_request-finishes now req s ho hd hq = elim (Bool-cases req.failed) [
    | inl failed ↦ rw (failed, process_request) refl
    | inr sound ↦
        let asked = (read_query req).0 in
        let body = read_body (req.get_param (codes "CONTENT_LENGTH")) req.stdin req.behind in
        let quiet : finishes (asked ++ body.0) ≡ 0 = omega (
          arith,
          finishes-append asked body.0,
          finishes-read_query req,
          finishes-read_body (req.get_param (codes "CONTENT_LENGTH")) req.stdin req.behind,
        ) in
        elim (Option-cases (req.get_param (codes "REMOTE_ADDR"))) [
          | inl n ↦
              rw (sound, process_request, n)
                (ap some (finishes-append (asked ++ body.0) _ ∙ omega (arith, quiet)))
          | inr (ip, e) ↦ elim (Option-cases (req.get_param (codes "SCRIPT_NAME"))) [
            | inl n ↦
                rw (sound, process_request, e, n)
                  (ap some (finishes-append (asked ++ body.0) _ ∙ omega (arith, quiet)))
            | inr (script_name, e') ↦
                rw (sound, process_request, e, e')
                  (finishes-answer now req (asked ++ body.0) (read_query req).1 body.1 s ho hd hq
                    (read_body-small (req.get_param (codes "CONTENT_LENGTH")) req.stdin req.behind)
                    quiet)
          ]
        ]
  ]
