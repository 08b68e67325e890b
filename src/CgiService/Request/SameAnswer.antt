-- ===== src/CgiService/Request/SameAnswer.antt =====
-- What the answers of `ProcessRequest` of src/CgiService.cpp depend on: the counters, the status page's
-- state and the core that a thread keeps, with `ProcessSaveResults` of src/Core.cpp.
use worker_log.Base.{
  ◌≡◌, refl, sym, ap, ◌∙◌, Bool, true, Option, none, some, List, [], ◌∷◌, ◌++◌, Bytes, codes,
  Option-cases, Bool-cases, inl, inr,
}
use worker_log.External.Boost.{Boost}
use worker_log.External.Json.{JsonLib, IsJsonLib}
use worker_log.Core.{Counters, process}
use worker_log.Core.Clock.{ℤ, Clocks, document_time}
use worker_log.Core.Document.{Document, Shown, read_shown, build, ask}
use worker_log.Core.Save.{
  Client, Saved, thrown, saved, write, count, save_offers, process_save_results,
}
use worker_log.CgiService.Events.{Event, respond}
use worker_log.CgiService.Request.{
  save, after_save, answer_result, caught, answer_ajax, answer, read_ajax, read_cookie_value,
  read_params, process_request, response_cookie,
}
use worker_log.CgiService.World.{Request, Moment, Config, Service, Done}
use worker_log.CgiService.Request.Cores.{IsCore, process-IsCore}
use worker_log.CgiService.Request.Finishes.{of_returned}
use worker_log.Cookie.Defs.{to_string}
use worker_log.Cookie.Expires.{PosixTime}
use worker_log.Params.{Params}
use worker_log.UrlParser.Query
use worker_log.UrlParser.Query.{Outcome-cases, parsed, out_of_range, out_of_fuel}

-- The documents that were written, if the handler did not throw.
abbrev written : {J : JsonLib} → Saved J → Option (List (Document J))
written (thrown c) = none
written (saved c docs) = some docs

module _ (J : JsonLib) where
  written-count :
      (it : J.Json) (next : Counters → Saved J)
      → ((c c' : Counters) → written (next c) ≡ written (next c'))
      → (c c' : Counters) → written (count J it c next) ≡ written (count J it c' next)
  unfolding count
  written-count it next h c c' =
      elim (Option-cases (ask J J.get_boolean (codes "retargeting") it)) [
        | inl n ↦ rw (n, count) refl
        | inr ((retargeting, it'), e) ↦
            elim (Option-cases (ask J J.get_boolean (codes "campaign_social") it')) [
              | inl n ↦ rw (e, count, n) refl
              | inr ((social, it''), e') ↦ rw (e, count, e') (h _ _)
            ]
      ]

  written-write :
      (client : Client J) (docs : List (Document J)) (c c' : Counters)
      → written (write J client docs c) ≡ written (write J client docs c')
  unfolding write
  written-write client docs c c' = elim (Bool-cases client.connected) [
    | inr off ↦ rw off refl
    | inl on ↦ elim (Bool-cases (client.insert_many docs)) [
      | inl taken ↦ rw (on, taken) refl
      | inr refused ↦ rw (on, refused) refl
    ]
  ]

  written-save_offers :
      (client : Client J) (dt : ℤ) (shown : Shown J) (test : Option Bool) (docs : List (Document J))
      (offers : List J.Json) (c c' : Counters)
      → written (save_offers J client dt shown test docs offers c)
        ≡ written (save_offers J client dt shown test docs offers c')
  unfolding save_offers
  written-save_offers client dt shown test docs [] c c' = written-write client docs c c'
  written-save_offers client dt shown test docs (it ∷ offers) c c' =
      elim (Option-cases (build J dt shown test it)) [
        | inl n ↦ rw (n, save_offers) refl
        | inr ((doc, it'), e) ↦
            rw (e, save_offers)
              (written-count it' (save_offers J client dt shown test (docs ++ doc ∷ []) offers)
                (written-save_offers client dt shown test (docs ++ doc ∷ []) offers) c c')
      ]

  -- What is written does not depend on the counters.
  written-process_save_results :
      (client : Client J) (clocks : Clocks) (p : Params J) (c c' : Counters)
      → written (process_save_results J client clocks p c)
        ≡ written (process_save_results J client clocks p c')
  unfolding process_save_results
  written-process_save_results client clocks p c c' = elim (Option-cases (read_shown J p.params)) [
    | inl n ↦ rw (n, process_save_results) refl
    | inr ((shown, rest), e) ↦
        rw (e, process_save_results)
          (written-save_offers client (document_time clocks) shown p.test_mode [] _ _ _)
  ]

-- What is seen of a handled request from outside.
abbrev pub view : {J : JsonLib} → Done J → List Event × List (Document J)
view d = (d.events, d.documents)

module _ (T : PosixTime) (J : JsonLib) (B : Boost) (cfg : Config) (L : IsJsonLib J) where
  -- The view of a save, from its logged texts and what was written.
  abbrev of_written : List Event → Option (List (Document J)) → List Event × List (Document J)
  of_written logged none = (logged, [])
  of_written logged (some docs) = ([], docs)

  view-after_save :
      (r : Saved J) (logged : List Event) (s : Service J)
      → view (after_save T J B cfg r logged s) ≡ of_written logged (written r)
  unfolding after_save
  view-after_save (thrown c) logged s = refl
  view-after_save (saved c docs) logged s = refl

  view-save :
      (client : Option (Client J)) (clocks : Clocks) (prm : Params J) (logged : List Event)
      (s s' : Service J)
      → view (save T J B cfg client clocks prm logged s)
        ≡ view (save T J B cfg client clocks prm logged s')
  unfolding save
  view-save none clocks prm logged s s' = refl
  view-save (some client) clocks prm logged s s' =
      let r = process_save_results J client clocks prm s.counters in
      let r' = process_save_results J client clocks prm s'.counters in
      let same = written-process_save_results J client clocks prm s.counters s'.counters in
      view-after_save r logged s ∙ ap (of_written logged) same ∙ sym (view-after_save r' logged s')

  view-answer_result :
      (now : Moment T J) (req : Request) (prm : Params J) (s s' : Service J)
      (r : J.Json × Option Bytes)
      → view (answer_result T J B cfg now req prm s r)
        ≡ view (answer_result T J B cfg now req prm s' r)
  unfolding answer_result caught
  view-answer_result now req prm s s' (ret, none) = refl
  view-answer_result now req prm s s' (ret, some result) =
      let cookie = to_string (response_cookie T J B cfg now.in_a_year prm) in
      let sent = respond req.failed_later result (codes "application/json") cookie in
      ap (λ (v : List Event × List (Document J)). (sent ++ v.0, v.1))
        (view-save now.acquire now.clocks prm _ (record s { ret_json = ret })
          (record s' { ret_json = ret }))

  view-answer_ajax :
      (now : Moment T J) (req : Request) (query postq cookie_value : Bytes) (s s' : Service J)
      → IsCore J s.ret_json
      → IsCore J s'.ret_json
      → view (answer_ajax T J B cfg now req query postq cookie_value s)
        ≡ view (answer_ajax T J B cfg now req query postq cookie_value s')
  unfolding answer_ajax caught
  view-answer_ajax now req query postq cookie_value s s' i i' =
      elim (Option-cases (read_params T J B cfg now.seconds query postq cookie_value)) [
        | inl n ↦ rw (n, answer_ajax) refl
        | inr (prm, e) ↦
            rw (e, answer_ajax, process-IsCore J L s.ret_json i, process-IsCore J L s'.ret_json i')
              (view-answer_result now req prm s s' (process J J.default))
      ]

  view-answer :
      (now : Moment T J) (req : Request) (before : List Event) (query postq : Bytes)
      (s s' : Service J)
      → (read_ajax req).1 ≡ true
      → IsCore J s.ret_json
      → IsCore J s'.ret_json
      → of_returned view (answer T J B cfg now req before query postq s)
        ≡ of_returned view (answer T J B cfg now req before query postq s')
  unfolding answer
  view-answer now req before query postq s s' ajax i i' = elim (Outcome-cases (Query.parse query)) [
    | inl n ↦ rw (n, answer) refl
    | inr (inl n) ↦ rw (n, answer) refl
    | inr (inr (url, e)) ↦ elim (Outcome-cases (Query.parse postq)) [
      | inl n ↦ rw (e, answer, n) refl
      | inr (inl n) ↦ rw (e, answer, n) refl
      | inr (inr (post, e')) ↦
          let noted = before ++ (read_ajax req).0 in
          rw (e, answer, e', ajax)
            (ap (λ (v : List Event × List (Document J)). some (noted ++ v.0, v.1))
              (view-answer_ajax now req query postq (read_cookie_value B cfg req) s s' i i'))
    ]
  ]

  -- An AJAX request is answered in the same way, and the same documents are written for it, whatever
  -- the counters, the state of the status page and the server's name are, and whether the core is new
  -- or has answered before.
  pub process_request_same :
      (now : Moment T J) (req : Request) (s s' : Service J)
      → (read_ajax req).1 ≡ true
      → IsCore J s.ret_json
      → IsCore J s'.ret_json
      → of_returned view (process_request T J B cfg now req s)
        ≡ of_returned view (process_request T J B cfg now req s')
  unfolding process_request
  process_request_same now req s s' ajax i i' = elim (Bool-cases req.failed) [
    | inl failed ↦ rw (failed, process_request) refl
    | inr sound ↦ elim (Option-cases (req.get_param (codes "REMOTE_ADDR"))) [
      | inl n ↦ rw (sound, process_request, n) refl
      | inr (ip, e) ↦ elim (Option-cases (req.get_param (codes "SCRIPT_NAME"))) [
        | inl n ↦ rw (sound, process_request, e, n) refl
        | inr (script_name, e') ↦
            rw (sound, process_request, e, e') (view-answer now req _ _ _ s s' ajax i i')
      ]
    ]
  ]
