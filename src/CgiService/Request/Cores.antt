-- ===== src/CgiService/Request/Cores.antt =====
-- The cores in which `ProcessRequest` of src/CgiService.cpp leaves `retJson` of src/Core.cpp.
use worker_log.Base.{
  ◌≡◌, refl, sym, ap, Option, none, some, List, Bytes, codes, ◌⊎◌, Option-cases, Bool-cases, inl,
  inr, equal, empty, subst,
}
use worker_log.Base.Dict.{Dict}
use worker_log.External.Boost.{Boost}
use worker_log.External.Json.{JsonLib, IsJsonLib}
use worker_log.BaseCore.{status}
use worker_log.Core.{process}
use worker_log.Core.Clock.{Clocks}
use worker_log.Core.Save.{Client, Saved, thrown, saved, process_save_results}
use worker_log.CgiService.Events.{Event}
use worker_log.CgiService.Request.{
  save, after_save, answer_result, caught, answer_ajax, answer_page, answer_status, name_server,
  answer, read_ajax, read_cookie_value, read_params, process_request,
}
use worker_log.CgiService.World.{Request, Moment, Config, Service, Ending, returned, escaped}
use worker_log.Cookie.Expires.{PosixTime}
use worker_log.Params.{Params}
use worker_log.UrlParser.Query
use worker_log.UrlParser.Query.{Outcome-cases, parsed, param}

-- What `retJson` of a core can be: what the constructor leaves, or what `Process` stores there.
abbrev pub IsCore : (J : JsonLib) → J.Json → Type 0
IsCore J ret =
    (ret ≡ J.default) ⊎ (J.store J.default (codes "status") (J.of_string (codes "OK")) ≡ some ret)

module _ (J : JsonLib) (L : IsJsonLib J) where
  -- Every core answers like a new one.
  pub process-IsCore : (ret : J.Json) → IsCore J ret → process J ret ≡ process J J.default
  unfolding process
  process-IsCore ret (inl e) = ap (process J) e
  process-IsCore ret (inr e) =
      rw (e, process, L.store-store J.default (J.of_string (codes "OK")) ret (codes "status") e)
        refl

  IsCore-process : IsCore J (process J J.default).0
  unfolding process
  IsCore-process =
      elim (Option-cases (J.store J.default (codes "status") (J.of_string (codes "OK")))) [
        | inl n ↦ rw (n, process) (inl refl)
        | inr (ret, e) ↦ rw (e, process) (inr refl)
      ]

-- A handler that returns leaves such a core.
abbrev pub KeepsCore : {J : JsonLib} → Ending J → Type 0
KeepsCore {J} (returned d) = IsCore J d.service.ret_json
KeepsCore escaped = Unit

module _ (T : PosixTime) (J : JsonLib) (B : Boost) (cfg : Config) (L : IsJsonLib J) where
  after_save-ret_json :
      (r : Saved J) (logged : List Event) (s : Service J)
      → (after_save T J B cfg r logged s).service.ret_json ≡ s.ret_json
  unfolding after_save
  after_save-ret_json (thrown c) logged s = refl
  after_save-ret_json (saved c docs) logged s = refl

  save-ret_json :
      (client : Option (Client J)) (clocks : Clocks) (prm : Params J) (logged : List Event)
      (s : Service J)
      → (save T J B cfg client clocks prm logged s).service.ret_json ≡ s.ret_json
  unfolding save
  save-ret_json none clocks prm logged s = refl
  save-ret_json (some client) clocks prm logged s =
      after_save-ret_json (process_save_results J client clocks prm s.counters) logged s

  answer_result-ret_json :
      (now : Moment T J) (req : Request) (prm : Params J) (s : Service J)
      (r : J.Json × Option Bytes)
      → (answer_result T J B cfg now req prm s r).service.ret_json ≡ r.0
  unfolding answer_result caught
  answer_result-ret_json now req prm s (ret, none) = refl
  answer_result-ret_json now req prm s (ret, some result) =
      save-ret_json now.acquire now.clocks prm _ (record s { ret_json = ret })

  answer_ajax-IsCore :
      (now : Moment T J) (req : Request) (query postq cookie_value : Bytes) (s : Service J)
      → IsCore J s.ret_json
      → IsCore J (answer_ajax T J B cfg now req query postq cookie_value s).service.ret_json
  unfolding answer_ajax caught
  answer_ajax-IsCore now req query postq cookie_value s i =
      elim (Option-cases (read_params T J B cfg now.seconds query postq cookie_value)) [
        | inl n ↦ rw (n, answer_ajax) i
        | inr (prm, e) ↦
            let left = answer_result-ret_json now req prm s (process J J.default) in
            rw (e, answer_ajax, process-IsCore J L s.ret_json i, left) (IsCore-process J L)
      ]

  name_server-ret_json : (req : Request) (s : Service J) → (name_server req s).ret_json ≡ s.ret_json
  unfolding name_server
  name_server-ret_json req s = elim (Bool-cases (empty s.server_name)) [
    | inr named ↦ rw (named, name_server) refl
    | inl unnamed ↦ elim (Option-cases (req.get_param (codes "SERVER_NAME"))) [
      | inl n ↦ rw (unnamed, name_server, n) refl
      | inr (text, e) ↦ rw (unnamed, name_server, e) refl
    ]
  ]

  answer_page-ret_json :
      (now : Moment T J) (req : Request) (url : Dict Bytes) (s : Service J)
      → (answer_page T J B cfg now req url s).service.ret_json ≡ s.ret_json
  unfolding answer_page answer_status status
  answer_page-ret_json now req url s =
      elim (Bool-cases (equal (param url (codes "show")) (codes "status"))) [
        | inr other ↦ rw other refl
        | inl shown ↦ rw shown (name_server-ret_json req s)
      ]

  answer-KeepsCore :
      (now : Moment T J) (req : Request) (before : List Event) (query postq : Bytes) (s : Service J)
      → IsCore J s.ret_json
      → KeepsCore (answer T J B cfg now req before query postq s)
  unfolding answer
  answer-KeepsCore now req before query postq s i = elim (Outcome-cases (Query.parse query)) [
    | inl n ↦ rw (n, answer) tt
    | inr (inl n) ↦ rw (n, answer) tt
    | inr (inr (url, e)) ↦ elim (Outcome-cases (Query.parse postq)) [
      | inl n ↦ rw (e, answer, n) tt
      | inr (inl n) ↦ rw (e, answer, n) tt
      | inr (inr (post, e')) ↦ elim (Bool-cases (read_ajax req).1) [
        | inl ajax ↦
            rw (e, answer, e', ajax)
              (answer_ajax-IsCore now req query postq (read_cookie_value B cfg req) s i)
        | inr page ↦
            rw (e, answer, e', page) (subst (IsCore J) (sym (answer_page-ret_json now req url s)) i)
      ]
    ]
  ]

  pub process_request-KeepsCore :
      (now : Moment T J) (req : Request) (s : Service J)
      → IsCore J s.ret_json
      → KeepsCore (process_request T J B cfg now req s)
  unfolding process_request
  process_request-KeepsCore now req s i = elim (Bool-cases req.failed) [
    | inl failed ↦ rw (failed, process_request) i
    | inr sound ↦ elim (Option-cases (req.get_param (codes "REMOTE_ADDR"))) [
      | inl n ↦ rw (sound, process_request, n) i
      | inr (ip, e) ↦ elim (Option-cases (req.get_param (codes "SCRIPT_NAME"))) [
        | inl n ↦ rw (sound, process_request, e, n) i
        | inr (script_name, e') ↦
            rw (sound, process_request, e, e') (answer-KeepsCore now req _ _ _ s i)
      ]
    ]
  ]
