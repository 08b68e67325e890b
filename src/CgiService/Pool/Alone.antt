-- ===== src/CgiService/Pool/Alone.antt =====
-- That the threads of src/CgiService.cpp do not show in each other's answers.
use worker_log.Base.{
  ℕ, ◌≡◌, refl, ap, subst, sym, ◌∙◌, Bool-cases, inl, inr, true, some, List, [], ◌∷◌, ◌==◌,
}
use mathlib.Core.List.{Memᴰ}
use mathlib.Core.List.Memᴰ
use worker_log.External.Boost.{Boost}
use worker_log.External.Json.{JsonLib, IsJsonLib}
use worker_log.CgiService.Pool.{Pool, Reply, seen_by, advance, Handles, rests, handles}
use worker_log.CgiService.Request.{process_request, read_ajax}
use worker_log.CgiService.Request.Cores.{IsCore, KeepsCore, process_request-KeepsCore}
use worker_log.CgiService.Request.Finishes.{of_returned}
use worker_log.CgiService.Request.SameAnswer.{view, process_request_same}
use worker_log.CgiService.Serve.{renew, after_request}
use worker_log.CgiService.World.{Config, Service, Done}
use worker_log.Cookie.Expires.{PosixTime}

-- Every thread has such a core.
abbrev HasCores : {J : JsonLib} → Pool J → Type 0
HasCores {J} p = (i : ℕ) → IsCore J (p.own i).ret_json

module _ (T : PosixTime) (J : JsonLib) (B : Boost) (cfg : Config) (L : IsJsonLib J) where
  renew-IsCore :
      (count : ℕ) (s : Service J)
      → IsCore J s.ret_json
      → IsCore J (renew T J B cfg count s).ret_json
  unfolding renew
  renew-IsCore count s i = elim (Bool-cases (count == 10000000)) [
    | inl anew ↦ rw anew (inl refl)
    | inr again ↦ rw again i
  ]

  advance-HasCores :
      (p : Pool J) (i : ℕ) (done : Done J)
      → HasCores p
      → IsCore J done.service.ret_json
      → HasCores (advance T J B cfg p i done)
  unfolding advance after_request
  advance-HasCores p i done all core j = elim (Bool-cases (j == i)) [
    | inl own ↦ rw own (renew-IsCore (p.own i).count_req done.service core)
    | inr other ↦ rw other (all j)
  ]

  -- The answer of the service `s` alone.
  abbrev AnswersAlike : Service J → Reply T J → Type 0
  AnswersAlike s a = of_returned view (process_request T J B cfg a.moment a.request s) ≡ some a.seen

  Handles-AnswersAlike :
      (n : ℕ) (p q : Pool J) (log : List (Reply T J)) (s : Service J) (a : Reply T J)
      → Handles T J B cfg n p log q
      → HasCores p
      → IsCore J s.ret_json
      → Memᴰ a log
      → (read_ajax a.request).1 ≡ true
      → AnswersAlike s a
  Handles-AnswersAlike n p q [] s a rests all core among ajax = absurd (Memᴰ.not-nil among)
  Handles-AnswersAlike n p q (_ ∷ log) s a (handles i now req done below e more) all core among
        ajax =
      elim (Memᴰ.cases_cons among) [
        | inl here ↦
            let asked : (read_ajax req).1 ≡ true =
              subst (λ (x : Reply T J). (read_ajax x.request).1 ≡ true) here ajax in
            subst (AnswersAlike s) (sym here) (
              process_request_same T J B cfg L now req s (seen_by p i) asked core (all i)
              ∙ ap (of_returned view) e)
        | inr later ↦
            let kept : IsCore J done.service.ret_json =
              subst KeepsCore e
                (process_request-KeepsCore T J B cfg L now req (seen_by p i) (all i)) in
            Handles-AnswersAlike n (advance T J B cfg p i done) q log s a more
              (advance-HasCores p i done all kept) core later ajax
      ]

  -- Whatever requests some threads with new cores handle on a service, in whatever order: each AJAX
  -- request among them gets the answer, and has the documents written, that any service whose core is
  -- new would give it alone.
  pub Handles-view :
      (n : ℕ) (p q : Pool J) (log : List (Reply T J)) (s : Service J) (a : Reply T J)
      → Handles T J B cfg n p log q
      → ((i : ℕ) → (p.own i).ret_json ≡ J.default)
      → s.ret_json ≡ J.default
      → Memᴰ a log
      → (read_ajax a.request).1 ≡ true
      → of_returned view (process_request T J B cfg a.moment a.request s) ≡ some a.seen
  Handles-view n p q log s a run all_new new among ajax =
      Handles-AnswersAlike n p q log s a run (λ i. inl (all_new i)) (inl new) among ajax
