-- ===== src/CgiService/Request/Sent.antt =====
-- What of the events of `ProcessRequest` in src/CgiService.cpp reaches the client.
use worker_log.Base.{
  ◌≡◌, refl, ap, ◌∙◌, Option, none, some, List, [], ◌∷◌, ◌++◌, Bytes, codes, empty, Option-cases,
  Bool-cases, inl, inr,
}
use worker_log.Base.Decimal.{strtol}
use worker_log.CgiService.Body.{read_body}
use worker_log.CgiService.Events.{Event, warn, err, err_null, err_caught, print, flush, finish}
use worker_log.CgiService.Request.{read_query, read_ajax}
use worker_log.CgiService.World.{Request}

-- The calls on the stream, without what is logged.
abbrev pub sent : List Event → List Event
sent [] = []
sent (warn text ∷ es) = sent es
sent (err text ∷ es) = sent es
sent (err_null ∷ es) = sent es
sent (err_caught query ∷ es) = sent es
sent (print format arguments ∷ es) = print format arguments ∷ sent es
sent (flush ∷ es) = flush ∷ sent es
sent (finish ∷ es) = finish ∷ sent es

pub sent-append : (es fs : List Event) → sent (es ++ fs) ≡ sent es ++ sent fs
sent-append [] fs = refl
sent-append (warn text ∷ es) fs = sent-append es fs
sent-append (err text ∷ es) fs = sent-append es fs
sent-append (err_null ∷ es) fs = sent-append es fs
sent-append (err_caught query ∷ es) fs = sent-append es fs
sent-append (print format arguments ∷ es) fs = ap (◌∷◌ (print format arguments)) (sent-append es fs)
sent-append (flush ∷ es) fs = ap (◌∷◌ flush) (sent-append es fs)
sent-append (finish ∷ es) fs = ap (◌∷◌ finish) (sent-append es fs)

-- What is only logged in front is not sent.
pub sent_behind : (es fs : List Event) → sent es ≡ [] → sent (es ++ fs) ≡ sent fs
sent_behind es fs quiet = sent-append es fs ∙ ap (λ (gs : List Event). gs ++ sent fs) quiet

pub sent-read_query : (req : Request) → sent (read_query req).0 ≡ []
unfolding read_query
sent-read_query req = elim (Option-cases (req.get_param (codes "QUERY_STRING"))) [
  | inl n ↦ rw (n, read_query) refl
  | inr (text, e) ↦ rw (e, read_query) refl
]

pub sent-read_ajax : (req : Request) → sent (read_ajax req).0 ≡ []
unfolding read_ajax
sent-read_ajax req = elim (Option-cases (req.get_param (codes "HTTP_X_REQUESTED_WITH"))) [
  | inl n ↦ rw (n, read_ajax) refl
  | inr (text, e) ↦ rw (e, read_ajax) refl
]

pub sent-read_body :
    (length_given : Option Bytes) (stdin behind : Bytes)
    → sent (read_body length_given stdin behind).0 ≡ []
unfolding read_body
sent-read_body none stdin behind = refl
sent-read_body (some text) stdin behind = elim (Bool-cases (empty (strtol text).1)) [
  | inl whole ↦ rw whole refl
  | inr cut ↦ rw cut refl
]
