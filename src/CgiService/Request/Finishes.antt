-- ===== src/CgiService/Request/Finishes.antt =====
-- Counting how often the responses of src/CgiService.cpp finish a request.
use worker_log.Base.{
  ℕ, ap, ◌∙◌, ◌<◌, length, ◌+◌, ◌≡◌, ◌≢◌, refl, Bool, true, false, ◌&&◌, not, Option, none, some,
  List, [], ◌∷◌, ◌++◌, Bytes, codes, empty, if◌then◌else◌, arith,
}
use worker_log.External.Json.{JsonLib}
use worker_log.Base.Decimal.{strtol}
use worker_log.CgiService.Body.{read_body, post_body_lem, clamp}
use worker_log.CgiService.Events.{
  Event, warn, err, err_null, err_caught, print, flush, finish, respond, respond_status,
}
use worker_log.CgiService.Request.{behind, read_query, read_ajax}
use worker_log.CgiService.Request.Sent.{sent, sent-read_query, sent-read_ajax, sent-read_body}
use worker_log.CgiService.World.{Request, Done, Ending, returned, escaped}
use worker_log.UrlParser.Query.{npos}

-- The number of times that a request is finished, its answer sent.
abbrev pub finishes : List Event → ℕ
finishes [] = 0
finishes (e ∷ es) = elim e as (λ _. ℕ) [ finish ↦ 1 | _ ↦ 0 ] + finishes es

-- What a handler did that returned.
abbrev pub of_returned : {J : JsonLib} {A : Type 0} → (Done J → A) → Ending J → Option A
of_returned f (returned done) = some (f done)
of_returned f escaped = none

abbrev pub is_some : {A : Type 0} → Option A → Bool
is_some none = false
is_some (some x) = true

-- The handler gets as far as an answer, and it can be sent.
abbrev pub accepted : Request → Bool
accepted req =
    not req.failed
    && (is_some (req.get_param (codes "REMOTE_ADDR"))
        && (is_some (req.get_param (codes "SCRIPT_NAME")) && not req.failed_later))

abbrev pub one_if : Bool → ℕ
one_if b = if b then 1 else 0

pub finishes-append : (es fs : List Event) → finishes (es ++ fs) ≡ finishes es + finishes fs
finishes-append [] fs = omega arith
finishes-append (e ∷ es) fs = let rest = finishes-append es fs in omega (arith, rest)

pub not_empty : (s : Bytes) → s ≢ [] → empty s ≡ false
not_empty [] h = absurd (h refl)
not_empty (c ∷ s) h = refl

pub finishes-respond :
    (failed : Bool) (content content_type cookie : Bytes)
    → empty content ≡ false
    → finishes (respond failed content content_type cookie) ≡ one_if (not failed)
unfolding respond
finishes-respond true content content_type cookie h = rw h refl
finishes-respond false content content_type cookie h = rw h refl

pub finishes-respond_status :
    (failed : Bool) (n : ℕ) → finishes (respond_status failed true n) ≡ one_if (not failed)
unfolding respond_status
finishes-respond_status true n = refl
finishes-respond_status false n = refl

-- Only what is sent finishes a request.
finishes-sent : (es : List Event) → finishes es ≡ finishes (sent es)
finishes-sent [] = refl
finishes-sent (warn text ∷ es) = omega (arith, finishes-sent es)
finishes-sent (err text ∷ es) = omega (arith, finishes-sent es)
finishes-sent (err_null ∷ es) = omega (arith, finishes-sent es)
finishes-sent (err_caught query ∷ es) = omega (arith, finishes-sent es)
finishes-sent (print format arguments ∷ es) = omega (arith, finishes-sent es)
finishes-sent (flush ∷ es) = omega (arith, finishes-sent es)
finishes-sent (finish ∷ es) = omega (arith, finishes-sent es)

finishes_quiet : (es : List Event) → sent es ≡ [] → finishes es ≡ 0
finishes_quiet es quiet = finishes-sent es ∙ ap finishes quiet

pub finishes-read_query : (req : Request) → finishes (read_query req).0 ≡ 0
finishes-read_query req = finishes_quiet (read_query req).0 (sent-read_query req)

pub finishes-read_ajax : (req : Request) → finishes (read_ajax req).0 ≡ 0
finishes-read_ajax req = finishes_quiet (read_ajax req).0 (sent-read_ajax req)

pub finishes-read_body :
    (length_given : Option Bytes) (stdin behind : Bytes)
    → finishes (read_body length_given stdin behind).0 ≡ 0
finishes-read_body length_given stdin behind =
    finishes_quiet (read_body length_given stdin behind).0
      (sent-read_body length_given stdin behind)

pub read_body-small :
    (length_given : Option Bytes) (stdin behind : Bytes)
    → length (read_body length_given stdin behind).1 < npos
unfolding read_body
read_body-small none stdin behind = omega arith
read_body-small (some text) stdin behind =
    let (bits, rest) = strtol text in ground (arith, (post_body_lem (clamp bits) stdin behind).1)
