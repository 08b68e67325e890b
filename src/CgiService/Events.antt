-- ===== src/CgiService/Events.antt =====
-- What a request makes the service do, in order, and the two `CgiService::Response` of
-- src/CgiService.cpp.
use worker_log.Base.{ℕ, Bool, List, [], ◌∷◌, Bytes, codes, empty, if◌then◌else◌}
use worker_log.Base.Decimal.{decimal}

pub data Event : Type 0 where
  -- `Log::warn` and `Log::err` with a text; `err_null` is `Log::err (nullptr)`, and `err_caught` the
  -- report of an exception with the query of the request. The texts are what is handed to `Log`, whether
  -- or not they fit into its buffer.
  warn err err_caught : Bytes → Event
  err_null : Event
  -- `FCGX_FPrintF (req->out, format, arguments …)`, `FCGX_FFlush` and `FCGX_Finish_r`.
  print : Bytes → List Bytes → Event
  flush finish : Event

abbrev pub error_mark : Bytes
error_mark = codes "------------ ERROR ----------"

-- A response with contents; `failed` is `FCGX_GetError (req->err) != 0`.
unfoldable pub respond : Bool → Bytes → Bytes → Bytes → List Event
respond failed content content_type cookie =
    if empty content
    then []
    else if failed
    then warn error_mark ∷ []
    else print (codes "Status: 200 OK\r\n") []
      ∷ print (codes "Content-type: %s\r\n") (content_type ∷ [])
      ∷ print (codes "Set-Cookie: %s\r\n") (cookie ∷ [])
      ∷ print (codes "Pragma: no-cache\r\n") []
      ∷ print (codes "Expires: Fri, 01 Jan 1990 00:00:00 GMT\r\n") []
      ∷ print
          (codes "Cache-Control: no-cache, must-revalidate, no-cache=\"Set-Cookie\", private\r\n")
          []
      ∷ print (codes "\r\n") []
      ∷ print (codes "%s\r\n") (content ∷ [])
      ∷ flush
      ∷ finish
      ∷ []

-- A response with a status alone; `out` is the test `req && req->out`.
unfoldable pub respond_status : Bool → Bool → ℕ → List Event
respond_status failed out status =
    if failed
    then warn error_mark ∷ []
    else if out
    then print (codes "Status: %d OK\r\n") (decimal status ∷ [])
      ∷ print (codes "Content-type: application/json\r\n") []
      ∷ print (codes "\r\n\r\n") []
      ∷ flush
      ∷ finish
      ∷ []
    else []
