-- ===== src/Tests/Pool.antt =====
-- The threads of src/CgiService.cpp at two requests, and the theorem there.
use worker_log.Base.{ℕ, ◌≡◌, refl, arith, some, [], ◌∷◌, equal}
use mathlib.Core.List.Memᴰ
use worker_log.CgiService.Pool.{Own, Pool, Reply, Handles, seen_by, advance, rests, handles}
use worker_log.CgiService.Pool.Alone.{Handles-view}
use worker_log.CgiService.Request.{process_request, read_ajax}
use worker_log.CgiService.Request.Finishes.{of_returned}
use worker_log.CgiService.Request.SameAnswer.{view}
use worker_log.CgiService.Request.Impressions.{process_request-EndsTallied}
use worker_log.CgiService.World.{Service, Done, returned}
use worker_log.Tests.Handler.{config, ajax, now, service, short}
use worker_log.Tests.Request.{body}
use worker_log.Tests.SampleBoost.{sample_boost}
use worker_log.Tests.SampleJson.{sample, sample-IsJsonLib, Value}
use worker_log.Tests.SampleTime.{sample_time}

abbrev new_core : Own (sample body)
new_core = record { count_req = 0; ret_json = Value.null }

abbrev pool : Pool (sample body)
pool = record {
  counters = service.counters;
  bcore = service.bcore;
  server_name = [];
  own = λ i. new_core;
}

abbrev run : (s : Service (sample body)) → Done (sample body)
run s =
    (process_request-EndsTallied sample_time (sample body) sample_boost config
      (sample-IsJsonLib body) now ajax s short).0

abbrev first : Done (sample body)
first = run (seen_by pool 0)

abbrev between : Pool (sample body)
between = advance sample_time (sample body) sample_boost config pool 0 first

abbrev second : Done (sample body)
second = run (seen_by between 1)

abbrev handled : ℕ → Done (sample body) → Reply sample_time (sample body)
handled i done = record { thread = i; moment = now; request = ajax; seen = view done }

runs :
    (s : Service (sample body))
    → process_request sample_time (sample body) sample_boost config now ajax s ≡ returned (run s)
runs s =
    (process_request-EndsTallied sample_time (sample body) sample_boost config
      (sample-IsJsonLib body) now ajax s short).1

two_threads :
    Handles sample_time
      (sample body)
      sample_boost
      config
      2
      pool
      (handled 0 first ∷ handled 1 second ∷ [])
      (advance sample_time (sample body) sample_boost config between 1 second)
two_threads =
    handles 0 now ajax first (omega arith) (runs (seen_by pool 0))
      (handles 1 now ajax second (omega arith) (runs (seen_by between 1)) rests)

Handles-view_example :
    of_returned view
      (process_request sample_time (sample body) sample_boost config now ajax service)
    ≡ some (view second)
unfolding equal read_ajax
Handles-view_example =
    Handles-view sample_time (sample body) sample_boost config (sample-IsJsonLib body) 2 pool _ _
      service (handled 1 second) two_threads (λ i. refl) refl (Memᴰ.tail (Memᴰ.head refl)) refl
