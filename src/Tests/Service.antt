-- ===== src/Tests/Service.antt =====
-- src/CgiService.cpp, src/Cookie.cpp and src/BaseCore.cpp at concrete requests, and the theorems there.
use worker_log.Base.{◌≡◌, refl, inl, arith, none, some, [], ◌∷◌, codes, length}
use worker_log.Base.Decimal.{decimal}
use worker_log.External.Boost.{join}
use worker_log.BaseCore.{State, Machine, rates, rate, milliseconds, status}
use worker_log.BaseCore.Rates.{rates_average, status-rates, count_requests}
use worker_log.CgiService.Body.{buffer, read_body, read_body-decimal}
use worker_log.CgiService.CookieHeader.{read_cookie, contains, starts_with}
use worker_log.CgiService.CookieHeader.Laws.{read_cookie_found}
use worker_log.Cookie.Expires.{of_tm, of_tm_throws, Tm}
use worker_log.Core.{Counters}
use worker_log.Tests.SampleBoost.{sample_boost, sample_boost-IsBoost}
use worker_log.Tests.SampleTime.{sample_time, sample_time-IsPosixTime}

-- 2026-01-05, as C has it.
abbrev a_monday : Tm
a_monday = record { tm_year = 126; tm_mon = 0; tm_mday = 5; tm_hour = 12; tm_min = 0; tm_sec = 0 }

of_tm_throws_example : of_tm sample_time a_monday ≡ none
of_tm_throws_example = of_tm_throws sample_time sample_time-IsPosixTime a_monday (inl (omega arith))

read_body-decimal_example :
    (read_body (some (decimal 4)) (codes "ab") (codes "?") ≡ ([], codes "ab  "))
    × (length (read_body (some (decimal 4)) (codes "ab") (codes "?")).1 ≡ 4)
unfolding buffer
read_body-decimal_example = read_body-decimal 4 (codes "ab") (codes "?") (omega arith)

read_cookie_found_example :
    read_cookie sample_boost
      (codes "id")
      (join b';' (codes "a=b" ∷ codes " id=42" ∷ codes " c=d" ∷ []))
    ≡ codes "42"
unfolding contains starts_with
read_cookie_found_example =
    read_cookie_found sample_boost sample_boost-IsBoost (codes " ") (codes "id") (codes "42")
      (codes "a=b" ∷ []) (codes " c=d" ∷ [])
      (
        (refl, (refl, (refl, tt))),
        (
          (refl, (refl, (refl, (refl, (refl, (refl, tt)))))),
          ((refl, (refl, (refl, (refl, tt)))), tt),
        ),
      )
      (refl, tt) (refl, (refl, tt)) (refl, (refl, tt)) (refl, tt)

abbrev pub busy : Counters
busy = record {
  request_processed = 90000;
  last_time_request_processed = 0;
  offer_processed = 0;
  social_processed = 0;
  retargeting_processed = 0;
}

-- A service that started at 0 and whose page nobody has asked for.
abbrev pub fresh : State
fresh = record { started = 0; accessed = none }

rates_average_example : (rates fresh busy 2160000000000).1 ≡ 0
rates_average_example =
    rates_average fresh busy 2160000000000 (omega arith) (omega arith) (omega arith)

abbrev pub machine : Machine
machine = record {
  server_ip = codes "127.0.0.1";
  local_time = [];
  started_time = [];
  server_children = 2;
  cpu_user = codes "0";
  cpu_sys = codes "0";
  rss = 4096;
  mongo_log_db = codes "log";
  mongo_log_url = [];
}

status-rates_example :
    let (_, s, c) = status machine fresh busy 30000000 [] in
    (rates s (count_requests 20 c) 32000000).0 ≡ rate 20 (milliseconds 32000000 30000000)
status-rates_example =
    status-rates machine fresh busy 30000000 32000000 20 [] (omega arith) (omega arith)

rate_run : rate 20 (milliseconds 32000000 30000000) ≡ 10
unfolding rate milliseconds
rate_run = refl
