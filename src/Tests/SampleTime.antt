-- ===== src/Tests/SampleTime.antt =====
-- Times that meet the laws, for the examples.
use worker_log.Base.{ℕ, ◌<◌, ◌+◌, ◌/◌, ◌≡◌, arith, Option, none, some, [], ltb, ◌==◌, if◌then◌else◌}
use worker_log.Cookie.Expires.{PosixTime, IsPosixTime}

-- The year alone, and nothing printed.
abbrev year_of : ℕ → ℕ → ℕ → ℕ → ℕ → ℕ → Option ℕ
year_of y m d h n s = if ltb y 1400 then none else if m == 0 then none else some y

abbrev pub sample_time : PosixTime
sample_time = record {
  Ptime = ℕ;
  time_from_string = λ s. none;
  from_time_t = λ t. 1970 + t / 31536000;
  ptime = year_of;
  format = λ form t. [];
}

year_of_early : (y m d h n s : ℕ) → y < 1400 → year_of y m d h n s ≡ none
year_of_early y m d h n s early = ground arith

year_of_month : (y d h n s : ℕ) → year_of y 0 d h n s ≡ none
year_of_month y d h n s = ground arith

pub sample_time-IsPosixTime : IsPosixTime sample_time
sample_time-IsPosixTime = record { bad_year = year_of_early; bad_month = year_of_month }
