-- ===== src/BaseCore/Rates.antt =====
-- The rates on the status page of src/BaseCore.cpp.
use worker_log.Base.{
  ℕ, zero, suc, ◌+◌, ◌-◌, ◌*◌, ◌/◌, ◌%◌, ◌^◌, ◌≤◌, ◌<◌, ◌≡◌, refl, arith, Bytes, ltb, ◌==◌,
  if◌then◌else◌,
}
use native.Mathlib.Nat.{div-lt_iff_lt-mul}
use worker_log.Core.{Counters, increment}
use worker_log.BaseCore.{State, Machine, milliseconds, widen, rate, minus, rates, status}

milliseconds-le :
    (now before : ℕ) → before ≤ now → milliseconds now before ≡ (now - before) / 1000 % 2 ^ 32
unfolding milliseconds
milliseconds-le now before h = ground arith

div_small : (x k : ℕ) → x < k → x / k ≡ 0
div_small x k h =
    let below : x / k < 1 = (div-lt_iff_lt-mul (omega arith)).1 (omega arith) in
    omega (arith, below)

rate_early :
    (requests up : ℕ)
    → requests < 2 ^ 53
    → 0 < up
    → up < 2 ^ 31
    → rate requests up ≡ requests * 1000 / up % 2 ^ 32
unfolding rate widen
rate_early requests up h p q =
    let whole : requests * 1000 % 2 ^ 64 ≡ requests * 1000 = omega arith in
    rw (whole) (ground arith)

rate_late : (requests up : ℕ) → requests < 2 ^ 53 → 2 ^ 31 ≤ up → up < 2 ^ 32 → rate requests up ≡ 0
unfolding rate widen
rate_late requests up h p q =
    let wide : widen up ≡ up + (2 ^ 64 - 2 ^ 32) = ground arith in
    let none_whole = div_small (requests * 1000 % 2 ^ 64) (widen up) (omega (arith, wide)) in
    ground (arith, none_whole)

-- For fewer than 2^53 requests: in the first 24 days the average is the number of requests in a second since the start, rounded down, as 32 bits; in the 24 days behind them it is 0, whatever the service did.
pub rates_average :
    (s : State) (c : Counters) (now : ℕ)
    → s.started ≤ now
    → (now - s.started) / 1000 < 2 ^ 32
    → c.request_processed < 2 ^ 53
    → let up = (now - s.started) / 1000 in
      (rates s c now).1 ≡ (
        if up == 0
        then 0
        else if ltb up (2 ^ 31)
        then c.request_processed * 1000 / up % 2 ^ 32
        else 0)
unfolding rates
rates_average s c now h up hc = ground (
  arith,
  milliseconds-le now s.started h,
  rate_early c.request_processed ((now - s.started) / 1000),
  rate_late c.request_processed ((now - s.started) / 1000),
)

-- Requests that come in one after the other.
abbrev pub count_requests : ℕ → Counters → Counters
count_requests zero c = c
count_requests (suc n) c =
    count_requests n (record c { request_processed = increment c.request_processed })

-- What the service has counted of them.
count_requests-request_processed :
    (n : ℕ) (c : Counters)
    → c.request_processed < 2 ^ 64
    → (count_requests n c).request_processed ≡ (c.request_processed + n) % 2 ^ 64
count_requests-request_processed zero c h = omega arith
count_requests-request_processed (suc n) c h =
    let step =
      count_requests-request_processed n
        (record c { request_processed = increment c.request_processed }) (omega arith) in
    omega (arith, step)

count_requests-last :
    (n : ℕ) (c : Counters)
    → (count_requests n c).last_time_request_processed ≡ c.last_time_request_processed
count_requests-last zero c = refl
count_requests-last (suc n) c = count_requests-last n _

minus_add : (x n : ℕ) → x < 2 ^ 64 → n < 2 ^ 64 → minus ((x + n) % 2 ^ 64) x ≡ n
unfolding minus
minus_add x n h k = omega arith

-- Between two calls of the page, at the times `t` and `now`, the current rate is that of the
-- requests that came in between, fewer than 2^64, also if the counter wraps around.
pub status-rates :
    (m : Machine) (s : State) (c : Counters) (t now n : ℕ) (name : Bytes)
    → c.request_processed < 2 ^ 64
    → n < 2 ^ 64
    → let (_, s', c') = status m s c t name in
      (rates s' (count_requests n c') now).0 ≡ rate n (milliseconds now t)
unfolding status rates
status-rates m s c t now n name h k =
    let c' : Counters = record c { last_time_request_processed = c.request_processed } in
    rw
      (
        count_requests-request_processed n c' h,
        count_requests-last n c',
        minus_add c.request_processed n h k,
      )
      refl
