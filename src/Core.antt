-- ===== src/Core.antt =====
-- src/Core.cpp and include/Core.h, with the counters of src/Config.cpp that it shares with the status
-- page: the answer to a request, and the impressions that it logs.
pub mod Document
pub mod Clock
pub mod Save
pub mod Impressions
use worker_log.Base.{ℕ, ◌+◌, ◌%◌, ◌^◌, Option, none, some, Bytes, codes}
use worker_log.External.Json.{JsonLib}
use mathlib.Core.Option

-- The globals of src/Config.cpp, each an `unsigned long`.
pub record Counters : Type 0 where
  pub request_processed : ℕ
  pub last_time_request_processed : ℕ
  pub offer_processed : ℕ
  pub social_processed : ℕ
  pub retargeting_processed : ℕ

-- `x++`.
abbrev pub increment : ℕ → ℕ
increment x = (x + 1) % 2 ^ 64

module _ (J : JsonLib) where
  -- `Core::Process`, from `retJson` to `retJson` and the answer; `none` is an exception, before or
  -- after the text is stored.
  unfoldable pub process : J.Json → J.Json × Option Bytes
  process ret = elim (J.store ret (codes "status") (J.of_string (codes "OK"))) [
    | none ↦ (ret, none)
    | some ret' ↦ (ret', J.dump ret')
  ]
