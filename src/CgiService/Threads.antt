-- ===== src/CgiService/Threads.antt =====
-- The threads of src/CgiService.cpp on a counter that they share: `request_processed_++` of
-- src/Core.cpp is a load and a store, with no lock around them.
pub mod Counts
use worker_log.Base.{
  ℕ, zero, suc, ◌+◌, ◌%◌, ◌^◌, ◌≤◌, ◌<◌, ◌≡◌, refl, Bool, true, false, ◌==◌, if◌then◌else◌, arith,
}
use worker_log.Core.{increment}

-- A thread between two increments, or with the value that it has loaded.
pub data Pc : Type 0 where
  idle : Pc
  loaded : ℕ → Pc

-- The counter, how many increments were begun and are over, and where each thread is.
pub record Threads : Type 0 where
  pub counter : ℕ
  pub served : ℕ
  pub pc : ℕ → Pc

abbrev pub set_pc : (ℕ → Pc) → ℕ → Pc → ℕ → Pc
set_pc pc i p j = if j == i then p else pc j

-- One shared access of one of `n` threads.
pub data Access (n : ℕ) (s : Threads) : Threads → Type 0 where
  load :
      (i : ℕ)
      → i < n
      → s.pc i ≡ idle
      → Access n s (record s { pc = set_pc s.pc i (loaded s.counter) })
  store :
      (i value : ℕ)
      → i < n
      → s.pc i ≡ loaded value
      → Access n s
          (record { counter = increment value; served = s.served + 1; pc = set_pc s.pc i idle })

abbrev pub at_start : Threads
at_start = record { counter = 0; served = 0; pc = λ i. idle }

pub data Run (n : ℕ) : Threads → Type 0 where
  begin : Run n at_start
  after : {s t : Threads} → Run n s → Access n s t → Run n t
