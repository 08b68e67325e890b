-- ===== src/Log.antt =====
-- src/Log.cpp and include/Log.h: the stream buffer that sends lines to `syslog`. `Messages` has the static
-- functions, which share one buffer, and `Memory` the reading of the size of the process.
pub mod Lines
pub mod Messages
pub mod Memory
pub mod Size
use worker_log.Base.{
  ℕ, Bool, Option, none, some, List, [], ◌∷◌, ◌++◌, Bytes, empty, c_string, if◌then◌else◌,
}

-- `buffer_` and `priority_`, and what `syslog` was given, a priority and a text each time.
pub record Log : Type 0 where
  pub buffer : Bytes
  pub priority : ℕ
  pub written : List (ℕ × Bytes)

-- `Log::Log` : LOG_DEBUG is 7.
abbrev pub fresh : Log
fresh = record { buffer = []; priority = 7; written = [] }

-- `Log::sync`.
unfoldable pub sync : Log → Log
unfolding c_string
sync this = if empty this.buffer then this else record {
  buffer = [];
  priority = this.priority;
  written = this.written ++ (this.priority, c_string this.buffer) ∷ [];
}

-- `Log::overflow`; `none` is EOF.
unfoldable pub overflow : Log → Option ℕ → Log
unfolding sync
overflow this none = sync this
overflow this (some c) = record this { buffer = this.buffer ++ c ∷ [] }

-- `operator<<` of a priority.
abbrev pub set_priority : Log → ℕ → Log
set_priority this p = record this { priority = p }

-- A text that is printed goes through `overflow` byte by byte, since there is no other buffer.
unfoldable pub print : Log → Bytes → Log
unfolding overflow
print this [] = this
print this (c ∷ text) = print (overflow this (some c)) text
