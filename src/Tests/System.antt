-- ===== src/Tests/System.antt =====
-- src/Log.cpp and src/CpuStat.cpp at concrete readings, and the theorems there.
use mathlib.Core.Option
use worker_log.Base.{
  ℕ, ◌+◌, ◌-◌, ◌*◌, ◌/◌, ◌%◌, ◌^◌, ◌≡◌, refl, replicate, equal, Option, none, some, List, [], ◌∷◌,
  ◌++◌, Bytes, codes, arith,
}
use worker_log.Base.Decimal.{strtol}
use worker_log.CpuStat.{CpuStat, Double, no_usage, stored, share, add_times, cpu_usage}
use worker_log.CpuStat.Growth.{shares, cpu_usage_grown}
use worker_log.Log.Messages.{Messages, warn, info, lines_of, log_format, log_both, log_both-lines}
use worker_log.Log.Memory.{walk, mem_usage, read_lines}

abbrev quiet : Messages
quiet = record { buffer = []; written = [] }

log_both-lines_example :
    (Option.map lines_of (log_format warn (codes "ab") quiet) ≡ some ((4, codes "ab") ∷ []))
    × (Option.map lines_of (log_both warn (codes "ab") info (codes "c") quiet)
        ≡ some ((4, codes "c") ∷ (6, codes "c") ∷ []))
log_both-lines_example =
    log_both-lines warn info (codes "ab") (codes "c") quiet (refl, (refl, tt)) (refl, tt)
      (omega arith) (omega arith)

-- Quotients by whole numbers.
abbrev whole : Double
whole = record { D = ℕ; of_number = λ n. n; times = λ x y. x * y; divide = λ x y. x / y }

-- A counter that is about to wrap around.
abbrev before : CpuStat whole
before = record {
  cpu_user = 0;
  cpu_sys = 0;
  rss = 0;
  last_usage = record no_usage { utime_ticks = 2 ^ 64 - 10; cpu_total_time = 100 };
}

cpu_usage_grown_example :
    Option.map (shares whole) (
      cpu_usage whole 4096 0 no_usage
        (some (stored (20 ∷ 5 ∷ 10 ∷ 0 ∷ 0 ∷ 7 ∷ [])))
        (some (stored (60 ∷ 50 ∷ [])))
        before)
    ≡ some (share whole 40 10, share whole 5 10)
unfolding add_times
cpu_usage_grown_example =
    cpu_usage_grown whole 4096 0 no_usage before 30 10 5 0 10 0 7 (60 ∷ 50 ∷ []) (omega arith)
      (omega arith) (omega arith) refl

-- The number is read, and the zero byte is put behind the line.
mem_usage_run :
    mem_usage (some (codes "Name: wl" ∷ codes "VmSize:  4711 kB" ∷ [])) (replicate 128 0)
    ≡ some 4711
unfolding mem_usage equal strtol worker_log.Base.c_string worker_log.Log.Memory.set_zero
mem_usage_run = refl
