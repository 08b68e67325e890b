-- ===== src/CpuStat.antt =====
-- src/CpuStat.cpp and include/CpuStat.h: the share of the processor that the service takes, from two files
-- of the system, and the share of the memory that is free.
pub mod Growth
use worker_log.Base.{
  ℕ, ◌+◌, ◌-◌, ◌*◌, ◌/◌, ◌%◌, ◌^◌, Option, none, some, List, [], ◌∷◌, get_or, take, ◌==◌,
  if◌then◌else◌,
}

-- `struct meterage`: numbers of 64 bits.
pub record Meterage : Type 0 where
  pub utime_ticks : ℕ
  pub cutime_ticks : ℕ
  pub stime_ticks : ℕ
  pub cstime_ticks : ℕ
  pub vsize : ℕ
  pub rss : ℕ
  pub cpu_total_time : ℕ

-- `bzero`.
abbrev pub no_usage : Meterage
no_usage = record {
  utime_ticks = 0;
  cutime_ticks = 0;
  stime_ticks = 0;
  cstime_ticks = 0;
  vsize = 0;
  rss = 0;
  cpu_total_time = 0;
}

-- What `fscanf` stores of an open file, in order, or its end; less is stored where the text breaks off.
pub data Scan : Type 0 where
  eof : Scan
  stored : List ℕ → Scan

-- How `getUsage` ends: it closes a null pointer, gives false, or gives true; with what it leaves in `m`.
pub data Reading : Type 0 where
  crashed : Reading
  failed measured : Meterage → Reading

-- The loop over `cpu_time`.
unfoldable pub add_times : ℕ → List ℕ → ℕ
add_times sum [] = sum
add_times sum (time ∷ times) = add_times ((sum + time) % 2 ^ 64) times

-- The five numbers of the process, and its pages, which are what they were on the stack where none is read.
abbrev pub of_process : ℕ → ℕ → List ℕ → Meterage
of_process page_size old_rss values = record no_usage {
  utime_ticks = get_or values 0 0;
  stime_ticks = get_or values 1 0;
  cutime_ticks = get_or values 2 0;
  cstime_ticks = get_or values 3 0;
  vsize = get_or values 4 0;
  rss = get_or values 5 old_rss * page_size % 2 ^ 64;
}

abbrev pub with_total : Meterage → Scan → Reading
with_total m eof = failed m
with_total m (stored times) =
    measured (record m { cpu_total_time = add_times m.cpu_total_time (take 10 times) })

abbrev pub with_process : ℕ → ℕ → Scan → Scan → Reading
with_process page_size old_rss eof total = failed no_usage
with_process page_size old_rss (stored values) total =
    with_total (of_process page_size old_rss values) total

-- `CpuStat::getUsage`, where `none` is a file that cannot be opened.
unfoldable pub get_usage : ℕ → ℕ → Option Scan → Option Scan → Meterage → Reading
get_usage page_size old_rss none total m = failed m
get_usage page_size old_rss (some stat) none m = crashed
get_usage page_size old_rss (some stat) (some total) m = with_process page_size old_rss stat total

-- `double`, by what is done with it.
pub record Double : Type 1 where
  pub D : Type 0
  pub of_number : ℕ → D
  pub times : D → D → D
  pub divide : D → D → D

-- The state, of which two numbers and `rss` are static.
pub record CpuStat (F : Double) : Type 0 where
  pub cpu_user : F.D
  pub cpu_sys : F.D
  pub rss : ℕ
  pub last_usage : Meterage

-- Subtraction of numbers of 64 bits.
abbrev pub minus : ℕ → ℕ → ℕ
minus x y = (x + 2 ^ 64 - y % 2 ^ 64) % 2 ^ 64

abbrev pub user_ticks : Meterage → ℕ
user_ticks m = (m.utime_ticks + m.cutime_ticks) % 2 ^ 64

abbrev pub sys_ticks : Meterage → ℕ
sys_ticks m = (m.stime_ticks + m.cstime_ticks) % 2 ^ 64

module _ (F : Double) where
  abbrev pub after_first : F.D → F.D → ℕ → Reading → Option (CpuStat F)
  after_first user sys rss crashed = none
  after_first user sys rss (failed m) =
      some (record { cpu_user = user; cpu_sys = sys; rss = rss; last_usage = m })
  after_first user sys rss (measured m) =
      some (record { cpu_user = user; cpu_sys = sys; rss = rss; last_usage = m })

  -- The constructor, with the static members as they are and what the memory of the object holds at
  -- `last_usage`; `none` is a crash.
  pub create : ℕ → ℕ → Meterage → Option Scan → Option Scan → F.D → F.D → ℕ → Option (CpuStat F)
  unfolding get_usage
  create page_size old_rss old stat total user sys rss =
      after_first user sys rss (get_usage page_size old_rss stat total old)

  abbrev pub share : ℕ → ℕ → F.D
  share ticks time = F.times (F.of_number 1000) (F.divide (F.of_number ticks) (F.of_number time))

  abbrev pub with_usage : CpuStat F → Meterage → CpuStat F
  with_usage this cur =
      let total_time_diff = minus cur.cpu_total_time this.last_usage.cpu_total_time in
      record {
        cpu_user = share (minus (user_ticks cur) (user_ticks this.last_usage)) total_time_diff;
        cpu_sys = share (minus (sys_ticks cur) (sys_ticks this.last_usage)) total_time_diff;
        rss = cur.rss;
        last_usage = cur;
      }

  abbrev pub after_reading : CpuStat F → Reading → Option (CpuStat F)
  after_reading this crashed = none
  after_reading this (failed cur) = some (with_usage this cur)
  after_reading this (measured cur) = some (with_usage this cur)

  -- `CpuStat::cpuUsage`, where `old` is what the stack holds at `cur_usage`, and `none` a crash. Whether
  -- the reading failed is not looked at.
  unfoldable pub cpu_usage :
      ℕ → ℕ → Meterage → Option Scan → Option Scan → CpuStat F → Option (CpuStat F)
  unfolding get_usage
  cpu_usage page_size old_rss old stat total this =
      after_reading this (get_usage page_size old_rss stat total old)

-- `CpuStat::freeMem`, of the free and the total number of bytes that `sysinfo` gives: the bits of an
-- `int`, and no value for a division by 0.
unfoldable pub free_mem : Option (ℕ × ℕ) → Option ℕ
free_mem none = some (2 ^ 32 - 1)
free_mem (some (free_ram, total_ram)) =
    if total_ram == 0 then none else some (free_ram * 100 % 2 ^ 64 / total_ram % 2 ^ 32)
