-- ===== src/CpuStat/Growth.antt =====
-- What src/CpuStat.cpp shows of counters that grow.
use mathlib.Core.Option
use native.Mathlib.Nat.{mod-add-div', div-le_of_le-mul, mod-lt, mul-le-mul_right, add-mul}
use worker_log.Base.{
  ℕ, ◌+◌, ◌*◌, ◌/◌, ◌%◌, ◌^◌, ◌≤◌, ◌<◌, ◌≡◌, refl, ◌∙◌, some, List, [], ◌∷◌, take, false, arith,
  ◌==◌,
}
use worker_log.CpuStat.{
  Meterage, stored, Double, CpuStat, minus, share, add_times, cpu_usage, free_mem,
}

minus_grown : (x d y : ℕ) → d < 2 ^ 64 → y ≡ (x + d) % 2 ^ 64 → minus y (x % 2 ^ 64) ≡ d
minus_grown x d y small e = omega (arith, e, small)

-- The sum of two counters that have each grown, in 64 bits.
sum_grown :
    (x y d e : ℕ)
    → d + e < 2 ^ 64
    → minus (((x + d) % 2 ^ 64 + (y + e) % 2 ^ 64) % 2 ^ 64) ((x + y) % 2 ^ 64) ≡ d + e
sum_grown x y d e small = omega (arith, small)

module _ (F : Double) where
  abbrev pub shares : CpuStat F → F.D × F.D
  shares this = (this.cpu_user, this.cpu_sys)

  -- Where a reading finds both files, and the counters of the user and of the system, with those of the
  -- children, and the total have each grown by less than 2^64 since the one before, the shares are those of
  -- the ticks by which the counters have grown in that time, also if any of them wraps around.
  pub cpu_usage_grown :
      (page_size old_rss : ℕ) (old : Meterage) (this : CpuStat F)
      (user child_user sys child_sys time vsize pages : ℕ) (times : List ℕ)
      → user + child_user < 2 ^ 64
      → sys + child_sys < 2 ^ 64
      → time < 2 ^ 64
      → add_times 0 (take 10 times) ≡ (this.last_usage.cpu_total_time + time) % 2 ^ 64
      → Option.map shares (
          cpu_usage F page_size old_rss old
            (some (
              stored (
                (this.last_usage.utime_ticks + user) % 2 ^ 64
                ∷ (this.last_usage.stime_ticks + sys) % 2 ^ 64
                ∷ (this.last_usage.cutime_ticks + child_user) % 2 ^ 64
                ∷ (this.last_usage.cstime_ticks + child_sys) % 2 ^ 64
                ∷ vsize
                ∷ pages
                ∷ [])))
            (some (stored times))
            this)
        ≡ some (share F (user + child_user) time, share F (sys + child_sys) time)
  unfolding cpu_usage
  cpu_usage_grown page_size old_rss old this user child_user sys child_sys time vsize pages times hu
        hs ht total =
      let last = this.last_usage in
      let passed : minus (add_times 0 (take 10 times)) last.cpu_total_time ≡ time =
        omega (arith, total, ht) in
      let users = sum_grown last.utime_ticks last.cutime_ticks user child_user hu in
      let systems = sum_grown last.stime_ticks last.cstime_ticks sys child_sys hs in
      rw (users, systems, passed) refl

-- The free memory is a number of percent, rounded down and never above 100, where the system has some
-- memory, no more is free than there is, and a hundred times that number has 64 bits.
pub free_mem_percent :
    (free_ram total_ram : ℕ)
    → 0 < total_ram
    → free_ram ≤ total_ram
    → free_ram * 100 < 2 ^ 64
    → (percent : ℕ) × (free_mem (some (free_ram, total_ram)) ≡ some percent)
      × (percent ≤ 100)
      × (percent * total_ram ≤ free_ram * 100)
      × (free_ram * 100 < (percent + 1) * total_ram)
unfolding free_mem
free_mem_percent free_ram total_ram some_ram part small =
    let n = free_ram * 100 in
    let q = n / total_ram in
    let parts : n % total_ram + q * total_ram ≡ n = mod-add-div' n total_ram in
    let rest : n % total_ram < total_ram = mod-lt n some_ram in
    let top : q ≤ 100 = div-le_of_le-mul total_ram (mul-le-mul_right 100 part) in
    let next : (q + 1) * total_ram ≡ q * total_ram + total_ram =
      add-mul q 1 total_ram ∙ omega arith in
    let there : (total_ram == 0) ≡ false = ground (arith, some_ram) in
    let wide : n % 2 ^ 64 ≡ n = omega (arith, small) in
    let short : q % 2 ^ 32 ≡ q = omega (arith, top) in
    (q, rw (there, wide, short) refl, top, omega (arith, parts), omega (arith, parts, rest, next))
