-- ===== src/Autoscale/Usage.antt =====
-- src/autoscale/usage.rs: the CPU share of one replica, and the average over a service.
use denia.Prelude.{
  ℕ, ◌+◌, ◌-◌, ◌*◌, ◌/◌, max, ◌||◌, List, [], ◌∷◌, ◌==◌, leb, if◌then◌else◌, length, u64_max,
}
use denia.Autoscale.Scaler.{as_u32}

-- `saturating_mul` of `u64`.
abbrev mul_u64 : ℕ → ℕ → ℕ
mul_u64 a b = if leb (a * b) u64_max then a * b else u64_max

unfoldable pub cpu_pct : ℕ → ℕ → ℕ → ℕ → ℕ
cpu_pct prev_usec cur_usec window_us cpu_millis =
    if window_us == 0 || cpu_millis == 0
    then 0
    else let denom = mul_u64 window_us cpu_millis in
      if denom == 0 then 0 else as_u32 (mul_u64 (cur_usec - prev_usec) 100000 / denom)

pub record ServiceUsage : Type 0 where
  pub avg_cpu_pct : ℕ
  pub avg_mem_pct : ℕ
  pub max_mem_pct : ℕ
  pub replica_count : ℕ
  pub live_readings : ℕ

unfoldable pub sum_cpu : List (ℕ × ℕ) → ℕ
sum_cpu [] = 0
sum_cpu ((c, m) ∷ ps) = c + sum_cpu ps

unfoldable pub sum_mem : List (ℕ × ℕ) → ℕ
sum_mem [] = 0
sum_mem ((c, m) ∷ ps) = m + sum_mem ps

unfoldable pub max_mem : List (ℕ × ℕ) → ℕ
max_mem [] = 0
max_mem ((c, m) ∷ ps) = max m (max_mem ps)

-- The list is as long as the service has replicas, far below the range of `u32`.
unfoldable pub aggregate : List (ℕ × ℕ) → ℕ → ServiceUsage
unfolding sum_cpu sum_mem max_mem
aggregate per_replica attempted =
    let n = length per_replica in
    if n == 0
    then record {
      avg_cpu_pct = 0;
      avg_mem_pct = 0;
      max_mem_pct = 0;
      replica_count = attempted;
      live_readings = 0;
    }
    else record {
      avg_cpu_pct = as_u32 (sum_cpu per_replica / n);
      avg_mem_pct = as_u32 (sum_mem per_replica / n);
      max_mem_pct = max_mem per_replica;
      replica_count = max attempted n;
      live_readings = n;
    }
