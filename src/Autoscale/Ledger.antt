-- ===== src/Autoscale/Ledger.antt =====
-- src/autoscale/ledger.rs: the host's budget of CPU and memory.
pub mod Capacity
use denia.Prelude.{
  ℕ, ◌-◌, Bool, ◌||◌, Option, none, some, ltb, if◌then◌else◌, u32_max, u64_max, saturating_add,
}
use denia.Autoscale.Policy.{ResourceLimits}

pub record HostCapacity : Type 0 where
  pub cpu_millis : ℕ  -- u32
  pub mem_bytes : ℕ  -- u64

pub record Headroom : Type 0 where
  pub cpu_millis : ℕ  -- u32
  pub mem_bytes : ℕ  -- u64

pub record ResourceLedger : Type 0 where
  pub committed_cpu : ℕ  -- u32
  pub committed_mem : ℕ  -- u64
  pub allocatable_cpu : ℕ  -- u32
  pub allocatable_mem : ℕ  -- u64

-- `saturating_sub` is the truncated subtraction.
unfoldable pub new : HostCapacity → Headroom → ResourceLedger
new host headroom = record {
  committed_cpu = 0;
  committed_mem = 0;
  allocatable_cpu = host.cpu_millis - headroom.cpu_millis;
  allocatable_mem = host.mem_bytes - headroom.mem_bytes;
}

-- `none` is `Err(InsufficientCapacity)`, which leaves the ledger as it was.
unfoldable pub try_reserve : ResourceLedger → ResourceLimits → Option ResourceLedger
try_reserve l limits =
    let next_cpu = saturating_add u32_max l.committed_cpu limits.cpu_millis in
    let next_mem = saturating_add u64_max l.committed_mem limits.memory_bytes in
    if ltb l.allocatable_cpu next_cpu || ltb l.allocatable_mem next_mem
    then none
    else some (record l { committed_cpu = next_cpu; committed_mem = next_mem })

unfoldable pub release : ResourceLedger → ResourceLimits → ResourceLedger
release l limits = record l {
  committed_cpu = l.committed_cpu - limits.cpu_millis;
  committed_mem = l.committed_mem - limits.memory_bytes;
}
