-- ===== src/Autoscale/Policy.antt =====
-- `AutoscalePolicy` and `ResourceLimits` of src/domain/service.rs.
use denia.Prelude.{
  ℕ, ◌≤◌, ◌≡◌, Bool, false, not, ◌&&◌, ◌||◌, Option, none, some, arith, ltb, leb, if◌then◌else◌,
}

pub record ResourceLimits : Type 0 where
  pub cpu_millis : ℕ  -- u32
  pub memory_bytes : ℕ  -- u64

pub record AutoscalePolicy : Type 0 where
  pub min_replicas : ℕ  -- u32
  pub max_replicas : ℕ  -- u32
  pub target_cpu_pct : ℕ  -- u8
  pub target_mem_pct : Option ℕ  -- u8
  pub scale_down_cooldown_s : ℕ  -- u32
  pub idle_timeout_s : ℕ  -- u32

pub data PolicyError : Type 0 where
  replica_bounds target_percent idle_below_cooldown : PolicyError

pub pct_ok : ℕ → Bool
pct_ok p = leb 1 p && leb p 100

-- `is_some_and(|p| !pct_ok(p))`.
bad_mem_target : Option ℕ → Bool
unfolding pct_ok
bad_mem_target none = false
bad_mem_target (some p) = not (pct_ok p)

-- `none` is `Ok(())`.
unfoldable pub validate : AutoscalePolicy → Option PolicyError
unfolding pct_ok bad_mem_target
validate p =
    if ltb p.max_replicas 1 || ltb p.max_replicas p.min_replicas
    then some PolicyError.replica_bounds
    else if not (pct_ok p.target_cpu_pct) || bad_mem_target p.target_mem_pct
    then some PolicyError.target_percent
    else if ltb p.idle_timeout_s p.scale_down_cooldown_s
    then some PolicyError.idle_below_cooldown
    else none

-- What the other modules use of a policy that passes.
pub record Bounds (p : AutoscalePolicy) : Type 0 where
  pub some_replica : 1 ≤ p.max_replicas
  pub ordered : p.min_replicas ≤ p.max_replicas
  pub target_pos : 1 ≤ p.target_cpu_pct
  pub target_le : p.target_cpu_pct ≤ 100

pub validate-Bounds : (p : AutoscalePolicy) → validate p ≡ none → Bounds p
unfolding validate
validate-Bounds p h = ground arith
