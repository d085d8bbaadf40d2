-- ===== src/Autoscale/Controller.antt =====
-- src/autoscale/controller.rs: the control loop over the managed services.
pub mod Scaling
pub mod Tick
pub mod Boot
pub mod History
use Prim.Native.String.{String}
use denia.Prelude.{
  ℕ, suc, ◌+◌, ◌%◌, Bool, true, false, Option, none, some, List, [], ◌∷◌, leb, if◌then◌else◌, Map,
}
use denia.Autoscale.Policy.{ResourceLimits, AutoscalePolicy}
use denia.Autoscale.Scaler.{CooldownState}
use denia.Autoscale.Registry
use denia.Autoscale.Registry.{Replica, replicas}
use denia.Autoscale.Lifecycle.{
  HealthCheck, LaunchSpec, RuntimeInstanceId, RuntimeStatus, LifecycleError, Env, Fleet,
}
use denia.Autoscale.Usage.{ServiceUsage}

-- `ScaleUpDenied` carries the text of the error that stopped the launch; `RolloutStep` names the
-- deployment that is rolled out.
pub data AutoscaleEvent : Type 0 where
  scaled_up scaled_down : String → ℕ → ℕ → AutoscaleEvent
  scale_up_denied : String → LifecycleError → AutoscaleEvent
  scaled_to_zero : String → AutoscaleEvent
  rollout_step : String → ℕ → AutoscaleEvent
  adopted orphan_removed : String → ℕ → AutoscaleEvent

-- `payload` stands for the artifact and the environment, which are handed through unread.
pub record ManagedService : Type 0 where
  pub service_name : String
  pub service_id : ℕ
  pub deployment_id : ℕ
  pub policy : AutoscalePolicy
  pub payload : ℕ
  pub internal_port : ℕ
  pub limits : ResourceLimits
  pub health_check : HealthCheck

-- A line of a service's log: a fixed text, or a text with the port or the runtime's error in it.
pub data LogLine : Type 0 where
  line : String → LogLine
  never_healthy : ℕ → LogLine
  launch_error : String → LogLine

-- What the controller calls beside the lifecycle: the `UsageSource`, `Runtime::list_running`, the
-- database and the log. The code drops the errors of the writes, and reads a failed
-- `get_desired_replicas` as a missing row.
pub record Host (env : Env) : Type 0 where
  pub usage : String → List Replica → ResourceLimits → env.World → ServiceUsage × env.World
  pub list_running : env.World → List RuntimeStatus × env.World
  pub get_desired : ℕ → env.World → Option ℕ
  pub set_desired : ℕ → ℕ → env.World → env.World
  pub append_log : ℕ → LogLine → env.World → env.World

pub record Controller (W : Type 0) : Type 0 where
  pub fleet : Fleet W
  pub cooldowns : Map ℕ CooldownState

unfoldable pub launch_spec : ManagedService → ℕ → LaunchSpec
launch_spec ms replica_index = record {
  service_name = ms.service_name;
  service_id = ms.service_id;
  deployment_id = ms.deployment_id;
  replica_index = replica_index;
  payload = ms.payload;
  internal_port = ms.internal_port;
  limits = ms.limits;
  health_check = ms.health_check;
}

abbrev pub instance_at : ManagedService → ℕ → RuntimeInstanceId
instance_at ms index = record {
  service_id = ms.service_id;
  service_name = ms.service_name;
  replica_index = index;
}

-- `Iterator::max` over the indices.
unfoldable pub max_index : List Replica → Option ℕ
max_index [] = none
max_index (r ∷ rs) = elim (max_index rs) [
  | none ↦ some r.index
  | some m ↦ some (if leb r.index m then m else r.index)
]

-- `m + 1` of `u32` wraps.
abbrev pub index_after : Option ℕ → ℕ
index_after none = 0
index_after (some m) = (m + 1) % 4294967296

unfoldable pub next_replica_index : {W : Type 0} → Fleet W → ℕ → ℕ
unfolding max_index
next_replica_index s service_id = index_after (max_index (replicas s.registry service_id))

-- `Iterator::max_by_key` over the indices: of several, the last.
unfoldable pub last_max : Replica → List Replica → Replica
last_max best [] = best
last_max best (r ∷ rs) = last_max (if leb best.index r.index then r else best) rs

unfoldable pub highest : List Replica → Option Replica
unfolding last_max
highest [] = none
highest (r ∷ rs) = some (last_max r rs)
