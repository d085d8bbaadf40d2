-- ===== src/Autoscale/Lifecycle.antt =====
-- src/autoscale/lifecycle.rs: bring one replica up, and take one down.
pub mod Mirror
pub mod Kept
pub mod Fresh
pub mod Books
pub mod Drain
use Prim.Native.String.{String}
use denia.Prelude.{ℕ, Bool, true, false, Option, none, some, List, Map}
pub use denia.Prelude.{Outcome, ok, err}
use denia.Autoscale.Policy.{ResourceLimits}
use denia.Autoscale.Ledger
use denia.Autoscale.Ledger.{ResourceLedger}
use denia.Autoscale.Registry
use denia.Autoscale.Registry.{ReplicaRegistry, ReplicaState}
use denia.Ingress.Pool
use denia.Ingress.Pool.{Pools}

pub record HealthCheck : Type 0 where
  pub path : String
  pub timeout_seconds : ℕ

-- `artifact` and the environment are handed through unread: `payload` stands for both.
pub record LaunchSpec : Type 0 where
  pub service_name : String
  pub service_id : ℕ
  pub deployment_id : ℕ
  pub replica_index : ℕ
  pub payload : ℕ
  pub internal_port : ℕ
  pub limits : ResourceLimits
  pub health_check : HealthCheck

-- The fields of `RuntimeStartRequest` that vary: the placeholder socket path is a function of the
-- service's id, and the three cgroup options are `None`.
pub record StartRequest : Type 0 where
  pub service_name : String
  pub service_id : ℕ
  pub deployment_id : ℕ
  pub payload : ℕ
  pub internal_port : ℕ
  pub limits : ResourceLimits
  pub replica_index : ℕ

pub record RuntimeInstanceId : Type 0 where
  pub service_id : ℕ
  pub service_name : String
  pub replica_index : ℕ

pub record RuntimeStatus : Type 0 where
  pub service_id : ℕ
  pub service_name : String
  pub deployment_id : ℕ
  pub socket_path : ℕ
  pub replica_index : ℕ

pub data LifecycleError : Type 0 where
  capacity : LifecycleError
  runtime : String → LifecycleError
  health : LifecycleError

-- What the autoscaler calls and does not implement. `World` is the state of all that: processes,
-- sockets, cgroups, clocks, the database. The `Runtime`, `HealthChecker` and `UsageSource` traits,
-- `Uuid::now_v7` and `Instant::now` are functions of it.
pub record Env : Type 1 where
  pub World : Type 0
  pub now_v7 : World → ℕ × World
  pub instant : World → ℕ
  pub start : StartRequest → World → Outcome RuntimeStatus String × World
  pub stop : RuntimeInstanceId → World → World
  pub check : ℕ → HealthCheck → World → Bool × World
  pub sleep : ℕ → World → World

-- The `&mut` parameters that the two functions share, and the world.
pub record Fleet (W : Type 0) : Type 0 where
  pub registry : ReplicaRegistry
  pub ledger : ResourceLedger
  pub pools : Pools
  pub world : W

abbrev pub start_request : LaunchSpec → StartRequest
start_request spec = record {
  service_name = spec.service_name;
  service_id = spec.service_id;
  deployment_id = spec.deployment_id;
  payload = spec.payload;
  internal_port = spec.internal_port;
  limits = spec.limits;
  replica_index = spec.replica_index;
}

abbrev pub instance_of : LaunchSpec → RuntimeInstanceId
instance_of spec = record {
  service_id = spec.service_id;
  service_name = spec.service_name;
  replica_index = spec.replica_index;
}

module _ (env : Env) where
  open env use {World, now_v7, instant, start, stop, check, sleep}

  -- Steps 3 and 4: register the replica, Pending, and its endpoint, unhealthy.
  unfoldable pub register : LaunchSpec → RuntimeStatus → Fleet World → ℕ × Fleet World
  register spec status s =
      let (replica_id, w) = now_v7 s.world in
      (
        replica_id,
        record s {
          registry =
              Registry.add s.registry replica_id spec.service_id spec.deployment_id
                spec.replica_index status.socket_path;
          pools =
              Pool.add_replica (instant w) s.pools spec.service_id replica_id status.socket_path;
          world = w;
        },
      )

  -- The rollback of step 5.
  unfoldable pub roll_back : LaunchSpec → ℕ → Fleet World → Fleet World
  roll_back spec replica_id s = record {
    registry = Registry.remove_replica s.registry replica_id;
    ledger = Ledger.release s.ledger spec.limits;
    pools = Pool.remove_replica s.pools spec.service_id replica_id;
    world = stop (instance_of spec) s.world;
  }

  -- Step 6.
  unfoldable pub promote : LaunchSpec → ℕ → Fleet World → Fleet World
  promote spec replica_id s = record s {
    registry = Registry.set_state s.registry replica_id ReplicaState.healthy;
    pools = Pool.set_replica_healthy s.pools spec.service_id replica_id true;
  }

  -- What follows the health check.
  unfoldable pub verdict :
      LaunchSpec → ℕ → Bool → Fleet World → Outcome ℕ LifecycleError × Fleet World
  unfolding roll_back promote
  verdict spec replica_id true s = (ok replica_id, promote spec replica_id s)
  verdict spec replica_id false s = (err health, roll_back spec replica_id s)

  -- Steps 5 and 6.
  unfoldable pub gate :
      LaunchSpec → RuntimeStatus → ℕ → Fleet World → Outcome ℕ LifecycleError × Fleet World
  unfolding verdict
  gate spec status replica_id s =
      let (passed, w) = check status.socket_path spec.health_check s.world in
      verdict spec replica_id passed (record s { world = w })

  -- What follows the call of `runtime.start`.
  unfoldable pub started :
      LaunchSpec
      → Outcome RuntimeStatus String
      → Fleet World
      → Outcome ℕ LifecycleError × Fleet World
  unfolding register gate
  started spec (err e) s =
      (err (runtime e), record s { ledger = Ledger.release s.ledger spec.limits })
  started spec (ok status) s =
      let (replica_id, s') = register spec status s in gate spec status replica_id s'

  -- What follows the reservation.
  unfoldable pub granted :
      LaunchSpec → Option ResourceLedger → Fleet World → Outcome ℕ LifecycleError × Fleet World
  unfolding started
  granted spec none s = (err capacity, s)
  granted spec (some l) s =
      let (result, w) = start (start_request spec) s.world in
      started spec result (record s { ledger = l; world = w })

  unfoldable pub launch_replica : LaunchSpec → Fleet World → Outcome ℕ LifecycleError × Fleet World
  unfolding granted
  launch_replica spec s = granted spec (Ledger.try_reserve s.ledger spec.limits) s

  -- `drain_replica` always returns `Ok(())`.
  unfoldable pub drain_replica :
      ℕ → ℕ → RuntimeInstanceId → ResourceLimits → ℕ → Fleet World → Fleet World
  drain_replica service_key replica_id inst limits grace s =
      let g = Registry.set_state s.registry replica_id ReplicaState.draining in
      let ps = Pool.set_replica_healthy s.pools service_key replica_id false in
      record {
        registry = Registry.remove_replica g replica_id;
        ledger = Ledger.release s.ledger limits;
        pools = Pool.remove_replica ps service_key replica_id;
        world = stop inst (sleep grace s.world);
      }
