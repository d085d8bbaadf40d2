-- ===== src/Autoscale/Controller/Scaling.antt =====
-- The loops of the controller that launch and drain replicas of one service.
pub mod Balance
use denia.Prelude.{ℕ, zero, suc, ◌+◌, ◌-◌, Option, none, some, List, [], ◌∷◌, ◌++◌, nat_key}
use denia.Autoscale.Registry.{Replica, replicas}
use denia.Autoscale.Lifecycle.{
  Outcome, ok, err, LifecycleError, Env, Fleet, launch_replica, drain_replica,
}
use denia.Autoscale.Controller.{
  AutoscaleEvent, scale_up_denied, ManagedService, launch_spec, instance_at, next_replica_index,
  highest,
}

-- What a loop leaves: its events, the fleet, and its count of replicas.
pub record Scaled (W : Type 0) : Type 0 where
  pub events : List AutoscaleEvent
  pub fleet : Fleet W
  pub current : ℕ

module _ (env : Env) (ms : ManagedService) where
  open env use {World}

  -- `while current < desired`, with `left` = `desired - current`: a launch that fails ends it.
  unfoldable pub scale_up : ℕ → ℕ → Fleet World → Scaled World
  unfolding launch_spec next_replica_index
  scale_up zero current s = record { events = []; fleet = s; current = current }
  scale_up (suc left) current s =
      let spec = launch_spec ms (next_replica_index s ms.service_id) in
      let (result, s') = launch_replica env spec s in
      elim result [
        | ok _ ↦ scale_up left (current + 1) s'
        | err e ↦ record {
          events = scale_up_denied ms.service_name e ∷ [];
          fleet = s';
          current = current;
        }
      ]

  -- `while current > desired`, with `left` = `current - desired`: the replica of highest index goes.
  unfoldable pub scale_down : ℕ → ℕ → ℕ → Fleet World → Scaled World
  unfolding highest
  scale_down grace zero current s = record { events = []; fleet = s; current = current }
  scale_down grace (suc left) current s = elim (highest (replicas s.registry ms.service_id)) [
    | none ↦ record { events = []; fleet = s; current = current }
    | some r ↦
        scale_down grace left (current - 1)
          (drain_replica env ms.service_id r.id (instance_at ms r.index) ms.limits grace s)
  ]

  -- `drain_all_replicas`, over the list as it was at the start.
  unfoldable pub drain_each : ℕ → List Replica → Fleet World → Fleet World
  drain_each grace [] s = s
  drain_each grace (r ∷ rs) s =
      drain_each grace rs
        (drain_replica env ms.service_id r.id (instance_at ms r.index) ms.limits grace s)

  unfoldable pub drain_all_replicas : ℕ → Fleet World → Fleet World
  unfolding drain_each
  drain_all_replicas grace s = drain_each grace (replicas s.registry ms.service_id) s
