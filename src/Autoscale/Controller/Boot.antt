-- ===== src/Autoscale/Controller/Boot.antt =====
-- The operations of the controller beside the tick: activation of a sleeping service, boot
-- reconcile, the hand-over after a deploy, and the stop path. What the catalog resolves a service
-- to is an argument.
pub mod Balance
use Prim.Native.String.{String}
use denia.Prelude.{
  ℕ, suc, ◌+◌, ◌-◌, Bool, true, false, ◌&&◌, Option, none, some, List, [], ◌∷◌, ◌++◌, ltb, leb,
  ◌==◌, if◌then◌else◌, find?,
}
use denia.Autoscale.Scaler.{clamp}
use denia.Autoscale.Ledger
use denia.Autoscale.Ledger.{ResourceLedger}
use denia.Autoscale.Registry
use denia.Autoscale.Registry.{ReplicaState, replica_count}
use denia.Autoscale.Lifecycle.{
  Outcome, ok, err, LifecycleError, RuntimeStatus, RuntimeInstanceId, Env, Fleet, launch_replica,
}
use denia.Autoscale.Controller.{
  LogLine, line, never_healthy, launch_error, AutoscaleEvent, scaled_up, scaled_down, adopted,
  orphan_removed, ManagedService, Host, launch_spec,
}
use denia.Autoscale.Controller.Scaling.{Scaled, scale_up, drain_all_replicas}
use denia.Ingress.Pool

-- `ActivationError::Failed`; its text is a function of the launch's error.
pub data ActivationError : Type 0 where
  unknown_service : ActivationError
  launch_failed : LifecycleError → ActivationError

-- The line that `activate_one` appends for an error.
abbrev failure_line : ManagedService → LifecycleError → LogLine
failure_line ms LifecycleError.capacity = line "scale-up denied: insufficient host capacity"
failure_line ms LifecycleError.health = never_healthy ms.internal_port
failure_line ms (LifecycleError.runtime e) = launch_error e

module _ (env : Env) (host : Host env) (grace : ℕ) where
  open env use {World, now_v7, instant, stop}
  open host use {list_running, get_desired, set_desired, append_log}

  abbrev pub log_line : ℕ → LogLine → Fleet World → Fleet World
  log_line service_id text s = record s { world = append_log service_id text s.world }

  unfoldable pub activated :
      ManagedService
      → Outcome ℕ LifecycleError × Fleet World
      → Outcome (Unit {0}) ActivationError × Fleet World
  activated ms (ok _, s) = (ok tt, log_line ms.service_id (line "scaling up from zero") s)
  activated ms (err e, s) = (err (launch_failed e), log_line ms.service_id (failure_line ms e) s)

  unfoldable pub activate_one :
      Option ManagedService → Fleet World → Outcome (Unit {0}) ActivationError × Fleet World
  unfolding activated launch_spec
  activate_one none s = (err unknown_service, s)
  activate_one (some ms) s =
      if leb 1 (replica_count s.registry ms.service_id)
      then (ok tt, s)
      else if ms.policy.max_replicas == 0
      then (ok tt, s)
      else activated ms (launch_replica env (launch_spec ms 0) s)

  abbrev or_min : Option ℕ → ManagedService → ℕ
  or_min none ms = ms.policy.min_replicas
  or_min (some n) ms = n

  unfoldable pub topped : ManagedService → ℕ → Scaled World → List AutoscaleEvent × Fleet World
  topped ms start r =
      let s = record (r.fleet) { world = set_desired ms.service_id r.current r.fleet.world } in
      if ltb start r.current
      then (r.events ++ scaled_up ms.service_name start r.current ∷ [], s)
      else (r.events, s)

  -- `none` is a panic of the clamp.
  unfoldable pub top_up_to_desired :
      ManagedService → Fleet World → Option (List AutoscaleEvent × Fleet World)
  unfolding clamp topped
  top_up_to_desired ms s =
      let desired = or_min (get_desired ms.service_id s.world) ms in
      let start = replica_count s.registry ms.service_id in
      elim (clamp desired ms.policy.min_replicas ms.policy.max_replicas) [
        | none ↦ none
        | some target ↦ some (topped ms start (scale_up env ms (target - start) start s))
      ]

  unfoldable pub reconcile_service :
      Option ManagedService → Fleet World → Option (List AutoscaleEvent × Fleet World)
  unfolding top_up_to_desired
  reconcile_service none s = some ([], s)
  reconcile_service (some ms) s = top_up_to_desired ms s

  unfoldable pub drain_all : Option ManagedService → Fleet World → List AutoscaleEvent × Fleet World
  drain_all none s = ([], s)
  drain_all (some ms) s =
      let start = replica_count s.registry ms.service_id in
      let d = drain_all_replicas env ms grace s in
      let s' = record d { world = set_desired ms.service_id 0 d.world } in
      (if ltb 0 start then scaled_down ms.service_name start 0 ∷ [] else [], s')

  -- A workload whose budget was reserved enters the registry and its pool, Healthy.
  unfoldable pub adopt : ManagedService → RuntimeStatus → ResourceLedger → Fleet World → Fleet World
  adopt ms status l s =
      let (id, w) = now_v7 s.world in
      let g =
        Registry.add s.registry id ms.service_id status.deployment_id status.replica_index
          status.socket_path in
      let ps = Pool.add_replica (instant w) s.pools ms.service_id id status.socket_path in
      record {
        registry = Registry.set_state g id ReplicaState.healthy;
        ledger = l;
        pools = Pool.set_replica_healthy ps ms.service_id id true;
        world = w;
      }

  unfoldable pub remove_orphan : RuntimeStatus → Fleet World → List AutoscaleEvent × Fleet World
  remove_orphan status s =
      let inst : RuntimeInstanceId = record {
        service_id = status.service_id;
        service_name = status.service_name;
        replica_index = status.replica_index;
      } in
      (
        orphan_removed status.service_name status.replica_index ∷ [],
        record s { world = stop inst s.world },
      )

  unfoldable pub adopt_if :
      ManagedService
      → RuntimeStatus
      → Option ResourceLedger
      → Fleet World
      → List AutoscaleEvent × Fleet World
  unfolding adopt remove_orphan
  adopt_if ms status none s = remove_orphan status s
  adopt_if ms status (some l) s =
      (adopted ms.service_name status.replica_index ∷ [], adopt ms status l s)

  -- One running workload: adopted, or stopped as an orphan.
  unfoldable pub review :
      Option ManagedService → RuntimeStatus → Fleet World → List AutoscaleEvent × Fleet World
  unfolding adopt_if
  review none status s = remove_orphan status s
  review (some ms) status s =
      if status.deployment_id == ms.deployment_id
      then adopt_if ms status (Ledger.try_reserve s.ledger ms.limits) s
      else remove_orphan status s

  abbrev pub manager_of : List ManagedService → RuntimeStatus → Option ManagedService
  manager_of services status = find? (λ ms. ms.service_id == status.service_id) services

  unfoldable pub review_each :
      List ManagedService → List RuntimeStatus → Fleet World → List AutoscaleEvent × Fleet World
  unfolding review
  review_each services [] s = ([], s)
  review_each services (status ∷ more) s =
      let (events, s') = review (manager_of services status) status s in
      let (later, s'') = review_each services more s' in (events ++ later, s'')

  unfoldable pub note_idle : ManagedService → Fleet World → Fleet World
  note_idle ms s =
      if ms.policy.min_replicas == 0 && replica_count s.registry ms.service_id == 0
      then log_line ms.service_id (line "idle (scaled to zero) — waiting for first request to wake")
          s
      else s

  unfoldable pub top_up_each :
      List ManagedService → Fleet World → Option (List AutoscaleEvent × Fleet World)
  unfolding top_up_to_desired note_idle
  top_up_each [] s = some ([], s)
  top_up_each (ms ∷ rest) s = elim (top_up_to_desired ms s) [
    | none ↦ none
    | some (events, s') ↦ elim (top_up_each rest (note_idle ms s')) [
      | none ↦ none
      | some (later, s'') ↦ some (events ++ later, s'')
    ]
  ]

  unfoldable pub reconcile_boot :
      List ManagedService → Fleet World → Option (List AutoscaleEvent × Fleet World)
  unfolding review_each top_up_each
  reconcile_boot services s =
      let (running, w) = list_running s.world in
      let (events, s') = review_each services running (record s { world = w }) in
      elim (top_up_each services s') [
        | none ↦ none
        | some (later, s'') ↦ some (events ++ later, s'')
      ]
