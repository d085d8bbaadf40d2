-- ===== src/Autoscale/Controller/Tick.antt =====
-- `Controller::tick`: one step of every managed service toward its desired replica count. A service
-- has far fewer replicas than `u32` counts, so `replica_count as u32` is the count.
pub mod Settling
pub mod Rollout
pub mod Balance
use Prim.Native.String.{String}
use denia.Prelude.{
  ℕ, suc, ◌+◌, ◌-◌, ◌/◌, ◌*◌, Bool, true, false, not, ◌&&◌, Option, none, some, List, [], ◌∷◌, ◌++◌,
  ltb, leb, ◌==◌, if◌then◌else◌, length, retain, any, nat_key, lookup, insert, get_or, u64_max, Map,
}
use denia.Autoscale.Policy.{AutoscalePolicy}
use denia.Autoscale.Scaler.{
  CooldownState, idle_cooldown, desired_up, desired_down, clamp_loop, note_above_target,
  scale_down_allowed,
}
use denia.Autoscale.Registry.{Replica, replicas, replica_count}
use denia.Autoscale.Lifecycle.{
  Outcome, ok, err, LifecycleError, Env, Fleet, launch_replica, drain_replica,
}
use denia.Autoscale.Usage.{ServiceUsage}
use denia.Autoscale.Controller.{
  line, AutoscaleEvent, scaled_up, scaled_down, scale_up_denied, scaled_to_zero, rollout_step,
  ManagedService, Host, Controller, launch_spec, instance_at, next_replica_index,
}
use denia.Autoscale.Controller.Scaling.{Scaled, scale_up, scale_down, drain_all_replicas}
use denia.Ingress.Pool

-- The replicas of another deployment than the wanted one.
unfoldable pub outdated : ℕ → List Replica → List Replica
outdated deployment_id = retain (λ r. not (r.deployment_id == deployment_id))

-- The desired count from the readings, and the new cooldown. `none` is a panic of the clamp.
unfoldable pub desired_from_usage :
    AutoscalePolicy → ℕ → ServiceUsage → CooldownState → ℕ → CooldownState × Option ℕ
desired_from_usage p start u cd now_s =
    let up =
      desired_up start u.avg_cpu_pct p.target_cpu_pct (some u.avg_mem_pct) p.target_mem_pct in
    let down = desired_down start u.avg_cpu_pct p.target_cpu_pct in
    let (cd', allowed) = scale_down_allowed cd now_s p.scale_down_cooldown_s in
    if ltb start up
    then (note_above_target cd, clamp_loop up p.min_replicas p.max_replicas)
    else if ltb down start
    then (cd', if allowed then clamp_loop down p.min_replicas p.max_replicas else some start)
    else (cd, some start)

-- Seconds since the last request, in nanosecond readings; without a pool, the largest number.
unfoldable pub idle_secs : ℕ → Option ℕ → ℕ
idle_secs now none = u64_max
idle_secs now (some t) = (now - t) / 1000000000

unfoldable pub is_idle : AutoscalePolicy → ℕ → ServiceUsage → Bool
is_idle p secs u =
    p.min_replicas == 0 && (ltb p.idle_timeout_s secs && ltb u.avg_cpu_pct p.target_cpu_pct)

module _ (env : Env) (host : Host env) (grace : ℕ) where
  open env use {World, instant}
  open host use {usage, set_desired, append_log}

  -- The fleet after a write of the desired count.
  abbrev pub persist : ℕ → ℕ → Fleet World → Fleet World
  persist service_id n s = record s { world = set_desired service_id n s.world }

  -- The single old replica is drained once its successor is up.
  unfoldable pub surge :
      ManagedService
      → Replica
      → Outcome ℕ LifecycleError × Fleet World
      → List AutoscaleEvent × Fleet World
  surge ms old (ok _, s) = (
    rollout_step ms.service_name ms.deployment_id ∷ [],
    drain_replica env ms.service_id old.id (instance_at ms old.index) ms.limits grace s,
  )
  surge ms old (err e, s) = (scale_up_denied ms.service_name e ∷ [], s)

  abbrev pub rollout_event : ManagedService → Outcome ℕ LifecycleError → AutoscaleEvent
  rollout_event ms (ok _) = rollout_step ms.service_name ms.deployment_id
  rollout_event ms (err e) = scale_up_denied ms.service_name e

  -- Roll the first outdated replica to the wanted deployment.
  unfoldable pub roll : ManagedService → Replica → Fleet World → List AutoscaleEvent × Fleet World
  unfolding surge launch_spec next_replica_index
  roll ms old s =
      let spec = launch_spec ms (next_replica_index s ms.service_id) in
      let drained =
        drain_replica env ms.service_id old.id (instance_at ms old.index) ms.limits grace s in
      if leb (replica_count s.registry ms.service_id) 1
      then surge ms old (launch_replica env spec s)
      else let (result, s') = launch_replica env spec drained in (rollout_event ms result ∷ [], s')

  -- Steps 3 and 4: move to the desired count, report, and persist the count achieved.
  unfoldable pub report : ManagedService → ℕ → Scaled World → List AutoscaleEvent × Fleet World
  report ms start r =
      let s = r.fleet in
      let n = r.current in
      if ltb start n
      then (r.events ++ scaled_up ms.service_name start n ∷ [], persist ms.service_id n s)
      else if ltb n start
      then (
        r.events ++ scaled_down ms.service_name start n ∷ [],
        persist ms.service_id n (
            if n == 0
            then record s { world = append_log ms.service_id (line "scaled to zero") s.world }
            else s),
      )
      else (r.events, persist ms.service_id n s)

  unfoldable pub move_to : ManagedService → ℕ → ℕ → Fleet World → List AutoscaleEvent × Fleet World
  unfolding report
  move_to ms start desired s =
      let up = scale_up env ms (desired - start) start s in
      let down = scale_down env ms grace (up.current - desired) up.current up.fleet in
      report ms start (record down { events = up.events ++ down.events })

  -- Scale to zero: drain everything, persist 0, leave a line in the log.
  unfoldable pub to_zero : ManagedService → Fleet World → List AutoscaleEvent × Fleet World
  to_zero ms s =
      let s' = persist ms.service_id 0 (drain_all_replicas env ms grace s) in
      (
        scaled_to_zero ms.service_name ∷ [],
        record s' { world = append_log ms.service_id (line "scaled to zero (idle)") s'.world },
      )

  abbrev Stepped : Type 0
  Stepped = Option (List AutoscaleEvent × Controller World)

  -- `none` is a panic of the tick.
  unfoldable pub moved : ManagedService → ℕ → CooldownState × Option ℕ → Controller World → Stepped
  unfolding move_to
  moved ms start (cd, none) c = none
  moved ms start (cd, some desired) c =
      let (events, s) = move_to ms start desired c.fleet in
      some (events, record { fleet = s; cooldowns = insert ms.service_id cd c.cooldowns })

  -- A service with live replicas, after its usage was sampled.
  unfoldable pub sampled : ManagedService → ℕ → ℕ → ServiceUsage → Controller World → Stepped
  unfolding moved to_zero desired_from_usage idle_secs is_idle
  sampled ms start now_s u c =
      let secs =
        idle_secs (instant c.fleet.world) (Pool.last_activity c.fleet.pools ms.service_id) in
      let cd = get_or idle_cooldown ms.service_id c.cooldowns in
      let (events, s) = to_zero ms c.fleet in
      if u.live_readings == 0
      then some ([], record c { fleet = persist ms.service_id start c.fleet })
      else if is_idle ms.policy secs u
      then some (events, record c { fleet = s })
      else moved ms start (desired_from_usage ms.policy start u cd now_s) c

  -- No outdated replica is left: scale.
  unfoldable pub scale_service : ManagedService → ℕ → Controller World → Stepped
  unfolding sampled move_to
  scale_service ms now_s c =
      let start = replica_count c.fleet.registry ms.service_id in
      let (cold_events, cold) = move_to ms start ms.policy.min_replicas c.fleet in
      let (u, w) =
        usage ms.service_name (replicas c.fleet.registry ms.service_id) ms.limits c.fleet.world in
      if start == 0
      then if leb 1 ms.policy.min_replicas
        then some (cold_events, record c { fleet = cold })
        else some ([], record c { fleet = persist ms.service_id 0 c.fleet })
      else sampled ms start now_s u (record c { fleet = record (c.fleet) { world = w } })

  -- One round of the loop over the services.
  unfoldable pub tick_old : ManagedService → ℕ → List Replica → Controller World → Stepped
  unfolding scale_service roll
  tick_old ms now_s [] c = scale_service ms now_s c
  tick_old ms now_s (old ∷ _) c =
      let (events, s) = roll ms old c.fleet in
      some (
        events,
        record c { fleet = persist ms.service_id (replica_count s.registry ms.service_id) s },
      )

  unfoldable pub tick_service : ManagedService → ℕ → Controller World → Stepped
  unfolding tick_old outdated
  tick_service ms now_s c =
      tick_old ms now_s (outdated ms.deployment_id (replicas c.fleet.registry ms.service_id)) c

  unfoldable pub tick_each : List ManagedService → ℕ → Controller World → Stepped
  unfolding tick_service
  tick_each [] now_s c = some ([], c)
  tick_each (ms ∷ rest) now_s c = elim (tick_service ms now_s c) [
    | none ↦ none
    | some (events, c') ↦ elim (tick_each rest now_s c') [
      | none ↦ none
      | some (later, c'') ↦ some (events ++ later, c'')
    ]
  ]

  abbrev pub is_managed : List ManagedService → ℕ × CooldownState → Bool
  is_managed services (id, _) = any (λ ms. ms.service_id == id) services

  -- The cooldowns of services that are no longer managed go.
  unfoldable pub tick : List ManagedService → ℕ → Controller World → Stepped
  unfolding tick_each
  tick services now_s c = elim (tick_each services now_s c) [
    | none ↦ none
    | some (events, c') ↦
        some (events, record c' { cooldowns = retain (is_managed services) c'.cooldowns })
  ]
