-- ===== src/Autoscale/Lifecycle/Books.antt =====
-- The books of the autoscaler: the ledger against the registry, and the registry against the
-- ingress pools, through every launch and every drain.
use Prim.Native.String.{String}
use native.Mathlib.Nat.{le_trans, le_of_eq}
use mathlib.Core.Path.{ap₂}
use denia.Prelude.{
  ℕ, ◌+◌, ◌≤◌, ◌<◌, ◌≡◌, ◌≢◌, refl, sym, ap, ◌∙◌, Bool, true, false, Option, none, some, [], ◌∷◌,
  ◌++◌, nat_key,
}
use denia.Autoscale.Policy.{ResourceLimits}
use denia.Autoscale.Ledger
use denia.Autoscale.Ledger.{ResourceLedger}
use denia.Autoscale.Ledger.Capacity.{HasRoom, try_reserve_exact, release-try_reserve}
use denia.Autoscale.Registry.{Replica, ReplicaState, replicas}
use denia.Autoscale.Registry.Sums.{new_replica, weight}
use denia.Ingress.Pool.Views.{endpoints}
use denia.Autoscale.Lifecycle.{
  HealthCheck, StartRequest, LaunchSpec, RuntimeStatus, RuntimeInstanceId, LifecycleError, Outcome,
  ok, err, Env, Fleet, register, roll_back, promote, verdict, gate, started, granted,
  launch_replica, start_request,
}
use denia.Autoscale.Lifecycle.Fresh.{
  undone, promoted_self, promoted_other, undone_Kept, promoted_Kept, undone_endpoints,
  undone_weight, promoted_weight,
}
use denia.Autoscale.Lifecycle.Kept.{Kept, Kept-later}

-- What the proofs use of the environment: `Uuid::now_v7` is documented to order the ids of one
-- process by their creation, and nothing else here makes ids.
pub record Monotone (env : Env) : Type 0 where
  pub last_id : env.World → ℕ
  pub now_v7_grows : (w : env.World) → last_id w < (env.now_v7 w).0
  pub now_v7_last : (w : env.World) → last_id (env.now_v7 w).1 ≡ (env.now_v7 w).0
  pub start_keeps : (r : StartRequest) (w : env.World) → last_id w ≤ last_id (env.start r w).1
  pub stop_keeps : (i : RuntimeInstanceId) (w : env.World) → last_id w ≤ last_id (env.stop i w)
  pub check_keeps :
      (p : ℕ) (h : HealthCheck) (w : env.World) → last_id w ≤ last_id (env.check p h w).1
  pub sleep_keeps : (n : ℕ) (w : env.World) → last_id w ≤ last_id (env.sleep n w)

-- The state that a failed launch leaves: the same lists, the same ledger.
pub record Unchanged {W : Type 0} (s s' : Fleet W) : Type 0 where
  pub same_replicas : (t : ℕ) → replicas s'.registry t ≡ replicas s.registry t
  pub same_endpoints : (t : ℕ) → endpoints s'.pools t ≡ endpoints s.pools t
  pub same_ledger : s'.ledger ≡ s.ledger

abbrev pub live_replica : ℕ → LaunchSpec → ℕ → Replica
live_replica i spec path =
    record (new_replica i spec.service_id spec.deployment_id spec.replica_index path) {
      state = ReplicaState.healthy;
    }

-- The state that a launch leaves: one more replica, Healthy, at the end of its service's list.
pub record Launched {W : Type 0} (spec : LaunchSpec) (i : ℕ) (s s' : Fleet W) : Type 0 where
  pub path : ℕ
  pub grown :
      replicas s'.registry spec.service_id
      ≡ replicas s.registry spec.service_id ++ live_replica i spec path ∷ []
  pub others : (t : ℕ) → spec.service_id ≢ t → replicas s'.registry t ≡ replicas s.registry t
  pub reserved : Ledger.try_reserve s.ledger spec.limits ≡ some s'.ledger

abbrev pub After : {W : Type 0} → LaunchSpec → Fleet W → Outcome ℕ LifecycleError × Fleet W → Type 0
After spec s (ok i, s') = Launched spec i s s'
After spec s (err e, s') = Unchanged s s'

-- `After` does not read the world before the launch.
After-world :
    {W : Type 0} (spec : LaunchSpec) (s : Fleet W) (w : W) (r : Outcome ℕ LifecycleError × Fleet W)
    → After spec (record s { world = w }) r
    → After spec s r
After-world spec s w (ok i, s') h = record {
  path = h.path;
  grown = h.grown;
  others = h.others;
  reserved = h.reserved;
}
After-world spec s w (err e, s') h = record {
  same_replicas = h.same_replicas;
  same_endpoints = h.same_endpoints;
  same_ledger = h.same_ledger;
}

pub record Books {W : Type 0} (lim : ℕ → ResourceLimits) (last : ℕ) (s : Fleet W) : Type 0 where
  pub kept : Kept s.registry s.pools last
  pub cpu : s.ledger.committed_cpu ≡ weight (λ k. (lim k).cpu_millis) s.registry
  pub mem : s.ledger.committed_mem ≡ weight (λ k. (lim k).memory_bytes) s.registry
  pub room : HasRoom s.ledger

-- What a reservation adds, and that the ledger still has room.
reserved_amounts :
    (l m : ResourceLedger) (limits : ResourceLimits)
    → HasRoom l
    → Ledger.try_reserve l limits ≡ some m
    → (m.committed_cpu ≡ l.committed_cpu + limits.cpu_millis)
      × (m.committed_mem ≡ l.committed_mem + limits.memory_bytes)
      × HasRoom m
reserved_amounts l m limits r e =
    let x = (try_reserve_exact l m limits r e).2 in
    (
      ap (λ (u : ResourceLedger). u.committed_cpu) x,
      ap (λ (u : ResourceLedger). u.committed_mem) x,
      record { cpu_room = rw x r.cpu_room; mem_room = rw x r.mem_room },
    )

module _ (env : Env) (laws : Monotone env) (lim : ℕ → ResourceLimits) where
  open env use {World, now_v7, start, check, stop, sleep}
  open laws use {last_id, now_v7_grows, now_v7_last, start_keeps, stop_keeps, check_keeps}

  abbrev pub BooksAt : Fleet World → Type 0
  BooksAt s = Books lim (last_id s.world) s

  -- The state after the reservation, with the ledger as it was before it.
  pub record Held (spec : LaunchSpec) (l : ResourceLedger) (s : Fleet World) : Type 0 where
    pub kept : Kept s.registry s.pools (last_id s.world)
    pub cpu : l.committed_cpu ≡ weight (λ k. (lim k).cpu_millis) s.registry
    pub mem : l.committed_mem ≡ weight (λ k. (lim k).memory_bytes) s.registry
    pub room : HasRoom l
    pub taken : Ledger.try_reserve l spec.limits ≡ some s.ledger
    pub own : spec.limits ≡ lim spec.service_id

  module _ (spec : LaunchSpec) (status : RuntimeStatus) (l : ResourceLedger) (s : Fleet World)
      (h : Held spec l s) where
    abbrev id_of : ℕ
    id_of = (now_v7 s.world).0

    abbrev now : ℕ
    now = env.instant (now_v7 s.world).1

    pub gate_passed :
        (w : World)
        → id_of ≤ last_id w
        → let s' = promote env spec id_of (record (register env spec status s).1 { world = w }) in
          Launched spec id_of (record s { ledger = l }) s' × BooksAt s'
    unfolding register promote
    gate_passed w le =
        let s0 = s.registry in
        let p0 = s.pools in
        let last = last_id s.world in
        let sid = spec.service_id in
        let d = spec.deployment_id in
        let x = spec.replica_index in
        let path = status.socket_path in
        let lt = now_v7_grows s.world in
        let (c, m, room) = reserved_amounts l s.ledger spec.limits h.room h.taken in
        (
          record {
            path = path;
            grown = promoted_self s0 p0 last now id_of sid d x path h.kept lt;
            others = promoted_other s0 p0 last now id_of sid d x path h.kept lt;
            reserved = h.taken;
          },
          record {
            kept =
                Kept-later _ _ id_of (last_id w) le
                  (promoted_Kept s0 p0 last now id_of sid d x path h.kept lt);
            cpu =
                c
                ∙ ap₂ ◌+◌ h.cpu (ap (λ (u : ResourceLimits). u.cpu_millis) h.own)
                ∙ sym (
                    promoted_weight s0 p0 last now id_of sid d x path h.kept lt
                      (λ k. (lim k).cpu_millis));
            mem =
                m
                ∙ ap₂ ◌+◌ h.mem (ap (λ (u : ResourceLimits). u.memory_bytes) h.own)
                ∙ sym (
                    promoted_weight s0 p0 last now id_of sid d x path h.kept lt
                      (λ k. (lim k).memory_bytes));
            room = room;
          },
        )

    gate_failed :
        (w : World)
        → id_of ≤ last_id w
        → let s' = roll_back env spec id_of (record (register env spec status s).1 { world = w }) in
          Unchanged (record s { ledger = l }) s' × BooksAt s'
    unfolding register roll_back
    gate_failed w le =
        let s0 = s.registry in
        let p0 = s.pools in
        let last = last_id s.world in
        let sid = spec.service_id in
        let d = spec.deployment_id in
        let x = spec.replica_index in
        let path = status.socket_path in
        let lt = now_v7_grows s.world in
        let back = release-try_reserve l s.ledger spec.limits h.room h.taken in
        let still = undone_weight s0 p0 last now id_of sid d x path h.kept lt in
        (
          record {
            same_replicas = undone s0 p0 last now id_of sid d x path h.kept lt;
            same_endpoints = undone_endpoints s0 p0 last now id_of sid d x path h.kept lt;
            same_ledger = back;
          },
          record {
            kept =
                Kept-later _ _ id_of (last_id (stop _ w)) (le_trans le (stop_keeps _ w))
                  (undone_Kept s0 p0 last now id_of sid d x path h.kept lt);
            cpu =
                ap (λ (u : ResourceLedger). u.committed_cpu) back
                ∙ h.cpu
                ∙ sym (still (λ k. (lim k).cpu_millis));
            mem =
                ap (λ (u : ResourceLedger). u.committed_mem) back
                ∙ h.mem
                ∙ sym (still (λ k. (lim k).memory_bytes));
            room = rw back h.room;
          },
        )

  -- A launch, on each of its branches: what it did, and that the books still balance.
  abbrev pub Balanced : LaunchSpec → Fleet World → Outcome ℕ LifecycleError × Fleet World → Type 0
  Balanced spec s r = After spec s r × BooksAt r.1

  verdict-Balanced :
      (spec : LaunchSpec) (status : RuntimeStatus) (l : ResourceLedger) (s : Fleet World)
      (passed : Bool) (w : World)
      → Held spec l s
      → (now_v7 s.world).0 ≤ last_id w
      → let (i, s') = register env spec status s in
        Balanced spec
          (record s { ledger = l })
          (verdict env spec i passed (record s' { world = w }))
  unfolding verdict register
  verdict-Balanced spec status l s true w h le = gate_passed spec status l s h w le
  verdict-Balanced spec status l s false w h le = gate_failed spec status l s h w le

  started-Balanced :
      (spec : LaunchSpec) (result : Outcome RuntimeStatus String) (l : ResourceLedger)
      (s : Fleet World)
      → Held spec l s
      → Balanced spec (record s { ledger = l }) (started env spec result s)
  unfolding started gate register
  started-Balanced spec (err e) l s h =
      let back = release-try_reserve l s.ledger spec.limits h.room h.taken in
      (
        record { same_replicas = λ t. refl; same_endpoints = λ t. refl; same_ledger = back },
        record {
          kept = h.kept;
          cpu = ap (λ (u : ResourceLedger). u.committed_cpu) back ∙ h.cpu;
          mem = ap (λ (u : ResourceLedger). u.committed_mem) back ∙ h.mem;
          room = rw back h.room;
        },
      )
  started-Balanced spec (ok status) l s h =
      let (i, s') = register env spec status s in
      let (passed, w) = check status.socket_path spec.health_check s'.world in
      verdict-Balanced spec status l s passed w h (
        le_trans (le_of_eq (sym (now_v7_last s.world)))
          (check_keeps status.socket_path spec.health_check s'.world))

  -- A launch of a spec with its service's limits, from books that balance, leaves books that
  -- balance. On `Ok` its service has one more replica, Healthy, at the end of its list, every
  -- other list is as it was, and the ledger is what the reservation made of it. On an error of any
  -- kind every replica list, every endpoint list and the ledger are as they were.
  pub launch_replica-Balanced :
      (spec : LaunchSpec) (s : Fleet World)
      → spec.limits ≡ lim spec.service_id
      → BooksAt s
      → Balanced spec s (launch_replica env spec s)
  unfolding launch_replica granted
  launch_replica-Balanced spec s own b = go (Ledger.try_reserve s.ledger spec.limits) refl
    where
      go :
          (o : Option ResourceLedger)
          → Ledger.try_reserve s.ledger spec.limits ≡ o
          → Balanced spec s (granted env spec o s)
      go none e =
          (record { same_replicas = λ t. refl; same_endpoints = λ t. refl; same_ledger = refl }, b)
      go (some l) e =
          let (result, w) = start (start_request spec) s.world in
          let r =
            started-Balanced spec result s.ledger (record s { ledger = l; world = w })
              (record {
                kept = Kept-later _ _ _ _ (start_keeps (start_request spec) s.world) b.kept;
                cpu = b.cpu;
                mem = b.mem;
                room = b.room;
                taken = e;
                own = own;
              }) in
          (After-world spec s w _ r.0, r.1)
