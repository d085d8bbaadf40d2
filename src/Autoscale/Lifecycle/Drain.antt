-- ===== src/Autoscale/Lifecycle/Drain.antt =====
-- A drain: what it takes away, and what it does to the books.
use native.Mathlib.Nat.{le_trans}
use denia.Prelude.{ℕ, ◌+◌, ◌-◌, ◌*◌, ◌≤◌, ◌≡◌, ◌≢◌, refl, ap, ◌∙◌, false, List, [], ◌∷◌, arith}
use denia.Autoscale.Policy.{ResourceLimits}
use denia.Autoscale.Ledger
use denia.Autoscale.Registry
use denia.Autoscale.Registry.{Replica, ReplicaRegistry, ReplicaState, replicas, drop_id, set_first}
use denia.Autoscale.Registry.Views.{
  occurs, replicas-remove_replica, replicas-set_state, set_first-keeps, drop_id_absent,
  tally-set_state,
}
use denia.Autoscale.Registry.Sums.{weigh, weight, weight-remove_replica}
use denia.Ingress.Pool
use denia.Ingress.Pool.{Pools}
use denia.Autoscale.Lifecycle.{RuntimeInstanceId, Env, Fleet, drain_replica}
use denia.Autoscale.Lifecycle.Kept.{Kept, remove-Kept, set-Kept, Kept-later, elsewhere}
use denia.Autoscale.Lifecycle.Books.{Monotone, BooksAt}

drop-set_first :
    (i : ℕ) (st : ReplicaState) (rs : List Replica)
    → occurs i rs ≤ 1
    → drop_id i (set_first i st rs) ≡ drop_id i rs
unfolding set_first
drop-set_first i st [] h = refl
drop-set_first i st (r ∷ rs) h = ground (arith, drop-set_first i st rs)

module _ (env : Env) (laws : Monotone env) (lim : ℕ → ResourceLimits) (service i grace : ℕ)
    (inst : RuntimeInstanceId) (limits : ResourceLimits) (s : Fleet env.World)
    (b : BooksAt env laws lim s) (once : occurs i (replicas s.registry service) ≡ 1) where
  abbrev pub drained : Fleet env.World
  drained = drain_replica env service i inst limits grace s

  abbrev marked : ReplicaRegistry
  marked = Registry.set_state s.registry i ReplicaState.draining

  marked-Kept :
      Kept marked (Pool.set_replica_healthy s.pools service i false) (laws.last_id s.world)
  marked-Kept =
      set-Kept s.registry s.pools (laws.last_id s.world) i service ReplicaState.draining false refl
        once b.kept

  marked_once : occurs i (replicas marked service) ≡ 1
  marked_once =
      rw (replicas-set_state s.registry i service ReplicaState.draining (b.kept.unique i))
        ((set_first-keeps i i ReplicaState.draining (replicas s.registry service)).1 ∙ once)

  drained_Kept : Kept drained.registry drained.pools (laws.last_id drained.world)
  unfolding drain_replica
  drained_Kept =
      Kept-later _ _ _ _ (le_trans (laws.sleep_keeps grace s.world) (laws.stop_keeps inst _)) (
        remove-Kept marked (Pool.set_replica_healthy s.pools service i false) (laws.last_id s.world)
          i service marked_once marked-Kept)

  drained_weight : (w : ℕ → ℕ) → weight w drained.registry + w service ≡ weight w s.registry
  unfolding drain_replica
  drained_weight w =
      weight-remove_replica w marked i service marked-Kept.distinct (marked-Kept.unique i)
        marked_once
      ∙ tally-set_state (weigh w) s.registry i ReplicaState.draining
          (λ j rs. ap (λ u. u * w j) (set_first-keeps i i ReplicaState.draining rs).0)

  -- A drain takes the replica out of its service's list, and leaves every other list as it was.
  pub drained_replicas :
      (replicas drained.registry service ≡ drop_id i (replicas s.registry service))
      × ((t : ℕ) → service ≢ t → replicas drained.registry t ≡ replicas s.registry t)
  unfolding drain_replica
  drained_replicas = (own, other)
    where
      list :
          (t : ℕ)
          → occurs i (replicas s.registry t) ≤ 1
          → replicas (Registry.remove_replica marked i) t ≡ drop_id i (replicas s.registry t)
      list t h =
          rw
            (
              replicas-remove_replica marked i t marked-Kept.distinct,
              replicas-set_state s.registry i t ReplicaState.draining (b.kept.unique i),
            )
            (drop-set_first i ReplicaState.draining (replicas s.registry t) h)

      own :
          replicas (Registry.remove_replica marked i) service
          ≡ drop_id i (replicas s.registry service)
      own = list service (omega arith)

      other :
          (t : ℕ)
          → service ≢ t
          → replicas (Registry.remove_replica marked i) t ≡ replicas s.registry t
      other t ne =
          let z = elsewhere s.registry s.pools (laws.last_id s.world) i service t ne once b.kept in
          list t (omega arith) ∙ drop_id_absent i (replicas s.registry t) z

  -- The ledger after a drain of a replica that its service has, from books that balance and whatever
  -- limits the caller releases: it is the sum of what the replicas that are left hold, plus what was
  -- reserved for the drained one, less what was released (and not below zero).
  pub drain_drift :
      (drained.ledger.committed_cpu
        ≡ weight (λ k. (lim k).cpu_millis) drained.registry
          + (lim service).cpu_millis
          - limits.cpu_millis)
      × (drained.ledger.committed_mem
          ≡ weight (λ k. (lim k).memory_bytes) drained.registry
            + (lim service).memory_bytes
            - limits.memory_bytes)
  drain_drift = (
    omega (arith, released.0, b.cpu, drained_weight (λ k. (lim k).cpu_millis)),
    omega (arith, released.1, b.mem, drained_weight (λ k. (lim k).memory_bytes)),
  )
    where
      released :
          (drained.ledger.committed_cpu ≡ s.ledger.committed_cpu - limits.cpu_millis)
          × (drained.ledger.committed_mem ≡ s.ledger.committed_mem - limits.memory_bytes)
      released = unfold drain_replica Ledger.release in (refl, refl)

  -- From books that balance, a drain of a replica that its service has, which releases the limits
  -- that the service's replicas hold, leaves books that balance.
  pub drain_replica_balanced : limits ≡ lim service → BooksAt env laws lim drained
  drain_replica_balanced own = record {
    kept = drained_Kept;
    cpu = omega (arith, drain_drift.0, ap (λ (u : ResourceLimits). u.cpu_millis) own);
    mem = omega (arith, drain_drift.1, ap (λ (u : ResourceLimits). u.memory_bytes) own);
    room =
        unfold drain_replica Ledger.release in
        record { cpu_room = b.room.cpu_room; mem_room = b.room.mem_room };
  }
