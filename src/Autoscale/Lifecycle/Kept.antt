-- ===== src/Autoscale/Lifecycle/Kept.antt =====
-- The registry against the ingress pools: what each pair of calls on them keeps.

use mathlib.Core.List.{map-append}
use denia.Prelude.{
  ℕ, ◌≤◌, ◌<◌, ◌≡◌, Bool, [], ◌∷◌, map, arith, ==_iff, nat_key, Distinct, ℕ_discrete,
}
use denia.Autoscale.Registry
use denia.Autoscale.Registry.{Replica, ReplicaRegistry, ReplicaState, replicas, drop_id, set_first}
use denia.Autoscale.Registry.Views.{
  occurs, occurrences, replicas-add, replicas-remove_replica, remove_replica-Distinct,
  replicas-set_state, set_state-Distinct, tally-set_state, set_first-keeps, occurs-le-occurrences,
  drop_id_absent, set_first_absent, occurs_apart,
}
use denia.Autoscale.Registry.Sums.{
  new_replica, add-Distinct, occurrences-add, occurrences-remove_replica,
}
use denia.Ingress.Pool
use denia.Ingress.Pool.{Pools}
use denia.Ingress.Pool.Views.{
  endpoints, endpoints-add_replica, endpoints-set_replica_healthy, endpoints-remove_replica,
}
use denia.Autoscale.Lifecycle.Mirror.{endpoint_of, mark-map, retain-map, put_endpoint-map}

-- What the registry and the pools have in common.
pub record Kept (g : ReplicaRegistry) (ps : Pools) (last : ℕ) : Type 0 where
  pub distinct : Distinct g.by_service
  pub unique : (i : ℕ) → occurrences i g.by_service ≤ 1
  pub fresh : (i : ℕ) → last < i → occurrences i g.by_service ≡ 0
  pub mirror : (t : ℕ) → endpoints ps t ≡ map endpoint_of (replicas g t)

pub absent_in :
    (g : ReplicaRegistry) (i t : ℕ) → occurrences i g.by_service ≡ 0 → occurs i (replicas g t) ≡ 0
absent_in g i t h = unfold replicas in omega (arith, occurs-le-occurrences i t g.by_service)

-- A fresh replica enters the registry and its pool.
pub add-Kept :
    (g : ReplicaRegistry) (ps : Pools) (last now i s d x path : ℕ)
    → last < i
    → Kept g ps last
    → Kept (Registry.add g i s d x path) (Pool.add_replica now ps s i path) i
add-Kept g ps last now i s d x path lt k = record {
  distinct = add-Distinct g i s d x path k.distinct;
  unique = λ j. ground (arith, occurrences-add g i s d x path j, k.unique j, k.fresh i);
  fresh = λ j h. ground (arith, occurrences-add g i s d x path j, k.fresh j);
  mirror = λ t.
      rw
        (
          endpoints-add_replica now ps s i path t,
          replicas-add g i s d x path t,
          k.mirror s,
          k.mirror t,
        )
        (ground (
          arith,
          put_endpoint-map i path (replicas g s) (absent_in g i s (k.fresh i lt)),
          map-append endpoint_of (replicas g s) (new_replica i s d x path ∷ []),
        ));
}

-- A replica of one service is in no other.
pub elsewhere :
    (g : ReplicaRegistry) (ps : Pools) (last i s t : ℕ)
    → ¬ (s ≡ t)
    → occurs i (replicas g s) ≡ 1
    → Kept g ps last
    → occurs i (replicas g t) ≡ 0
unfolding replicas
elsewhere g ps last i s t ne once k = omega (arith, occurs_apart i s t g.by_service ne, k.unique i)

-- A removal takes a replica out of both.
pub remove-Kept :
    (g : ReplicaRegistry) (ps : Pools) (last i s : ℕ)
    → occurs i (replicas g s) ≡ 1
    → Kept g ps last
    → Kept (Registry.remove_replica g i) (Pool.remove_replica ps s i) last
remove-Kept g ps last i s once k = record {
  distinct = remove_replica-Distinct g i k.distinct;
  unique = λ j. omega (arith, (occurrences-remove_replica g i j k.distinct).0, k.unique j);
  fresh = λ j h. omega (arith, (occurrences-remove_replica g i j k.distinct).0, k.fresh j h);
  mirror = λ t.
      rw
        (
          endpoints-remove_replica ps s i t,
          replicas-remove_replica g i t k.distinct,
          k.mirror s,
          k.mirror t,
        )
        (elim (ℕ_discrete s t) [
          | yes e ↦ rw ((==_iff s t).1 e, e) (retain-map i (replicas g t))
          | no ne ↦
              ground (arith, drop_id_absent i (replicas g t) (elsewhere g ps last i s t ne once k))
        ]);
}

-- A state of the registry and the health mark of the pool change together.
pub set-Kept :
    (g : ReplicaRegistry) (ps : Pools) (last i s : ℕ) (st : ReplicaState) (b : Bool)
    → Registry.is_healthy st ≡ b
    → occurs i (replicas g s) ≡ 1
    → Kept g ps last
    → Kept (Registry.set_state g i st) (Pool.set_replica_healthy ps s i b) last
set-Kept g ps last i s st b e once k = record {
  distinct = set_state-Distinct g i st k.distinct;
  unique = λ j. omega (
    arith,
    tally-set_state (λ _ rs. occurs j rs) g i st (λ _ rs. (set_first-keeps i j st rs).1),
    k.unique j,
  );
  fresh = λ j h. omega (
    arith,
    tally-set_state (λ _ rs. occurs j rs) g i st (λ _ rs. (set_first-keeps i j st rs).1),
    k.fresh j h,
  );
  mirror = λ t.
      rw
        (
          endpoints-set_replica_healthy ps s i t b,
          replicas-set_state g i t st (k.unique i),
          k.mirror s,
          k.mirror t,
        )
        (elim (ℕ_discrete s t) [
          | yes q ↦ rw ((==_iff s t).1 q, q, ← e) (mark-map i st (replicas g t))
          | no ne ↦
              ground
                (arith, set_first_absent i st (replicas g t) (elsewhere g ps last i s t ne once k))
        ]);
}

pub Kept-later :
    (g : ReplicaRegistry) (ps : Pools) (last later : ℕ)
    → last ≤ later
    → Kept g ps last
    → Kept g ps later
Kept-later g ps last later h k = record {
  distinct = k.distinct;
  unique = k.unique;
  fresh = λ i lt. k.fresh i (omega arith);
  mirror = k.mirror;
}
