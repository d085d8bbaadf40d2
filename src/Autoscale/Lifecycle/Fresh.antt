-- ===== src/Autoscale/Lifecycle/Fresh.antt =====
-- A replica with a fresh id, registered, and then rolled back or promoted.
use denia.Prelude.{
  ℕ, ◌+◌, ◌*◌, ℕ_discrete, ◌<◌, ◌≡◌, ◌≢◌, refl, sym, ap, ◌∙◌, true, List, [], ◌∷◌, ◌++◌, arith,
  nat_key,
}
use denia.Autoscale.Registry
use denia.Autoscale.Registry.{Replica, ReplicaRegistry, ReplicaState, replicas, drop_id, set_first}
use denia.Autoscale.Registry.Views.{
  occurs, replicas-add, replicas-remove_replica, replicas-set_state, set_first-keeps,
  drop_id_absent, set_first_absent, occurs-append, tally-set_state,
}
use denia.Autoscale.Registry.Sums.{new_replica, weigh, weight, weight-add, weight-remove_replica}
use denia.Ingress.Pool
use denia.Ingress.Pool.{Pools}
use denia.Ingress.Pool.Views.{endpoints}
use denia.Autoscale.Lifecycle.Kept.{Kept, add-Kept, remove-Kept, set-Kept, absent_in}

-- The fresh replica at the end of a list, dropped or promoted.
drop_last :
    (i : ℕ) (r : Replica) (rs : List Replica)
    → r.id ≡ i
    → occurs i rs ≡ 0
    → drop_id i (rs ++ r ∷ []) ≡ rs
drop_last i r [] e h = ground arith
drop_last i r (x ∷ rs) e h = ground (arith, drop_last i r rs e)

set_last :
    (i : ℕ) (st : ReplicaState) (r : Replica) (rs : List Replica)
    → r.id ≡ i
    → occurs i rs ≡ 0
    → set_first i st (rs ++ r ∷ []) ≡ rs ++ record r { state = st } ∷ []
unfolding set_first
set_last i st r [] e h = ground arith
set_last i st r (x ∷ rs) e h = ground (arith, set_last i st r rs e)

occurs_last :
    (i : ℕ) (r : Replica) (rs : List Replica)
    → r.id ≡ i
    → occurs i rs ≡ 0
    → occurs i (rs ++ r ∷ []) ≡ 1
occurs_last i r rs e h = ground (arith, occurs-append i rs (r ∷ []))

-- A fresh replica in the registry and its pool, in the state `pending`: what `register` leaves.
module _ (g : ReplicaRegistry) (ps : Pools) (last now i s d x path : ℕ) (k : Kept g ps last)
    (lt : last < i) where
  abbrev pub g' : ReplicaRegistry
  g' = Registry.add g i s d x path

  abbrev pub ps' : Pools
  ps' = Pool.add_replica now ps s i path

  absent : (t : ℕ) → occurs i (replicas g t) ≡ 0
  absent t = absent_in g i t (k.fresh i lt)

  pub grown_Kept : Kept g' ps' i
  grown_Kept = add-Kept g ps last now i s d x path lt k

  pub grown_self : replicas g' s ≡ replicas g s ++ new_replica i s d x path ∷ []
  grown_self = rw (replicas-add g i s d x path s) (ground arith)

  grown_other : (t : ℕ) → s ≢ t → replicas g' t ≡ replicas g t
  grown_other t ne = rw (replicas-add g i s d x path t) (ground arith)

  grown_once : occurs i (replicas g' s) ≡ 1
  grown_once =
      rw grown_self (occurs_last i (new_replica i s d x path) (replicas g s) refl (absent s))

  -- Rolled back, every list is as it was.
  pub undone : (t : ℕ) → replicas (Registry.remove_replica g' i) t ≡ replicas g t
  undone t = rw (replicas-remove_replica g' i t grown_Kept.distinct) (elim (ℕ_discrete s t) [
    | yes e ↦
        rw (← e, grown_self) (drop_last i (new_replica i s d x path) (replicas g s) refl (absent s))
    | no ne ↦ rw (grown_other t ne) (drop_id_absent i (replicas g t) (absent t))
  ])

  -- Promoted, the replica is Healthy, and no other list changes.
  pub promoted_self :
      replicas (Registry.set_state g' i ReplicaState.healthy) s
      ≡ replicas g s ++ record (new_replica i s d x path) { state = ReplicaState.healthy } ∷ []
  promoted_self =
      rw (replicas-set_state g' i s ReplicaState.healthy (grown_Kept.unique i), grown_self)
        (set_last i ReplicaState.healthy (new_replica i s d x path) (replicas g s) refl (absent s))

  pub promoted_other :
      (t : ℕ) → s ≢ t → replicas (Registry.set_state g' i ReplicaState.healthy) t ≡ replicas g t
  promoted_other t ne =
      rw (replicas-set_state g' i t ReplicaState.healthy (grown_Kept.unique i), grown_other t ne)
        (set_first_absent i ReplicaState.healthy (replicas g t) (absent t))

  pub undone_Kept : Kept (Registry.remove_replica g' i) (Pool.remove_replica ps' s i) i
  undone_Kept = remove-Kept g' ps' i i s grown_once grown_Kept

  pub promoted_Kept :
      Kept (Registry.set_state g' i ReplicaState.healthy) (Pool.set_replica_healthy ps' s i true) i
  promoted_Kept = set-Kept g' ps' i i s ReplicaState.healthy true refl grown_once grown_Kept

  pub undone_endpoints : (t : ℕ) → endpoints (Pool.remove_replica ps' s i) t ≡ endpoints ps t
  undone_endpoints t = rw (undone_Kept.mirror t, undone t) (sym (k.mirror t))

  pub undone_weight : (w : ℕ → ℕ) → weight w (Registry.remove_replica g' i) ≡ weight w g
  undone_weight w = omega (
    arith,
    weight-add w g i s d x path,
    weight-remove_replica w g' i s grown_Kept.distinct (grown_Kept.unique i) grown_once,
  )

  pub promoted_weight :
      (w : ℕ → ℕ) → weight w (Registry.set_state g' i ReplicaState.healthy) ≡ weight w g + w s
  promoted_weight w =
      tally-set_state (weigh w) g' i ReplicaState.healthy
        (λ j rs. ap (λ u. u * w j) (set_first-keeps i i ReplicaState.healthy rs).0)
      ∙ weight-add w g i s d x path
