-- ===== src/Autoscale/Lifecycle/Mirror.antt =====
-- The endpoints of a pool as the image of the replicas of the registry.
use denia.Prelude.{ℕ, ◌≡◌, refl, not, List, [], ◌∷◌, ◌++◌, map, arith, retain}
use denia.Autoscale.Registry.{Replica, ReplicaState, is_healthy, set_first, drop_id}
use denia.Autoscale.Registry.Views.{occurs}
use denia.Ingress.Pool.{ReplicaEndpoint, is_for, put_endpoint, mark}
use denia.Ingress.Pool.Views.{new_endpoint}

-- The endpoint that the pool holds for a replica.
abbrev pub endpoint_of : Replica → ReplicaEndpoint
endpoint_of r = record {
  replica_id = r.id;
  socket_path = r.socket_path;
  healthy = is_healthy r.state;
}

pub mark-map :
    (i : ℕ) (st : ReplicaState) (rs : List Replica)
    → mark i (is_healthy st) (map endpoint_of rs) ≡ map endpoint_of (set_first i st rs)
unfolding mark set_first
mark-map i st [] = refl
mark-map i st (r ∷ rs) = ground (arith, mark-map i st rs)

pub retain-map :
    (i : ℕ) (rs : List Replica)
    → retain (λ e. not (is_for i e)) (map endpoint_of rs) ≡ map endpoint_of (drop_id i rs)
retain-map i [] = refl
retain-map i (r ∷ rs) = ground (arith, retain-map i rs)

pub put_endpoint-map :
    (i path : ℕ) (rs : List Replica)
    → occurs i rs ≡ 0
    → put_endpoint (new_endpoint i path) (map endpoint_of rs)
      ≡ map endpoint_of rs ++ new_endpoint i path ∷ []
unfolding put_endpoint
put_endpoint-map i path [] h = refl
put_endpoint-map i path (r ∷ rs) h = ground (arith, put_endpoint-map i path rs)
