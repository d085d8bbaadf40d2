-- ===== src/Autoscale/Registry.antt =====
-- src/autoscale/registry.rs: the live replicas of each service. Ids and socket paths are numbers.
pub mod Views
pub mod Sums
use denia.Prelude.{
  ℕ, suc, ◌+◌, ◌%◌, Bool, true, false, not, ◌&&◌, Option, none, some, List, [], ◌∷◌, ◌++◌, ◌==◌,
  if◌then◌else◌, length, get_elem?, retain, any, Map, nat_key, lookup, insert, remove, get_or,
}

pub data ReplicaState : Type 0 where
  pending healthy draining stopped : ReplicaState

abbrev pub is_healthy : ReplicaState → Bool
is_healthy healthy = true
is_healthy _ = false

pub record Replica : Type 0 where
  pub id : ℕ
  pub service_id : ℕ
  pub deployment_id : ℕ
  pub index : ℕ
  pub socket_path : ℕ
  pub state : ReplicaState

pub record ReplicaRegistry : Type 0 where
  pub by_service : Map ℕ (List Replica)
  pub cursor : Map ℕ ℕ

abbrev pub empty : ReplicaRegistry
empty = record { by_service = []; cursor = [] }

-- `id` is what `Uuid::now_v7()` returned.
unfoldable pub add : ReplicaRegistry → ℕ → ℕ → ℕ → ℕ → ℕ → ReplicaRegistry
add g id service_id deployment_id index socket_path = record g {
  by_service =
      insert service_id
        (get_or [] service_id g.by_service
          ++ record {
            id = id;
            service_id = service_id;
            deployment_id = deployment_id;
            index = index;
            socket_path = socket_path;
            state = pending;
          }
            ∷ [])
        g.by_service;
}

abbrev pub has_id : ℕ → Replica → Bool
has_id replica_id r = r.id == replica_id

-- The first replica with the id, if any, takes the state.
unfoldable pub set_first : ℕ → ReplicaState → List Replica → List Replica
set_first replica_id state [] = []
set_first replica_id state (r ∷ rs) =
    if has_id replica_id r
    then record r { state = state } ∷ rs
    else r ∷ set_first replica_id state rs

-- The loop of `set_state`: it returns at the first service that has the replica.
unfoldable pub set_state_in : ℕ → ReplicaState → Map ℕ (List Replica) → Map ℕ (List Replica)
unfolding set_first
set_state_in replica_id state [] = []
set_state_in replica_id state ((k, rs) ∷ m) =
    if any (has_id replica_id) rs
    then (k, set_first replica_id state rs) ∷ m
    else (k, rs) ∷ set_state_in replica_id state m

unfoldable pub set_state : ReplicaRegistry → ℕ → ReplicaState → ReplicaRegistry
set_state g replica_id state = record g { by_service = set_state_in replica_id state g.by_service }

abbrev pub drop_id : ℕ → List Replica → List Replica
drop_id replica_id = retain (λ r. not (has_id replica_id r))

-- The loop of `remove`: every service's list, and the last service that it emptied.
unfoldable pub drop_each : ℕ → Map ℕ (List Replica) → Map ℕ (List Replica)
drop_each replica_id [] = []
drop_each replica_id ((k, rs) ∷ m) = (k, drop_id replica_id rs) ∷ drop_each replica_id m

unfoldable pub emptied_by : ℕ → Map ℕ (List Replica) → Option ℕ → Option ℕ
emptied_by replica_id [] emptied = emptied
emptied_by replica_id ((k, rs) ∷ m) emptied = emptied_by replica_id m (
    if not (length (drop_id replica_id rs) == length rs) && length (drop_id replica_id rs) == 0
    then some k
    else emptied)

-- A service that lost its last replica loses its entries.
unfoldable pub forget : Option ℕ → ReplicaRegistry → ReplicaRegistry
forget none g = g
forget (some service_id) g = record {
  by_service = remove service_id g.by_service;
  cursor = remove service_id g.cursor;
}

unfoldable pub remove_replica : ReplicaRegistry → ℕ → ReplicaRegistry
remove_replica g replica_id =
    forget (emptied_by replica_id g.by_service none)
      (record g { by_service = drop_each replica_id g.by_service })

-- The replicas of a service, `&[]` for an unknown one.
unfoldable pub replicas : ReplicaRegistry → ℕ → List Replica
replicas g service_id = get_or [] service_id g.by_service

unfoldable pub healthy_count : ReplicaRegistry → ℕ → ℕ
healthy_count g service_id = length (retain (λ r. is_healthy r.state) (replicas g service_id))

unfoldable pub replica_count : ReplicaRegistry → ℕ → ℕ
replica_count g service_id = length (replicas g service_id)

-- `cur % healthy.len()` is in range, so the read below never misses; `usize` has 64 bits.
unfoldable pub next_healthy : ReplicaRegistry → ℕ → ReplicaRegistry × Option Replica
next_healthy g service_id =
    let healthy = retain (λ r. is_healthy r.state) (replicas g service_id) in
    let cur = get_or 0 service_id g.cursor in
    if length healthy == 0 then (g, none) else (
      record g { cursor = insert service_id ((cur + 1) % 18446744073709551616) g.cursor },
      get_elem? healthy (cur % length healthy),
    )
