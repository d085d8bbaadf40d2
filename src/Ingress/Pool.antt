-- ===== src/Ingress/Pool.antt =====
-- The replica pools of src/ingress/pingora/state.rs. A pool's key is the text of the service's id,
-- and stands here for the id itself; times are readings of one clock.
pub mod Views
pub mod Scan
pub mod Rotation
use denia.Prelude.{
  ℕ, zero, suc, ◌+◌, ◌%◌, Bool, true, false, not, Option, none, some, List, [], ◌∷◌, ◌++◌, ◌==◌,
  leb, if◌then◌else◌, length, get_elem?, retain, any, Map, nat_key, lookup, insert, get_or,
}

pub record ReplicaEndpoint : Type 0 where
  pub replica_id : ℕ
  pub socket_path : ℕ
  pub healthy : Bool

pub record ServicePool : Type 0 where
  pub endpoints : List ReplicaEndpoint
  pub cursor : ℕ
  pub last_activity : ℕ

-- `ServicePool::new()` at the time `now`.
abbrev pub new_pool : ℕ → ServicePool
new_pool now = record { endpoints = []; cursor = 0; last_activity = now }

abbrev pub is_for : ℕ → ReplicaEndpoint → Bool
is_for replica_id e = e.replica_id == replica_id

unfoldable pub pool_healthy_count : ServicePool → ℕ
pool_healthy_count p = length (retain (λ e. e.healthy) p.endpoints)

abbrev pub healthy_path : Option ReplicaEndpoint → Option ℕ
healthy_path none = none
healthy_path (some e) = if e.healthy then some e.socket_path else none

-- The loop of `ServicePool::next_socket`, with `left` offsets still to try: the index that it
-- stops at, and the socket there.
unfoldable pub scan : List ReplicaEndpoint → ℕ → ℕ → ℕ → Option (ℕ × ℕ)
scan es cursor offset zero = none
scan es cursor offset (suc left) =
    let idx = (cursor + offset) % length es in
    let later = scan es cursor (suc offset) left in
    elim (healthy_path (get_elem? es idx)) [ none ↦ later | some path ↦ some (idx, path) ]

unfoldable pub pool_next_socket : ServicePool → ServicePool × Option ℕ
pool_next_socket p =
    let found = scan p.endpoints p.cursor 0 (length p.endpoints) in
    elim found [
      | none ↦ (p, none)
      | some (idx, path) ↦ (record p { cursor = (idx + 1) % length p.endpoints }, some path)
    ]

abbrev pub Pools : Type 0
Pools = Map ℕ ServicePool

-- The endpoint with the id is replaced, or a new one goes to the end.
unfoldable pub put_endpoint : ReplicaEndpoint → List ReplicaEndpoint → List ReplicaEndpoint
put_endpoint e [] = e ∷ []
put_endpoint e (x ∷ xs) = if is_for e.replica_id x then e ∷ xs else x ∷ put_endpoint e xs

unfoldable pub add_replica : ℕ → Pools → ℕ → ℕ → ℕ → Pools
unfolding put_endpoint
add_replica now ps service replica_id socket_path =
    let pool = get_or (new_pool now) service ps in
    insert service
      (record pool {
        endpoints =
            put_endpoint
              (record { replica_id = replica_id; socket_path = socket_path; healthy = false })
              pool.endpoints;
      })
      ps

unfoldable pub mark : ℕ → Bool → List ReplicaEndpoint → List ReplicaEndpoint
mark replica_id healthy [] = []
mark replica_id healthy (x ∷ xs) =
    if is_for replica_id x
    then record x { healthy = healthy } ∷ xs
    else x ∷ mark replica_id healthy xs

unfoldable pub set_replica_healthy : Pools → ℕ → ℕ → Bool → Pools
set_replica_healthy ps service replica_id healthy = elim (lookup service ps) [
  | none ↦ ps
  | some pool ↦
      insert service (record pool { endpoints = mark replica_id healthy pool.endpoints }) ps
]

unfoldable pub without : ℕ → ServicePool → ServicePool
without replica_id pool =
    let rest = retain (λ e. not (is_for replica_id e)) pool.endpoints in
    record pool {
      endpoints = rest;
      cursor = if leb (length rest) pool.cursor then 0 else pool.cursor;
    }

unfoldable pub remove_replica : Pools → ℕ → ℕ → Pools
unfolding without
remove_replica ps service replica_id = elim (lookup service ps) [
  | none ↦ ps
  | some pool ↦ insert service (without replica_id pool) ps
]

unfoldable pub healthy_count : Pools → ℕ → ℕ
unfolding pool_healthy_count
healthy_count ps service = elim (lookup service ps) [
  | none ↦ 0
  | some pool ↦ pool_healthy_count pool
]

unfoldable pub last_activity : Pools → ℕ → Option ℕ
last_activity ps service = elim (lookup service ps) [
  | none ↦ none
  | some pool ↦ some pool.last_activity
]

unfoldable pub set_last_activity : ℕ → Pools → ℕ → ℕ → Pools
set_last_activity now ps service when =
    insert service (record (get_or (new_pool now) service ps) { last_activity = when }) ps

-- A pool whose scan finds nothing is left as it was: its cursor has not moved.
touch : ℕ → ℕ → Pools → ServicePool × Option ℕ → Pools × Option ℕ
touch now service ps (p, none) = (ps, none)
touch now service ps (p, some path) =
    (insert service (record p { last_activity = now }) ps, some path)

unfoldable pub next_socket : ℕ → Pools → ℕ → Pools × Option ℕ
unfolding touch
next_socket now ps service = elim (lookup service ps) [
  | none ↦ (ps, none)
  | some pool ↦ touch now service ps (pool_next_socket pool)
]
