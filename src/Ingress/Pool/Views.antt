-- ===== src/Ingress/Pool/Views.antt =====
-- What each operation on the pools does to the endpoint lists, seen service by service.
use denia.Prelude.{
  ℕ, ◌≡◌, inl, inr, Bool, false, not, Option, none, some, List, [], arith, ◌==◌, ==_iff,
  if◌then◌else◌, retain, nat_key, lookup, get_or, lookup-insert, Option-cases,
}
use denia.Ingress.Pool.{
  ReplicaEndpoint, ServicePool, is_for, Pools, put_endpoint, add_replica, mark, set_replica_healthy,
  remove_replica,
}

abbrev endpoints_of : Option ServicePool → List ReplicaEndpoint
endpoints_of none = []
endpoints_of (some p) = p.endpoints

-- The endpoints of a service, none where it has no pool.
unfoldable pub endpoints : Pools → ℕ → List ReplicaEndpoint
endpoints ps service = endpoints_of (lookup service ps)

abbrev pub new_endpoint : ℕ → ℕ → ReplicaEndpoint
new_endpoint i path = record { replica_id = i; socket_path = path; healthy = false }

pub endpoints-add_replica :
    (now : ℕ) (ps : Pools) (s i path t : ℕ)
    → endpoints (add_replica now ps s i path) t
      ≡ (if s == t then put_endpoint (new_endpoint i path) (endpoints ps s) else endpoints ps t)
unfolding endpoints add_replica get_or
endpoints-add_replica now ps s i path t = elim (Option-cases (lookup s ps)) [
  | inl e ↦ rw (e, add_replica, get_or, lookup-insert s t) (ground arith)
  | inr (p, e) ↦ rw (e, add_replica, get_or, lookup-insert s t) (ground arith)
]

pub endpoints-set_replica_healthy :
    (ps : Pools) (s i t : ℕ) (b : Bool)
    → endpoints (set_replica_healthy ps s i b) t
      ≡ (if s == t then mark i b (endpoints ps s) else endpoints ps t)
unfolding endpoints set_replica_healthy mark
endpoints-set_replica_healthy ps s i t b = elim (Option-cases (lookup s ps)) [
  | inl e ↦ rw (e, set_replica_healthy) (ground (arith, ==_iff s t))
  | inr (p, e) ↦ rw (e, set_replica_healthy, lookup-insert s t) (ground arith)
]

pub endpoints-remove_replica :
    (ps : Pools) (s i t : ℕ)
    → endpoints (remove_replica ps s i) t
      ≡ (if s == t then retain (λ e. not (is_for i e)) (endpoints ps s) else endpoints ps t)
unfolding endpoints remove_replica
endpoints-remove_replica ps s i t = elim (Option-cases (lookup s ps)) [
  | inl e ↦ rw (e, remove_replica) (ground (arith, ==_iff s t))
  | inr (p, e) ↦ rw (e, remove_replica, lookup-insert s t) (ground arith)
]
