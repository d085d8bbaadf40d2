-- ===== src/Deploy/Endpoints.antt =====
-- The endpoint of a deployed replica: registered by the wiring, taken away where the wiring fails.
use denia.Prelude.{
  ℕ, ◌≡◌, refl, ap, sym, subst, ◌∙◌, inl, inr, Bool, true, false, not, ◌&&◌, List, [], ◌∷◌, ◌==◌,
  ==_iff, if◌then◌else◌, any, retain, Outcome, ok, err, Bool-cases, arith,
}
use denia.Ingress.Pool
use denia.Ingress.Pool.{ReplicaEndpoint, Pools, is_for, put_endpoint, mark}
use denia.Ingress.Pool.Views.{
  endpoints, new_endpoint, endpoints-add_replica, endpoints-set_replica_healthy,
  endpoints-remove_replica,
}
use denia.Deploy.Step.{DeployError, Store, after, ◌>>=◌, answered, modify, pure}
use denia.Deploy.Repo.{ServiceConfig, Env, promote_deployment}
use denia.Deploy.Coordinator.{
  deploy_replica_id, instance_id, registered, add_deploy_replica, write_route_table,
  compensate_started_replica, compensated, finalize_started, wire,
}
use denia.Deploy.Wiring.{answered-pools, promote_deployment-Still, write_route_table-Still}

-- The deployed replica, healthy at this socket.
abbrev pub is_deployed : ℕ → ReplicaEndpoint → Bool
is_deployed socket_path e =
    is_for deploy_replica_id e && (e.healthy && e.socket_path == socket_path)

abbrev pub is_other : ReplicaEndpoint → Bool
is_other e = not (is_for deploy_replica_id e)

any-deployed :
    (socket_path : ℕ) (es : List ReplicaEndpoint)
    → any
        (is_deployed socket_path)
        (mark deploy_replica_id true (put_endpoint (new_endpoint deploy_replica_id socket_path) es))
      ≡ true
unfolding mark put_endpoint
any-deployed socket_path [] = ground (arith, ==_iff socket_path socket_path)
any-deployed socket_path (e ∷ es) =
    ground (arith, ==_iff socket_path socket_path, any-deployed socket_path es)

retain-put :
    (socket_path : ℕ) (es : List ReplicaEndpoint)
    → retain is_other (put_endpoint (new_endpoint deploy_replica_id socket_path) es)
      ≡ retain is_other es
unfolding put_endpoint
retain-put socket_path [] = ground arith
retain-put socket_path (e ∷ es) = ground (arith, retain-put socket_path es)

retain-mark :
    (healthy : Bool) (es : List ReplicaEndpoint)
    → retain is_other (mark deploy_replica_id healthy es) ≡ retain is_other es
unfolding mark
retain-mark healthy [] = refl
retain-mark healthy (e ∷ es) = ground (arith, retain-mark healthy es)

-- Pools in which the other services have the endpoints that they had, and the service its other
-- replicas.
abbrev pub SameOthers : ℕ → Pools → Pools → Type 0
SameOthers service ps ps' =
    (retain is_other (endpoints ps' service) ≡ retain is_other (endpoints ps service))
    × ((t : ℕ) → (service == t) ≡ false → endpoints ps' t ≡ endpoints ps t)

abbrev pub register : ℕ → ℕ → ℕ → Pools → Pools
register now service socket_path ps =
    Pool.set_replica_healthy (Pool.add_replica now ps service deploy_replica_id socket_path) service
      deploy_replica_id true

endpoints-register :
    (now service socket_path : ℕ) (ps : Pools) (t : ℕ)
    → endpoints (register now service socket_path ps) t ≡ (
        if service == t
        then mark deploy_replica_id true
            (put_endpoint (new_endpoint deploy_replica_id socket_path) (endpoints ps service))
        else endpoints ps t)
endpoints-register now service socket_path ps t =
    endpoints-set_replica_healthy (Pool.add_replica now ps service deploy_replica_id socket_path)
      service deploy_replica_id t true
    ∙ (elim (Bool-cases (service == t)) [
      | inl e ↦ rw e (
          rw (endpoints-add_replica now ps service deploy_replica_id socket_path service)
            (rw ((==_iff service service).1 refl) refl))
      | inr e ↦
          rw e (endpoints-add_replica now ps service deploy_replica_id socket_path t ∙ (rw e refl))
    ])

register-SameOthers :
    (now service socket_path : ℕ) (ps : Pools)
    → SameOthers service ps (register now service socket_path ps)
register-SameOthers now service socket_path ps = (
  rw (endpoints-register now service socket_path ps service) (
      rw ((==_iff service service).1 refl) (
        retain-mark true
          (put_endpoint (new_endpoint deploy_replica_id socket_path) (endpoints ps service))
        ∙ retain-put socket_path (endpoints ps service))),
  λ t apart. endpoints-register now service socket_path ps t ∙ (rw apart refl),
)

register-deployed :
    (now service socket_path : ℕ) (ps : Pools)
    → any (is_deployed socket_path) (endpoints (register now service socket_path ps) service) ≡ true
register-deployed now service socket_path ps =
    rw (endpoints-register now service socket_path ps service)
      (rw ((==_iff service service).1 refl) (any-deployed socket_path (endpoints ps service)))

SameOthers-eq : (service : ℕ) (ps ps' : Pools) → ps' ≡ ps → SameOthers service ps ps'
SameOthers-eq service ps ps' e = rw e (refl, λ t apart. refl)

-- What is left after the wiring, from the pools before it.
abbrev pub Wired : {W : Type 0} → ℕ → ℕ → Pools → Outcome (Unit {0}) DeployError × Store W → Type 0
Wired service socket_path ps (ok _, s) =
    (any (is_deployed socket_path) (endpoints s.pools service) ≡ true)
    × SameOthers service ps s.pools
Wired service socket_path ps (err e, s) =
    (endpoints s.pools service ≡ retain is_other (endpoints ps service))
    × ((t : ℕ) → (service == t) ≡ false → endpoints s.pools t ≡ endpoints ps t)

-- The same before the undoing.
abbrev Started : {W : Type 0} → ℕ → ℕ → Pools → Outcome (Unit {0}) DeployError × Store W → Type 0
Started service socket_path ps (ok _, s) =
    (any (is_deployed socket_path) (endpoints s.pools service) ≡ true)
    × SameOthers service ps s.pools
Started service socket_path ps (err e, s) = SameOthers service ps s.pools

removed-Wired :
    (service : ℕ) (ps ps' : Pools)
    → SameOthers service ps ps'
    → (endpoints (Pool.remove_replica ps' service deploy_replica_id) service
        ≡ retain is_other (endpoints ps service))
      × ((t : ℕ)
          → (service == t) ≡ false
          → endpoints (Pool.remove_replica ps' service deploy_replica_id) t ≡ endpoints ps t)
removed-Wired service ps ps' (same, others) = (
  endpoints-remove_replica ps' service deploy_replica_id service
      ∙ (rw ((==_iff service service).1 refl) same),
  λ t apart. endpoints-remove_replica ps' service deploy_replica_id t ∙ (rw apart (others t apart)),
)

Started-pools :
    {W : Type 0} (service socket_path : ℕ) (ps qs : Pools)
    (o : Outcome (Unit {0}) DeployError × Store W)
    → o.1.pools ≡ qs
    → (any (is_deployed socket_path) (endpoints qs service) ≡ true)
    → SameOthers service ps qs
    → Started service socket_path ps o
Started-pools service socket_path ps qs (ok a, s) e live same = rw e (live, same)
Started-pools service socket_path ps qs (err x, s) e live same = rw e same

module _ (env : Env) (routed : env.routing ≡ true) where
  compensate-pools :
      (service : ServiceConfig) (s : Store env.World)
      → (compensate_started_replica env service s).pools
        ≡ Pool.remove_replica s.pools service.id deploy_replica_id
  unfolding compensate_started_replica
  compensate-pools service s = rw routed (
      ap (λ ps. Pool.remove_replica ps service.id deploy_replica_id)
        (answered-pools env s (env.stop (instance_id service) s.world)))

  compensated-Wired :
      (service : ServiceConfig) (socket_path : ℕ) (ps : Pools)
      (o : Outcome (Unit {0}) DeployError × Store env.World)
      → Started service.id socket_path ps o
      → Wired service.id socket_path ps (compensated env service o)
  compensated-Wired service socket_path ps (ok a, s) h = h
  compensated-Wired service socket_path ps (err e, s) h =
      rw (compensate-pools service s) (removed-Wired service.id ps s.pools h)

  add_deploy_replica-routed :
      (service : ServiceConfig) (socket_path : ℕ) (s : Store env.World)
      → add_deploy_replica env service socket_path s
        ≡ (ok tt, registered env service.id socket_path s)
  unfolding add_deploy_replica
  add_deploy_replica-routed service socket_path s = if_true env.routing routed
    where
      if_true :
          (b : Bool)
          → b ≡ true
          → (if b then modify (registered env service.id socket_path) else pure tt) s
            ≡ (ok tt, registered env service.id socket_path s)
      if_true true e = refl
      if_true false e = absurd (ground arith)

  registered-Started :
      (service : ServiceConfig) (socket_path : ℕ) (ps : Pools)
      (o : Outcome (Unit {0}) DeployError × Store env.World)
      → o.1.pools ≡ ps
      → Started service.id socket_path ps (
          after
            (λ _. add_deploy_replica env service socket_path >>= λ _. write_route_table env service)
            o)
  unfolding ◌>>=◌
  registered-Started service socket_path ps (err e, s) same =
      SameOthers-eq service.id ps s.pools same
  registered-Started service socket_path ps (ok a, s) same =
      subst (λ z. Started service.id socket_path ps (after (λ _. write_route_table env service) z))
        (sym (add_deploy_replica-routed service socket_path s))
        (Started-pools service.id socket_path ps
          (register (env.instant s.world) service.id socket_path ps)
          (write_route_table env service (registered env service.id socket_path s))
          ((write_route_table-Still env service).pools (registered env service.id socket_path s)
            ∙ (rw same refl))
          (register-deployed (env.instant s.world) service.id socket_path ps)
          (register-SameOthers (env.instant s.world) service.id socket_path ps))

  -- Where the coordinator has an ingress, the wiring of a started replica is all or nothing in the
  -- pools. If it succeeds, the service has a healthy endpoint with the deploy replica's id at the
  -- replica's socket. If any step of it fails, the service has no endpoint with that id. Either
  -- way the service's other endpoints and those of other services stay as they were.
  pub wire-Wired :
      (id : ℕ) (service : ServiceConfig) (socket_path : ℕ) (s : Store env.World)
      → Wired service.id socket_path s.pools (wire env id service socket_path s)
  unfolding wire finalize_started ◌>>=◌
  wire-Wired id service socket_path s =
      compensated-Wired service socket_path s.pools (finalize_started env id service socket_path s)
        (go (env.check socket_path service.health_check s.world))
    where
      go :
          (o : Outcome (Unit {0}) DeployError × env.World)
          → Started service.id socket_path s.pools (
              after
                (λ _. promote_deployment env service.id id >>= λ _.
                  add_deploy_replica env service socket_path >>= λ _. write_route_table env service)
                (answered s o))
      go (err e, w) = SameOthers-eq service.id s.pools s.pools refl
      go (ok a, w) =
          registered-Started service socket_path s.pools
            (promote_deployment env service.id id (record s { world = w }))
            ((promote_deployment-Still env service.id id).pools (record s { world = w }))
