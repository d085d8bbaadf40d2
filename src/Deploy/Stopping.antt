-- ===== src/Deploy/Stopping.antt =====
-- What a stop that succeeds has taken down.
use denia.Prelude.{
  ℕ, ◌≡◌, ◌≢◌, refl, sym, subst, ap, ◌∙◌, inl, inr, Bool, true, false, [], ◌∷◌, if◌then◌else◌,
  ==_iff, Option, none, some, Outcome, ok, err, Bool-cases, lookup, nat_key, lookup-remove, All,
  arith, remove as forget,
}
use denia.Ingress.Routes.{
  Text, IngressError, text_eq, text_eq_iff, text_key, RouteSpec, RouteTable, resolve,
}
use denia.Ingress.Routes.Table.{names}
use denia.Deploy.Tables.{Tables, DeploymentStatus, set_status, delete_promoted}
use denia.Deploy.Step.{
  IfOk, IfOk-after, RepoError, DeployError, Store, Step, pure, ◌>>=◌, modify, call, answered,
}
use denia.Deploy.Repo.{
  ServiceConfig, Env, carried_out, statement, execute, update_deployment_status,
  promoted_deployment, clear_promoted_deployment,
}
use denia.Deploy.Routing.{Snapshot, route_table_from_snapshot, swap_built, swap_from_snapshot}
use denia.Deploy.Coordinator.{
  instance_id, when_routing, unregistered, drop_routes, stop_promoted, stop_service,
  stop_service_routes_only,
}
use denia.Deploy.Claims.{claimed, Gives, route_table_from_snapshot-Gives}

-- Every entry is that of the service whose id is its key.
abbrev pub Keyed : Snapshot → Type 0
Keyed = All (λ (key, spec). spec.service_id ≡ key)

-- No host resolves to the service.
abbrev pub Unrouted : Text → RouteTable → Type 0
Unrouted key table =
    (q : Text) (spec : RouteSpec) → resolve q table ≡ some spec → spec.service_id ≢ key

forget-All :
    (key : Text) (snapshot : Snapshot)
    → Keyed snapshot
    → All (λ (k, spec). spec.service_id ≢ key) (forget key snapshot)
unfolding forget
forget-All key [] h = tt
forget-All key ((k, spec) ∷ rest) (same, keyed) = elim (Bool-cases (text_eq k key)) [
  | inl e ↦ rw e (forget-All key rest keyed)
  | inr e ↦ rw e (
    (λ c. let q : k ≡ key = sym same ∙ c in absurd (ground (arith, text_eq_iff k key))),
    forget-All key rest keyed,
  )
]

claimed-All :
    (P : RouteSpec → Type 0) (q : Text) (snapshot : Snapshot) (found : Option RouteSpec)
    → All (λ (k, spec). P spec) snapshot
    → ((spec : RouteSpec) → found ≡ some spec → P spec)
    → (spec : RouteSpec) → claimed q snapshot found ≡ some spec
    → P spec
unfolding claimed
claimed-All P q [] found h f = f
claimed-All P q ((key, entry) ∷ rest) found (p, h) f =
    claimed-All P q rest _ h (go (names q entry.domains))
  where
    go : (b : Bool) (spec : RouteSpec) → (if b then some entry else found) ≡ some spec → P spec
    go true spec e = let s : spec ≡ entry = cc in rw s p
    go false spec e = f spec e

-- With the service's routes gone, whose key this is, and its promoted deployment as read.
abbrev pub Dropped : {W : Type 0} → Text → ServiceConfig → Option ℕ → Store W → Type 0
Dropped key service promoted s = Unrouted key s.table × (lookup service.id s.db.promoted ≡ promoted)

module _ (env : Env) (routed : env.routing ≡ true) where
  routed_step : (m : Step env.World (Unit {0})) (s : Store env.World) → when_routing env m s ≡ m s
  routed_step m s = go env.routing routed
    where
      go : (b : Bool) → b ≡ true → (if b then m else pure tt) s ≡ m s
      go true e = refl
      go false e = absurd (ground arith)

  swap_built-Unrouted :
      (key : Text) (s : Store env.World) (o : Outcome RouteTable IngressError)
      → Gives (forget key s.snapshot) [] o
      → Keyed s.snapshot
      → IfOk
          (λ a s'. Unrouted key s'.table × (s'.db ≡ s.db))
          (swap_built o (record s { snapshot = forget key s.snapshot }))
  unfolding resolve lookup
  swap_built-Unrouted key s (err e) gives keyed = tt
  swap_built-Unrouted key s (ok table) gives keyed = (
    λ q spec e.
        claimed-All (λ entry. entry.service_id ≢ key) q (forget key s.snapshot) none
          (forget-All key s.snapshot keyed) (λ other c. absurd (ground arith)) spec
          (sym (gives q) ∙ e),
    refl,
  )

  drop_routes-Unrouted :
      (service : ServiceConfig) (s : Store env.World)
      → Keyed s.snapshot
      → IfOk
          (λ a s'. Unrouted (env.to_text service.id) s'.table × (s'.db ≡ s.db))
          (when_routing env (drop_routes env service) s)
  unfolding drop_routes swap_from_snapshot ◌>>=◌
  drop_routes-Unrouted service s keyed =
      subst (IfOk (λ a s'. Unrouted (env.to_text service.id) s'.table × (s'.db ≡ s.db)))
        (sym (routed_step (drop_routes env service) s))
        (swap_built-Unrouted (env.to_text service.id) s
          (route_table_from_snapshot (forget (env.to_text service.id) s.snapshot))
          (route_table_from_snapshot-Gives (forget (env.to_text service.id) s.snapshot)) keyed)

  execute-Dropped :
      (service : ServiceConfig) (before later : Option ℕ) (f : Tables → Tables)
      (s : Store env.World)
      → (lookup service.id s.db.promoted ≡ before → lookup service.id (f s.db).promoted ≡ later)
      → Dropped (env.to_text service.id) service before s
      → IfOk (λ a. Dropped (env.to_text service.id) service later) (execute env f s)
  unfolding statement
  execute-Dropped service before later f s h (gone, p) = go (env.db_error s.world)
    where
      go :
          (o : Option RepoError × env.World)
          → IfOk
              (λ a. Dropped (env.to_text service.id) service later)
              (carried_out (λ db. (ok tt, f db)) s o)
      go (none, w) = (gone, h p)
      go (some e, w) = tt

  delete_promoted-none :
      (key : ℕ) (db : Tables) → lookup key (delete_promoted key db).promoted ≡ none
  unfolding delete_promoted
  delete_promoted-none key db =
      rw (lookup-remove key key db.promoted) (rw ((==_iff key key).1 refl) refl)

  set_status-promoted :
      (key id : ℕ) (status : DeploymentStatus) (db : Tables)
      → lookup key (set_status id status db).promoted ≡ lookup key db.promoted
  unfolding set_status
  set_status-promoted key id status db = refl

  stop_promoted-Dropped :
      (service : ServiceConfig) (promoted : Option ℕ) (s : Store env.World)
      → Dropped (env.to_text service.id) service promoted s
      → IfOk
          (λ a. Dropped (env.to_text service.id) service none)
          (stop_promoted env service promoted s)
  unfolding ◌>>=◌ update_deployment_status clear_promoted_deployment
  stop_promoted-Dropped service none s h = h
  stop_promoted-Dropped service (some id) s h =
      IfOk-after (λ a. Dropped (env.to_text service.id) service (some id))
        (λ a. Dropped (env.to_text service.id) service none)
        (λ _. clear_promoted_deployment env service.id)
        (update_deployment_status env id DeploymentStatus.stopped s)
        (execute-Dropped service (some id) (some id) (set_status id DeploymentStatus.stopped) s
          (λ p. set_status-promoted service.id id DeploymentStatus.stopped s.db ∙ p) h)
        (λ a s' h'.
          execute-Dropped service (some id) none (delete_promoted service.id) s'
            (λ p. delete_promoted-none service.id s'.db) h')

  -- Before the routes are dropped: the snapshot as it was.
  abbrev Read : ServiceConfig → Option ℕ → Store env.World → Type 0
  Read service promoted s = Keyed s.snapshot × (lookup service.id s.db.promoted ≡ promoted)

  promoted_deployment-Read :
      (service : ServiceConfig) (s : Store env.World)
      → Keyed s.snapshot
      → IfOk (Read service) (promoted_deployment env service.id s)
  unfolding promoted_deployment statement
  promoted_deployment-Read service s keyed = go (env.db_error s.world)
    where
      go :
          (o : Option RepoError × env.World)
          → IfOk (Read service) (carried_out (λ db. (ok (lookup service.id db.promoted), db)) s o)
      go (none, w) = (keyed, refl)
      go (some e, w) = tt

  drop_routes-Dropped :
      (service : ServiceConfig) (promoted : Option ℕ) (s : Store env.World)
      → Read service promoted s
      → IfOk
          (λ a. Dropped (env.to_text service.id) service none)
          ((when_routing env (drop_routes env service) >>= λ _. stop_promoted env service promoted)
            s)
  unfolding ◌>>=◌
  drop_routes-Dropped service promoted s (keyed, p) =
      IfOk-after (λ a s'. Unrouted (env.to_text service.id) s'.table × (s'.db ≡ s.db))
        (λ a. Dropped (env.to_text service.id) service none)
        (λ _. stop_promoted env service promoted) (when_routing env (drop_routes env service) s)
        (drop_routes-Unrouted service s keyed)
        (λ a s' (gone, same).
          stop_promoted-Dropped service promoted s'
            (gone, ap (λ db. lookup service.id db.promoted) same ∙ p))

  answered-Read :
      (service : ServiceConfig) (promoted : Option ℕ) (s : Store env.World)
      (o : Outcome (Unit {0}) DeployError × env.World)
      → Read service promoted s
      → IfOk (λ a. Read service promoted) (answered s o)
  answered-Read service promoted s (ok a, w) h = h
  answered-Read service promoted s (err e, w) h = tt

  unregistered-Read :
      (service : ServiceConfig) (promoted : Option ℕ) (s : Store env.World)
      → Read service promoted s
      → IfOk
          (λ a. Read service promoted)
          (when_routing env (modify (unregistered env service.id)) s)
  unregistered-Read service promoted s h =
      subst (IfOk (λ a. Read service promoted))
        (sym (routed_step (modify (unregistered env service.id)) s)) h

  stopped-Dropped :
      (service : ServiceConfig) (promoted : Option ℕ) (s : Store env.World)
      → Read service promoted s
      → IfOk
          (λ a. Dropped (env.to_text service.id) service none)
          ((call (env.stop (instance_id service)) >>= λ _.
              when_routing env (modify (unregistered env service.id)) >>= λ _.
              when_routing env (drop_routes env service) >>= λ _.
              stop_promoted env service promoted)
            s)
  unfolding ◌>>=◌
  stopped-Dropped service promoted s h =
      IfOk-after (λ a. Read service promoted) (λ a. Dropped (env.to_text service.id) service none) _
        (answered s (env.stop (instance_id service) s.world))
        (answered-Read service promoted s (env.stop (instance_id service) s.world) h)
        (λ a s1 h1.
          IfOk-after (λ a. Read service promoted)
            (λ a. Dropped (env.to_text service.id) service none) _
            (when_routing env (modify (unregistered env service.id)) s1)
            (unregistered-Read service promoted s1 h1)
            (λ b s2 h2. drop_routes-Dropped service promoted s2 h2))

  -- Where the coordinator has an ingress and every entry of the snapshot is that of the service
  -- which is its key, a stop of an autoscaled service that succeeds leaves no host that resolves to
  -- the service, and no promoted deployment of it.
  pub stop_service_routes_only-Dropped :
      (service : ServiceConfig) (s : Store env.World)
      → Keyed s.snapshot
      → IfOk
          (λ a. Dropped (env.to_text service.id) service none)
          (stop_service_routes_only env service s)
  unfolding stop_service_routes_only ◌>>=◌
  stop_service_routes_only-Dropped service s keyed =
      IfOk-after (Read service) (λ a. Dropped (env.to_text service.id) service none) _
        (promoted_deployment env service.id s) (promoted_deployment-Read service s keyed)
        (drop_routes-Dropped service)

  -- Where the coordinator has an ingress and every entry of the snapshot is that of the service
  -- which is its key, a stop of a service that succeeds leaves no host that resolves to the
  -- service, and no promoted deployment of it.
  pub stop_service-Dropped :
      (service : ServiceConfig) (s : Store env.World)
      → Keyed s.snapshot
      → IfOk (λ a. Dropped (env.to_text service.id) service none) (stop_service env service s)
  unfolding stop_service ◌>>=◌
  stop_service-Dropped service s keyed =
      IfOk-after (Read service) (λ a. Dropped (env.to_text service.id) service none) _
        (promoted_deployment env service.id s) (promoted_deployment-Read service s keyed)
        (stopped-Dropped service)
