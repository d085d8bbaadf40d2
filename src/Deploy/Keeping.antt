-- ===== src/Deploy/Keeping.antt =====
-- What the coordinator's operations keep of the tables, whatever the database, the runtime and the
-- network answer.
use denia.Prelude.{
  ℕ, ◌≡◌, refl, ◌∙◌, inl, inr, false, List, [], ◌∷◌, ◌==◌, ==_iff, Option, none, some, nat_key,
  lookup, Outcome, ok, err, Bool-cases,
}
use denia.Ingress.Routes.{Text, IngressError, RouteTable}
use denia.Deploy.Tables.{
  DeploymentStatus, Tables, is_healthy, with_status, set_status, set_promoted, set_artifact_digest,
}
use denia.Deploy.Step.{
  RepoError, Store, Step, Ensures, Triple, Keeps, Triple-bind, Triple-pure, call-Keeps,
}
use denia.Deploy.Repo.{
  ServiceConfig, Env, carried_out, statement, select, execute, update_deployment_status,
  promoted_deployment, demote_previous, promote_deployment,
}
use denia.Deploy.Routing.{route_table_from_snapshot, swap_built, swap_from_snapshot}
use denia.Deploy.Coordinator.{when_routing, add_deploy_replica, written, write_route_table}
use denia.Deploy.Live.{Live, owner, owner-update_row, set_status-Live, set_artifact_digest-Live}
use denia.Deploy.Promotion.{
  Only, Live-Only, unpromoted-Only, demoted-Only, set_promoted-Live, set_promoted-lookup,
}

module _ (env : Env) where
  pub execute-Triple :
      {P Q X : Tables → Type 0} (f : Tables → Tables)
      → ((db : Tables) → P db → Q (f db))
      → ((db : Tables) → P db → X db)
      → Triple P (execute env f) (λ a. Q) X
  unfolding statement
  execute-Triple {P} {Q} {X} f h x = record { runs = λ s p. go s p (env.db_error s.world) }
    where
      go :
          (s : Store env.World)
          → P s.db
          → (o : Option RepoError × env.World)
          → Ensures (λ a. Q) X (carried_out (λ db. (ok tt, f db)) s o)
      go s p (none, w) = h s.db p
      go s p (some e, w) = x s.db p

  pub select-Triple :
      {A : Type 0} {P : Tables → Type 0} (f : Tables → A)
      → Triple P (select env f) (λ a db. P db × (f db ≡ a)) P
  unfolding statement
  select-Triple {P} f = record { runs = λ s p. go s p (env.db_error s.world) }
    where
      go :
          (s : Store env.World)
          → P s.db
          → (o : Option RepoError × env.World)
          → Ensures (λ a db. P db × (f db ≡ a)) P (carried_out (λ db. (ok (f db), db)) s o)
      go s p (none, w) = (p, refl)
      go s p (some e, w) = p

  -- Every healthy row is promoted, and the row `id` is of `service`, or absent.
  abbrev pub Good : ℕ → Option ℕ → Tables → Type 0
  Good id service db = Live db × (owner id db ≡ service)

  -- And the row is the promoted one.
  abbrev pub Promoted : ℕ → Option ℕ → ℕ → Tables → Type 0
  Promoted id service key db = Good id service db × (lookup key db.promoted ≡ some id)

  pub owner-set_status :
      (k id : ℕ) (status : DeploymentStatus) (db : Tables)
      → owner k (set_status id status db) ≡ owner k db
  unfolding set_status
  owner-set_status k id status db = owner-update_row k id (with_status status) db (λ row. refl)

  owner-set_artifact_digest :
      (k id : ℕ) (digest : Text) (db : Tables)
      → owner k (set_artifact_digest id digest db) ≡ owner k db
  unfolding set_artifact_digest
  owner-set_artifact_digest k id digest db =
      owner-update_row k id (λ row. record row { artifact_digest = some digest }) db (λ row. refl)

  pub set_status-Good :
      (k : ℕ) (service : Option ℕ) (id : ℕ) (status : DeploymentStatus) (db : Tables)
      → is_healthy status ≡ false
      → Good k service db
      → Good k service (set_status id status db)
  set_status-Good k service id status db down (live, own) =
      (set_status-Live id status db down live, owner-set_status k id status db ∙ own)

  pub update_deployment_status-Keeps :
      (k : ℕ) (service : Option ℕ) (id : ℕ) (status : DeploymentStatus)
      → is_healthy status ≡ false
      → Keeps (Good k service) (update_deployment_status env id status)
  unfolding update_deployment_status
  update_deployment_status-Keeps k service id status down =
      execute-Triple (set_status id status) (λ db. set_status-Good k service id status db down)
        (λ db p. p)

  demote_previous-Triple :
      (id : ℕ) (service : Option ℕ) (key : ℕ) (prev : Option ℕ)
      → Triple
          (λ db. Good id service db × (lookup key db.promoted ≡ prev))
          (demote_previous env id prev)
          (λ a db. Good id service db × Only key id db)
          (Good id service)
  unfolding update_deployment_status
  demote_previous-Triple id service key none = record {
    runs = λ s p. (p.0, unpromoted-Only key id s.db p.0.0 p.1);
  }
  demote_previous-Triple id service key (some prev) = elim (Bool-cases (prev == id)) [
    | inl same ↦
        let e : prev ≡ id = (==_iff prev id).0 same in
        rw same (record { runs = λ s p. (p.0, Live-Only key id s.db p.0.0 (rw (← e) p.1)) })
    | inr apart ↦ rw apart (
        execute-Triple (set_status prev DeploymentStatus.inactive)
          (λ db p. (
            set_status-Good id service prev DeploymentStatus.inactive db refl p.0,
            demoted-Only key prev id DeploymentStatus.inactive db refl
                (Live-Only key prev db p.0.0 p.1),
          ))
          (λ db p. p.0))
  ]

  owner-set_promoted : (k key id : ℕ) (db : Tables) → owner k (set_promoted key id db) ≡ owner k db
  unfolding set_promoted
  owner-set_promoted k key id db = refl

  set_promoted-Promoted :
      (id : ℕ) (service : Option ℕ) (key : ℕ) (db : Tables)
      → Good id service db
      → Only key id db
      → Promoted id service key (set_promoted key id db)
  set_promoted-Promoted id service key db (live, own) only = (
    (set_promoted-Live key id db live only, owner-set_promoted id key id db ∙ own),
    set_promoted-lookup key id db,
  )

  pub promote_deployment-Triple :
      (id : ℕ) (service : Option ℕ) (key : ℕ)
      → Triple
          (Good id service)
          (promote_deployment env key id)
          (λ a. Promoted id service key)
          (Good id service)
  unfolding promote_deployment promoted_deployment
  promote_deployment-Triple id service key =
      Triple-bind (select-Triple (λ db. lookup key db.promoted)) (λ prev.
        Triple-bind (demote_previous-Triple id service key prev) (λ _.
          execute-Triple (set_promoted key id)
            (λ db p. set_promoted-Promoted id service key db p.0 p.1) (λ db p. p.0)))

  -- Steps that write no table.
  swap_built-Keeps :
      (P : Tables → Type 0) (o : Outcome RouteTable IngressError) (s : Store env.World)
      → P s.db
      → Ensures (λ a. P) P (swap_built o s)
  swap_built-Keeps P (ok table) s p = p
  swap_built-Keeps P (err e) s p = p

  pub swap_from_snapshot-Keeps :
      {P : Tables → Type 0} → Keeps P (swap_from_snapshot {W = env.World})
  unfolding swap_from_snapshot
  swap_from_snapshot-Keeps {P} = record {
    runs = λ s p. swap_built-Keeps P (route_table_from_snapshot s.snapshot) s p;
  }

  pub when_routing-Keeps :
      {P : Tables → Type 0} (m : Step env.World (Unit {0}))
      → Keeps P m
      → Keeps P (when_routing env m)
  when_routing-Keeps {P} m h = elim (Bool-cases env.routing) [
    | inl e ↦ rw e h
    | inr e ↦ rw e Triple-pure
  ]

  written-Keeps :
      {P : Tables → Type 0} (service : ServiceConfig) (hosts : List Text)
      → Keeps P (written env service hosts)
  unfolding swap_from_snapshot
  written-Keeps service [] = Triple-pure
  written-Keeps service (host ∷ hosts) =
      Triple-bind (record { runs = λ s p. p }) (λ _. swap_from_snapshot-Keeps)

  pub write_route_table-Keeps :
      {P : Tables → Type 0} (service : ServiceConfig) → Keeps P (write_route_table env service)
  unfolding write_route_table
  write_route_table-Keeps service =
      when_routing-Keeps _
        (Triple-bind (call-Keeps (env.list_verified_hostnames service.id)) (written-Keeps service))

  pub add_deploy_replica-Keeps :
      {P : Tables → Type 0} (service : ServiceConfig) (socket_path : ℕ)
      → Keeps P (add_deploy_replica env service socket_path)
  unfolding add_deploy_replica
  add_deploy_replica-Keeps service socket_path = when_routing-Keeps _ (record { runs = λ s p. p })

  pub set_artifact_digest-Good :
      (k : ℕ) (service : Option ℕ) (id : ℕ) (digest : Text) (db : Tables)
      → Good k service db
      → Good k service (set_artifact_digest id digest db)
  set_artifact_digest-Good k service id digest db (live, own) =
      (set_artifact_digest-Live id digest db live, owner-set_artifact_digest k id digest db ∙ own)
