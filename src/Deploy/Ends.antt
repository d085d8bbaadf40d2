-- ===== src/Deploy/Ends.antt =====
-- How a deploy ends, and what a failure leaves behind.
use denia.Prelude.{
  ℕ, ◌≡◌, refl, ◌∙◌, inl, inr, ◌==◌, Option, none, some, Outcome, ok, err, Bool-cases, lookup,
  nat_key, arith,
}
use denia.Deploy.Tables.{DeploymentRequest, DeploymentStatus, Tables, set_status, set_promoted}
use denia.Deploy.Step.{
  RepoError, DeployError, Store, Step, after, ◌>>=◌, answered, Ensures, Keeps, Triple-bind, Kept-db,
}
use denia.Deploy.Repo.{
  ServiceConfig, Env, carried_out, statement, execute, update_deployment_status,
  promoted_deployment, demote_previous, promote_deployment,
}
use denia.Deploy.Coordinator.{
  failed_run, run_inner_with_deps, run_with_deps, compensated, finalize_started, wire,
  add_deploy_replica, write_route_table,
}
use denia.Deploy.Live.{Live, owner, status_of}
use denia.Deploy.Promotion.{set_promoted-lookup}
use denia.Deploy.Keeping.{Good, write_route_table-Keeps, add_deploy_replica-Keeps}
use denia.Deploy.Finalizing.{compensate_started_replica-db}
use denia.Deploy.Runs.{Deployed, status-set_status, run_inner_with_deps-Triple}

-- A database that carries out every statement.
abbrev pub Reliable : Env → Type 0
Reliable env = (w : env.World) → (env.db_error w).0 ≡ none

-- A deploy that succeeded is promoted and healthy, one that failed is failed.
abbrev pub EndsAs :
    {W : Type 0} → ℕ → ServiceConfig → Outcome (Unit {0}) DeployError × Store W → Type 0
EndsAs id service (ok _, s) =
    (lookup service.id s.db.promoted ≡ some id)
    × (status_of id s.db ≡ some DeploymentStatus.healthy)
    × Live s.db
EndsAs id service (err e, s) = status_of id s.db ≡ some DeploymentStatus.failed

module _ (env : Env) (reliable : Reliable env) where
  execute-Done :
      (P : Tables → Type 0) (f : Tables → Tables) (s : Store env.World)
      → P (f s.db)
      → P (execute env f s).1.db
  unfolding statement
  execute-Done P f s h = go (env.db_error s.world) (reliable s.world)
    where
      go :
          (o : Option RepoError × env.World)
          → o.0 ≡ none
          → P (carried_out (λ db. (ok tt, f db)) s o).1.db
      go (none, w) e = h
      go (some x, w) e = absurd (ground arith)

  failed_run-EndsAs :
      (id : ℕ) (service : ServiceConfig) (o : Outcome (Unit {0}) DeployError × Store env.World)
      → Ensures (λ a. Deployed env id service.id) (Good env id (some service.id)) o
      → EndsAs id service (failed_run env id o)
  unfolding update_deployment_status
  failed_run-EndsAs id service (ok a, s) (good, promoted, status) = (promoted, status, good.0)
  failed_run-EndsAs id service (err e, s) (live, own) =
      execute-Done (λ db. status_of id db ≡ some DeploymentStatus.failed)
        (set_status id DeploymentStatus.failed) s
        (status-set_status env id service.id DeploymentStatus.failed s.db own)

  -- A deploy of a row of the service, over tables in which every healthy row is promoted and a
  -- database that refuses no statement, ends in one of two ways, whatever else fails: it answers
  -- `Ok`, and the row is healthy, is the promoted one of its service, and every healthy row is
  -- promoted; or it answers an error, and the row is `Failed`.
  pub run_with_deps-EndsAs :
      (id : ℕ) (service : ServiceConfig) (request : DeploymentRequest) (s : Store env.World)
      → Live s.db
      → owner id s.db ≡ some service.id
      → EndsAs id service (run_with_deps env id service request s)
  unfolding run_with_deps
  run_with_deps-EndsAs id service request s live own =
      failed_run-EndsAs id service (run_inner_with_deps env id service request s)
        ((run_inner_with_deps-Triple env id service request).runs s (live, own))

  statement_ok :
      {A : Type 0} (f : Tables → Outcome A DeployError × Tables) (s : Store env.World)
      → (w : env.World) × (statement env f s
          ≡ ((f s.db).0, record s { db = (f s.db).1; world = w }))
  unfolding statement
  statement_ok {A} f s = go (env.db_error s.world) (reliable s.world)
    where
      go :
          (o : Option RepoError × env.World)
          → o.0 ≡ none
          → (w : env.World) × (carried_out f s o
              ≡ ((f s.db).0, record s { db = (f s.db).1; world = w }))
      go (none, w) e = (w, refl)
      go (some x, w) e = absurd (ground arith)

  abbrev Succeeds :
      {A : Type 0} → (A → Tables → Type 0) → Outcome A DeployError × Store env.World → Type 0
  Succeeds Q (ok a, s) = Q a s.db
  Succeeds Q (err e, s) = ⊥

  execute-Succeeds :
      (Q : Tables → Type 0) (f : Tables → Tables) (s : Store env.World)
      → Q (f s.db)
      → Succeeds (λ a. Q) (execute env f s)
  execute-Succeeds Q f s h = let (w, e) = statement_ok (λ db. (ok tt, f db)) s in rw e h

  demote_previous-Succeeds :
      (id : ℕ) (prev : Option ℕ) (s : Store env.World)
      → Succeeds (λ a db. Unit {0}) (demote_previous env id prev s)
  unfolding update_deployment_status
  demote_previous-Succeeds id none s = tt
  demote_previous-Succeeds id (some prev) s = elim (Bool-cases (prev == id)) [
    | inl same ↦ rw same tt
    | inr apart ↦
        rw apart
          (execute-Succeeds (λ db. Unit {0}) (set_status prev DeploymentStatus.inactive) s tt)
  ]

  Succeeds-after :
      {A B : Type 0} (R : A → Tables → Type 0) (Q : B → Tables → Type 0) (f : A → Step env.World B)
      (o : Outcome A DeployError × Store env.World)
      → Succeeds R o
      → ((a : A) (s : Store env.World) → R a s.db → Succeeds Q (f a s))
      → Succeeds Q (after f o)
  Succeeds-after R Q f (ok a, s) h k = k a s h
  Succeeds-after R Q f (err e, s) h k = absurd h

  promote_deployment-Succeeds :
      (id key : ℕ) (s : Store env.World)
      → Succeeds (λ a db. lookup key db.promoted ≡ some id) (promote_deployment env key id s)
  unfolding promote_deployment promoted_deployment ◌>>=◌
  promote_deployment-Succeeds id key s =
      let (w, e) = statement_ok (λ db. (ok (lookup key db.promoted), db)) s in
      let s1 : Store env.World = record s { world = w } in
      rw e (
        Succeeds-after (λ a db. Unit {0}) (λ a db. lookup key db.promoted ≡ some id)
          (λ _. execute env (set_promoted key id))
          (demote_previous env id (lookup key s.db.promoted) s1)
          (demote_previous-Succeeds id (lookup key s.db.promoted) s1)
          (λ a s2 h.
            execute-Succeeds (λ db. lookup key db.promoted ≡ some id) (set_promoted key id) s2
              (set_promoted-lookup key id s2.db)))

  wired_after_promotion :
      (id : ℕ) (service : ServiceConfig) (socket_path : ℕ)
      (o : Outcome (Unit {0}) DeployError × Store env.World)
      → Succeeds (λ a db. lookup service.id db.promoted ≡ some id) o
      → lookup service.id
          (after
            (λ _. add_deploy_replica env service socket_path >>= λ _. write_route_table env service)
            o).1.db.promoted
        ≡ some id
  wired_after_promotion id service socket_path (err e, s) h = absurd h
  wired_after_promotion id service socket_path (ok a, s) h =
      Kept-db (λ db. lookup service.id db.promoted ≡ some id) _
        ((wiring id service socket_path).runs s h)
    where
      wiring :
          (id : ℕ) (service : ServiceConfig) (socket_path : ℕ)
          → Keeps
              (λ db. lookup service.id db.promoted ≡ some id)
              (add_deploy_replica env service socket_path >>= λ _. write_route_table env service)
      wiring id service socket_path =
          Triple-bind (add_deploy_replica-Keeps env service socket_path)
            (λ _. write_route_table-Keeps env service)

  compensated_promoted :
      (service : ServiceConfig) (key : ℕ) (o : Outcome (Unit {0}) DeployError × Store env.World)
      → lookup key (compensated env service o).1.db.promoted ≡ lookup key o.1.db.promoted
  compensated_promoted service key (ok a, s) = refl
  compensated_promoted service key (err e, s) =
      rw (compensate_started_replica-db env service s) refl

  -- Over a database that refuses no statement, once the health check of a started replica has
  -- passed, the deployment is its service's promoted one, whether the wiring then succeeds or is
  -- undone.
  pub wire_promotes :
      (id : ℕ) (service : ServiceConfig) (socket_path : ℕ) (s : Store env.World)
      → (env.check socket_path service.health_check s.world).0 ≡ ok tt
      → lookup service.id (wire env id service socket_path s).1.db.promoted ≡ some id
  unfolding wire finalize_started ◌>>=◌
  wire_promotes id service socket_path s passed =
      compensated_promoted service service.id (finalize_started env id service socket_path s)
      ∙ go (env.check socket_path service.health_check s.world) passed
    where
      go :
          (o : Outcome (Unit {0}) DeployError × env.World)
          → o.0 ≡ ok tt
          → lookup service.id
              (after
                (λ _. promote_deployment env service.id id >>= λ _.
                  add_deploy_replica env service socket_path >>= λ _. write_route_table env service)
                (answered s o)).1.db.promoted
            ≡ some id
      go (ok a, w) e =
          wired_after_promotion id service socket_path _
            (promote_deployment-Succeeds id service.id (record s { world = w }))
      go (err x, w) e = absurd (ground arith)
