-- ===== src/Deploy/History.antt =====
-- Any sequence of the operations that write deployments.
use denia.Prelude.{
  ℕ, ◌≡◌, refl, List, [], ◌∷◌, Option, none, some, Outcome, ok, err, lookup, nat_key, All,
}
use denia.Deploy.Tables.{
  DeploymentRequest, request_service_id, DeploymentStatus, Deployment, ArtifactRecord, Tables,
  new_deployment, set_status, delete_promoted, fail_orphans, demote_stale_healthy, orphan_ids,
}
use denia.Deploy.Step.{
  RepoError, DeployError, Store, Step, ◌>>=◌, modify, Ensures, Triple, Keeps, Triple-bind,
  Triple-weaken, Triple-pure, call-Keeps, Kept-db,
}
use denia.Deploy.Repo.{
  ServiceConfig, Env, carried_out, statement, inserted, insert_deployment, create_deployment,
  update_deployment_status, promoted_deployment, clear_promoted_deployment, fail_orphan_deployments,
  demote_stale_healthy_deployments,
}
use denia.Deploy.Routing.{rebuild_routes_on_boot, apply_routes}
use denia.Deploy.Coordinator.{
  instance_id, create_pending, run_with_deps, finalize, restarted_from, restarted, restart_promoted,
  forget_entry, drop_routes, stop_promoted, stop_service, stop_service_routes_only,
}
use denia.Deploy.Live.{
  Live, owner, set_status-Live, fail_orphans-Live, demote_stale_healthy-Live, insert-Live,
  owner-insert,
}
use denia.Deploy.Promotion.{Only, Live-Only, demoted-Only, delete_promoted-Live}
use denia.Deploy.Keeping.{
  Good, Promoted, execute-Triple, select-Triple, when_routing-Keeps, swap_from_snapshot-Keeps,
}
use denia.Deploy.Finalizing.{finalize-Triple}
use denia.Deploy.Rerouting.{rebuild_routes_on_boot-Keeps, apply_routes-Keeps}
use denia.Deploy.Runs.{
  Deployed, select-Keeps, run_with_deps-Triple, promoted_deployment-Keeps,
  get_deployment_artifact-Keeps,
}

-- What the API and the boot sequence ask of the coordinator and the repository.
pub data Operation : Type 0 where
  deploy : ServiceConfig → DeploymentRequest → Operation
  restart stop stop_routes_only : ServiceConfig → Operation
  fail_orphans_at_boot demote_stale rebuild_routes refresh_routes : Operation

-- The API finds the service of a deploy by the id in the request.
abbrev pub IsFor : Operation → Type 0
IsFor (deploy service request) = request_service_id request ≡ service.id
IsFor _ = Unit {0}

module _ (env : Env) where
  -- The pending row, and the run that the API spawns for it.
  unfoldable pub deployed : ServiceConfig → DeploymentRequest → Step env.World (Unit {0})
  unfolding ◌>>=◌ create_pending run_with_deps
  deployed service request = do
    id ← create_pending env service request
    run_with_deps env id service request

  -- The state that an operation leaves, whatever it answers.
  unfoldable pub perform : Operation → Store env.World → Store env.World
  unfolding deployed restart_promoted stop_service stop_service_routes_only fail_orphan_deployments
      demote_stale_healthy_deployments rebuild_routes_on_boot apply_routes
  perform (deploy service request) s = (deployed service request s).1
  perform (restart service) s = (restart_promoted env service s).1
  perform (stop service) s = (stop_service env service s).1
  perform (stop_routes_only service) s = (stop_service_routes_only env service s).1
  perform fail_orphans_at_boot s = (fail_orphan_deployments env s).1
  perform demote_stale s = (demote_stale_healthy_deployments env s).1
  perform rebuild_routes s = (rebuild_routes_on_boot env s).1
  perform refresh_routes s = (apply_routes env s).1

  unfoldable pub perform_all : List Operation → Store env.World → Store env.World
  unfolding perform
  perform_all [] s = s
  perform_all (operation ∷ operations) s = perform_all operations (perform operation s)

  inserted-Ensures :
      (id now : ℕ) (request : DeploymentRequest) (s : Store env.World) (w : env.World)
      (present : Option Deployment)
      → Live s.db
      → Ensures
          (λ a db. Live db × (owner id db ≡ some (request_service_id request)))
          Live
          (carried_out (λ db. inserted id (new_deployment request now) db present) s (none, w))
  inserted-Ensures id now request s w (some row) live = live
  inserted-Ensures id now request s w none live =
      (insert-Live id now request s.db live, owner-insert id now request s.db)

  insert_deployment-Ensures :
      (id now : ℕ) (request : DeploymentRequest) (s : Store env.World)
      (o : Option RepoError × env.World)
      → Live s.db
      → Ensures
          (λ a db. Live db × (owner id db ≡ some (request_service_id request)))
          Live
          (carried_out (insert_deployment id (new_deployment request now)) s o)
  insert_deployment-Ensures id now request s (some e, w) live = live
  insert_deployment-Ensures id now request s (none, w) live =
      inserted-Ensures id now request s w (lookup id s.db.deployments) live

  create_deployment-Triple :
      (request : DeploymentRequest)
      → Triple Live
          (create_deployment env request)
          (λ id. Good env id (some (request_service_id request)))
          Live
  unfolding create_deployment statement
  create_deployment-Triple request = Triple-bind (call-Keeps _) (λ id.
      Triple-bind (call-Keeps _) (λ now.
        Triple-bind
          (record {
            runs = λ s p. insert_deployment-Ensures id now request s (env.db_error s.world) p;
          })
          (λ _. record { runs = λ s p. p })))

  deployed-Keeps :
      (service : ServiceConfig) (request : DeploymentRequest)
      → request_service_id request ≡ service.id
      → Keeps Live (deployed service request)
  unfolding deployed create_pending
  deployed-Keeps service request same = Triple-bind (create_deployment-Triple request) (λ id.
      rw same (record {
        runs = λ s p.
            ended id service (run_with_deps env id service request s)
              ((run_with_deps-Triple env id service request).runs s p);
      }))
    where
      ended :
          (id : ℕ) (service : ServiceConfig) (o : Outcome (Unit {0}) DeployError × Store env.World)
          → Ensures (λ a. Deployed env id service.id) (Good env id (some service.id)) o
          → Ensures (λ a. Live) Live o
      ended id service (ok a, s) h = h.0.0
      ended id service (err e, s) h = h.0

  finalize-Keeps :
      (id : ℕ) (service : ServiceConfig) (artifact : ArtifactRecord)
      → Keeps Live (finalize env id service artifact)
  finalize-Keeps id service artifact = record {
    runs = λ s p.
        ended (owner id s.db) (finalize env id service artifact s)
          ((finalize-Triple env id (owner id s.db) service artifact).runs s (p, refl));
  }
    where
      ended :
          (own : Option ℕ) (o : Outcome (Unit {0}) DeployError × Store env.World)
          → Ensures (λ a. Promoted env id own service.id) (Good env id own) o
          → Ensures (λ a. Live) Live o
      ended own (ok a, s) h = h.0.0
      ended own (err e, s) h = h.0

  restarted_from-Keeps :
      (service : ServiceConfig) (id : ℕ) (artifact : Option ArtifactRecord)
      → Keeps Live (restarted_from env service id artifact)
  restarted_from-Keeps service id none = Triple-pure
  restarted_from-Keeps service id (some artifact) = finalize-Keeps id service artifact

  restarted-Keeps :
      (service : ServiceConfig) (promoted : Option ℕ) → Keeps Live (restarted env service promoted)
  restarted-Keeps service none = Triple-pure
  restarted-Keeps service (some id) =
      Triple-bind (get_deployment_artifact-Keeps env Live id) (restarted_from-Keeps service id)

  restart_promoted-Keeps : (service : ServiceConfig) → Keeps Live (restart_promoted env service)
  unfolding restart_promoted
  restart_promoted-Keeps service =
      Triple-bind (promoted_deployment-Keeps env Live service.id) (restarted-Keeps service)

  drop_routes-Keeps :
      {P : Tables → Type 0} (service : ServiceConfig) → Keeps P (drop_routes env service)
  unfolding drop_routes
  drop_routes-Keeps service =
      Triple-bind {m = modify (forget_entry env service)} (record { runs = λ s p. p })
        (λ _. swap_from_snapshot-Keeps env)

  -- Nothing of a service is healthy once its promoted row is stopped.
  stop_promoted-Triple :
      (service : ServiceConfig) (promoted : Option ℕ)
      → Triple
          (λ db. Live db × (lookup service.id db.promoted ≡ promoted))
          (stop_promoted env service promoted)
          (λ a. Live)
          Live
  unfolding update_deployment_status clear_promoted_deployment
  stop_promoted-Triple service none = record { runs = λ s p. p.0 }
  stop_promoted-Triple service (some id) =
      Triple-bind
        (execute-Triple env {Q = λ db. Live db × ((k : ℕ) → Only service.id k db)}
          (set_status id DeploymentStatus.stopped) stopped (λ db p. p.0))
        (λ _.
          execute-Triple env (delete_promoted service.id)
            (λ db p. delete_promoted-Live service.id db p.0 p.1) (λ db p. p.0))
    where
      stopped :
          (db : Tables)
          → Live db × (lookup service.id db.promoted ≡ some id)
          → Live (set_status id DeploymentStatus.stopped db)
            × ((k : ℕ) → Only service.id k (set_status id DeploymentStatus.stopped db))
      stopped db (live, p) = (
        set_status-Live id DeploymentStatus.stopped db refl live,
        λ k.
            demoted-Only service.id id k DeploymentStatus.stopped db refl
              (Live-Only service.id id db live p),
      )

  read_promoted-Triple :
      (key : ℕ)
      → Triple Live
          (promoted_deployment env key)
          (λ promoted db. Live db × (lookup key db.promoted ≡ promoted))
          Live
  unfolding promoted_deployment
  read_promoted-Triple key = select-Triple env (λ db. lookup key db.promoted)

  read-Live :
      (key : ℕ) (promoted : Option ℕ) (db : Tables)
      → Live db × (lookup key db.promoted ≡ promoted)
      → Live db
  read-Live key promoted db p = p.0

  stop_service-Keeps : (service : ServiceConfig) → Keeps Live (stop_service env service)
  unfolding stop_service
  stop_service-Keeps service = Triple-bind (read_promoted-Triple service.id) (λ promoted.
      Triple-bind
        (Triple-weaken (read-Live service.id promoted)
          (call-Keeps (env.stop (instance_id service))))
        (λ _.
          Triple-bind
            (Triple-weaken (read-Live service.id promoted)
              (when_routing-Keeps env _ (record { runs = λ s p. p })))
            (λ _.
              Triple-bind
                (Triple-weaken (read-Live service.id promoted)
                  (when_routing-Keeps env _ (drop_routes-Keeps service)))
                (λ _. stop_promoted-Triple service promoted))))

  stop_service_routes_only-Keeps :
      (service : ServiceConfig) → Keeps Live (stop_service_routes_only env service)
  unfolding stop_service_routes_only
  stop_service_routes_only-Keeps service =
      Triple-bind (read_promoted-Triple service.id) (λ promoted.
        Triple-bind
          (Triple-weaken (read-Live service.id promoted)
            (when_routing-Keeps env _ (drop_routes-Keeps service)))
          (λ _. stop_promoted-Triple service promoted))

  fail_orphan_deployments-Keeps : Keeps Live (fail_orphan_deployments env)
  unfolding fail_orphan_deployments
  fail_orphan_deployments-Keeps = Triple-bind (select-Keeps env Live orphan_ids) (λ ids.
      Triple-bind (execute-Triple env fail_orphans fail_orphans-Live (λ db p. p))
        (λ _. Triple-pure))

  demote_stale_healthy_deployments-Keeps : Keeps Live (demote_stale_healthy_deployments env)
  unfolding demote_stale_healthy_deployments
  demote_stale_healthy_deployments-Keeps =
      execute-Triple env demote_stale_healthy demote_stale_healthy-Live (λ db p. p)

  perform-Live :
      (operation : Operation) (s : Store env.World)
      → IsFor operation
      → Live s.db
      → Live (perform operation s).db
  unfolding perform
  perform-Live (deploy service request) s same live =
      Kept-db Live _ ((deployed-Keeps service request same).runs s live)
  perform-Live (restart service) s same live =
      Kept-db Live _ ((restart_promoted-Keeps service).runs s live)
  perform-Live (stop service) s same live =
      Kept-db Live _ ((stop_service-Keeps service).runs s live)
  perform-Live (stop_routes_only service) s same live =
      Kept-db Live _ ((stop_service_routes_only-Keeps service).runs s live)
  perform-Live fail_orphans_at_boot s same live =
      Kept-db Live _ (fail_orphan_deployments-Keeps.runs s live)
  perform-Live demote_stale s same live =
      Kept-db Live _ (demote_stale_healthy_deployments-Keeps.runs s live)
  perform-Live rebuild_routes s same live =
      Kept-db Live _ ((rebuild_routes_on_boot-Keeps env Live).runs s live)
  perform-Live refresh_routes s same live =
      Kept-db Live _ ((apply_routes-Keeps env Live).runs s live)

  -- From tables in which every healthy deployment is the promoted one of its service, any sequence
  -- of deploys, restarts, stops, boot-time repairs and route rebuildings, one after another, leaves
  -- such tables, whichever statements the database refuses and whatever the runtime, the health
  -- check, the acquirer and the resolver answer. A deploy is of a service whose id its request
  -- names.
  pub perform_all-Live :
      (operations : List Operation) (s : Store env.World)
      → All IsFor operations
      → Live s.db
      → Live (perform_all operations s).db
  unfolding perform_all
  perform_all-Live [] s same live = live
  perform_all-Live (operation ∷ operations) s same live =
      perform_all-Live operations (perform operation s) same.1
        (perform-Live operation s same.0 live)
