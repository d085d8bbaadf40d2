-- ===== src/Tests/Deployments.antt =====
-- Tests of the deploy coordinator: ids and times from one counter, a database that may refuse
-- statements, a resolver that answers one host name, a runtime that starts everything.
use denia.Prelude.{
  ℕ, ◌+◌, ◌%◌, ◌≡◌, refl, true, false, List, [], ◌∷◌, ◌==◌, if◌then◌else◌, Option, none, some, ok,
  Map, nat_key, lookup, insert, insert_new, arith,
}
use denia.Ingress.Routes.{Text, RouteSpec, text_key, try_upsert}
use denia.Deploy.Tables.{
  DeploymentStatus, DeploymentRequest, ArtifactRecord, Tables, new_deployment, set_status,
  set_artifact_digest, upsert_artifact, request_service_id,
}
use denia.Deploy.Step.{IfOk, RepoError, sqlite, Store}
use denia.Deploy.Repo.{
  ExternalImageSource, RegistryAuth, RegistryAuthKind, Registry, ServiceSource, ServiceConfig,
  Project, Env,
}
use denia.Deploy.Routing.{route_table_from_snapshot, service_spec}
use denia.Deploy.Coordinator.{run_with_deps, wire, stop_service}
use denia.Deploy.Live.{Live}
use denia.Deploy.History.{Operation, perform_all, perform_all-Live}
use denia.Deploy.Ends.{EndsAs, run_with_deps-EndsAs, wire_promotes}
use denia.Deploy.Endpoints.{Wired, wire-Wired}
use denia.Deploy.Claims.{Gives, route_table_from_snapshot-Gives}
use denia.Deploy.Sources.{resolve_external_auth}
use denia.Deploy.Credentials.{StandsFor, resolve_external_auth-StandsFor}
use denia.Deploy.Managed.{Lists, all-Lists}
use denia.Deploy.Catalog
use denia.Deploy.Stopping.{Dropped, stop_service-Dropped}

-- A registry whose endpoint is `r/`, with a user and a password.
abbrev registry : Registry
registry = record {
  id = 4;
  project_id = 1;
  name = 114 ∷ [];
  endpoint = 114 ∷ 47 ∷ [];
  auth_kind = RegistryAuthKind.basic;
  credential_ref = some 3;
}

-- The host name `web`, and one that does not validate.
abbrev host : Text
host = 119 ∷ 101 ∷ 98 ∷ []

abbrev bad_host : Text
bad_host = 42 ∷ []

abbrev artifact : ArtifactRecord
artifact = record { id = 5; digest = 97 ∷ []; payload = 0 }

abbrev project : Project
project = record { default_resource_limits = none; shared_environment = [] }

abbrev web : ServiceConfig
web = record {
  id = 7;
  project_id = 1;
  name = host;
  source = ServiceSource.upload;
  internal_port = 80;
  health_check = record { path = "/"; timeout_seconds = 5 };
  resource_limits = none;
  environment = [];
  tls_enabled = false;
  autoscale = none;
}

-- The same service under the autoscaler.
abbrev scaled : ServiceConfig
scaled = record web {
  autoscale = some (record {
    min_replicas = 1;
    max_replicas = 4;
    target_cpu_pct = 50;
    target_mem_pct = none;
    scale_down_cooldown_s = 60;
    idle_timeout_s = 300;
  });
}

abbrev env_with : (ℕ → Option RepoError) → Text → Env
env_with refused hostname = record {
  World = ℕ;
  parse_ip = λ host. none;
  routing = true;
  to_text = λ id. id ∷ [];
  now_v7 = λ w. (w + 1, w + 1);
  utc_now = λ w. w;
  instant = λ w. w;
  db_error = λ w. (refused w, w + 1);
  list_services = λ w. (ok (scaled ∷ []), w);
  list_verified_hostnames = λ id w. (ok (hostname ∷ []), w);
  get_project = λ id w. (ok (some project), w);
  registry = λ id w. (ok (some registry), w);
  decrypt = λ project_id secret w. (ok (97 ∷ 58 ∷ 98 ∷ []), w);
  acquire = λ request auth w. (ok artifact, w);
  start = λ request w. (ok 100, w);
  stop = λ instance w. (ok tt, w);
  check = λ socket_path check w. (ok tt, w);
}

-- A database that carries everything out, one that refuses each fifth statement, and a service
-- whose host name does not validate.
abbrev steady : Env
steady = env_with (λ w. none) host

abbrev flaky : Env
flaky = env_with (λ w. if w % 5 == 0 then some (sqlite "disk is full") else none) host

abbrev unroutable : Env
unroutable = env_with (λ w. none) bad_host

abbrev request : DeploymentRequest
request = DeploymentRequest.upload 7 host host host

abbrev empty_tables : Tables
empty_tables = record { deployments = []; promoted = []; artifacts = [] }

abbrev empty_store : Store ℕ
empty_store = record { db = empty_tables; snapshot = []; table = []; pools = []; world = 0 }

-- With one pending deployment of the service.
abbrev pending_store : Store ℕ
pending_store = record empty_store {
  db = record empty_tables { deployments = (1, new_deployment request 0) ∷ [] };
}

empty-Live : Live empty_tables
unfolding lookup
empty-Live = λ id row e h. absurd (ground arith)

pending-Live : Live pending_store.db
unfolding lookup
pending-Live = λ id row e h. ground arith

deploy_succeeds : (run_with_deps steady 1 web request pending_store).0 ≡ ok tt
unfolding run_with_deps insert lookup try_upsert set_status set_artifact_digest upsert_artifact
    insert_new
deploy_succeeds = refl

-- A deploy, a stop, a deploy of the same artifact, and a restart.
abbrev operations : List Operation
operations =
    Operation.deploy web request
    ∷ Operation.stop web
    ∷ Operation.deploy web (DeploymentRequest.redeploy 7)
    ∷ Operation.fail_orphans_at_boot
    ∷ Operation.restart web
    ∷ []

perform_all-Live_example : Live (perform_all flaky operations empty_store).db
unfolding request_service_id
perform_all-Live_example =
    perform_all-Live flaky operations empty_store (refl, (tt, (refl, (tt, (tt, tt))))) empty-Live

run_with_deps-EndsAs_example : EndsAs 1 web (run_with_deps unroutable 1 web request pending_store)
unfolding lookup request_service_id
run_with_deps-EndsAs_example =
    run_with_deps-EndsAs unroutable (λ w. refl) 1 web request pending_store pending-Live refl

wire_promotes_example : lookup 7 (wire unroutable 1 web 100 pending_store).1.db.promoted ≡ some 1
wire_promotes_example = wire_promotes unroutable (λ w. refl) 1 web 100 pending_store refl

wire-Wired_example : Wired 7 100 [] (wire unroutable 1 web 100 pending_store)
wire-Wired_example = wire-Wired unroutable refl 1 web 100 pending_store

abbrev snapshot : Map Text RouteSpec
snapshot = (7 ∷ [], service_spec steady web (7 ∷ []) (host ∷ [])) ∷ []

route_table_from_snapshot-Gives_example : Gives snapshot [] (route_table_from_snapshot snapshot)
route_table_from_snapshot-Gives_example = route_table_from_snapshot-Gives snapshot

abbrev running_store : Store ℕ
running_store = record pending_store { snapshot = snapshot }

stop_service-Dropped_example :
    IfOk (λ a. Dropped (7 ∷ []) web none) (stop_service steady web running_store)
stop_service-Dropped_example = stop_service-Dropped steady refl web running_store (refl, tt)

-- With the promoted deployment of the service, and its artifact.
abbrev promoted_store : Store ℕ
promoted_store = record empty_store {
  db = record {
    deployments =
        (
          1,
          record (new_deployment request 0) {
            status = DeploymentStatus.healthy;
            artifact_digest = some artifact.digest;
          },
        )
        ∷ [];
    promoted = (7, 1) ∷ [];
    artifacts = (artifact.digest, artifact) ∷ [];
  };
}

all-Lists_example : Lists promoted_store.db (Catalog.all steady promoted_store)
all-Lists_example = all-Lists steady promoted_store

-- An image reference `i` below the registry.
abbrev below_registry : ExternalImageSource
below_registry = record {
  image = [];
  credential = none;
  registry_id = some 4;
  image_ref = some (105 ∷ []);
}

source_resolves :
    (resolve_external_auth steady below_registry empty_store).0
    ≡ ok (114 ∷ 47 ∷ 105 ∷ [], RegistryAuth.basic (97 ∷ []) (98 ∷ []))
unfolding resolve_external_auth
source_resolves = refl

resolve_external_auth-StandsFor_example :
    IfOk
      (λ a s'.
        (below_registry.credential ≡ none)
        × StandsFor steady below_registry (some 4) empty_store.world a)
      (resolve_external_auth steady below_registry empty_store)
resolve_external_auth-StandsFor_example =
    resolve_external_auth-StandsFor steady below_registry empty_store
