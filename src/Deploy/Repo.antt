-- ===== src/Deploy/Repo.antt =====
-- What the deploy code calls, and the methods of `SqliteDeploymentRepo`
-- (src/repo/sqlite/deployments.rs): each statement may be refused by the database, which then
-- leaves the tables as they were.
use denia.Prelude.{
  ℕ, Bool, Option, none, some, List, Map, Outcome, ok, err, nat_key, lookup, insert, ◌==◌,
  if◌then◌else◌,
}
use denia.Autoscale.Policy.{ResourceLimits, AutoscalePolicy}
use denia.Autoscale.Lifecycle.{HealthCheck}
use denia.Ingress.Routes.{Text}
use denia.Deploy.Tables.{
  DeploymentRequest, DeploymentStatus, Deployment, ArtifactRecord, Tables, new_deployment,
  set_status, set_promoted, delete_promoted, upsert_artifact, set_artifact_digest, joined_artifact,
  orphan_ids, fail_orphans, demote_stale_healthy,
}
use denia.Deploy.Step.{
  RepoError, unique_violation, DeployError, repo, Store, Step, pure, ◌>>=◌, ◌>>◌, call,
}

pub record GitSource : Type 0 where
  pub repo_url : Text
  pub git_ref : Text
  pub dockerfile_path : Text
  pub context_path : Text

pub record ExternalImageSource : Type 0 where
  pub image : Text
  pub credential : Option ℕ
  pub registry_id : Option ℕ
  pub image_ref : Option Text

pub data ServiceSource : Type 0 where
  git : GitSource → ServiceSource
  external_image : ExternalImageSource → ServiceSource
  upload : ServiceSource

-- The fields of `ServiceConfig` that a deploy reads.
pub record ServiceConfig : Type 0 where
  pub id : ℕ
  pub project_id : ℕ
  pub name : Text
  pub source : ServiceSource
  pub internal_port : ℕ
  pub health_check : HealthCheck
  pub resource_limits : Option ResourceLimits
  pub environment : List (Text × Text)
  pub tls_enabled : Bool
  pub autoscale : Option AutoscalePolicy

-- The fields of `Project` that a deploy reads.
pub record Project : Type 0 where
  pub default_resource_limits : Option ResourceLimits
  pub shared_environment : List (Text × Text)

pub data ArtifactAcquireRequest : Type 0 where
  git : Text → Text → Text → Text → ArtifactAcquireRequest
  external_image : Text → ArtifactAcquireRequest
  upload : Text → Text → Text → ArtifactAcquireRequest

-- The fields of `RuntimeStartRequest` that vary: the socket path is a function of the service's id,
-- the three cgroup options are `None`.
pub record StartRequest : Type 0 where
  pub service_name : Text
  pub service_id : ℕ
  pub deployment_id : ℕ
  pub artifact : ArtifactRecord
  pub internal_port : ℕ
  pub limits : ResourceLimits
  pub environment : Map Text Text
  pub replica_index : ℕ

pub record InstanceId : Type 0 where
  pub service_id : ℕ
  pub service_name : Text
  pub replica_index : ℕ

pub data RegistryAuthKind : Type 0 where
  anonymous basic token ecr_token gar_token : RegistryAuthKind

pub record Registry : Type 0 where
  pub id : ℕ
  pub project_id : ℕ
  pub name : Text
  pub endpoint : Text
  pub auth_kind : RegistryAuthKind
  pub credential_ref : Option ℕ

-- The type of the `oci_client` crate.
pub data RegistryAuth : Type 0 where
  anonymous : RegistryAuth
  basic : Text → Text → RegistryAuth
  bearer : Text → RegistryAuth

-- The four octets of an IPv4 address, or the eight segments of an IPv6 one.
pub data IpAddr : Type 0 where
  v4 : ℕ → ℕ → ℕ → ℕ → IpAddr
  v6 : ℕ → ℕ → ℕ → ℕ → ℕ → ℕ → ℕ → ℕ → IpAddr

-- What the coordinator is given. `World` is the state of all that: processes and sockets, clocks,
-- registries, build tools, and the tables of projects, services and domains. `routing` tells
-- whether it was built with an ingress, and `to_text` is `Uuid::to_string`.
pub record Env : Type 1 where
  pub World : Type 0
  -- `str::parse::<IpAddr>`.
  pub parse_ip : Text → Option IpAddr
  pub routing : Bool
  pub to_text : ℕ → Text
  pub now_v7 : World → ℕ × World
  pub utc_now : World → ℕ
  pub instant : World → ℕ
  -- The error of the next statement, or none where the database carries it out.
  pub db_error : World → Option RepoError × World
  pub list_services : World → Outcome (List ServiceConfig) DeployError × World
  pub list_verified_hostnames : ℕ → World → Outcome (List Text) DeployError × World
  pub get_project : ℕ → World → Outcome (Option Project) DeployError × World
  pub registry : ℕ → World → Outcome (Option Registry) DeployError × World
  -- `SopsSecretStore::decrypt`, of a project's secret.
  pub decrypt : ℕ → ℕ → World → Outcome Text DeployError × World
  pub acquire :
      ArtifactAcquireRequest → RegistryAuth → World → Outcome ArtifactRecord DeployError × World
  pub start : StartRequest → World → Outcome ℕ DeployError × World
  pub stop : InstanceId → World → Outcome (Unit {0}) DeployError × World
  pub check : ℕ → HealthCheck → World → Outcome (Unit {0}) DeployError × World

-- What a statement answers and leaves, where the database carries it out.
abbrev pub carried_out :
    {W A : Type 0}
    → (Tables → Outcome A DeployError × Tables)
    → Store W
    → Option RepoError × W
    → Outcome A DeployError × Store W
carried_out f s (some e, w) = (err (repo e), record s { world = w })
carried_out f s (none, w) = ((f s.db).0, record s { db = (f s.db).1; world = w })

abbrev pub inserted :
    ℕ → Deployment → Tables → Option Deployment → Outcome (Unit {0}) DeployError × Tables
inserted id row db (some other) = (err (repo unique_violation), db)
inserted id row db none = (ok tt, record db { deployments = insert id row db.deployments })

-- `INSERT INTO deployments`, whose primary key is the id.
abbrev pub insert_deployment : ℕ → Deployment → Tables → Outcome (Unit {0}) DeployError × Tables
insert_deployment id row db = inserted id row db (lookup id db.deployments)

module _ (env : Env) where
  unfoldable pub statement :
      {A : Type 0} → (Tables → Outcome A DeployError × Tables) → Step env.World A
  statement f s = carried_out f s (env.db_error s.world)

  abbrev pub select : {A : Type 0} → (Tables → A) → Step env.World A
  select f = statement (λ db. (ok (f db), db))

  abbrev pub execute : (Tables → Tables) → Step env.World (Unit {0})
  execute f = statement (λ db. (ok tt, f db))

  -- The new id; its row is `new_deployment` of the request and the time.
  unfoldable pub create_deployment : DeploymentRequest → Step env.World ℕ
  unfolding statement
  create_deployment request = do
    id ← call (λ w. let (id, w') = env.now_v7 w in (ok id, w'))
    now ← call (λ w. (ok (env.utc_now w), w))
    statement (insert_deployment id (new_deployment request now))
    pure id

  unfoldable pub update_deployment_status : ℕ → DeploymentStatus → Step env.World (Unit {0})
  unfolding statement
  update_deployment_status id status = execute (set_status id status)

  unfoldable pub fail_orphan_deployments : Step env.World (List ℕ)
  unfolding statement
  fail_orphan_deployments = do ids ← select orphan_ids; execute fail_orphans; pure ids

  unfoldable pub promoted_deployment : ℕ → Step env.World (Option ℕ)
  unfolding statement
  promoted_deployment service_id = select (λ db. lookup service_id db.promoted)

  abbrev pub demote_previous : ℕ → Option ℕ → Step env.World (Unit {0})
  demote_previous id none = pure tt
  demote_previous id (some prev) =
      if prev == id then pure tt else update_deployment_status prev DeploymentStatus.inactive

  unfoldable pub promote_deployment : ℕ → ℕ → Step env.World (Unit {0})
  unfolding update_deployment_status promoted_deployment statement
  promote_deployment service_id id = do
    prev ← promoted_deployment service_id
    demote_previous id prev
    execute (set_promoted service_id id)

  unfoldable pub clear_promoted_deployment : ℕ → Step env.World (Unit {0})
  unfolding statement
  clear_promoted_deployment service_id = execute (delete_promoted service_id)

  unfoldable pub demote_stale_healthy_deployments : Step env.World (Unit {0})
  unfolding statement
  demote_stale_healthy_deployments = execute demote_stale_healthy

  unfoldable pub put_artifact : ArtifactRecord → Step env.World (Unit {0})
  unfolding statement
  put_artifact artifact = execute (upsert_artifact artifact)

  unfoldable pub set_deployment_artifact : ℕ → Text → Step env.World (Unit {0})
  unfolding statement
  set_deployment_artifact id digest = execute (set_artifact_digest id digest)

  unfoldable pub get_deployment_artifact : ℕ → Step env.World (Option ArtifactRecord)
  unfolding statement
  get_deployment_artifact id = select (joined_artifact id)
