-- ===== src/Deploy/Tables.antt =====
-- src/domain/deployment.rs and src/repo/sqlite/deployments.rs: what each statement does to the
-- tables when the database carries it out. A table is a map from its primary key.
use denia.Prelude.{
  ℕ, Bool, true, false, not, List, [], ◌∷◌, ◌==◌, if◌then◌else◌, any, retain, map, Option, none,
  some, Map, nat_key, lookup, insert, remove,
}
use denia.Ingress.Routes.{Text, text_key}

pub data DeploymentRequest : Type 0 where
  git : ℕ → Text → Text → DeploymentRequest
  external_image : ℕ → Text → DeploymentRequest
  upload : ℕ → Text → Text → Text → DeploymentRequest
  redeploy : ℕ → DeploymentRequest

unfoldable pub request_service_id : DeploymentRequest → ℕ
request_service_id (git service_id repo_url git_ref) = service_id
request_service_id (external_image service_id image) = service_id
request_service_id (upload service_id upload_id dockerfile_path context_path) = service_id
request_service_id (redeploy service_id) = service_id

pub data DeploymentStatus : Type 0 where
  pending building starting healthy failed stopped inactive : DeploymentStatus

-- A row of `deployments`, its key being the id. `artifact_digest` is the column that
-- `set_deployment_artifact` writes, and no field of `Deployment`.
pub record Deployment : Type 0 where
  pub service_id : ℕ
  pub request : DeploymentRequest
  pub status : DeploymentStatus
  pub created_at : ℕ
  pub artifact_digest : Option Text

-- `payload` stands for the kind, the source and the creation time.
pub record ArtifactRecord : Type 0 where
  pub id : ℕ
  pub digest : Text
  pub payload : ℕ

-- `deployments` by id, `promoted_deployments` by service, and `artifacts` by digest.
pub record Tables : Type 0 where
  pub deployments : Map ℕ Deployment
  pub promoted : Map ℕ ℕ
  pub artifacts : Map Text ArtifactRecord

abbrev pub is_healthy : DeploymentStatus → Bool
is_healthy DeploymentStatus.healthy = true
is_healthy _ = false

-- `status IN (Pending, Building, Starting)`.
abbrev pub in_flight : DeploymentStatus → Bool
in_flight DeploymentStatus.pending = true
in_flight DeploymentStatus.building = true
in_flight DeploymentStatus.starting = true
in_flight _ = false

abbrev pub with_status : DeploymentStatus → Deployment → Deployment
with_status status row = record row { status = status }

-- `UPDATE deployments SET … WHERE id = …`.
unfoldable pub update_row : ℕ → (Deployment → Deployment) → Map ℕ Deployment → Map ℕ Deployment
update_row id f rows = elim (lookup id rows) [ none ↦ rows | some row ↦ insert id (f row) rows ]

-- `UPDATE deployments SET …` with a condition on the row and its id.
unfoldable pub update_rows :
    (ℕ → Deployment → Bool) → (Deployment → Deployment) → Map ℕ Deployment → Map ℕ Deployment
update_rows p f [] = []
update_rows p f ((id, row) ∷ rows) = (id, if p id row then f row else row) ∷ update_rows p f rows

abbrev pub new_deployment : DeploymentRequest → ℕ → Deployment
new_deployment request now = record {
  service_id = request_service_id request;
  request = request;
  status = DeploymentStatus.pending;
  created_at = now;
  artifact_digest = none;
}

unfoldable pub set_status : ℕ → DeploymentStatus → Tables → Tables
unfolding update_row
set_status id status db = record db {
  deployments = update_row id (with_status status) db.deployments;
}

-- The upsert of `promote_deployment_q`.
unfoldable pub set_promoted : ℕ → ℕ → Tables → Tables
set_promoted service_id id db = record db { promoted = insert service_id id db.promoted }

unfoldable pub delete_promoted : ℕ → Tables → Tables
delete_promoted service_id db = record db { promoted = remove service_id db.promoted }

-- On a digest that is there, only the record's text is replaced.
unfoldable pub upsert_artifact : ArtifactRecord → Tables → Tables
upsert_artifact artifact db = record db { artifacts = insert artifact.digest artifact db.artifacts }

unfoldable pub set_artifact_digest : ℕ → Text → Tables → Tables
unfolding update_row
set_artifact_digest id digest db = record db {
  deployments = update_row id (λ row. record row { artifact_digest = some digest }) db.deployments;
}

-- `deployments JOIN artifacts`.
unfoldable pub joined_artifact : ℕ → Tables → Option ArtifactRecord
joined_artifact id db = elim (lookup id db.deployments) [
  | none ↦ none
  | some row ↦ elim (row.artifact_digest) [ none ↦ none | some digest ↦ lookup digest db.artifacts ]
]

abbrev pub is_orphan : ℕ → Deployment → Bool
is_orphan id row = in_flight row.status

-- The ids of `SELECT id … WHERE status IN …`.
unfoldable pub orphan_ids : Tables → List ℕ
orphan_ids db = map (λ (id, row). id) (retain (λ (id, row). is_orphan id row) db.deployments)

unfoldable pub fail_orphans : Tables → Tables
unfolding update_rows
fail_orphans db = record db {
  deployments = update_rows is_orphan (with_status DeploymentStatus.failed) db.deployments;
}

-- `id IN (SELECT deployment_id FROM promoted_deployments)`.
unfoldable pub is_promoted : ℕ → Map ℕ ℕ → Bool
is_promoted id promoted = any (λ (service_id, d). d == id) promoted

unfoldable pub demote_stale_healthy : Tables → Tables
unfolding update_rows is_promoted
demote_stale_healthy db = record db {
  deployments =
      update_rows
        (λ id row. if is_healthy row.status then not (is_promoted id db.promoted) else false)
        (with_status DeploymentStatus.inactive) db.deployments;
}
