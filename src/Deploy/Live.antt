-- ===== src/Deploy/Live.antt =====
-- Of the rows of a service, only the promoted one is `Healthy`: what each statement does to that.
use denia.Prelude.{
  ℕ, ◌≡◌, refl, ap, ◌∙◌, inl, inr, Bool, true, false, [], ◌∷◌, ◌==◌, ==_iff, if◌then◌else◌, Option,
  none, some, Map, nat_key, lookup, insert, arith, lookup-insert, Option-cases, Bool-cases, not,
}
use denia.Ingress.Routes.{Text}
use denia.Deploy.Tables.{
  DeploymentRequest, request_service_id, DeploymentStatus, Deployment, Tables, is_healthy,
  with_status, update_row, update_rows, new_deployment, set_status, set_artifact_digest,
  fail_orphans, demote_stale_healthy, is_orphan, is_promoted,
}

abbrev pub map_row : {A : Type 0} → (Deployment → A) → Option Deployment → Option A
map_row f none = none
map_row f (some row) = some (f row)

pub lookup-update_row :
    (id k : ℕ) (f : Deployment → Deployment) (rows : Map ℕ Deployment)
    → lookup k (update_row id f rows)
      ≡ (if id == k then map_row f (lookup k rows) else lookup k rows)
unfolding update_row
lookup-update_row id k f rows = elim (Option-cases (lookup id rows)) [
  | inl e ↦ rw (e, update_row) (ground (arith, ==_iff id k))
  | inr (row, e) ↦ rw (e, update_row, lookup-insert id k) (ground (arith, ==_iff id k))
]

pub lookup-update_rows :
    (p : ℕ → Deployment → Bool) (f : Deployment → Deployment) (k : ℕ) (rows : Map ℕ Deployment)
    → lookup k (update_rows p f rows)
      ≡ map_row (λ row. if p k row then f row else row) (lookup k rows)
unfolding update_rows lookup
lookup-update_rows p f k [] = refl
lookup-update_rows p f k ((j, row) ∷ rows) = elim (Bool-cases (j == k)) [
  | inl e ↦ let same : j ≡ k = (==_iff j k).0 e in rw (e) (rw same refl)
  | inr e ↦ rw (e) (lookup-update_rows p f k rows)
]

-- Every healthy row is the promoted one of its service.
abbrev pub Live : Tables → Type 0
Live db =
    (id : ℕ) (row : Deployment)
    → lookup id db.deployments ≡ some row
    → is_healthy row.status ≡ true
    → lookup row.service_id db.promoted ≡ some id

-- The service of a row, none where there is no row.
abbrev pub owner : ℕ → Tables → Option ℕ
owner id db = map_row (λ row. row.service_id) (lookup id db.deployments)

abbrev pub status_of : ℕ → Tables → Option DeploymentStatus
status_of id db = map_row (λ row. row.status) (lookup id db.deployments)

-- A row `new` may stand where `old` stood: it is of the same service, and healthy only if that was.
abbrev pub Dims : Deployment → Deployment → Type 0
Dims old new =
    (new.service_id ≡ old.service_id)
    × (is_healthy new.status ≡ true → is_healthy old.status ≡ true)

Live-some :
    (db : Tables) (f : ℕ → Deployment → Deployment) (rows' : Map ℕ Deployment)
    → Live db
    → ((id : ℕ) (row : Deployment) → Dims row (f id row))
    → ((id : ℕ) → lookup id rows' ≡ map_row (f id) (lookup id db.deployments))
    → Live (record db { deployments = rows' })
Live-some db f rows' live dims same id row' e h = go (lookup id db.deployments) refl
  where
    go :
        (o : Option Deployment)
        → lookup id db.deployments ≡ o
        → lookup row'.service_id db.promoted ≡ some id
    go none q = let bad = same id in cc
    go (some row) q =
        let r : row' ≡ f id row = (let t = same id in cc) in
        let (s, b) = dims id row in let old = live id row q (b (rw (← r) h)) in rw r (rw s old)

Dims-with_status :
    (status : DeploymentStatus) (row : Deployment)
    → is_healthy status ≡ false
    → Dims row (with_status status row)
Dims-with_status status row h = (refl, λ e. cc)

Dims-if : (b : Bool) (row new : Deployment) → Dims row new → Dims row (if b then new else row)
Dims-if true row new d = d
Dims-if false row new d = (refl, λ h. h)

owner-map_row :
    (f : Deployment → Deployment) (o : Option Deployment)
    → ((row : Deployment) → (f row).service_id ≡ row.service_id)
    → map_row (λ row. row.service_id) (map_row f o) ≡ map_row (λ row. row.service_id) o
owner-map_row f none same = refl
owner-map_row f (some row) same = ap some (same row)

-- An `UPDATE … WHERE id` and an `UPDATE` under a condition keep the services of the rows.
pub owner-update_row :
    (k id : ℕ) (f : Deployment → Deployment) (db : Tables)
    → ((row : Deployment) → (f row).service_id ≡ row.service_id)
    → owner k (record db { deployments = update_row id f db.deployments }) ≡ owner k db
owner-update_row k id f db same =
    rw (lookup-update_row id k f db.deployments)
      (go (id == k) (owner-map_row f (lookup k db.deployments) same))
  where
    go :
        (b : Bool)
        → map_row (λ row. row.service_id) (map_row f (lookup k db.deployments))
          ≡ map_row (λ row. row.service_id) (lookup k db.deployments)
        → map_row
            (λ row. row.service_id)
            (if b then map_row f (lookup k db.deployments) else lookup k db.deployments)
          ≡ map_row (λ row. row.service_id) (lookup k db.deployments)
    go true e = e
    go false e = refl

map_row-if :
    (b : Bool) (f : Deployment → Deployment) (o : Option Deployment)
    → (if b then map_row f o else o) ≡ map_row (λ row. if b then f row else row) o
map_row-if true f none = refl
map_row-if true f (some row) = refl
map_row-if false f none = refl
map_row-if false f (some row) = refl

pub set_status-Live :
    (id : ℕ) (status : DeploymentStatus) (db : Tables)
    → is_healthy status ≡ false
    → Live db
    → Live (set_status id status db)
unfolding set_status
set_status-Live id status db h live =
    Live-some db (λ k row. if id == k then with_status status row else row) _ live
      (λ k row. Dims-if (id == k) row (with_status status row) (Dims-with_status status row h))
      (λ k.
        lookup-update_row id k (with_status status) db.deployments
        ∙ map_row-if (id == k) (with_status status) (lookup k db.deployments))

pub set_artifact_digest-Live :
    (id : ℕ) (digest : Text) (db : Tables) → Live db → Live (set_artifact_digest id digest db)
unfolding set_artifact_digest
set_artifact_digest-Live id digest db live =
    Live-some db (λ k row. if id == k then record row { artifact_digest = some digest } else row) _
      live
      (λ k row. Dims-if (id == k) row (record row { artifact_digest = some digest }) (refl, λ h. h))
      (λ k.
        lookup-update_row id k (λ row. record row { artifact_digest = some digest }) db.deployments
        ∙ map_row-if (id == k) (λ row. record row { artifact_digest = some digest })
            (lookup k db.deployments))

pub fail_orphans-Live : (db : Tables) → Live db → Live (fail_orphans db)
unfolding fail_orphans
fail_orphans-Live db live =
    Live-some db (λ k row. if is_orphan k row then with_status DeploymentStatus.failed row else row)
      _ live
      (λ k row.
        Dims-if (is_orphan k row) row (with_status DeploymentStatus.failed row)
          (Dims-with_status DeploymentStatus.failed row refl))
      (λ k. lookup-update_rows is_orphan (with_status DeploymentStatus.failed) k db.deployments)

pub demote_stale_healthy-Live : (db : Tables) → Live db → Live (demote_stale_healthy db)
unfolding demote_stale_healthy
demote_stale_healthy-Live db live =
    let stale = λ (k : ℕ) (row : Deployment).
      if is_healthy row.status then not (is_promoted k db.promoted) else false in
    Live-some db (λ k row. if stale k row then with_status DeploymentStatus.inactive row else row) _
      live
      (λ k row.
        Dims-if (stale k row) row (with_status DeploymentStatus.inactive row)
          (Dims-with_status DeploymentStatus.inactive row refl))
      (λ k. lookup-update_rows stale (with_status DeploymentStatus.inactive) k db.deployments)

-- A new row is pending.
pub insert-Live :
    (id now : ℕ) (request : DeploymentRequest) (db : Tables)
    → Live db
    → Live (record db { deployments = insert id (new_deployment request now) db.deployments })
insert-Live id now request db live k row e h =
    go (id == k) (lookup-insert id k (new_deployment request now) db.deployments)
  where
    go :
        (b : Bool)
        → lookup k (insert id (new_deployment request now) db.deployments)
          ≡ (if b then some (new_deployment request now) else lookup k db.deployments)
        → lookup row.service_id db.promoted ≡ some k
    go true same =
        let r : row ≡ new_deployment request now = cc in
        let h' : is_healthy DeploymentStatus.pending ≡ true = rw r at h in absurd (cc)
    go false same = live k row (cc) h

pub owner-insert :
    (id now : ℕ) (request : DeploymentRequest) (db : Tables)
    → owner id (record db { deployments = insert id (new_deployment request now) db.deployments })
      ≡ some (request_service_id request)
owner-insert id now request db =
    rw (lookup-insert id id (new_deployment request now) db.deployments)
      (rw ((==_iff id id).1 refl) refl)
