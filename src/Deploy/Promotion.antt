-- ===== src/Deploy/Promotion.antt =====
-- The statements that promote, demote and clear, between which `Live` is at stake.
use denia.Prelude.{
  ℕ, ◌≡◌, ◌⊎◌, zero, suc, sym, refl, inl, inr, Bool, true, false, ◌==◌, ==_iff, if◌then◌else◌,
  Option, none, some, nat_key, lookup, arith, lookup-insert, lookup-remove, Bool-cases,
}
use denia.Deploy.Tables.{
  DeploymentStatus, Deployment, Tables, is_healthy, with_status, update_row, set_status,
  set_promoted, delete_promoted,
}
use denia.Deploy.Live.{map_row, lookup-update_row, Live, owner}

-- A row after a change of one row's status, from the row before.
set_status-row :
    (id k : ℕ) (status : DeploymentStatus) (db : Tables) (row' : Deployment)
    → lookup k (set_status id status db).deployments ≡ some row'
    → (row : Deployment) × (lookup k db.deployments ≡ some row)
      × (row' ≡ (if id == k then with_status status row else row))
unfolding set_status
set_status-row id k status db row' e =
    go (id == k) (lookup k db.deployments) refl
      (lookup-update_row id k (with_status status) db.deployments)
  where
    go :
        (b : Bool) (o : Option Deployment)
        → lookup k db.deployments ≡ o
        → lookup k (update_row id (with_status status) db.deployments)
          ≡ (if b then map_row (with_status status) o else o)
        → (row : Deployment) × (lookup k db.deployments ≡ some row)
          × (row' ≡ (if b then with_status status row else row))
    go true none q same = cc
    go false none q same = cc
    go true (some row) q same = (row, q, cc)
    go false (some row) q same = (row, q, cc)

-- The only row of the service that may be healthy is `id`.
abbrev pub Only : ℕ → ℕ → Tables → Type 0
Only service id db =
    (k : ℕ) (row : Deployment)
    → lookup k db.deployments ≡ some row
    → is_healthy row.status ≡ true
    → row.service_id ≡ service
    → k ≡ id

pub Live-Only :
    (service id : ℕ) (db : Tables)
    → Live db
    → lookup service db.promoted ≡ some id
    → Only service id db
Live-Only service id db live p k row e h s =
    let q = live k row e h in let q' : lookup service db.promoted ≡ some k = rw (← s) q in cc

pub unpromoted-Only :
    (service id : ℕ) (db : Tables)
    → Live db
    → lookup service db.promoted ≡ none
    → Only service id db
unpromoted-Only service id db live p k row e h s =
    let q = live k row e h in
    let q' : lookup service db.promoted ≡ some k = rw (← s) q in absurd (ground arith)

-- A row that is not healthy any more is not the healthy one.
pub demoted-Only :
    (service prev id : ℕ) (status : DeploymentStatus) (db : Tables)
    → is_healthy status ≡ false
    → Only service prev db
    → Only service id (set_status prev status db)
demoted-Only service prev id status db down only k row' e h s =
    go (Bool-cases (prev == k)) (set_status-row prev k status db row' e)
  where
    go :
        ((prev == k) ≡ true) ⊎ ((prev == k) ≡ false)
        → ((row : Deployment) × (lookup k db.deployments ≡ some row)
            × (row' ≡ (if prev == k then with_status status row else row)))
        → k ≡ id
    go (inl same) (row, q, r) =
        let r' : row' ≡ with_status status row = rw r (rw same refl) in
        let h' : is_healthy status ≡ true = rw r' at h in absurd (ground arith)
    go (inr apart) (row, q, r) =
        let r' : row' ≡ row = rw r (rw apart refl) in
        let k' : k ≡ prev = only k row q (rw (← r') h) (rw (← r') s) in
        absurd (ground (arith, ==_iff prev k))

pub set_promoted-Live :
    (service id : ℕ) (db : Tables)
    → Live db
    → Only service id db
    → Live (set_promoted service id db)
unfolding set_promoted
set_promoted-Live service id db live only k row e h =
    rw (lookup-insert service row.service_id id db.promoted)
      (go (Bool-cases (service == row.service_id)))
  where
    go :
        ((service == row.service_id) ≡ true) ⊎ ((service == row.service_id) ≡ false)
        → (if service == row.service_id then some id else lookup row.service_id db.promoted)
          ≡ some k
    go (inl same) =
        let s : service ≡ row.service_id = (==_iff service row.service_id).0 same in
        let k' : k ≡ id = only k row e h (sym s) in rw same (rw k' refl)
    go (inr apart) = rw apart (live k row e h)

-- With no healthy row of the service, it may have no promoted one.
pub delete_promoted-Live :
    (service : ℕ) (db : Tables)
    → Live db
    → ((k : ℕ) → Only service k db)
    → Live (delete_promoted service db)
unfolding delete_promoted
delete_promoted-Live service db live only k row e h =
    rw (lookup-remove service row.service_id db.promoted)
      (go (Bool-cases (service == row.service_id)))
  where
    go :
        ((service == row.service_id) ≡ true) ⊎ ((service == row.service_id) ≡ false)
        → (if service == row.service_id then none else lookup row.service_id db.promoted) ≡ some k
    go (inl same) =
        let s : service ≡ row.service_id = (==_iff service row.service_id).0 same in
        let a : k ≡ zero = only zero k row e h (sym s) in
        let b : k ≡ suc zero = only (suc zero) k row e h (sym s) in absurd (omega arith)
    go (inr apart) = rw apart (live k row e h)

-- The promoted row of a service may become healthy.
pub healthy-Live :
    (service id : ℕ) (db : Tables)
    → Live db
    → owner id db ≡ some service
    → lookup service db.promoted ≡ some id
    → Live (set_status id DeploymentStatus.healthy db)
unfolding set_status
healthy-Live service id db live own p k row' e h =
    go (Bool-cases (id == k)) (set_status-row id k DeploymentStatus.healthy db row' e)
  where
    go :
        ((id == k) ≡ true) ⊎ ((id == k) ≡ false)
        → ((row : Deployment) × (lookup k db.deployments ≡ some row)
            × (row' ≡ (if id == k then with_status DeploymentStatus.healthy row else row)))
        → lookup row'.service_id db.promoted ≡ some k
    go (inl same) (row, q, r) =
        let i : id ≡ k = (==_iff id k).0 same in
        let r' : row' ≡ with_status DeploymentStatus.healthy row = rw r (rw same refl) in
        let q' : lookup id db.deployments ≡ some row = rw i q in
        let s : some row.service_id ≡ some service = rw (← own) (rw q' refl) in
        let s' : row.service_id ≡ service = cc in rw r' (rw s' (rw (← i) p))
    go (inr apart) (row, q, r) =
        let r' : row' ≡ row = rw r (rw apart refl) in rw r' (live k row q (rw (← r') h))

pub set_promoted-lookup :
    (service id : ℕ) (db : Tables) → lookup service (set_promoted service id db).promoted ≡ some id
unfolding set_promoted
set_promoted-lookup service id db =
    rw (lookup-insert service service id db.promoted) (rw ((==_iff service service).1 refl) refl)
