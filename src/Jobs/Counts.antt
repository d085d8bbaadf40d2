-- ===== src/Jobs/Counts.antt =====
-- How many runs of a job the table has, and how many of them are active.
use denia.Prelude.{
  ℕ, ◌+◌, ◌≤◌, ◌≡◌, refl, inl, inr, Bool, true, ◌&&◌, List, [], ◌∷◌, ◌++◌, map, arith, leb, ◌==◌,
  if◌then◌else◌, find?, any, retain, none, some, Bool-cases,
}
use denia.Jobs.{place, Job, JobRun, is_active, newest_first, runs_of, find_job, update_jobs}

-- The number of rows that a test holds of.
abbrev pub count : {A : Type 0} → (A → Bool) → List A → ℕ
count p [] = 0
count p (x ∷ xs) = (if p x then 1 else 0) + count p xs

pub count-append :
    {A : Type 0} (p : A → Bool) (xs ys : List A) → count p (xs ++ ys) ≡ count p xs + count p ys
count-append p [] ys = omega arith
count-append p (x ∷ xs) ys = omega (arith, count-append p xs ys)

-- A job's runs, and those of them that are Pending or Running.
abbrev pub is_run_of : ℕ → JobRun → Bool
is_run_of job_id r = r.job_id == job_id

abbrev pub is_active_run_of : ℕ → JobRun → Bool
is_active_run_of job_id r = r.job_id == job_id && is_active r.status

pub count-place :
    (p : JobRun → Bool) (r : JobRun) (rs : List JobRun)
    → count p (place r rs) ≡ (if p r then 1 else 0) + count p rs
unfolding place
count-place p r [] = omega arith
count-place p r (q ∷ qs) = elim (Bool-cases (leb q.created_at r.created_at)) [
  | inl t ↦ rw t refl
  | inr f ↦ rw f (omega (arith, count-place p r qs))
]

pub count-newest_first :
    (p : JobRun → Bool) (rs : List JobRun) → count p (newest_first rs) ≡ count p rs
unfolding newest_first
count-newest_first p [] = refl
count-newest_first p (r ∷ rs) =
    omega (arith, count-place p r (newest_first rs), count-newest_first p rs)

pub count-retain :
    (job_id : ℕ) (rs : List JobRun)
    → count (λ r. is_active r.status) (retain (is_run_of job_id) rs)
      ≡ count (is_active_run_of job_id) rs
count-retain job_id [] = refl
count-retain job_id (r ∷ rs) = elim (Bool-cases (r.job_id == job_id)) [
  | inl t ↦ rw t (omega (arith, count-retain job_id rs))
  | inr f ↦ rw f (omega (arith, count-retain job_id rs))
]

pub find-count : {A : Type 0} (p : A → Bool) (xs : List A) → find? p xs ≡ none → count p xs ≡ 0
find-count p [] h = refl
find-count p (x ∷ xs) h = elim (Bool-cases (p x)) [
  | inl t ↦ let bad : some x ≡ none = rw (t) at h in cc
  | inr f ↦ let rest : find? p xs ≡ none = rw (f) at h in rw f (omega (arith, find-count p xs rest))
]

pub find-some :
    {A : Type 0} (p : A → Bool) (xs : List A) (x : A) → find? p xs ≡ some x → 1 ≤ count p xs
find-some p [] y h = absurd (ground arith)
find-some p (x ∷ xs) y h = elim (Bool-cases (p x)) [
  | inl t ↦ rw t (omega arith)
  | inr f ↦
      let rest : find? p xs ≡ some y = rw (f) at h in rw f (omega (arith, find-some p xs y rest))
]

-- A job without an active run has no row that is Pending or Running, and one with has some.
pub any_active-none :
    (job_id : ℕ) (runs : List JobRun)
    → find? (λ r. is_active r.status) (runs_of job_id runs) ≡ none
    → count (is_active_run_of job_id) runs ≡ 0
unfolding runs_of
any_active-none job_id runs h = omega (
  arith,
  find-count (λ r. is_active r.status) (newest_first (retain (is_run_of job_id) runs)) h,
  count-newest_first (λ r. is_active r.status) (retain (is_run_of job_id) runs),
  count-retain job_id runs,
)

pub any_active-some :
    (job_id : ℕ) (runs : List JobRun) (run : JobRun)
    → find? (λ r. is_active r.status) (runs_of job_id runs) ≡ some run
    → 1 ≤ count (is_active_run_of job_id) runs
unfolding runs_of
any_active-some job_id runs run h = omega (
  arith,
  find-some (λ r. is_active r.status) (newest_first (retain (is_run_of job_id) runs)) run h,
  count-newest_first (λ r. is_active r.status) (retain (is_run_of job_id) runs),
  count-retain job_id runs,
)

pub update_jobs-ids :
    (job : Job) (js : List Job)
    → map (λ (j : Job). j.id) (update_jobs job js) ≡ map (λ (j : Job). j.id) js
unfolding update_jobs
update_jobs-ids job [] = refl
update_jobs-ids job (j ∷ js) = ground (arith, update_jobs-ids job js)

-- Whether the table has a job.
abbrev pub has_job : ℕ → List Job → Bool
has_job job_id js = any (λ i. i == job_id) (map (λ (j : Job). j.id) js)

pub find_job-some :
    (job_id : ℕ) (js : List Job)
    → has_job job_id js ≡ true
    → (job : Job) × (find_job job_id js ≡ some job)
find_job-some job_id [] h = absurd (ground arith)
find_job-some job_id (j ∷ js) h = elim (Bool-cases (j.id == job_id)) [
  | inl t ↦ (j, rw t refl)
  | inr f ↦ let r : has_job job_id js ≡ true = rw f at h in rw f (find_job-some job_id js r)
]
