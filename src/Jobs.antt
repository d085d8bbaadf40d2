-- ===== src/Jobs.antt =====
-- src/domain/job.rs, src/repo/sqlite/jobs.rs and src/scheduler.rs: jobs, their runs, the scheduler
-- that makes runs, and the executor that ends them. The two tables are lists of rows. Each statement
-- may be refused by the database, or find a row that does not parse, and then changes nothing.
pub mod Counts
pub mod Forbid
pub mod Retries
use Prim.Native.String.{String}
use denia.Prelude.{
  ℕ, zero, suc, ◌+◌, ◌-◌, Bool, true, false, ◌||◌, ◌&&◌, not, List, [], ◌∷◌, ◌++◌, map, leb, ltb,
  ◌==◌, if◌then◌else◌, find?, any, retain, Option, none, some, Outcome, ok, err, saturating_add,
  u32_max,
}

pub data JobRunStatus : Type 0 where
  pending running succeeded failed skipped : JobRunStatus

-- `payload` stands for the source, the command, the environment and the creation time.
pub record Job : Type 0 where
  pub id : ℕ
  pub project_id : ℕ
  pub name : String
  pub payload : ℕ
  pub schedule : Option String
  pub max_retries : ℕ
  pub next_run_at : Option ℕ
  pub last_enqueued_at : Option ℕ

-- An exit code is an `i32`, as its 32 bits.
pub record JobRun : Type 0 where
  pub id : ℕ
  pub job_id : ℕ
  pub status : JobRunStatus
  pub attempt : ℕ
  pub exit_code : Option ℕ
  pub started_at : Option ℕ
  pub finished_at : Option ℕ
  pub created_at : ℕ

pub data RepoError : Type 0 where
  sqlite invalid_column : String → RepoError
  invalid_credentials : RepoError

-- What the jobs call: ids, the clock, the `cron` crate's next time of a schedule (none where it does
-- not parse), the resolver of requests, and `Runtime::run_to_completion`.
pub record JobEnv : Type 1 where
  pub World : Type 0
  pub Request : Type 0
  pub now_v7 : World → ℕ × World
  pub utc_now : World → ℕ
  -- The error of the next statement, or none where it is carried out.
  pub db_error : World → Option RepoError × World
  pub cron_after : String → ℕ → Option ℕ
  pub resolve : Job → ℕ → World → Outcome Request String × World
  pub run_to_completion : Request → World → Outcome ℕ String × World

pub record Store (W : Type 0) : Type 0 where
  pub jobs : List Job
  pub runs : List JobRun
  pub world : W

abbrev pub is_active : JobRunStatus → Bool
is_active JobRunStatus.pending = true
is_active JobRunStatus.running = true
is_active _ = false

-- A call that reads and writes the tables, and may fail. A call that fails keeps what was written
-- before.
abbrev pub Call : Type 0 → Type 0 → Type 0
Call W A = Store W → Outcome A RepoError × Store W

module _ {W : Type 0} where
  abbrev pub pure : {A : Type 0} → A → Call W A
  pure a s = (ok a, s)

  abbrev pub after :
      {A B : Type 0}
      → (A → Call W B)
      → Outcome A RepoError × Store W
      → Outcome B RepoError × Store W
  after f (ok a, s) = f a s
  after f (err e, s) = (err e, s)

  infixl 5 ◌>>=◌
  abbrev pub ◌>>=◌ : {A B : Type 0} → Call W A → (A → Call W B) → Call W B
  ◌>>=◌ m f s = after f (m s)

  -- `ok_or`.
  abbrev pub ok_or : {A : Type 0} → RepoError → Option A → Call W A
  ok_or e none s = (err e, s)
  ok_or e (some a) s = (ok a, s)

-- `ORDER BY created_at DESC`.
unfoldable pub place : JobRun → List JobRun → List JobRun
place r [] = r ∷ []
place r (q ∷ qs) =
    let rest = place r qs in if leb q.created_at r.created_at then r ∷ q ∷ qs else q ∷ rest

unfoldable pub newest_first : List JobRun → List JobRun
unfolding place
newest_first [] = []
newest_first (r ∷ rs) = place r (newest_first rs)

unfoldable pub runs_of : ℕ → List JobRun → List JobRun
unfolding newest_first
runs_of job_id runs = newest_first (retain (λ r. r.job_id == job_id) runs)

abbrev pub find_job : ℕ → List Job → Option Job
find_job job_id jobs = find? (λ j. j.id == job_id) jobs

-- `next_run_at.map(|next| next <= now).unwrap_or(false)`.
abbrev pub is_due : ℕ → Job → Bool
is_due now j = elim (j.next_run_at) [ none ↦ false | some next ↦ leb next now ]

abbrev pub due_jobs : ℕ → List Job → List Job
due_jobs now jobs = retain (is_due now) jobs

-- `UPDATE jobs SET config_json = … WHERE id = …`.
unfoldable pub update_jobs : Job → List Job → List Job
update_jobs job [] = []
update_jobs job (j ∷ js) = (if j.id == job.id then job else j) ∷ update_jobs job js

-- The rows of a run, changed.
unfoldable pub update_runs : ℕ → (JobRun → JobRun) → List JobRun → List JobRun
update_runs run_id f [] = []
update_runs run_id f (r ∷ rs) = (if r.id == run_id then f r else r) ∷ update_runs run_id f rs

-- `SqliteStore::fail_orphan_runs`, without the number of rows.
abbrev pub orphaned : ℕ → JobRun → JobRun
orphaned now r =
    if is_active r.status
    then record r { status = JobRunStatus.failed; finished_at = some now }
    else r

-- `AttemptOutcome`, without the text of the reason.
pub data AttemptOutcome : Type 0 where
  attempt_succeeded : ℕ → AttemptOutcome
  attempt_failed : Option ℕ → AttemptOutcome

-- What `run_attempt` makes of the runtime's answer.
abbrev pub judged : Outcome ℕ String → AttemptOutcome
judged (ok code) = if code == 0 then attempt_succeeded code else attempt_failed (some code)
judged (err e) = attempt_failed none

module _ (env : JobEnv) where
  open env use {World, Request, now_v7, utc_now, db_error, cron_after, resolve, run_to_completion}

  -- A statement: refused, or carried out.
  abbrev pub statement_with :
      {A : Type 0}
      → (Store World → A × Store World)
      → Store World
      → Option RepoError × World
      → Outcome A RepoError × Store World
  statement_with f s (some e, w) = (err e, record s { world = w })
  statement_with f s (none, w) = let (a, s') = f (record s { world = w }) in (ok a, s')

  unfoldable pub statement : {A : Type 0} → (Store World → A × Store World) → Call World A
  statement f s = statement_with f s (db_error s.world)

  unfoldable pub get_job : ℕ → Call World (Option Job)
  unfolding statement
  get_job job_id = statement (λ s. (find_job job_id s.jobs, s))

  unfoldable pub list_job_runs : ℕ → Call World (List JobRun)
  unfolding statement runs_of
  list_job_runs job_id = statement (λ s. (runs_of job_id s.runs, s))

  unfoldable pub active_run : ℕ → Call World (Option JobRun)
  unfolding list_job_runs
  active_run job_id = list_job_runs job_id >>= λ runs. pure (find? (λ r. is_active r.status) runs)

  unfoldable pub claim_due_jobs : ℕ → Call World (List Job)
  unfolding statement
  claim_due_jobs now = statement (λ s. (due_jobs now s.jobs, s))

  unfoldable pub set_job_next_run : ℕ → Option ℕ → Option ℕ → Call World (Unit {0})
  unfolding get_job statement update_jobs
  set_job_next_run job_id next_run_at last_enqueued_at = do
    found ← get_job job_id
    job ← ok_or invalid_credentials found
    statement (λ s. (
      tt,
      record s {
        jobs =
            update_jobs
              (record job { next_run_at = next_run_at; last_enqueued_at = last_enqueued_at })
              s.jobs;
      },
    ))

  -- The row of a new run, at the end of the table.
  abbrev pub new_run : JobRunStatus → Bool → ℕ → ℕ → ℕ → JobRun
  new_run status finished job_id id now = record {
    id = id;
    job_id = job_id;
    status = status;
    attempt = 1;
    exit_code = none;
    started_at = none;
    finished_at = if finished then some now else none;
    created_at = now;
  }

  abbrev pub insert_row : JobRun → Call World JobRun
  insert_row run = statement (λ s. (run, record s { runs = s.runs ++ run ∷ [] }))

  unfoldable pub insert_run : JobRunStatus → Bool → ℕ → Call World JobRun
  unfolding statement
  insert_run status finished job_id s =
      let (id, w) = now_v7 s.world in
      insert_row (new_run status finished job_id id (utc_now w)) (record s { world = w })

  unfoldable pub create_job_run : ℕ → Call World JobRun
  unfolding insert_run
  create_job_run = insert_run JobRunStatus.pending false

  unfoldable pub create_skipped_run : ℕ → Call World JobRun
  unfolding insert_run
  create_skipped_run = insert_run JobRunStatus.skipped true

  unfoldable pub update_job_run : ℕ → JobRunStatus → Option ℕ → Call World (Unit {0})
  unfolding statement update_runs
  update_job_run run_id status exit_code = statement (λ s. (
    tt,
    record s {
      runs =
          update_runs run_id
            (λ r. record r {
              status = status;
              exit_code = exit_code;
              finished_at = some (utc_now s.world);
            })
            s.runs;
    },
  ))

  unfoldable pub start_job_run : ℕ → ℕ → Call World (Unit {0})
  unfolding statement update_runs
  start_job_run run_id attempt = statement (λ s. (
    tt,
    record s {
      runs =
          update_runs run_id
            (λ r. record r {
              status = JobRunStatus.running;
              attempt = attempt;
              started_at = some (utc_now s.world);
            })
            s.runs;
    },
  ))

  unfoldable pub fail_orphan_runs : Call World (Unit {0})
  unfolding statement
  fail_orphan_runs =
      statement (λ s. (tt, record s { runs = map (orphaned (utc_now s.world)) s.runs }))

  unfoldable pub compute_next_run : Job → ℕ → Option ℕ
  compute_next_run job after = elim (job.schedule) [
    | none ↦ none
    | some schedule ↦ cron_after schedule after
  ]

  -- The cursor of a job that fired is advanced; `enqueued` are the runs to hand on.
  abbrev pub advanced : ℕ → Job → List JobRun → Call World (List JobRun)
  advanced now job enqueued =
      set_job_next_run job.id (compute_next_run job now) (some now) >>= λ _. pure enqueued

  -- One due job: skipped where it has an active run, else a new run.
  abbrev pub fire_with : ℕ → Job → Option JobRun → Call World (List JobRun)
  fire_with now job (some _) = create_skipped_run job.id >>= λ _. advanced now job []
  fire_with now job none = create_job_run job.id >>= λ run. advanced now job (run ∷ [])

  unfoldable pub fire : ℕ → Job → Call World (List JobRun)
  unfolding active_run create_skipped_run create_job_run set_job_next_run compute_next_run
  fire now job = active_run job.id >>= fire_with now job

  unfoldable pub fire_each : ℕ → List Job → Call World (List JobRun)
  unfolding fire
  fire_each now [] = pure []
  fire_each now (job ∷ due) =
      fire now job >>= λ enqueued. fire_each now due >>= λ later. pure (enqueued ++ later)

  unfoldable pub tick : ℕ → Call World (List JobRun)
  unfolding claim_due_jobs fire_each
  tick now = claim_due_jobs now >>= fire_each now

  abbrev pub resolved : Outcome Request String × World → AttemptOutcome × World
  resolved (err e, w) = (attempt_failed none, w)
  resolved (ok request, w) = let (outcome, w') = run_to_completion request w in (judged outcome, w')

  unfoldable pub run_attempt : Job → ℕ → World → AttemptOutcome × World
  run_attempt job run_id w = resolved (resolve job run_id w)

  -- `let _ = …`: what a call leaves, whatever it answers.
  abbrev pub ignoring : {A : Type 0} → Call World A → Store World → Store World
  ignoring m s = (m s).1

  -- The loop over the attempts, with `left` of them from `attempt` on, and the update after it.
  unfoldable pub attempts : Job → ℕ → ℕ → ℕ → Option ℕ → Store World → Store World
  unfolding update_job_run start_job_run run_attempt
  attempts job run_id zero attempt last_exit s =
      ignoring (update_job_run run_id JobRunStatus.failed last_exit) s
  attempts job run_id (suc left) attempt last_exit s =
      let s1 = ignoring (start_job_run run_id attempt) s in
      let (outcome, w) = run_attempt job run_id s1.world in
      let s2 = record s1 { world = w } in
      elim outcome [
        | attempt_succeeded code ↦
            ignoring (update_job_run run_id JobRunStatus.succeeded (some code)) s2
        | attempt_failed exit_code ↦ attempts job run_id left (attempt + 1) exit_code s2
      ]

  -- Without the job, or where it cannot be loaded, the run fails.
  abbrev pub execute_with : ℕ → Outcome (Option Job) RepoError × Store World → Store World
  execute_with run_id (ok (some job), s) =
      attempts job run_id (saturating_add u32_max job.max_retries 1) 1 none s
  execute_with run_id (ok none, s) = ignoring (update_job_run run_id JobRunStatus.failed none) s
  execute_with run_id (err e, s) = ignoring (update_job_run run_id JobRunStatus.failed none) s

  unfoldable pub execute : JobRun → Store World → Store World
  unfolding get_job attempts
  execute run s = execute_with run.id (get_job run.job_id s)
