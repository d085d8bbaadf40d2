-- ===== src/Tests/Services.antt =====
-- Tests of the limiter, the jobs and the guards.
use Prim.Native.String.{String}
use denia.Prelude.{
  Option, some, Outcome, ok, err, false, ◌==◌, ◌↔◌, if◌then◌else◌, ℕ, ◌+◌, ◌%◌, ◌≡◌, refl, none,
  List, [], ◌∷◌, arith, nat_key,
}
use denia.RateLimit.{empty_state}
use denia.RateLimit.Window.{check_all, admit_all, limiter_admits_window}
use denia.Auth.{Role, Principal, ensure_role, ensure_role_or_not_found}
use denia.Auth.Guards.{Permitted, Masked, ensure_role_iff, ensure_role_or_not_found_masks}
use denia.Jobs.{JobRunStatus, Job, JobRun, sqlite, JobEnv, Store, find_job, due_jobs, tick, execute}
use denia.Jobs.Counts.{count, is_active_run_of}
use denia.Jobs.Forbid.{Ticked, tick_forbids}
use denia.Jobs.Retries.{Done, allowed, execute_ends}

-- Two attempts in 60 seconds for each of two keys.
abbrev calls : List (ℕ × ℕ)
calls = (1, 7) ∷ (2, 7) ∷ (3, 8) ∷ (30, 7) ∷ (61, 7) ∷ (61, 7) ∷ []

limiter_admits_window_example : check_all 60 2 calls empty_state ≡ admit_all 60 2 calls []
limiter_admits_window_example =
    limiter_admits_window 60 2 calls
      (omega arith, (omega arith, (omega arith, (omega arith, (omega arith, (omega arith, tt))))))

-- Ids and times from one counter; requests are the counter, and each second one exits with 1.
abbrev job_env : JobEnv
job_env = record {
  World = ℕ;
  Request = ℕ;
  now_v7 = λ w. (w + 1, w + 1);
  utc_now = λ w. w;
  db_error = λ w. (none, w + 1);
  cron_after = λ schedule after. some (after + 60);
  resolve = λ job run_id w. (ok w, w + 1);
  run_to_completion = λ request w. (ok (request % 2), w);
}

abbrev job : Job
job = record {
  id = 3;
  project_id = 1;
  name = "backup";
  payload = 0;
  schedule = some "@daily";
  max_retries = 2;
  next_run_at = some 5;
  last_enqueued_at = none;
}

abbrev run : JobRun
run = record {
  id = 1;
  job_id = 3;
  status = JobRunStatus.pending;
  attempt = 1;
  exit_code = none;
  started_at = none;
  finished_at = none;
  created_at = 5;
}

abbrev store : Store ℕ
store = record { jobs = job ∷ []; runs = run ∷ []; world = 9 }

tick_forbids_example : Ticked job_env (due_jobs 10 store.jobs) store (tick job_env 10 store)
tick_forbids_example = tick_forbids job_env 10 store

-- The database refuses the statement that reads the job again: the new run is Pending and is not
-- handed on.
abbrev flaky_env : JobEnv
flaky_env = record job_env {
  db_error = λ w. (if w == 13 then some (sqlite "disk is full") else none, w + 1);
}

abbrev idle_store : Store ℕ
idle_store = record { jobs = job ∷ []; runs = []; world = 9 }

tick_strands : (tick flaky_env 10 idle_store).0 ≡ err (sqlite "disk is full")
unfolding tick
tick_strands = refl

stranded_is_active : count (is_active_run_of 3) (tick flaky_env 10 idle_store).1.runs ≡ 1
unfolding tick
stranded_is_active = refl

execute_ends_example :
    Done job_env (allowed job_env (find_job 3 store.jobs)) 1 store (execute job_env run store)
execute_ends_example = execute_ends job_env run store (λ w. refl) ((λ e. refl), tt)

-- A user who operates project 1 and views every other one.
abbrev roles : ℕ → ℕ → Outcome (Option Role) String
roles u project = if project == 1 then ok (some Role.operator) else ok (some Role.viewer)

abbrev caller : Principal
caller = record { user_id = some 4; is_super_admin = false }

ensure_role_iff_example :
    (ensure_role roles caller 1 Role.operator ≡ ok tt) ↔ Permitted roles caller 1 Role.operator
ensure_role_iff_example = ensure_role_iff roles caller 1 Role.operator

ensure_role_or_not_found_masks_example :
    Masked roles caller 2 Role.admin "service not found"
      (ensure_role_or_not_found roles caller 2 Role.admin "service not found")
ensure_role_or_not_found_masks_example =
    ensure_role_or_not_found_masks roles caller 2 Role.admin "service not found"
