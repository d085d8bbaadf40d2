-- ===== src/Jobs/Retries.antt =====
-- The executor: attempts, retries, and the end of a run.
use Prim.Native.String.{String}
use denia.Prelude.{
  ℕ, zero, suc, ◌+◌, ◌≤◌, ◌≡◌, refl, ap, ◌∙◌, inl, inr, ◌⊎◌, List, [], ◌∷◌, arith, ◌==◌, ==_iff,
  not, retain, Option, none, some, Outcome, ok, err, Bool-cases, All, saturating_add, u32_max,
}
use denia.Jobs.{
  JobRunStatus, Job, JobRun, RepoError, JobEnv, Store, AttemptOutcome, attempt_succeeded,
  attempt_failed, judged, statement, statement_with, find_job, get_job, update_runs, update_job_run,
  start_job_run, run_attempt, resolved, ignoring, attempts, execute_with, execute,
}

-- A row of an ended run: Succeeded with exit code 0 at an attempt that is at most `top`, or Failed at
-- the attempt `top`; with its end.
pub record Ended (top : ℕ) (r : JobRun) : Type 0 where
  pub outcome :
      ((r.status ≡ JobRunStatus.succeeded) × (r.exit_code ≡ some 0) × (r.attempt ≤ top))
      ⊎ ((r.status ≡ JobRunStatus.failed) × (r.attempt ≡ top))
  pub finished : (t : ℕ) × (r.finished_at ≡ some t)

-- The rows of one run satisfy `P`.
abbrev pub Rows : ℕ → (JobRun → Type 0) → List JobRun → Type 0
Rows run_id P = All (λ r. r.id ≡ run_id → P r)

abbrev pub others : ℕ → List JobRun → List JobRun
others run_id = retain (λ r. not (r.id == run_id))

others-update_runs :
    (run_id : ℕ) (f : JobRun → JobRun) (rs : List JobRun)
    → ((r : JobRun) → (f r).id ≡ r.id)
    → others run_id (update_runs run_id f rs) ≡ others run_id rs
unfolding update_runs
others-update_runs run_id f [] h = refl
others-update_runs run_id f (r ∷ rs) h = elim (Bool-cases (r.id == run_id)) [
  | inl t ↦ rw (t, h r, t) (others-update_runs run_id f rs h)
  | inr g ↦ rw (g) (rw (g) (ap (λ u. r ∷ u) (others-update_runs run_id f rs h)))
]

Rows-update_runs :
    (P Q : JobRun → Type 0) (run_id : ℕ) (f : JobRun → JobRun) (rs : List JobRun)
    → ((r : JobRun) → P r → Q (f r))
    → ((r : JobRun) → (f r).id ≡ r.id)
    → Rows run_id P rs
    → Rows run_id Q (update_runs run_id f rs)
unfolding update_runs
Rows-update_runs P Q run_id f [] step same h = tt
Rows-update_runs P Q run_id f (r ∷ rs) step same h = elim (Bool-cases (r.id == run_id)) [
  | inl t ↦
      rw t (
        λ e. step r (h.0 ((==_iff r.id run_id).0 t)),
        Rows-update_runs P Q run_id f rs step same h.1,
      )
  | inr g ↦ rw g (λ e. absurd (ground arith), Rows-update_runs P Q run_id f rs step same h.1)
]

module _ (env : JobEnv) where
  open env use {World}

  -- A call that leaves the rows of one run changed so, and every other row as it was.
  abbrev Changes : ℕ → (JobRun → JobRun) → Store World → Store World → Type 0
  Changes run_id f s s' = s'.runs ≡ update_runs run_id f s.runs

  -- The database carries out every statement.
  abbrev pub IsSteady : Type 0
  IsSteady = (w : World) → (env.db_error w).0 ≡ none

  end_row : JobRunStatus → Option ℕ → ℕ → JobRun → JobRun
  end_row status code now r = record r { status = status; exit_code = code; finished_at = some now }

  start_row : ℕ → ℕ → JobRun → JobRun
  start_row attempt now r = record r {
    status = JobRunStatus.running;
    attempt = attempt;
    started_at = some now;
  }

  update-Changes :
      (run_id : ℕ) (status : JobRunStatus) (code : Option ℕ) (s : Store World)
      → IsSteady
      → (now : ℕ) × Changes run_id
          (end_row status code now)
          s
          (ignoring env (update_job_run env run_id status code) s)
  unfolding update_job_run statement end_row
  update-Changes run_id status code s steady = go (env.db_error s.world) (steady s.world)
    where
      go :
          (o : Option RepoError × World)
          → o.0 ≡ none
          → (now : ℕ) × Changes run_id
              (end_row status code now)
              s
              (statement_with env
                (λ s. (
                  tt,
                  record s {
                    runs =
                        update_runs run_id
                          (λ r. record r {
                            status = status;
                            exit_code = code;
                            finished_at = some (env.utc_now s.world);
                          })
                          s.runs;
                  },
                ))
                s
                o).1
      go (none, w) e = (env.utc_now w, refl)
      go (some x, w) e = absurd (ground arith)

  start-Changes :
      (run_id attempt : ℕ) (s : Store World)
      → IsSteady
      → (now : ℕ) × Changes run_id
          (start_row attempt now)
          s
          (ignoring env (start_job_run env run_id attempt) s)
  unfolding start_job_run statement start_row
  start-Changes run_id attempt s steady = go (env.db_error s.world) (steady s.world)
    where
      go :
          (o : Option RepoError × World)
          → o.0 ≡ none
          → (now : ℕ) × Changes run_id
              (start_row attempt now)
              s
              (statement_with env
                (λ s. (
                  tt,
                  record s {
                    runs =
                        update_runs run_id
                          (λ r. record r {
                            status = JobRunStatus.running;
                            attempt = attempt;
                            started_at = some (env.utc_now s.world);
                          })
                          s.runs;
                  },
                ))
                s
                o).1
      go (none, w) e = (env.utc_now w, refl)
      go (some x, w) e = absurd (ground arith)

  abbrev AtTop : ℕ → JobRun → Type 0
  AtTop top r = r.attempt ≡ top

  -- A store after an execution, against the store before it.
  abbrev pub Done : ℕ → ℕ → Store World → Store World → Type 0
  Done top run_id s s' =
      Rows run_id (Ended top) s'.runs × (others run_id s'.runs ≡ others run_id s.runs)

  start-AtTop :
      (run_id attempt : ℕ) (s : Store World)
      → IsSteady
      → Rows run_id (AtTop attempt) (ignoring env (start_job_run env run_id attempt) s).runs
        × (others run_id (ignoring env (start_job_run env run_id attempt) s).runs
            ≡ others run_id s.runs)
  unfolding start_row
  start-AtTop run_id attempt s steady =
      let (now, e) = start-Changes run_id attempt s steady in
      rw e (
        Rows-update_runs (λ r. Unit {0}) (AtTop attempt) run_id (start_row attempt now) s.runs
            (λ r _. refl) (λ r. refl) (anything run_id s.runs),
        others-update_runs run_id (start_row attempt now) s.runs (λ r. refl),
      )
    where
      anything : (run_id : ℕ) (rs : List JobRun) → Rows run_id (λ r. Unit {0}) rs
      anything run_id [] = tt
      anything run_id (r ∷ rs) = (λ e. tt, anything run_id rs)

  update-Done :
      (top attempt run_id : ℕ) (status : JobRunStatus) (code : Option ℕ) (s : Store World)
      → IsSteady
      → ((r : JobRun)
          → r.attempt ≡ attempt
          → ((status ≡ JobRunStatus.succeeded) × (code ≡ some 0) × (r.attempt ≤ top))
            ⊎ ((status ≡ JobRunStatus.failed) × (r.attempt ≡ top)))
      → Rows run_id (AtTop attempt) s.runs
      → Done top run_id s (ignoring env (update_job_run env run_id status code) s)
  unfolding end_row
  update-Done top attempt run_id status code s steady how h =
      let (now, e) = update-Changes run_id status code s steady in
      rw e (
        Rows-update_runs (AtTop attempt) (Ended top) run_id (end_row status code now) s.runs
            (λ r at. record { outcome = how r at; finished = (now, refl) }) (λ r. refl) h,
        others-update_runs run_id (end_row status code now) s.runs (λ r. refl),
      )

  -- An attempt succeeds only with exit code 0.
  run_attempt-zero :
      (job : Job) (run_id code : ℕ) (w : World)
      → (run_attempt env job run_id w).0 ≡ attempt_succeeded code
      → code ≡ 0
  unfolding run_attempt
  run_attempt-zero job run_id code w h = go (env.resolve job run_id w) h
    where
      judge : (o : Outcome ℕ String) → judged o ≡ attempt_succeeded code → code ≡ 0
      judge (ok c) h = ground arith
      judge (err e) h = cc

      go :
          (r : Outcome env.Request String × World)
          → (resolved env r).0 ≡ attempt_succeeded code
          → code ≡ 0
      go (err e, w') h = cc
      go (ok request, w') h = judge (env.run_to_completion request w').0 h

  AttemptOutcome-cases :
      (o : AttemptOutcome)
      → ((c : ℕ) × (o ≡ attempt_succeeded c)) ⊎ ((c : Option ℕ) × (o ≡ attempt_failed c))
  AttemptOutcome-cases (attempt_succeeded c) = inl (c, refl)
  AttemptOutcome-cases (attempt_failed c) = inr (c, refl)

  -- One attempt, and the rest where it fails.
  attempt_then :
      (top run_id left attempt : ℕ) (job : Job) (last : Option ℕ) (s : Store World)
      → IsSteady
      → attempt + 1 ≤ top
      → ((code : Option ℕ) (s' : Store World)
          → Rows run_id (AtTop (attempt + 1)) s'.runs
          → Done top run_id s' (attempts env job run_id left (attempt + 1 + 1) code s'))
      → Done top run_id s (attempts env job run_id (suc left) (attempt + 1) last s)
  unfolding attempts
  attempt_then top run_id left attempt job last s steady le rest =
      let s1 = ignoring env (start_job_run env run_id (attempt + 1)) s in
      let (h1, o1) = start-AtTop run_id (attempt + 1) s steady in
      let s2 : Store World = record s1 { world = (run_attempt env job run_id s1.world).1 } in
      elim (AttemptOutcome-cases (run_attempt env job run_id s1.world).0) [
        | inl (c, e) ↦
            let zero_code = run_attempt-zero job run_id c s1.world e in
            let (h2, o2) =
              update-Done top (attempt + 1) run_id JobRunStatus.succeeded (some c) s2 steady
                (λ r at. inl (refl, ap some zero_code, omega arith)) h1 in
            rw (e, attempts) (h2, o2 ∙ o1)
        | inr (c, e) ↦ let (h2, o2) = rest c s2 h1 in rw (e, attempts) (h2, o2 ∙ o1)
      ]

  attempts-Done :
      (top run_id left attempt : ℕ) (job : Job) (last : Option ℕ) (s : Store World)
      → IsSteady
      → attempt + left ≡ top
      → Rows run_id (AtTop attempt) s.runs
      → Done top run_id s (attempts env job run_id left (attempt + 1) last s)
  unfolding attempts
  attempts-Done top run_id zero attempt job last s steady le h =
      update-Done top attempt run_id JobRunStatus.failed last s steady
        (λ r at. inr (refl, omega arith)) h
  attempts-Done top run_id (suc left) attempt job last s steady le h =
      attempt_then top run_id left attempt job last s steady (omega arith) (λ code s' h'.
        attempts-Done top run_id left (attempt + 1) job code s' steady (omega arith) h')

  -- The attempts that a run may take: one where its job is gone, else one more than the retries of
  -- the job.
  abbrev pub allowed : Option Job → ℕ
  allowed none = 1
  allowed (some job) = saturating_add u32_max job.max_retries 1

  all_attempts-Done :
      (top run_id : ℕ) (job : Job) (s : Store World)
      → IsSteady
      → 1 ≤ top
      → Done top run_id s (attempts env job run_id top 1 none s)
  all_attempts-Done zero run_id job s steady le = absurd (omega arith)
  all_attempts-Done (suc left) run_id job s steady le =
      attempt_then (suc left) run_id left 0 job none s steady (omega arith)
        (λ code s' h'. attempts-Done (suc left) run_id left 1 job code s' steady (omega arith) h')

  get_job-found :
      (job_id : ℕ) (s : Store World)
      → IsSteady
      → (w : World) × (get_job env job_id s ≡ (ok (find_job job_id s.jobs), record s { world = w }))
  unfolding get_job statement
  get_job-found job_id s steady = go (env.db_error s.world) (steady s.world)
    where
      go :
          (o : Option RepoError × World)
          → o.0 ≡ none
          → (w : World) × (statement_with env (λ s. (find_job job_id s.jobs, s)) s o
              ≡ (ok (find_job job_id s.jobs), record s { world = w }))
      go (none, w) e = (w, refl)
      go (some x, w) e = absurd (ground arith)

  -- Over a database that refuses no statement, executing a run whose rows are new, at attempt 1, ends
  -- it. Each of its rows is then Succeeded with exit code 0, at an attempt that is at most
  -- max_retries + 1 (in u32, 1 where the job is gone), or Failed at exactly that attempt; and it has
  -- its end. The rows of every other run are as they were.
  pub execute_ends :
      (run : JobRun) (s : Store World)
      → IsSteady
      → Rows run.id (λ r. r.attempt ≡ 1) s.runs
      → Done (allowed (find_job run.job_id s.jobs)) run.id s (execute env run s)
  unfolding execute
  execute_ends run s steady h =
      let (w, e) = get_job-found run.job_id s steady in rw e (go w (find_job run.job_id s.jobs))
    where
      go :
          (w : World) (o : Option Job)
          → Done (allowed o) run.id s (execute_with env run.id (ok o, record s { world = w }))
      go w none =
          update-Done 1 1 run.id JobRunStatus.failed none (record s { world = w }) steady
            (λ r at. inr (refl, at)) h
      go w (some job) =
          all_attempts-Done (saturating_add u32_max job.max_retries 1) run.id job
            (record s { world = w }) steady (ground arith)
