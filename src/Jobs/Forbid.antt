-- ===== src/Jobs/Forbid.antt =====
-- The scheduler and the active runs of a job.
use denia.Prelude.{
  ℕ, ◌+◌, ◌≤◌, ◌≡◌, refl, inl, inr, Bool, true, false, ◌&&◌, ◌||◌, List, [], ◌∷◌, ◌++◌, map, arith,
  ◌==◌, ==_iff, if◌then◌else◌, find?, any, Option, none, some, Outcome, ok, err, ap, sym, ◌∙◌,
  Bool-cases, All, All-append,
}
use denia.Jobs.{
  JobRunStatus, Job, JobRun, RepoError, JobEnv, Store, is_active, runs_of, find_job, is_due,
  due_jobs, update_jobs, Call, pure, after, ◌>>=◌, statement, statement_with, get_job,
  list_job_runs, active_run, claim_due_jobs, set_job_next_run, new_run, insert_run, create_job_run,
  create_skipped_run, compute_next_run, advanced, fire_with, fire, fire_each, tick,
}
use denia.Jobs.Counts.{
  count, count-append, is_run_of, is_active_run_of, any_active-none, any_active-some,
  update_jobs-ids, has_job, find_job-some,
}

-- The runs that start where these jobs are due: one of each that has no active run.
abbrev pub starts : ℕ → List Job → List JobRun → ℕ
starts k due runs =
    if any (λ (j : Job). j.id == k) due && count (is_active_run_of k) runs == 0 then 1 else 0

module _ (env : JobEnv) where
  open env use {World}

  -- An error that the database gave.
  abbrev pub Refused : RepoError → Type 0
  Refused e = (w : World) × ((env.db_error w).0 ≡ some e)

  -- What a tick over some due jobs answers and leaves.
  abbrev pub Ticked :
      List Job → Store World → Outcome (List JobRun) RepoError × Store World → Type 0
  Ticked due s (ok handed, s') =
      ((k : ℕ)
        → (count (is_run_of k) s'.runs
            ≡ count (is_run_of k) s.runs + count (λ (j : Job). j.id == k) due)
          × (count (is_active_run_of k) s'.runs
              ≡ count (is_active_run_of k) s.runs + starts k due s.runs)
          × (count (is_run_of k) handed ≡ starts k due s.runs))
      × All (λ (run : JobRun). run.status ≡ JobRunStatus.pending) handed
  Ticked due s (err e, s') =
      Refused e
      × ((k : ℕ)
          → (count (is_active_run_of k) s.runs ≤ count (is_active_run_of k) s'.runs)
            × (count (is_active_run_of k) s'.runs
                ≤ count (is_active_run_of k) s.runs + starts k due s.runs))

  -- A call ends so.
  abbrev Ends :
      {A : Type 0}
      → (A → Store World → Type 0)
      → (RepoError → Store World → Type 0)
      → Outcome A RepoError × Store World
      → Type 0
  Ends Q X (ok a, s) = Q a s
  Ends Q X (err e, s) = X e s

  Ends-after :
      {A B : Type 0} (R : A → Store World → Type 0) (Q : B → Store World → Type 0)
      (Y X : RepoError → Store World → Type 0) (f : A → Call World B)
      (o : Outcome A RepoError × Store World)
      → Ends R Y o
      → ((e : RepoError) (s : Store World) → Y e s → X e s)
      → ((a : A) (s : Store World) → R a s → Ends Q X (f a s))
      → Ends Q X (after f o)
  Ends-after R Q Y X f (ok a, s) h y k = k a s h
  Ends-after R Q Y X f (err e, s) h y k = y e s h

  -- The tables of runs are the same after an error that the database gave.
  abbrev Failed : Store World → RepoError → Store World → Type 0
  Failed s e s' = Refused e × (s'.runs ≡ s.runs)

  statement-Ends :
      {A : Type 0} (Q : A → Store World → Type 0) (f : Store World → A × Store World)
      (s : Store World)
      → ((w : World) → let (a, s') = f (record s { world = w }) in Q a s')
      → Ends Q (Failed s) (statement env f s)
  unfolding statement
  statement-Ends {A} Q f s h = go (env.db_error s.world) refl
    where
      go :
          (o : Option RepoError × World)
          → env.db_error s.world ≡ o
          → Ends Q (Failed s) (statement_with env f s o)
      go (none, w) q = h w
      go (some e, w) q = ((s.world, ap (λ p. p.0) q), refl)

  abbrev SameJobs : Store World → Store World → Type 0
  SameJobs s s' = map (λ (j : Job). j.id) s'.jobs ≡ map (λ (j : Job). j.id) s.jobs

  set_job_next_run-Ends :
      (job_id : ℕ) (next last : Option ℕ) (s : Store World)
      → has_job job_id s.jobs ≡ true
      → Ends
          (λ u s'. (s'.runs ≡ s.runs) × SameJobs s s')
          (Failed s)
          (set_job_next_run env job_id next last s)
  unfolding set_job_next_run get_job
  set_job_next_run-Ends job_id next last s h =
      Ends-after
        (λ found s'. (found ≡ find_job job_id s.jobs) × (s'.runs ≡ s.runs) × (s'.jobs ≡ s.jobs)) _
        (Failed s) _ _ (statement env (λ s. (find_job job_id s.jobs, s)) s)
        (statement-Ends _ (λ s. (find_job job_id s.jobs, s)) s (λ w. (refl, refl, refl)))
        (λ e s' y. y)
        (λ found s1 (is, runs, jobs).
          let (job, e) = find_job-some job_id s.jobs h in
          let job' : Job = record job { next_run_at = next; last_enqueued_at = last } in
          rw (is ∙ e) (
            weaken s1 s runs jobs (statement env (advance job') s1) (
              statement-Ends (λ u s'. (s'.runs ≡ s1.runs) × SameJobs s1 s') (advance job') s1
                (λ w. (refl, update_jobs-ids job' s1.jobs)))))
    where
      advance : Job → Store World → Unit {0} × Store World
      advance job s = (tt, record s { jobs = update_jobs job s.jobs })

      weaken :
          (s1 s : Store World)
          → s1.runs ≡ s.runs
          → s1.jobs ≡ s.jobs
          → (o : Outcome (Unit {0}) RepoError × Store World)
          → Ends (λ u s'. (s'.runs ≡ s1.runs) × SameJobs s1 s') (Failed s1) o
          → Ends (λ u s'. (s'.runs ≡ s.runs) × SameJobs s s') (Failed s) o
      weaken s1 s runs jobs (ok u, s') (a, b) = (a ∙ runs, b ∙ ap (map (λ (j : Job). j.id)) jobs)
      weaken s1 s runs jobs (err e, s') (a, b) = (a, b ∙ runs)

  -- A row that was added.
  abbrev Inserted : JobRunStatus → ℕ → Store World → JobRun → Store World → Type 0
  Inserted status job_id s run s' =
      (s'.runs ≡ s.runs ++ run ∷ [])
      × (s'.jobs ≡ s.jobs)
      × (run.job_id ≡ job_id)
      × (run.status ≡ status)

  insert_run-Ends :
      (status : JobRunStatus) (finished : Bool) (job_id : ℕ) (s : Store World)
      → Ends (Inserted status job_id s) (Failed s) (insert_run env status finished job_id s)
  unfolding insert_run
  insert_run-Ends status finished job_id s =
      let (id, w) = env.now_v7 s.world in
      let run = new_run env status finished job_id id (env.utc_now w) in
      statement-Ends (Inserted status job_id s) (λ s. (run, record s { runs = s.runs ++ run ∷ [] }))
        (record s { world = w }) (λ w'. (refl, refl, refl, refl))

  active_run-Ends :
      (job_id : ℕ) (s : Store World)
      → Ends
          (λ found s'.
            (found ≡ find? (λ r. is_active r.status) (runs_of job_id s.runs))
            × (s'.runs ≡ s.runs)
            × (s'.jobs ≡ s.jobs))
          (Failed s)
          (active_run env job_id s)
  unfolding active_run list_job_runs
  active_run-Ends job_id s =
      Ends-after
        (λ runs s'. (runs ≡ runs_of job_id s.runs) × (s'.runs ≡ s.runs) × (s'.jobs ≡ s.jobs)) _
        (Failed s) _ _ (statement env (λ s. (runs_of job_id s.runs, s)) s)
        (statement-Ends _ (λ s. (runs_of job_id s.runs, s)) s (λ w. (refl, refl, refl)))
        (λ e s' y. y)
        (λ runs s1 (is, same, jobs). (ap (find? (λ r. is_active r.status)) is, same, jobs))

  -- Where the firing of a job ends, well or not.
  abbrev Fired : Job → Store World → Outcome (List JobRun) RepoError × Store World → Type 0
  Fired job s o = Ticked (job ∷ []) s o × Ends (λ handed s'. SameJobs s s') (λ e s'. Unit {0}) o

  -- After a new row that is handed on or not, the cursor is advanced.
  advanced-Fired :
      (now : ℕ) (job : Job) (handed : List JobRun) (s s1 : Store World) (run : JobRun)
      → has_job job.id s.jobs ≡ true
      → s1.jobs ≡ s.jobs
      → s1.runs ≡ s.runs ++ run ∷ []
      → run.job_id ≡ job.id
      → ((k : ℕ)
          → (count (is_active_run_of k) (run ∷ []) ≡ starts k (job ∷ []) s.runs)
            × (count (is_run_of k) handed ≡ starts k (job ∷ []) s.runs))
      → All (λ (r : JobRun). r.status ≡ JobRunStatus.pending) handed
      → Fired job s (advanced env now job handed s1)
  advanced-Fired now job handed s s1 run present jobs runs own new pending =
      go (set_job_next_run env job.id (compute_next_run env job now) (some now) s1) (
        set_job_next_run-Ends job.id (compute_next_run env job now) (some now) s1 (rw jobs present))
    where
      rows :
          (k : ℕ) (rs : List JobRun)
          → rs ≡ s1.runs
          → (count (is_run_of k) rs
              ≡ count (is_run_of k) s.runs + count (λ (j : Job). j.id == k) (job ∷ []))
            × (count (is_active_run_of k) rs
                ≡ count (is_active_run_of k) s.runs + starts k (job ∷ []) s.runs)
      rows k rs e = rw (e ∙ runs) (
        (rw (count-append (is_run_of k) s.runs (run ∷ [])) (rw own refl)),
        (rw (count-append (is_active_run_of k) s.runs (run ∷ []))
            (ap (λ n. count (is_active_run_of k) s.runs + n) (new k).0)),
      )

      go :
          (o : Outcome (Unit {0}) RepoError × Store World)
          → Ends (λ u s'. (s'.runs ≡ s1.runs) × SameJobs s1 s') (Failed s1) o
          → Fired job s (after (λ _. pure handed) o)
      go (ok u, s') (same, ids) = (
        (λ k. (let (a, b) = rows k s'.runs same in (a, b, (new k).1)), pending),
        ids ∙ ap (map (λ (j : Job). j.id)) jobs,
      )
      go (err e, s') (refused, same) = (
        (
          refused,
          λ k. (omega (arith, (rows k s'.runs same).1), omega (arith, (rows k s'.runs same).1)),
        ),
        tt,
      )

  Failed-Fired :
      (job : Job) (s : Store World) (e : RepoError) (s' : Store World)
      → Refused e
      → s'.runs ≡ s.runs
      → Fired job s (err e, s')
  Failed-Fired job s e s' refused same = (
    (
      refused,
      λ k. (
        omega (arith, ap (count (is_active_run_of k)) same),
        omega (arith, ap (count (is_active_run_of k)) same),
      ),
    ),
    tt,
  )

  -- A new row, and the cursor.
  inserted-Fired :
      (now : ℕ) (job : Job) (status : JobRunStatus) (finished : Bool)
      (handed : JobRun → List JobRun) (s s1 : Store World)
      → has_job job.id s.jobs ≡ true
      → s1.jobs ≡ s.jobs
      → s1.runs ≡ s.runs
      → ((run : JobRun)
          → run.job_id ≡ job.id
          → run.status ≡ status
          → ((k : ℕ)
              → (count (is_active_run_of k) (run ∷ []) ≡ starts k (job ∷ []) s.runs)
                × (count (is_run_of k) (handed run) ≡ starts k (job ∷ []) s.runs))
            × All (λ (r : JobRun). r.status ≡ JobRunStatus.pending) (handed run))
      → Fired job s (
          after
            (λ run. advanced env now job (handed run))
            (insert_run env status finished job.id s1))
  inserted-Fired now job status finished handed s s1 present jobs runs new =
      go (insert_run env status finished job.id s1) (insert_run-Ends status finished job.id s1)
    where
      go :
          (o : Outcome JobRun RepoError × Store World)
          → Ends (Inserted status job.id s1) (Failed s1) o
          → Fired job s (after (λ run. advanced env now job (handed run)) o)
      go (ok run, s2) (rows, same, own, is) =
          let (counts, pending) = new run own is in
          advanced-Fired now job (handed run) s s2 run present (same ∙ jobs)
            (rows ∙ ap (λ rs. rs ++ run ∷ []) runs) own counts pending
      go (err e, s2) (refused, same) = Failed-Fired job s e s2 refused (same ∙ runs)

  busy_starts :
      (job : Job) (s : Store World)
      → 1 ≤ count (is_active_run_of job.id) s.runs
      → (k : ℕ) → starts k (job ∷ []) s.runs ≡ 0
  busy_starts job s busy k = elim (Bool-cases (job.id == k)) [
    | inl own ↦
        let same : job.id ≡ k = (==_iff job.id k).0 own in
        let b : 1 ≤ count (is_active_run_of k) s.runs = rw (← same) busy in ground (arith, b)
    | inr other ↦ rw other refl
  ]

  idle_starts :
      (job : Job) (s : Store World)
      → count (is_active_run_of job.id) s.runs ≡ 0
      → (k : ℕ) → starts k (job ∷ []) s.runs ≡ (if job.id == k then 1 else 0)
  idle_starts job s idle k = elim (Bool-cases (job.id == k)) [
    | inl own ↦
        let same : job.id ≡ k = (==_iff job.id k).0 own in
        let z : count (is_active_run_of k) s.runs ≡ 0 = rw (← same) idle in ground (arith, z)
    | inr other ↦ rw other refl
  ]

  fire-Fired :
      (now : ℕ) (job : Job) (s : Store World)
      → has_job job.id s.jobs ≡ true
      → Fired job s (fire env now job s)
  unfolding fire create_job_run create_skipped_run
  fire-Fired now job s present = go (active_run env job.id s) (active_run-Ends job.id s)
    where
      decided :
          (found : Option JobRun) (s1 : Store World)
          → found ≡ find? (λ r. is_active r.status) (runs_of job.id s.runs)
          → s1.runs ≡ s.runs
          → s1.jobs ≡ s.jobs
          → Fired job s (fire_with env now job found s1)
      decided (some run) s1 is runs jobs =
          inserted-Fired now job JobRunStatus.skipped true (λ new. []) s s1 present jobs runs
            (λ new own status. (
              λ k.
                  let none_started =
                    busy_starts job s (any_active-some job.id s.runs run (sym is)) k in
                  (rw (status, none_started) (ground arith), sym none_started),
              tt,
            ))
      decided none s1 is runs jobs =
          inserted-Fired now job JobRunStatus.pending false (λ new. new ∷ []) s s1 present jobs runs
            (λ new own status. (
              λ k.
                  let one_started = idle_starts job s (any_active-none job.id s.runs (sym is)) k in
                  (
                    rw (own, status, one_started) (ground arith),
                    rw (own, one_started) (omega arith),
                  ),
              (status, tt),
            ))

      go :
          (o : Outcome (Option JobRun) RepoError × Store World)
          → Ends
              (λ found s'.
                (found ≡ find? (λ r. is_active r.status) (runs_of job.id s.runs))
                × (s'.runs ≡ s.runs)
                × (s'.jobs ≡ s.jobs))
              (Failed s)
              o
          → Fired job s (after (fire_with env now job) o)
      go (ok found, s1) (is, runs, jobs) = decided found s1 is runs jobs
      go (err e, s1) (refused, same) = Failed-Fired job s e s1 refused same

  starts-cons :
      (k : ℕ) (job : Job) (due : List Job) (s s1 : Store World)
      → count (is_active_run_of k) s1.runs
        ≡ count (is_active_run_of k) s.runs + starts k (job ∷ []) s.runs
      → starts k (job ∷ due) s.runs ≡ starts k (job ∷ []) s.runs + starts k due s1.runs
  starts-cons k job due s s1 =
      go (job.id == k) (any (λ (j : Job). j.id == k) due) (count (is_active_run_of k) s.runs)
        (count (is_active_run_of k) s1.runs)
    where
      go :
          (a b : Bool) (n m : ℕ)
          → m ≡ n + (if (a || false) && n == 0 then 1 else 0)
          → (if (a || b) && n == 0 then 1 else 0)
            ≡ (if (a || false) && n == 0 then 1 else 0) + (if b && m == 0 then 1 else 0)
      go true b n m e = ground arith
      go false b n m e = ground arith

  abbrev InTable : List Job → Job → Type 0
  InTable js job = has_job job.id js ≡ true

  stays_InTable :
      (js js' due : List Job)
      → map (λ (j : Job). j.id) js' ≡ map (λ (j : Job). j.id) js
      → All (InTable js) due
      → All (InTable js') due
  stays_InTable js js' [] e h = tt
  stays_InTable js js' (job ∷ due) e h = (rw e (h.0), stays_InTable js js' due e h.1)

  -- The jobs after one that fired.
  later-Ticked :
      (job : Job) (due : List Job) (s s1 : Store World) (enqueued : List JobRun)
      (o : Outcome (List JobRun) RepoError × Store World)
      → Ticked (job ∷ []) s (ok enqueued, s1)
      → Ticked due s1 o
      → Ticked (job ∷ due) s (after (λ later. pure (enqueued ++ later)) o)
  later-Ticked job due s s1 enqueued (ok later, s2) (first, pending) (rest, pending') = (
    λ k.
        let (rows, active, handed) = first k in
        let (rows', active', handed') = rest k in
        let both = starts-cons k job due s s1 active in
        (
          omega (arith, rows, rows'),
          omega (arith, active, active', both),
          omega (arith, count-append (is_run_of k) enqueued later, handed, handed', both),
        ),
    All-append (λ (run : JobRun). run.status ≡ JobRunStatus.pending) enqueued later pending
        pending',
  )
  later-Ticked job due s s1 enqueued (err e, s2) (first, pending) (refused, rest) = (
    refused,
    λ k.
        let (rows, active, handed) = first k in
        let (least, most) = rest k in
        let both = starts-cons k job due s s1 active in
        (omega (arith, least, active), omega (arith, most, active, both)),
  )

  failed-Ticked :
      (job : Job) (due : List Job) (s s1 : Store World) (e : RepoError)
      → Ticked (job ∷ []) s (err e, s1)
      → Ticked (job ∷ due) s (err e, s1)
  failed-Ticked job due s s1 e (refused, bounds) = (
    refused,
    λ k.
        let (least, most) = bounds k in
        (
          least,
          omega (
            arith,
            most,
            more (job.id == k) (any (λ (j : Job). j.id == k) due)
                (count (is_active_run_of k) s.runs),
          ),
        ),
  )
    where
      more :
          (a b : Bool) (n : ℕ)
          → (if (a || false) && n == 0 then 1 else 0) ≤ (if (a || b) && n == 0 then 1 else 0)
      more true b n = omega arith
      more false b n = ground arith

  fire_each-Ticked :
      (now : ℕ) (due : List Job) (s : Store World)
      → All (InTable s.jobs) due
      → Ticked due s (fire_each env now due s)
  unfolding fire_each
  fire_each-Ticked now [] s h = (λ k. (omega arith, omega arith, refl), tt)
  fire_each-Ticked now (job ∷ due) s h =
      go (fire env now job s) (fire-Fired now job s h.0)
        (λ s1 ids. fire_each-Ticked now due s1 (stays_InTable s.jobs s1.jobs due ids h.1))
    where
      go :
          (o : Outcome (List JobRun) RepoError × Store World)
          → Fired job s o
          → ((s1 : Store World) → SameJobs s s1 → Ticked due s1 (fire_each env now due s1))
          → Ticked
              (job ∷ due)
              s
              (after (λ enqueued. fire_each env now due >>= λ later. pure (enqueued ++ later)) o)
      go (ok enqueued, s1) (first, ids) rest =
          later-Ticked job due s s1 enqueued (fire_each env now due s1) first (rest s1 ids)
      go (err e, s1) (first, _) rest = failed-Ticked job due s s1 e first

  has_job-more : (j : Job) (js due : List Job) → All (InTable js) due → All (InTable (j ∷ js)) due
  has_job-more j js [] h = tt
  has_job-more j js (job ∷ due) h = (ground (arith, h.0), has_job-more j js due h.1)

  due_InTable : (now : ℕ) (js : List Job) → All (InTable js) (due_jobs now js)
  due_InTable now [] = tt
  due_InTable now (j ∷ js) =
      let later = has_job-more j js (due_jobs now js) (due_InTable now js) in
      elim (Bool-cases (is_due now j)) [ inl t ↦ rw t (ground arith, later) | inr f ↦ rw f later ]

  -- A tick of the scheduler that answers Ok has added one row to the runs of each job for each time
  -- that the job is among those due. It has started one run of each due job that had no run that is
  -- Pending or Running, and none of another; what it hands to the executor is Pending and is one run
  -- of each job that it started. A tick that answers an error got that error from the database; it has
  -- ended no run, and started none but at most one of each due job that had none. So no job that had
  -- at most one Pending or Running run has more, either way.
  pub tick_forbids : (now : ℕ) (s : Store World) → Ticked (due_jobs now s.jobs) s (tick env now s)
  unfolding tick claim_due_jobs
  tick_forbids now s = go (statement env (λ s. (due_jobs now s.jobs, s)) s) (
      statement-Ends
        (λ due s'. (due ≡ due_jobs now s.jobs) × (s'.runs ≡ s.runs) × (s'.jobs ≡ s.jobs))
        (λ s. (due_jobs now s.jobs, s)) s (λ w. (refl, refl, refl)))
    where
      go :
          (o : Outcome (List Job) RepoError × Store World)
          → Ends
              (λ due s'. (due ≡ due_jobs now s.jobs) × (s'.runs ≡ s.runs) × (s'.jobs ≡ s.jobs))
              (Failed s)
              o
          → Ticked (due_jobs now s.jobs) s (after (fire_each env now) o)
      go (ok due, s1) (is, runs, jobs) = rw is (
          moved s1 runs (fire_each env now (due_jobs now s.jobs) s1)
            (fire_each-Ticked now (due_jobs now s.jobs) s1 (rw jobs (due_InTable now s.jobs))))
        where
          moved :
              (s1 : Store World)
              → s1.runs ≡ s.runs
              → (o : Outcome (List JobRun) RepoError × Store World)
              → Ticked (due_jobs now s.jobs) s1 o
              → Ticked (due_jobs now s.jobs) s o
          moved s1 runs (ok handed, s2) h = rw runs at h
          moved s1 runs (err e, s2) h = rw runs at h
      go (err e, s1) (refused, same) = (
        refused,
        λ k. (
          omega (arith, ap (count (is_active_run_of k)) same),
          omega (arith, ap (count (is_active_run_of k)) same),
        ),
      )
