-- ===== src/Autoscale/Controller/Tick/Settling.antt =====
-- Moving a service to a desired count: what one round of the loop leaves.
use Prim.Native.String.{String}
use denia.Prelude.{
  ℕ, ◌-◌, ◌≤◌, max, ◌≡◌, refl, sym, ap, ◌∙◌, inl, inr, ◌⊎◌, none, some, List, ◌++◌, arith, ◌==◌,
  ltb, nat_key, Bool-cases,
}
use denia.Autoscale.Policy.{ResourceLimits, AutoscalePolicy, validate}
use denia.Autoscale.Scaler.{CooldownState, desired_up, desired_down, scale_down_allowed}
use denia.Autoscale.Scaler.Bounds.{clamp_loop_bounds}
use denia.Autoscale.Registry.{Replica, replica_count}
use denia.Autoscale.Lifecycle.{Env, Fleet}
use denia.Autoscale.Lifecycle.Books.{Monotone, BooksAt}
use denia.Autoscale.Lifecycle.Kept.{Kept-later}
use denia.Autoscale.Usage.{ServiceUsage}
use denia.Autoscale.Controller.{LogLine, ManagedService, Host}
use denia.Autoscale.Controller.Scaling.{Scaled, scale_up, scale_down, drain_all_replicas}
use denia.Autoscale.Controller.Scaling.Balance.{
  Elsewhere, Steady, scale_up-Steady, scale_down-Steady, drain_all_steady,
}
use denia.Autoscale.Controller.Tick.{desired_from_usage, persist, report, move_to, to_zero}

-- What the proofs use of the host: none of its calls makes an id, a desired count that was written
-- can be read back, and the log is apart from the database.
pub record Quiet (env : Env) (host : Host env) (laws : Monotone env) : Type 0 where
  pub usage_keeps :
      (n : String) (rs : List Replica) (l : ResourceLimits) (w : env.World)
      → laws.last_id w ≤ laws.last_id (host.usage n rs l w).1
  pub set_desired_keeps :
      (k n : ℕ) (w : env.World) → laws.last_id w ≤ laws.last_id (host.set_desired k n w)
  pub append_log_keeps :
      (k : ℕ) (text : LogLine) (w : env.World)
      → laws.last_id w ≤ laws.last_id (host.append_log k text w)
  pub list_running_keeps : (w : env.World) → laws.last_id w ≤ laws.last_id (host.list_running w).1
  pub read_back : (k n : ℕ) (w : env.World) → host.get_desired k (host.set_desired k n w) ≡ some n
  pub log_apart :
      (k j : ℕ) (text : LogLine) (w : env.World)
      → host.get_desired j (host.append_log k text w) ≡ host.get_desired j w

-- A desired count: the current one, or one within the policy's bounds.
abbrev pub Decided : AutoscalePolicy → ℕ → ℕ → Type 0
Decided p start d = (d ≡ start) ⊎ ((max p.min_replicas 1 ≤ d) × (d ≤ p.max_replicas))

-- Under a policy that validates, the control loop's decision does not panic, whatever the readings
-- and the cooldown: it is the current count, or a count from max(min_replicas, 1) to max_replicas.
pub desired_from_usage_total :
    (p : AutoscalePolicy) (start : ℕ) (u : ServiceUsage) (cd : CooldownState) (now_s : ℕ)
    → validate p ≡ none
    → (d : ℕ) × ((desired_from_usage p start u cd now_s).1 ≡ some d) × Decided p start d
unfolding desired_from_usage
desired_from_usage_total p start u cd now_s v =
    let up =
      desired_up start u.avg_cpu_pct p.target_cpu_pct (some u.avg_mem_pct) p.target_mem_pct in
    let down = desired_down start u.avg_cpu_pct p.target_cpu_pct in
    let (a, ea, lo, hi) = clamp_loop_bounds p up v in
    let (b, eb, lo', hi') = clamp_loop_bounds p down v in
    elim (Bool-cases (ltb start up)) [
      | inl t ↦ (a, rw t ea, inr (lo, hi))
      | inr f ↦ elim (Bool-cases (ltb down start)) [
        | inr g ↦ (start, rw (f, g) refl, inl refl)
        | inl g ↦ elim (Bool-cases (scale_down_allowed cd now_s p.scale_down_cooldown_s).1) [
          | inl k ↦ (b, rw (f, g, k) eb, inr (lo', hi'))
          | inr k ↦ (start, rw (f, g, k) refl, inl refl)
        ]
      ]
    ]

module _ (env : Env) (host : Host env) (laws : Monotone env) (quiet : Quiet env host laws)
    (lim : ℕ → ResourceLimits) (grace : ℕ) (ms : ManagedService)
    (own : ms.limits ≡ lim ms.service_id) where
  open env use {World}
  open host use {get_desired, set_desired}

  abbrev pub live_count : Fleet World → ℕ
  live_count s = replica_count s.registry ms.service_id

  -- What one round of the loop leaves of a fleet: the books balance, the other services' replicas
  -- are as they were, the count that is persisted is the registry's, and it is at most `top`.
  pub record Settled (top : ℕ) (s s' : Fleet World) : Type 0 where
    pub books : BooksAt env laws lim s'
    pub elsewhere : Elsewhere env laws lim ms own s s'
    pub persisted : get_desired ms.service_id s'.world ≡ some (live_count s')
    pub bounded : live_count s' ≤ top

  pub Books-later :
      (s : Fleet World) (w : World)
      → laws.last_id s.world ≤ laws.last_id w
      → BooksAt env laws lim s
      → BooksAt env laws lim (record s { world = w })
  Books-later s w h b = record {
    kept = Kept-later _ _ _ _ h b.kept;
    cpu = b.cpu;
    mem = b.mem;
    room = b.room;
  }

  pub persist-Settled :
      (top n : ℕ) (s s' : Fleet World)
      → BooksAt env laws lim s'
      → Elsewhere env laws lim ms own s s'
      → n ≡ live_count s'
      → n ≤ top
      → Settled top s (persist env host grace ms.service_id n s')
  persist-Settled top n s s' b e c le = record {
    books = Books-later s' (set_desired ms.service_id n s'.world) (quiet.set_desired_keeps _ _ _) b;
    elsewhere = e;
    persisted = quiet.read_back ms.service_id n s'.world ∙ ap some c;
    bounded = omega arith;
  }

  report-Settled :
      (top start : ℕ) (s : Fleet World) (r : Scaled World)
      → Steady env laws lim ms own s r
      → r.current ≤ top
      → Settled top s (report env host grace ms start r).1
  unfolding report
  report-Settled top start s r st le = elim (Bool-cases (ltb start r.current)) [
    | inl up ↦ rw up (persist-Settled top r.current s r.fleet st.books st.elsewhere st.counted le)
    | inr f ↦ elim (Bool-cases (ltb r.current start)) [
      | inr g ↦
          rw (f, g) (persist-Settled top r.current s r.fleet st.books st.elsewhere st.counted le)
      | inl g ↦ elim (Bool-cases (r.current == 0)) [
        | inr some_left ↦
            rw (f, g, some_left)
              (persist-Settled top r.current s r.fleet st.books st.elsewhere st.counted le)
        | inl zero_left ↦
            rw (f, g, zero_left)
              (persist-Settled top r.current s
                (record (r.fleet) {
                  world =
                      host.append_log ms.service_id (LogLine.line "scaled to zero") r.fleet.world;
                })
                (Books-later r.fleet _ (quiet.append_log_keeps _ _ _) st.books) st.elsewhere
                st.counted le)
      ]
    ]
  ]

  pub move_to-Settled :
      (start d : ℕ) (s : Fleet World)
      → start ≡ live_count s
      → BooksAt env laws lim s
      → Settled (max start d) s (move_to env host grace ms start d s).1
  unfolding move_to
  move_to-Settled start d s e b =
      let up = scale_up env ms (d - start) start s in
      let (st, lo, hi) = scale_up-Steady env laws lim ms own (d - start) start s e b in
      let down = scale_down env ms grace (up.current - d) up.current up.fleet in
      let (sd, c) =
        scale_down-Steady env laws lim ms own grace (up.current - d) up.current up.fleet st.counted
          (omega arith) st.books in
      report-Settled (max start d) start s (record down { events = up.events ++ down.events })
        (record {
          books = sd.books;
          counted = sd.counted;
          elsewhere = λ t ne. sd.elsewhere t ne ∙ st.elsewhere t ne;
        })
        (omega arith)

  pub to_zero-Settled :
      (top : ℕ) (s : Fleet World)
      → BooksAt env laws lim s
      → Settled top s (to_zero env host grace ms s).1
  unfolding to_zero
  to_zero-Settled top s b =
      let (b', z, e) = drain_all_steady env laws lim ms own grace s b in
      let p =
        persist-Settled top 0 s (drain_all_replicas env ms grace s) b' e (sym z) (omega arith) in
      record {
        books = Books-later _ _ (quiet.append_log_keeps _ _ _) p.books;
        elsewhere = p.elsewhere;
        persisted = quiet.log_apart _ _ _ _ ∙ p.persisted;
        bounded = p.bounded;
      }
