-- ===== src/Ingress/Activation/Backoff.antt =====
-- The record of a failed wake-up, and what later requests make of it.
use denia.Prelude.{
  ℕ, ◌+◌, ◌<◌, ◌≡◌, ◌≢◌, refl, sym, subst, ◌∙◌, inl, inr, Option, none, some, lt→ltb, Bool-cases,
  Option-cases, nat_key, beq_refl, lookup, lookup-insert, Outcome, ok, err,
}
use denia.Ingress.Activation.{
  ActivationError, backoff, Waking, WakeEnv, activation_failure_backoff, try_socket,
  activation_backoff_active, record_activation_failure, Answer, concluded, wake, unless_ready,
  dispatch, resolve_or_activate,
}

module _ (env : WakeEnv) where
  open env use {World, tokio_now, std_now, activator}

  -- An answer that is an error other than Backoff left a record of its failure.
  pub Recorded : ℕ → Answer env → Type 0
  Recorded service (ok socket, s) = Unit {0}
  Recorded service (err e, s) =
      e ≢ backoff
      → lookup service s.backoffs ≡ some (tokio_now s.world + activation_failure_backoff)

  concluded-Recorded : (service : ℕ) (a : Answer env) → Recorded service (concluded env service a)
  unfolding Recorded record_activation_failure
  concluded-Recorded service (ok socket, s) = tt
  concluded-Recorded service (err e, s) = λ ne.
      rw
        (
          lookup-insert service service (tokio_now s.world + activation_failure_backoff) s.backoffs,
          beq_refl service,
        )
        refl

  unless_ready-Recorded :
      (service : ℕ) (s : Waking World) (go : Waking World → Answer env)
      → ((s' : Waking World) → Recorded service (go s'))
      → Recorded service (unless_ready env service s go)
  unfolding unless_ready
  unless_ready-Recorded service s go h =
      let (s1, socket) = try_socket env service s in
      elim (Option-cases socket) [
        | inr (path, e) ↦ rw (e, unless_ready) (unfold Recorded in tt)
        | inl e ↦ elim (Bool-cases (activation_backoff_active env service s1).0) [
          | inl recent ↦
              rw (e, unless_ready) (rw recent (unfold Recorded in λ ne. absurd (ne refl)))
          | inr quiet ↦ rw (e, unless_ready) (rw quiet (h _))
        ]
      ]

  abbrev Hook : Type 0
  Hook = ℕ → Waking World → Outcome (Unit {0}) ActivationError × Waking World

  dispatch-Recorded :
      (o : Option Hook) (service : ℕ) (s : Waking World)
      → Recorded service (dispatch env o service s)
  unfolding dispatch
  dispatch-Recorded none service s = unfold Recorded in tt
  dispatch-Recorded (some activate) service s =
      unless_ready-Recorded service s
        (λ s1. unless_ready env service (env.wait_gate service s1) (wake env activate service))
        (λ s1.
          unless_ready-Recorded service (env.wait_gate service s1) (wake env activate service)
            (λ s2. unfold wake in concluded-Recorded service _))

  -- What an answer without a new attempt is: Backoff, with the surroundings as they were.
  abbrev pub Refused : Waking World → Answer env → Type 0
  Refused s r = (r.0 ≡ err backoff) × (r.1.world ≡ s.world)

  recent_Refused :
      (service until : ℕ) (s : Waking World) (go : Waking World → Answer env)
      → (try_socket env service s).1 ≡ none
      → lookup service s.backoffs ≡ some until
      → tokio_now s.world < until
      → Refused s (unless_ready env service s go)
  unfolding unless_ready try_socket activation_backoff_active
  recent_Refused service until s go none_ready noted early =
      let t = lt→ltb (tokio_now s.world) until early in
      rw (none_ready, unless_ready, noted, activation_backoff_active, t) (refl, refl)

  -- A request that failed other than by Backoff keeps later ones from trying again for 30 seconds:
  -- while its record stands and the 30 seconds since the failure are not over, a request for the
  -- service that finds no healthy socket, where a hook is set, is answered Backoff, and neither the
  -- hook nor anything else of the surroundings is called.
  pub failure_backs_off :
      (service : ℕ) (s s' later : Waking World) (e : ActivationError)
      (activate : ℕ → Waking World → Outcome (Unit {0}) ActivationError × Waking World)
      → resolve_or_activate env service s ≡ (err e, s')
      → e ≢ backoff
      → activator ≡ some activate
      → lookup service later.backoffs ≡ lookup service s'.backoffs
      → tokio_now later.world < tokio_now s'.world + activation_failure_backoff
      → (try_socket env service later).1 ≡ none
      → Refused later (resolve_or_activate env service later)
  unfolding resolve_or_activate dispatch
  failure_backs_off service s s' later e activate h ne set same early none_ready =
      let r : Recorded service (err e, s') =
        rw (← h) (unfold resolve_or_activate in dispatch-Recorded activator service s) in
      let noted : lookup service s'.backoffs
          ≡ some (tokio_now s'.world + activation_failure_backoff) =
        unfold Recorded in r ne in
      subst (λ (o : Option Hook). Refused later (dispatch env o service later)) (sym set)
        (recent_Refused service _ later
          (λ s1. unless_ready env service (env.wait_gate service s1) (wake env activate service))
          none_ready (same ∙ noted) early)
