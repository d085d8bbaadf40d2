-- ===== src/Ingress/Activation.antt =====
-- src/ingress/pingora/state.rs, last part: a request for a service without a healthy replica wakes
-- it. One request is followed; what other tasks do while it waits is a part of its surroundings.
pub mod Backoff
use Prim.Native.String.{String}
use denia.Prelude.{
  ℕ, zero, suc, ◌+◌, ◌≡◌, Bool, true, false, Option, none, some, ltb, if◌then◌else◌, Map, nat_key,
  lookup, insert, remove, Outcome, ok, err,
}
use denia.Ingress.Pool
use denia.Ingress.Pool.{Pools}

pub data ActivationError : Type 0 where
  timeout backoff : ActivationError
  failed : String → ActivationError

-- `IngressState`, as far as a request reads it; `world` is everything else.
pub record Waking (W : Type 0) : Type 0 where
  pub pools : Pools
  pub backoffs : Map ℕ ℕ
  pub world : W

-- What a request calls: the clocks, the hook (none where none is set), the wait for the service's
-- gate, a pause, and the time limit: the state in which it cuts the bounded work short, if it does.
pub record WakeEnv : Type 1 where
  pub World : Type 0
  pub tokio_now : World → ℕ
  pub std_now : World → ℕ
  pub activator : Option (ℕ → Waking World → Outcome (Unit {0}) ActivationError × Waking World)
  pub wait_gate : ℕ → Waking World → Waking World
  pub pause : ℕ → Waking World → Waking World
  pub cut_short : ℕ → Waking World → Option (Waking World)

-- `ACTIVATION_FAILURE_BACKOFF`, in milliseconds.
abbrev pub activation_failure_backoff : ℕ
activation_failure_backoff = 30000

abbrev pub post_activation_retries : ℕ
post_activation_retries = 5

abbrev pub post_activation_retry_delay : ℕ
post_activation_retry_delay = 20

module _ (env : WakeEnv) where
  open env use {World, tokio_now, std_now, activator, wait_gate, pause, cut_short}

  unfoldable pub try_socket : ℕ → Waking World → Waking World × Option ℕ
  try_socket service s =
      let (pools, socket) = Pool.next_socket (std_now s.world) s.pools service in
      (record s { pools = pools }, socket)

  -- Whether a failure is recent; a record that has lapsed is dropped.
  unfoldable pub activation_backoff_active : ℕ → Waking World → Bool × Waking World
  activation_backoff_active service s = elim (lookup service s.backoffs) [
    | none ↦ (false, s)
    | some until ↦
        if ltb (tokio_now s.world) until
        then (true, s)
        else (false, record s { backoffs = remove service s.backoffs })
  ]

  unfoldable pub record_activation_failure : ℕ → Waking World → Waking World
  record_activation_failure service s = record s {
    backoffs = insert service (tokio_now s.world + activation_failure_backoff) s.backoffs;
  }

  unfoldable pub clear_activation_failure : ℕ → Waking World → Waking World
  clear_activation_failure service s = record s { backoffs = remove service s.backoffs }

  abbrev pub Answer : Type 0
  Answer = Outcome (Option ℕ) ActivationError × Waking World

  -- The loop over the retries, with `left` of them.
  unfoldable pub await_socket : ℕ → ℕ → Waking World → Answer
  unfolding try_socket
  await_socket zero service s =
      (err (failed "activation reported healthy but no socket became available"), s)
  await_socket (suc left) service s =
      let (s1, socket) = try_socket service s in
      let rest =
        await_socket left service
          (if ltb 0 left then pause post_activation_retry_delay s1 else s1) in
      elim socket [ some path ↦ (ok (some path), s1) | none ↦ rest ]

  abbrev pub after_hook : ℕ → Outcome (Unit {0}) ActivationError × Waking World → Answer
  after_hook service (err e, s) = (err e, s)
  after_hook service (ok _, s) = await_socket post_activation_retries service s

  abbrev pub bounded : ℕ → Option (Waking World) → Answer → Answer
  bounded service none r = r
  bounded service (some s) r = (err timeout, s)

  abbrev pub concluded : ℕ → Answer → Answer
  concluded service (ok socket, s) = (ok socket, clear_activation_failure service s)
  concluded service (err e, s) = (err e, record_activation_failure service s)

  -- What follows the second look at the sockets and the record of failures, under the gate.
  unfoldable pub wake :
      (ℕ → Waking World → Outcome (Unit {0}) ActivationError × Waking World)
      → ℕ
      → Waking World
      → Answer
  unfolding await_socket clear_activation_failure record_activation_failure
  wake activate service s =
      concluded service
        (bounded service (cut_short service s) (after_hook service (activate service s)))

  -- A socket if there is one; else an error if a failure is recent; else `go`.
  unfoldable pub unless_ready : ℕ → Waking World → (Waking World → Answer) → Answer
  unfolding try_socket activation_backoff_active
  unless_ready service s go =
      let (s1, socket) = try_socket service s in
      elim socket [
        | some path ↦ (ok (some path), s1)
        | none ↦
            let (recent, s2) = activation_backoff_active service s1 in
            if recent then (err backoff, s2) else go s2
      ]

  -- Where no hook is set, a request without a socket ends with none, and no failure is looked up.
  abbrev pub without_hook : ℕ → Waking World → Answer
  without_hook service s = let (s1, socket) = try_socket service s in (ok socket, s1)

  unfoldable pub dispatch :
      Option (ℕ → Waking World → Outcome (Unit {0}) ActivationError × Waking World)
      → ℕ
      → Waking World
      → Answer
  unfolding unless_ready wake try_socket
  dispatch none service s = without_hook service s
  dispatch (some activate) service s =
      unless_ready service s
        (λ s1. unless_ready service (wait_gate service s1) (wake activate service))

  unfoldable pub resolve_or_activate : ℕ → Waking World → Answer
  unfolding dispatch
  resolve_or_activate service s = dispatch activator service s
