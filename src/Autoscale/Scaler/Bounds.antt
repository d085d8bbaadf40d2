-- ===== src/Autoscale/Scaler/Bounds.antt =====
-- The scaling formulas against their specification: the least fleet that meets the targets.
use denia.Prelude.{
  ℕ, ◌+◌, ◌-◌, ◌*◌, ◌/◌, ◌≤◌, max, ◌≡◌, ◌↔◌, Option, none, some, arith, u32_max, ltb, if◌then◌else◌,
}
use denia.Autoscale.Policy.{AutoscalePolicy, validate, validate-Bounds}
use denia.Autoscale.Scaler.{as_u32, ceil_div, desired_mem, desired_up, clamp, clamp_loop}

-- `ceil_div` is adjoint to multiplication by the divisor.
ceil_by : (a d n : ℕ) → 1 ≤ d → ((a + (d - 1)) / d ≤ n) ↔ (a ≤ n * d)
ceil_by a d n h = grind arith

pub ceil_div-le : (a b n : ℕ) → (ceil_div a b ≤ n) ↔ (a ≤ n * max b 1)
unfolding ceil_div
ceil_div-le a b n = ceil_by a (max b 1) n (omega arith)

-- A value that fits is not cut.
as_u32-of_le : (n : ℕ) → n ≤ u32_max → as_u32 n ≡ n
as_u32-of_le n h = omega arith

-- A count that is free of rounding: `n` replicas bring the load down to the target.
abbrev pub Meets : ℕ → ℕ → ℕ → ℕ → Type 0
Meets current pct target n = current * pct ≤ n * max target 1

-- The memory target, where both a reading and a target are given.
abbrev pub MeetsMem : ℕ → Option ℕ → Option ℕ → ℕ → Type 0
MeetsMem current (some mp) (some tm) n = Meets current mp tm n
MeetsMem current none _ n = Unit
MeetsMem current (some mp) none n = Unit

abbrev pub FitsMem : ℕ → Option ℕ → Option ℕ → Type 0
FitsMem current (some mp) (some tm) = ceil_div (current * mp) tm ≤ u32_max
FitsMem current none _ = Unit
FitsMem current (some mp) none = Unit

desired_mem-le :
    (current n : ℕ) (mp tm : Option ℕ)
    → FitsMem current mp tm
    → (desired_mem current mp tm ≤ n) ↔ MeetsMem current mp tm n
unfolding desired_mem
desired_mem-le c n none tm h = (λ _. tt, λ _. omega arith)
desired_mem-le c n (some mp) none h = (λ _. tt, λ _. omega arith)
desired_mem-le c n (some mp) (some tm) h =
    rw (as_u32-of_le (ceil_div (c * mp) tm) h) (ceil_div-le (c * mp) tm n)

-- Where neither quotient is cut by `as u32`, `desired_up` is the least count that is not below
-- the current one and meets the CPU target and, if there is one, the memory target.
pub desired_up_least :
    (current cpu target n : ℕ) (mp tm : Option ℕ)
    → ceil_div (current * cpu) target ≤ u32_max
    → FitsMem current mp tm
    → (desired_up current cpu target mp tm ≤ n)
      ↔ ((current ≤ n) × Meets current cpu target n × MeetsMem current mp tm n)
unfolding desired_up
desired_up_least c cpu t n mp tm h hm =
    let m = desired_mem-le c n mp tm hm in
    let a = ceil_div-le (c * cpu) t n in
    let e = as_u32-of_le (ceil_div (c * cpu) t) h in
    (
      λ le. (omega arith, a.0 (omega (arith, e)), m.0 (omega arith)),
      λ r. let x = a.1 r.1 in let y = m.1 r.2 in omega (arith, e, r.0),
    )

clamped : ℕ → ℕ → ℕ → ℕ
clamped x lo hi = if ltb x lo then lo else if ltb hi x then hi else x

pub clamp_total : (x lo hi : ℕ) → lo ≤ hi → (r : ℕ) × (clamp x lo hi ≡ some r) × (lo ≤ r) × (r ≤ hi)
unfolding clamp clamped
clamp_total x lo hi h = (clamped x lo hi, ground arith, ground arith, ground arith)

-- Under a policy that validates, the loop's clamp does not panic, and it gives a count from
-- max(min_replicas, 1) to max_replicas: the loop never asks for zero replicas.
pub clamp_loop_bounds :
    (p : AutoscalePolicy) (x : ℕ)
    → validate p ≡ none
    → (r : ℕ) × (clamp_loop x p.min_replicas p.max_replicas ≡ some r)
      × (max p.min_replicas 1 ≤ r)
      × (r ≤ p.max_replicas)
unfolding clamp_loop
clamp_loop_bounds p x h =
    let b = validate-Bounds p h in
    clamp_total x (max p.min_replicas 1) p.max_replicas (omega (arith, b.some_replica, b.ordered))
