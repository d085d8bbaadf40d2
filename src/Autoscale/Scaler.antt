-- ===== src/Autoscale/Scaler.antt =====
-- src/autoscale/scaler.rs: the scaling formulas and the scale-down cooldown.
pub mod Bounds
pub mod Cooldown
use denia.Prelude.{
  ℕ, ◌+◌, ◌-◌, ◌*◌, ◌/◌, ◌%◌, max, Bool, false, true, Option, none, some, ltb, leb, if◌then◌else◌,
}

-- `x as u32`.
abbrev pub as_u32 : ℕ → ℕ
as_u32 n = n % 4294967296

-- `a.div_ceil(b.max(1))`.
unfoldable pub ceil_div : ℕ → ℕ → ℕ
ceil_div a b = (a + (max b 1 - 1)) / max b 1

-- The memory term of `desired_up`.
unfoldable pub desired_mem : ℕ → Option ℕ → Option ℕ → ℕ
desired_mem current (some mp) (some tm) = as_u32 (ceil_div (current * mp) tm)
desired_mem current none _ = 0
desired_mem current (some mp) none = 0

unfoldable pub desired_up : ℕ → ℕ → ℕ → Option ℕ → Option ℕ → ℕ
desired_up current cpu_pct target_cpu mem_pct target_mem =
    max
      (max (as_u32 (ceil_div (current * cpu_pct) target_cpu))
        (desired_mem current mem_pct target_mem))
      current

unfoldable pub desired_down : ℕ → ℕ → ℕ → ℕ
desired_down current cpu_pct target_cpu = as_u32 (ceil_div (current * cpu_pct) target_cpu)

-- `Ord::clamp`, which panics (`none`) when the bounds are out of order.
unfoldable pub clamp : ℕ → ℕ → ℕ → Option ℕ
clamp x lo hi =
    if ltb hi lo then none else some (if ltb x lo then lo else if ltb hi x then hi else x)

unfoldable pub clamp_loop : ℕ → ℕ → ℕ → Option ℕ
unfolding clamp
clamp_loop desired lo hi = clamp desired (max lo 1) hi

-- `CooldownState { below_since }`.
pub record CooldownState : Type 0 where
  pub below_since : Option ℕ

abbrev pub idle_cooldown : CooldownState
idle_cooldown = record { below_since = none }

unfoldable pub note_above_target : CooldownState → CooldownState
note_above_target c = record c { below_since = none }

-- The new state, and whether the scale-down may go ahead.
check_window : CooldownState → Option ℕ → ℕ → ℕ → CooldownState × Bool
check_window c none now_s cooldown_s = (record c { below_since = some now_s }, false)
check_window c (some start) now_s cooldown_s = (c, leb cooldown_s (now_s - start))

unfoldable pub scale_down_allowed : CooldownState → ℕ → ℕ → CooldownState × Bool
unfolding check_window
scale_down_allowed c now_s cooldown_s = check_window c c.below_since now_s cooldown_s
