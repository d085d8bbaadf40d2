-- ===== src/Autoscale/Scaler/Cooldown.antt =====
-- The cooldown over a history of observations.
use denia.Prelude.{
  ℕ, ◌-◌, ◌≡◌, refl, ap, ◌∙◌, Bool, false, Option, none, some, List, [], ◌∷◌, arith, leb,
}
use denia.Autoscale.Scaler.{CooldownState, idle_cooldown, note_above_target, scale_down_allowed}

-- One call of the control loop on the cooldown: the metric was at or above its target, or below
-- it with a scale-down wanted.
pub data Observation : Type 0 where
  above below : ℕ → Observation

observe : CooldownState → ℕ → Observation → CooldownState
unfolding note_above_target scale_down_allowed
observe c cooldown_s (above now_s) = note_above_target c
observe c cooldown_s (below now_s) = (scale_down_allowed c now_s cooldown_s).0

pub observe_all : CooldownState → ℕ → List Observation → CooldownState
unfolding observe
observe_all c cooldown_s [] = c
observe_all c cooldown_s (o ∷ os) = observe_all (observe c cooldown_s o) cooldown_s os

-- The specification: when the latest unbroken run of `below` began.
pub run_start : Option ℕ → List Observation → Option ℕ
run_start since [] = since
run_start since (above t ∷ os) = run_start none os
run_start none (below t ∷ os) = run_start (some t) os
run_start (some s) (below t ∷ os) = run_start (some s) os

observe_all-run_start :
    (c : CooldownState) (cooldown_s : ℕ) (os : List Observation) (since : Option ℕ)
    → c.below_since ≡ since
    → (observe_all c cooldown_s os).below_since ≡ run_start since os
unfolding observe_all run_start
observe_all-run_start c d [] since e = e
observe_all-run_start c d (above t ∷ os) since e =
    observe_all-run_start (note_above_target c) d os none (unfold note_above_target in refl)
observe_all-run_start c d (below t ∷ os) none e =
    observe_all-run_start (scale_down_allowed c t d).0 d os (some t)
      (unfold scale_down_allowed in ground arith)
observe_all-run_start c d (below t ∷ os) (some s) e =
    observe_all-run_start (scale_down_allowed c t d).0 d os (some s)
      (unfold scale_down_allowed in ground arith)

abbrev pub elapsed : Option ℕ → ℕ → ℕ → Bool
elapsed none now_s cooldown_s = false
elapsed (some start) now_s cooldown_s = leb cooldown_s (now_s - start)

elapsed_of :
    (c : CooldownState) (now_s cooldown_s : ℕ)
    → (scale_down_allowed c now_s cooldown_s).1 ≡ elapsed c.below_since now_s cooldown_s
unfolding scale_down_allowed
elapsed_of c now_s cooldown_s = ground arith

-- After any history of observations from a fresh cooldown, a scale-down is allowed exactly when
-- the history ends in an unbroken run of below-target observations whose first one lies at least
-- the cooldown before now; in particular never on the first observation after a reset.
pub allowed_iff_window :
    (cooldown_s now_s : ℕ) (os : List Observation)
    → (scale_down_allowed (observe_all idle_cooldown cooldown_s os) now_s cooldown_s).1
      ≡ elapsed (run_start none os) now_s cooldown_s
allowed_iff_window d now os =
    elapsed_of (observe_all idle_cooldown d os) now d
    ∙ ap (λ s. elapsed s now d) (observe_all-run_start idle_cooldown d os none refl)
