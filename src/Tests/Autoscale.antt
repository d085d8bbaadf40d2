-- ===== src/Tests/Autoscale.antt =====
-- Tests of the scaling decisions and the ledger.
use denia.Prelude.{◌≤◌, ◌≡◌, ◌↔◌, none, some, List, [], ◌∷◌, arith}
use denia.Autoscale.Scaler.{ceil_div, desired_up, idle_cooldown, scale_down_allowed}
use denia.Autoscale.Scaler.Bounds.{Meets, MeetsMem, desired_up_least}
use denia.Autoscale.Scaler.Cooldown.{
  Observation, above, below, observe_all, run_start, elapsed, allowed_iff_window,
}
use denia.Autoscale.Ledger.{ResourceLedger, new, try_reserve}
use denia.Autoscale.Ledger.Capacity.{
  WithinBudget, Answers, try_reserve-Answers, reserve, free, perform_all, perform_all-WithinBudget,
}
use denia.Tests.Surroundings.{limits}

desired_up_least_example :
    (desired_up 3 90 50 (some 40) (some 80) ≤ 6)
    ↔ ((3 ≤ 6) × Meets 3 90 50 6 × MeetsMem 3 (some 40) (some 80) 6)
unfolding ceil_div
desired_up_least_example =
    desired_up_least 3 90 50 6 (some 40) (some 80) (omega arith) (omega arith)

abbrev readings : List Observation
readings = below 5 ∷ above 10 ∷ below 15 ∷ below 60 ∷ []

allowed_iff_window_example :
    (scale_down_allowed (observe_all idle_cooldown 60 readings) 80 60).1
    ≡ elapsed (run_start none readings) 80 60
allowed_iff_window_example = allowed_iff_window 60 80 readings

abbrev ledger : ResourceLedger
ledger = record {
  committed_cpu = 500;
  committed_mem = 1000;
  allocatable_cpu = 1500;
  allocatable_mem = 99500;
}

try_reserve-Answers_example : Answers ledger limits (try_reserve ledger limits)
try_reserve-Answers_example =
    try_reserve-Answers ledger limits (record { cpu_room = omega arith; mem_room = omega arith })

perform_all-WithinBudget_example : WithinBudget (
    perform_all
      (new
        (record { cpu_millis = 1600; mem_bytes = 9000 })
        (record { cpu_millis = 100; mem_bytes = 0 }))
      (reserve limits ∷ reserve limits ∷ free limits ∷ []))
perform_all-WithinBudget_example =
    perform_all-WithinBudget (record { cpu_millis = 1600; mem_bytes = 9000 })
      (record { cpu_millis = 100; mem_bytes = 0 })
      (reserve limits ∷ reserve limits ∷ free limits ∷ [])
