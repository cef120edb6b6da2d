-- ===== src/Sim/Measures.antt =====
-- src/omegahive/sim/reactors/metrics.py: the reactor that reports the measures over their
-- thresholds.
use omegahive.Base.{
  ℕ, ◌*◌, String, Bool, false, Option, none, some, List, [], ◌∷◌, ◌++◌, taken_once, met_after,
  items_of, ltb, ◌==◌, if◌then◌else◌, ◌>>=◌, pos, negsuc, sort, text_le, Dict,
}
use omegahive.Board.Reducer.{fold}
use omegahive.Board.State.{Board}
use omegahive.Events.Envelope.{Event}
use omegahive.Metrics.Core.{Metrics, compute}
use omegahive.Metrics.Detectors.{Amount, whole, DetectorFiring}
use omegahive.Promotion.Rules.{Fraction}
use omegahive.Sim.Coordinator.{Emit, ReactResult}
use omegahive.Sim.Engine.{is_nil}
use omegahive.Sim.Firing.{threshold_crossed}

-- A count of `Metrics`.
abbrev number : ℕ → Option Amount
number n = some (whole n)

abbrev number_if : Option ℕ → Option Amount
number_if none = none
number_if (some n) = some (whole n)

-- `getattr(metrics, name, None)` for the names of its fields.
unfoldable pub measure : String → Metrics → Option Amount
measure name m =
    if name == "tasks_total"
    then number m.tasks_total
    else if name == "tasks_completed"
    then number m.tasks_completed
    else if name == "time_to_first_assignment"
    then number_if m.time_to_first_assignment
    else if name == "mean_task_cycle_time"
    then m.mean_task_cycle_time
    else if name == "events_per_completed_task"
    then m.events_per_completed_task
    else if name == "sim_cost_total"
    then some (record { num = m.sim_cost_total; den = 1 })
    else if name == "sim_cost_per_task"
    then m.sim_cost_per_task
    else if name == "tasks_failed"
    then number m.tasks_failed
    else if name == "tasks_reopened"
    then number m.tasks_reopened
    else if name == "reassignment_count"
    then number m.reassignment_count
    else if name == "escalation_count"
    then number m.escalation_count
    else if name == "review_failure_recovery_time"
    then m.review_failure_recovery_time
    else if name == "blocked_recovery_time"
    then m.blocked_recovery_time
    else if name == "escalation_latency"
    then m.escalation_latency
    else if name == "false_completion_rate"
    then some m.false_completion_rate
    else none

-- `value > threshold`
abbrev pub is_over : Amount → Fraction → Bool
is_over v limit = elim v.num [ pos n ↦ ltb (limit.num * v.den) (n * limit.den) | negsuc n ↦ false ]

abbrev pub firing_of : String → Amount → Fraction → DetectorFiring
firing_of name v limit = record {
  metric = name;
  value = v;
  threshold = record { num = pos limit.num; den = limit.den };
  task_id = none;
}

abbrev pub crossing : (Amount → String) → String → Amount → Fraction → Emit
crossing show name v limit = threshold_crossed show (firing_of name v limit)

-- The measures over their thresholds, before the dedup.
unfoldable pub crossings_of :
    (Amount → String) → Metrics → List (String × Fraction) → List (String × Emit)
unfolding measure
crossings_of show m [] = []
crossings_of show m ((name, limit) ∷ rows) =
    let rest = crossings_of show m rows in
    elim (measure name m) [
      | none ↦ rest
      | some v ↦ if is_over v limit then (name, crossing show name v limit) ∷ rest else rest
    ]

-- `_seen` and `_emitted`
pub record Measured : Type 0 where
  pub seen : List Event
  pub emitted : List String

abbrev pub nothing_measured : Measured
nothing_measured = record { seen = []; emitted = [] }

abbrev pub name_le : String × Fraction → String × Fraction → Bool
name_le a b = text_le a.0 b.0

abbrev pub crossed : (Amount → String) → Dict Fraction → Measured → Board → ReactResult × Measured
crossed show thresholds memory b =
    let rows = crossings_of show (compute memory.seen b) (sort name_le thresholds) in
    (
      record {
        immediate = items_of (taken_once ◌==◌ memory.emitted rows);
        scheduled = [];
        wakes = [];
      },
      record memory { emitted = met_after ◌==◌ memory.emitted rows },
    )

-- `MetricsRunner.react`; the board is folded anew, and `none` is an exception of the fold.
unfoldable pub metrics_react :
    (Amount → String) → Dict Fraction → Measured → List Event → Option (ReactResult × Measured)
unfolding crossings_of compute fold taken_once met_after
metrics_react show thresholds memory new =
    let after : Measured = record memory { seen = memory.seen ++ new } in
    if is_nil thresholds
    then some (record { immediate = []; scheduled = []; wakes = [] }, after)
    else fold after.seen >>= λ b. some (crossed show thresholds after b)
