-- ===== src/Sim/Firing.antt =====
-- src/omegahive/sim/reactors/detectors.py: the reactor that runs the detectors.
use omegahive.Base.{
  ℕ, ◌-◌, String, Bool, ◌&&◌, Option, none, List, [], ◌∷◌, ◌++◌, map, taken_once, met_after,
  items_of, ltb, eqb, ◌==◌, if◌then◌else◌, opt_eq, pos,
}
use omegahive.Board.State.{Board}
use omegahive.Events.Envelope.{metric_threshold_crossed, Event}
use omegahive.Events.Json.{real, text, end, field}
use omegahive.Metrics.Clocked.{run_detectors, time_based_deadlines}
use omegahive.Metrics.Detectors.{Amount, DetectorFiring}
use omegahive.Promotion.Rules.{DetectorConfig}
use omegahive.Sim.Coordinator.{Emit, ReactResult}

-- What a firing is deduplicated by.
abbrev pub FiringKey : Type 0
FiringKey = String × Option String

abbrev pub same_firing : FiringKey → FiringKey → Bool
same_firing (m, a) (n, b) = m == n && opt_eq a b

-- `show` is the text of a float.
abbrev pub threshold_crossed : (Amount → String) → DetectorFiring → Emit
threshold_crossed show f = record {
  event_type = metric_threshold_crossed;
  payload =
      field "metric" (text f.metric)
        (field "value" (real (show f.value)) (field "threshold" (real (show f.threshold)) end));
  task_id = f.task_id;
  causation_id = none;
  recipient = none;
}

unfoldable pub keyed_firings : (Amount → String) → List DetectorFiring → List (FiringKey × Emit)
keyed_firings show [] = []
keyed_firings show (f ∷ fs) =
    ((f.metric, f.task_id), threshold_crossed show f) ∷ keyed_firings show fs

-- The deadlines after now, each with its delay.
unfoldable pub delays_after : ℕ → List ℕ → List (ℕ × ℕ)
delays_after now [] = []
delays_after now (d ∷ ds) =
    let rest = delays_after now ds in if ltb now d then (d, d - now) ∷ rest else rest

-- `_seen`, `_fired` and `_scheduled`
pub record Fired : Type 0 where
  pub seen : List Event
  pub fired : List FiringKey
  pub scheduled : List ℕ

abbrev pub nothing_fired : Fired
nothing_fired = record { seen = []; fired = []; scheduled = [] }

-- How the runner is set up.
pub record DetectorsRunner : Type 0 where
  pub config : DetectorConfig
  pub enabled : Option (List String)
  pub show_amount : Amount → String

-- `DetectorsRunner.react`
unfoldable pub detectors_react :
    DetectorsRunner → Fired → List Event → Board → ℕ → ReactResult × Fired
unfolding run_detectors keyed_firings taken_once met_after time_based_deadlines delays_after
detectors_react r memory new b now =
    let seen = memory.seen ++ new in
    let firings = keyed_firings r.show_amount (run_detectors r.config r.enabled seen b now) in
    let deadlines = delays_after now (time_based_deadlines r.config seen b) in
    (
      record {
        immediate = items_of (taken_once same_firing memory.fired firings);
        scheduled = [];
        wakes = map pos (items_of (taken_once eqb memory.scheduled deadlines));
      },
      record {
        seen = seen;
        fired = met_after same_firing memory.fired firings;
        scheduled = met_after eqb memory.scheduled deadlines;
      },
    )
