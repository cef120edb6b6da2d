-- ===== src/Metrics/Clocked.antt =====
-- src/omegahive/metrics/detectors.py: the detector of churn, those that wait for a deadline, and
-- the run of them all.
use omegahive.Base.{
  ℕ, zero, suc, ◌+◌, ◌-◌, ◌*◌, max, String, Bool, true, false, ◌||◌, not, Option, none, some, List,
  [], ◌∷◌, ◌++◌, is_met, ltb, leb, eqb, if◌then◌else◌, count_if, member, pos, sort, text_le,
  sort_by, get, values,
}
use omegahive.Board.State.{Status, done, cancelled, TaskState, Board, is_status, ids_where}
use omegahive.Events.Envelope.{
  EventType, task_assigned, task_reassigned, task_accepted, task_progress, Event,
}
use omegahive.Metrics.Detectors.{whole, DetectorFiring, first_seen, retry_loop, loop, cost_spike}
use omegahive.Promotion.Rules.{Fraction, DetectorConfig}

-- `_CHURN`
unfoldable pub is_churn : EventType → Bool
is_churn task_assigned = true
is_churn task_reassigned = true
is_churn task_accepted = true
is_churn task_progress = true
is_churn _ = false

abbrev ratio_firing : ℕ → ℕ → Fraction → DetectorFiring
ratio_firing n d limit = record {
  metric = "activity_vs_progress";
  value = record { num = pos n; den = d };
  threshold = record { num = pos limit.num; den = limit.den };
  task_id = none;
}

abbrev one_if_zero : ℕ → ℕ
one_if_zero zero = 1
one_if_zero (suc n) = suc n

-- `activity_vs_progress`; with nothing completed the value is the churn itself.
unfoldable pub activity_vs_progress : DetectorConfig → List Event → Board → List DetectorFiring
unfolding is_churn
activity_vs_progress c events b =
    let churn = count_if (λ e. is_churn e.event_type) events in
    let per = one_if_zero (count_if (λ s. is_status s.status done) (values b.tasks)) in
    if ltb (c.a_thresh.num * per) (churn * c.a_thresh.den)
    then ratio_firing churn per c.a_thresh ∷ []
    else []

abbrev is_terminal : Status → Bool
is_terminal s = is_status s done || is_status s Status.failed || is_status s cancelled

abbrev pub is_open : TaskState → Bool
is_open ts = not (is_terminal ts.status)

-- `_non_terminal`
unfoldable pub non_terminal : Board → List String
non_terminal b = ids_where is_open b.tasks

-- When the tasks last changed their status; a missing task is no task of the board.
unfoldable pub last_change : Board → List String → ℕ
last_change b [] = 0
last_change b (t ∷ ts) =
    max (elim (get t b.tasks) [ none ↦ 0 | some s ↦ s.last_status_change_ts ]) (last_change b ts)

-- `idle >= t_stall` is written as a sum on the other side.
abbrev stall_at : DetectorConfig → ℕ → ℕ → List DetectorFiring
stall_at c now last =
    if leb (last + c.t_stall) now
    then record {
      metric = "stall";
      value = whole (now - last);
      threshold = whole c.t_stall;
      task_id = none;
    }
      ∷ []
    else []

abbrev pub stall_on : DetectorConfig → Board → ℕ → List String → List DetectorFiring
stall_on c b now [] = []
stall_on c b now (t ∷ ts) = stall_at c now (last_change b (t ∷ ts))

-- `stall`
unfoldable pub stall : DetectorConfig → Board → ℕ → List DetectorFiring
unfolding non_terminal last_change
stall c b now = stall_on c b now (non_terminal b)

abbrev pub or_default : ℕ → Option ℕ → ℕ
or_default d none = d
or_default d (some n) = n

abbrev aged : DetectorConfig → ℕ → String → ℕ → DetectorFiring
aged c now t first = record {
  metric = "aging";
  value = whole (now - first);
  threshold = whole c.t_age;
  task_id = some t;
}

unfoldable pub aging_at : DetectorConfig → List Event → ℕ → List String → List DetectorFiring
unfolding first_seen
aging_at c events now [] = []
aging_at c events now (t ∷ ts) =
    let rest = aging_at c events now ts in
    let first = or_default now (first_seen events t) in
    if leb (first + c.t_age) now then aged c now t first ∷ rest else rest

-- `aging`
unfoldable pub aging : DetectorConfig → List Event → Board → ℕ → List DetectorFiring
unfolding non_terminal aging_at
aging c events b now = aging_at c events now (sort text_le (non_terminal b))

-- `enabled is None or det.__name__ in enabled`
abbrev when_enabled : Option (List String) → String → List DetectorFiring → List DetectorFiring
when_enabled none name firings = firings
when_enabled (some names) name firings = if member name names then firings else []

-- `run_detectors`
unfoldable pub run_detectors :
    DetectorConfig → Option (List String) → List Event → Board → ℕ → List DetectorFiring
unfolding retry_loop loop cost_spike activity_vs_progress stall aging
run_detectors c enabled events b now =
    when_enabled enabled "retry_loop" (retry_loop c events)
    ++ (when_enabled enabled "loop" (loop c events)
        ++ (when_enabled enabled "cost_spike" (cost_spike c events now)
            ++ (when_enabled enabled "activity_vs_progress" (activity_vs_progress c events b)
                ++ (when_enabled enabled "stall" (stall c b now)
                    ++ when_enabled enabled "aging" (aging c events b now)))))

unfoldable pub age_deadlines : DetectorConfig → List Event → List String → List ℕ
unfolding first_seen
age_deadlines c events [] = []
age_deadlines c events (t ∷ ts) =
    (or_default 0 (first_seen events t) + c.t_age) ∷ age_deadlines c events ts

abbrev pub deadlines_of : DetectorConfig → List Event → Board → List String → List ℕ
deadlines_of c events b [] = []
deadlines_of c events b (t ∷ ts) =
    (last_change b (t ∷ ts) + c.t_stall) ∷ age_deadlines c events (t ∷ ts)

-- `set(deadlines)`
unfoldable pub distinct : List ℕ → List ℕ
unfolding is_met
distinct [] = []
distinct (d ∷ ds) = let rest = distinct ds in if is_met eqb d rest then rest else d ∷ rest

-- `time_based_deadlines`
unfoldable pub time_based_deadlines : DetectorConfig → List Event → Board → List ℕ
unfolding non_terminal last_change age_deadlines distinct
time_based_deadlines c events b =
    sort_by (λ d. d) (distinct (deadlines_of c events b (non_terminal b)))
