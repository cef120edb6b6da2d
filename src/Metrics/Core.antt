-- ===== src/Metrics/Core.antt =====
-- src/omegahive/metrics/core.py: the measures of a run.
use omegahive.Base.{
  ℕ, zero, suc, ◌+◌, ◌-◌, String, Bool, true, false, ◌&&◌, ◌||◌, not, Option, none, some, List, [],
  ◌∷◌, ◌++◌, leb, ◌==◌, if◌then◌else◌, length, count_if, ℤ, pos, sub_ℕ, add_int, sort_by, Dict, get,
  put, values,
}
use omegahive.Board.Legality.{is_text}
use omegahive.Board.State.{Status, done, TaskState, Board, is_status, is_passed, ids_where}
use omegahive.Events.Envelope.{
  EventType, task_created, task_assigned, task_reassigned, task_escalated, task_status_override,
  task_accepted, task_blocked, task_unblocked, task_result_posted, task_failed, review_failed,
  same_type, Event,
}
use omegahive.Events.Json.{get_int}
use omegahive.Metrics.Detectors.{Amount, one_more}

-- `_TRIGGERS`
unfoldable pub is_trigger : EventType → Bool
is_trigger task_assigned = true
is_trigger task_reassigned = true
is_trigger task_accepted = true
is_trigger task_blocked = true
is_trigger task_failed = true
is_trigger _ = false

-- The variables of the loop of `compute`.
pub record Marks : Type 0 where
  pub assigned_ts : Dict ℕ
  pub done_ts : Dict ℕ
  pub first_assignment : Option ℕ
  pub sim_cost_total : ℤ
  pub gives : Dict ℕ
  pub tasks_reopened : ℕ
  pub last_trigger_ts : Dict ℕ
  pub first_review_failed_ts : Dict ℕ
  pub pending_blocked_ts : Dict ℕ
  pub blocked_recoveries : List ℤ
  pub escalation_latencies : List ℤ

abbrev pub no_marks : Marks
no_marks = record {
  assigned_ts = [];
  done_ts = [];
  first_assignment = none;
  sim_cost_total = pos 0;
  gives = [];
  tasks_reopened = 0;
  last_trigger_ts = [];
  first_review_failed_ts = [];
  pending_blocked_ts = [];
  blocked_recoveries = [];
  escalation_latencies = [];
}

-- `d.setdefault(k, v)`
abbrev set_default : String → ℕ → Dict ℕ → Dict ℕ
set_default k v d = elim (get k d) [ none ↦ put k v d | some w ↦ d ]

-- `d` after `d.pop(k)`, where the key is there.
unfoldable pub without : String → Dict ℕ → Dict ℕ
without k [] = []
without k ((j, v) ∷ d) = if j == k then d else (j, v) ∷ without k d

abbrev earliest : ℕ → Option ℕ → ℕ
earliest ts none = ts
earliest ts (some t0) = if leb t0 ts then t0 else ts

abbrev is_give : EventType → Bool
is_give t = same_type t task_assigned || same_type t task_reassigned

abbrev on_give : Event → String → Marks → Marks
on_give e t m = record m {
  gives = put t (one_more (get t m.gives)) m.gives;
  assigned_ts =
      if same_type e.event_type task_assigned
      then set_default t e.logical_ts m.assigned_ts
      else m.assigned_ts;
  first_assignment = some (earliest e.logical_ts m.first_assignment);
}

abbrev on_trigger : Event → String → Marks → Marks
on_trigger e t m = record m { last_trigger_ts = put t e.logical_ts m.last_trigger_ts }

-- A cost that is absent adds nothing.
abbrev cost_of : Event → ℤ
cost_of e = elim (get_int "cost" e.payload) [ none ↦ pos 0 | some n ↦ n ]

abbrev on_override : Event → String → Marks → Marks
on_override e t m =
    if is_text "status" "done" e.payload
    then record m { done_ts = put t e.logical_ts m.done_ts }
    else if is_text "status" "reopened" e.payload
    then record m { tasks_reopened = suc m.tasks_reopened }
    else m

abbrev or_ts : ℕ → Option ℕ → ℕ
or_ts ts none = ts
or_ts ts (some t0) = t0

unfoldable pub on_kind : Event → String → Marks → Marks
unfolding add_int
on_kind e t m =
    if same_type e.event_type task_status_override
    then on_override e t m
    else if same_type e.event_type task_result_posted
    then record m { sim_cost_total = add_int m.sim_cost_total (cost_of e) }
    else if same_type e.event_type review_failed
    then record m { first_review_failed_ts = set_default t e.logical_ts m.first_review_failed_ts }
    else if same_type e.event_type task_blocked
    then record m { pending_blocked_ts = set_default t e.logical_ts m.pending_blocked_ts }
    else if same_type e.event_type task_escalated
    then record m {
      escalation_latencies =
          m.escalation_latencies
          ++ sub_ℕ e.logical_ts (or_ts e.logical_ts (get t m.last_trigger_ts)) ∷ [];
    }
    else m

abbrev is_recovery : EventType → Bool
is_recovery t = same_type t task_unblocked || same_type t task_reassigned

unfoldable pub on_recovery : Event → String → Marks → Marks
unfolding without
on_recovery e t m = elim (get t m.pending_blocked_ts) [
  | none ↦ m
  | some t0 ↦ record m {
    blocked_recoveries = m.blocked_recoveries ++ sub_ℕ e.logical_ts t0 ∷ [];
    pending_blocked_ts = without t m.pending_blocked_ts;
  }
]

abbrev when : Bool → (Marks → Marks) → Marks → Marks
when b f m = if b then f m else m

-- One turn of the loop.
unfoldable pub note : Event → Marks → Marks
unfolding is_trigger on_kind on_recovery
note e m = elim e.task_id [
  | none ↦ m
  | some t ↦ when (is_recovery e.event_type) (on_recovery e t) (
      on_kind e t (
        when (is_trigger e.event_type) (on_trigger e t)
          (when (is_give e.event_type) (on_give e t) m)))
]

unfoldable pub note_all : List Event → Marks → Marks
unfolding note
note_all [] m = m
note_all (e ∷ es) m = note_all es (note e m)

unfoldable pub sum_int : List ℤ → ℤ
unfolding add_int
sum_int [] = pos 0
sum_int (x ∷ xs) = add_int x (sum_int xs)

-- `_mean`
unfoldable pub mean : List ℤ → Option Amount
unfolding sum_int
mean [] = none
mean (x ∷ xs) = some (record { num = sum_int (x ∷ xs); den = length (x ∷ xs) })

-- `n / d if d else None`
abbrev pub per : ℤ → ℕ → Option Amount
per n zero = none
per n (suc d) = some (record { num = n; den = suc d })

abbrev span : Option ℕ → Option ℕ → List ℤ → List ℤ
span (some t1) (some t0) rest = sub_ℕ t1 t0 ∷ rest
span _ _ rest = rest

-- `[done_ts[t] - since[t] for t in completed if t in since and t in done_ts]`
unfoldable pub times_since : Dict ℕ → Dict ℕ → List String → List ℤ
times_since ends since [] = []
times_since ends since (t ∷ ts) = span (get t ends) (get t since) (times_since ends since ts)

-- `sum(max(0, c - 1) for c in gives.values())`
unfoldable pub gives_again : List ℕ → ℕ
gives_again [] = 0
gives_again (n ∷ ns) = (n - 1) + gives_again ns

abbrev pub is_closed : TaskState → Bool
is_closed s = is_status s.status done

-- A task of the board that is done without a passed review.
abbrev pub is_false_completion : TaskState → Bool
is_false_completion s = is_closed s && not (is_passed s.latest_review)

pub record Metrics : Type 0 where
  pub tasks_total : ℕ
  pub tasks_completed : ℕ
  pub time_to_first_assignment : Option ℕ
  pub mean_task_cycle_time : Option Amount
  pub events_per_completed_task : Option Amount
  pub sim_cost_total : ℤ
  pub sim_cost_per_task : Option Amount
  pub tasks_failed : ℕ
  pub tasks_reopened : ℕ
  pub reassignment_count : ℕ
  pub escalation_count : ℕ
  pub review_failure_recovery_time : Option Amount
  pub blocked_recovery_time : Option Amount
  pub escalation_latency : Option Amount
  pub false_completion_rate : Amount

abbrev or_zero : Option Amount → Amount
or_zero none = record { num = pos 0; den = 1 }
or_zero (some a) = a

abbrev seq_of : Event → ℕ
seq_of e = elim e.seq [ none ↦ 0 | some n ↦ n ]

-- `compute`
unfoldable pub compute : List Event → Board → Metrics
unfolding note_all mean times_since gives_again
compute unsorted b =
    let events = sort_by seq_of unsorted in
    let completed = ids_where is_closed b.tasks in
    let n = length completed in
    let m = note_all events no_marks in
    record {
      tasks_total = count_if (λ e. same_type e.event_type task_created) events;
      tasks_completed = n;
      time_to_first_assignment = m.first_assignment;
      mean_task_cycle_time = mean (times_since m.done_ts m.assigned_ts completed);
      events_per_completed_task = per (pos (length events)) n;
      sim_cost_total = m.sim_cost_total;
      sim_cost_per_task = per m.sim_cost_total n;
      tasks_failed = count_if (λ s. is_status s.status Status.failed) (values b.tasks);
      tasks_reopened = m.tasks_reopened;
      reassignment_count = gives_again (values m.gives);
      escalation_count = length m.escalation_latencies;
      review_failure_recovery_time =
          mean (times_since m.done_ts m.first_review_failed_ts completed);
      blocked_recovery_time = mean m.blocked_recoveries;
      escalation_latency = mean m.escalation_latencies;
      false_completion_rate = or_zero (per (pos (count_if is_false_completion (values b.tasks))) n);
    }
