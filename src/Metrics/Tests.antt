-- ===== src/Metrics/Tests.antt =====
-- A board with one task that waits, and the theorems about the detectors and the measures.
use omegahive.Base.{
  ℕ, ◌≡◌, refl, false, none, some, List, [], ◌∷◌, ◌++◌, arith, is_met, taken_once, met_after,
  times_of, find_in, change_in, taken_rounds, ◌==◌, opt_eq, keep, count_if, member, add, pos,
  add_int, insert, sort, text_le, sort_by, get, put, values, keys, map_values,
}
use omegahive.Board.Legality.{
  on_task, new_task, e_created, e_dependency_added, e_priority_set, e_worker_registered, give,
  e_assigned, e_reassigned, moves, e_rejected, e_accepted, e_blocked, e_unblocked, e_result_posted,
  e_review_passed, e_review_failed, e_done, e_reopened, e_cancelled, e_failed, e_escalated,
  e_pruned, e_plan_cancel, task, g_created, g_needs_task, on_roster, g_known_worker, g_assigned,
  g_reassigned, g_worker_registered, from_state, g_done, has_reason, g_cancelled, is_live,
  live_deps, breaks_join, first_broken_join, g_prune, g_plan_cancel, is_text, rules, lookup,
  non_board_whitelist, worker_owned_emits, owner_of, worker_ownership_violation,
}
use omegahive.Board.Reducer.{
  apply, replay, is_pruned, is_done, active_deps, derive_join, derive_one, derive_loop, derive,
  fold,
}
use omegahive.Board.Soundness.{History, start, next}
use omegahive.Board.State.{
  assigned, TaskState, Board, empty, ids_where, ready_ids, awaiting_close, resolve_k,
}
use omegahive.Events.Envelope.{
  planner, EventType, task_created, task_assigned, task_status_override, task_progress,
  review_passed, review_failed, tag, same_type, Event,
}
use omegahive.Events.Json.{
  int, text, end, field, Payload, get_field, get_text, get_int, first_ref, is_blank,
}
use omegahive.Metrics.Clocked.{
  is_churn, activity_vs_progress, non_terminal, last_change, stall, aging_at, aging, run_detectors,
  age_deadlines, distinct, time_based_deadlines,
}
use omegahive.Metrics.Completions.{is_failed_completion, compute-false_completions}
use omegahive.Metrics.Core.{
  is_trigger, without, on_kind, on_recovery, note, note_all, sum_int, mean, times_since,
  gives_again, compute,
}
use omegahive.Metrics.Deadlines.{situations, time_based_deadlines_complete}
use omegahive.Metrics.Detectors.{
  first_seen, cycles_over, retries_at, retry_loop, count_threads, recurring, recurring_over, loop,
  cost_in, cost_spike,
}
use omegahive.Promotion.Rules.{default_detectors}
use omegahive.Sim.Loop.{settle}

abbrev waiting : TaskState
waiting = record {
  task_id = "t1";
  status = assigned;
  owner = some "w1";
  depends_on = [];
  latest_review = none;
  last_result_ref = none;
  last_causing_seq = some 2;
  last_causing_event_id = some 2;
  last_status_change_ts = 4;
  escalated = false;
  tried_by = "w1" ∷ [];
  task_type = none;
  ready_when = none;
  pruned = false;
  join_unsatisfiable = false;
  title = "";
  priority = "normal";
  blocker_reason = none;
  blocker_needs = none;
}

abbrev board : Board
board = record { tasks = ("t1", waiting) ∷ []; roster = "w1" ∷ [] }

abbrev event : ℕ → EventType → Payload → Event
event n t p = record {
  event_id = n;
  run_id = "r1";
  logical_ts = n;
  wall_ts = none;
  actor = record { role = planner; id = "p1" };
  event_type = t;
  task_id = some "t1";
  payload = p;
  causation_id = none;
  correlation_id = some 1;
  recipient = none;
  seq = some n;
}

abbrev log : List Event
log = event 1 task_created end ∷ event 4 task_assigned (field "worker" (text "w1") end) ∷ []

computes : Unit {0}
unfolding ◌==◌ opt_eq get put values keys map_values keep count_if member add insert sort text_le
    sort_by add_int is_met taken_once met_after times_of find_in change_in taken_rounds first_seen
    cycles_over retries_at retry_loop count_threads recurring recurring_over loop cost_in cost_spike
    is_churn activity_vs_progress non_terminal last_change stall aging_at aging run_detectors
    age_deadlines distinct time_based_deadlines is_trigger without on_kind on_recovery note note_all
    sum_int mean times_since gives_again compute tag same_type get_field get_text get_int first_ref
    is_blank ids_where ready_ids awaiting_close resolve_k apply replay is_pruned is_done active_deps
    settle derive_join derive_one derive_loop derive fold on_task new_task e_created
    e_dependency_added e_priority_set e_worker_registered give e_assigned e_reassigned moves
    e_rejected e_accepted e_blocked e_unblocked e_result_posted e_review_passed e_review_failed
    e_done e_reopened e_cancelled e_failed e_escalated e_pruned e_plan_cancel task g_created
    g_needs_task on_roster g_known_worker g_assigned g_reassigned g_worker_registered from_state
    g_done has_reason g_cancelled is_live live_deps breaks_join first_broken_join g_prune
    g_plan_cancel is_text rules lookup non_board_whitelist worker_owned_emits owner_of
    worker_ownership_violation
computes = tt

two_deadlines : time_based_deadlines default_detectors log board ≡ 16 ∷ 31 ∷ []
unfolding computes
two_deadlines = refl

-- The deadline of a stall is the first tick at which it fires.
fires_at_deadline :
    situations (run_detectors default_detectors none log board 16) ≡ ("stall", none) ∷ []
unfolding computes
fires_at_deadline = refl

silent_before : run_detectors default_detectors none log board 15 ≡ []
unfolding computes
silent_before = refl

abbrev spent : Event
spent = event 6 task_progress (field "cost" (int (pos 60)) end)

spikes :
    situations (run_detectors default_detectors none (log ++ spent ∷ []) board 7)
    ≡ ("cost_spike", none) ∷ []
unfolding computes
spikes = refl

time_based_deadlines_complete_example :
    (situations (stall default_detectors board 30) ≡ situations (stall default_detectors board 20))
    × (situations (aging default_detectors log board 30)
        ≡ situations (aging default_detectors log board 20))
unfolding computes
time_based_deadlines_complete_example =
    time_based_deadlines_complete default_detectors board log 20 30 (omega arith) refl

-- A task with a passed review that fails another after it is closed.
abbrev closing : List Event
closing =
    event 1 task_created end
    ∷ event 2 review_passed (field "ref_result" (text "a") end)
    ∷ event 3 task_status_override (field "status" (text "done") end)
    ∷ event 4 review_failed (field "ref_result" (text "b") end)
    ∷ []

abbrev after_all : List Event → Board
after_all es = elim (replay empty es) [ none ↦ empty | some b ↦ b ]

abbrev created_1 : Board
created_1 = after_all (event 1 task_created end ∷ [])

abbrev passed_1 : Board
passed_1 =
    after_all
      (event 1 task_created end ∷ event 2 review_passed (field "ref_result" (text "a") end) ∷ [])

abbrev closed_1 : Board
closed_1 = after_all (
    event 1 task_created end
    ∷ event 2 review_passed (field "ref_result" (text "a") end)
    ∷ event 3 task_status_override (field "status" (text "done") end)
    ∷ [])

-- The gate lets all four through.
accepted_1 : History (after_all closing)
unfolding computes
accepted_1 =
    next (event 4 review_failed (field "ref_result" (text "b") end)) (after_all closing)
      (next (event 3 task_status_override (field "status" (text "done") end)) closed_1
        (next (event 2 review_passed (field "ref_result" (text "a") end)) passed_1
          (next (event 1 task_created end) created_1 start refl refl) refl refl)
        refl refl)
      refl refl

compute-false_completions_example :
    (compute closing (derive (after_all closing))).false_completion_rate.num
    ≡ pos (count_if is_failed_completion (values (derive (after_all closing)).tasks))
compute-false_completions_example = compute-false_completions closing accepted_1

-- So the rate is not always 0.
one_false : (compute closing (derive (after_all closing))).false_completion_rate.num ≡ pos 1
unfolding computes
one_false = refl
