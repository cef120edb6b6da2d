-- ===== src/Sim/Watching.antt =====
-- A short run seen by the instruments, and the theorems about them at it.
use omegahive.Base.{
  ℕ, zero, suc, ◌≤◌, String, ◌≡◌, refl, true, false, ◌||◌, Option, none, some, List, [], ◌∷◌, map,
  arith, is_met, taken_once, met_after, times_of, find_in, change_in, taken_rounds, items_of, eqb,
  ◌==◌, opt_eq, keep, count_if, member, add, pos, add_int, insert, sort, text_le, sort_by, get, put,
  values, keys, map_values, is_space, is_break, text_length, strip_left, strip_right, strip,
  lines_after, split_lines, cut, concat, without_prefix,
}
use omegahive.Board.Legality.{
  on_task, new_task, e_created, e_dependency_added, e_priority_set, e_worker_registered, give,
  e_assigned, e_reassigned, moves, e_rejected, e_accepted, e_blocked, e_unblocked, e_result_posted,
  e_review_passed, e_review_failed, e_done, e_reopened, e_cancelled, e_failed, e_escalated,
  e_pruned, e_plan_cancel, task, g_created, g_needs_task, on_roster, g_known_worker, g_assigned,
  g_reassigned, g_worker_registered, from_state, g_done, has_reason, g_cancelled, is_live,
  live_deps, breaks_join, first_broken_join, g_prune, g_plan_cancel, is_text, rules, lookup,
  non_board_whitelist, worker_owned_emits, owner_of, worker_ownership_violation,
}
use omegahive.Board.Reducer.{
  apply, replay, is_pruned, is_done, active_deps, derive_join, derive_one, derive_loop, derive,
  fold,
}
use omegahive.Board.State.{
  blocked, TaskState, Board, empty, ids_where, ready_ids, awaiting_close, resolve_k,
}
use omegahive.Events.Envelope.{
  instrument, Actor, EventType, task_created, review_failed, promotion_created, tag, same_type,
  Uuid, Event,
}
use omegahive.Events.Json.{
  text, end, field, Payload, get_field, get_text, get_int, first_ref, is_blank,
}
use omegahive.Metrics.Clocked.{
  is_churn, activity_vs_progress, non_terminal, last_change, stall, aging_at, aging, run_detectors,
  age_deadlines, distinct, time_based_deadlines,
}
use omegahive.Metrics.Deadlines.{all_pass, is_outside}
use omegahive.Metrics.Detectors.{
  Amount, first_seen, cycles_over, retries_at, retry_loop, count_threads, recurring, recurring_over,
  loop, cost_in, cost_spike,
}
use omegahive.Promotion.Rules.{
  default_detectors, PromotionConfig, default_config, thread_length, is_routine, evaluate,
  board_rules_at, board_rules, metric_name, severity,
}
use omegahive.Promotion.Tuning.{latest_ts, replayed_events, replayed_tasks, replay_promotions}
use omegahive.Promotion.View.{
  by_id, causes, seqs_of, caused_by_chain, digest, HumanItem, ParseUuid, item_of, items_over,
  promoted, human_view,
}
use omegahive.Sim.Coordinator.{Emit, ReactResult}
use omegahive.Sim.Firing.{
  FiringKey, same_firing, keyed_firings, delays_after, Fired, nothing_fired, DetectorsRunner,
  detectors_react,
}
use omegahive.Sim.Heap.{AreWakes}
use omegahive.Sim.Horizon.{IsPositive}
use omegahive.Sim.Instruments.{TurnFits, team_react-AreFit}
use omegahive.Sim.Promoter.{
  PromotionKey, same_promotion, promotion, picked_events, picked_tasks, nothing_promoted,
  promotion_react,
}
use omegahive.Sim.Prompt.Work.{IfSome}
use omegahive.Sim.Reports.{
  Turn, AreFirsts, promotions, picked, promotions-AreFirsts, crossings, all_firings,
  crossings-AreFirsts,
}
use omegahive.Sim.Team.{Team, promotes, team_react}
use omegahive.Sim.Viewing.{Pick, is_promotion, line_of, picked_line, human_view-lines}
use omegahive.Sim.Wakes.{waiting_on, ticks_of, detectors_react-wakes}

abbrev event : ℕ → EventType → Payload → Event
event n t p = record {
  event_id = n;
  run_id = "r1";
  logical_ts = n;
  wall_ts = none;
  actor = record { role = instrument; id = "review" };
  event_type = t;
  task_id = some "t1";
  payload = p;
  causation_id = none;
  correlation_id = some 1;
  recipient = none;
  seq = some n;
}

abbrev blocked_task : TaskState
blocked_task = record {
  task_id = "t1";
  status = blocked;
  owner = some "w1";
  depends_on = [];
  latest_review = none;
  last_result_ref = none;
  last_causing_seq = some 2;
  last_causing_event_id = some 2;
  last_status_change_ts = 2;
  escalated = false;
  tried_by = "w1" ∷ [];
  task_type = none;
  ready_when = none;
  pruned = false;
  join_unsatisfiable = false;
  title = "";
  priority = "normal";
  blocker_reason = none;
  blocker_needs = none;
}

abbrev board : Board
board = record { tasks = ("t1", blocked_task) ∷ []; roster = "w1" ∷ [] }

abbrev failure : ℕ → Event
failure n = event n review_failed (field "ref_result" (text "a") end)

-- The same failure twice, and a task that stays blocked.
abbrev turns : List Turn
turns =
    record { new = event 1 task_created end ∷ failure 3 ∷ []; board = board; now = 3 }
    ∷ record { new = failure 5 ∷ []; board = board; now = 9 }
    ∷ record { new = []; board = board; now = 20 }
    ∷ []

-- A text for each UUID, and its way back.
unfoldable show : Uuid → String
unfolding concat
show zero = ""
show (suc u) = concat "i" (show u)

parse : ParseUuid
parse t = some (text_length t)

parses : (u : Uuid) → parse (show u) ≡ some u
unfolding show parse text_length concat
parses zero = refl
parses (suc u) = ground (arith, parses u)

abbrev one : Amount → String
one a = "1"

abbrev runner : DetectorsRunner
runner = record { config = default_detectors; enabled = none; show_amount = one }

abbrev about : List Emit → List (Option String × Option Uuid)
about [] = []
about (e ∷ es) = (e.task_id, e.causation_id) ∷ about es

computes : Unit {0}
unfolding ◌==◌ opt_eq get put values keys map_values keep count_if member add insert sort text_le
    sort_by add_int is_space is_break text_length strip_left strip_right strip lines_after
    split_lines cut concat without_prefix is_met taken_once met_after times_of find_in change_in
    taken_rounds thread_length is_routine evaluate board_rules_at board_rules metric_name severity
    by_id causes seqs_of caused_by_chain digest item_of items_over human_view first_seen cycles_over
    retries_at retry_loop count_threads recurring recurring_over loop cost_in cost_spike is_churn
    activity_vs_progress non_terminal last_change stall aging_at aging run_detectors age_deadlines
    distinct time_based_deadlines tag same_type get_field get_text get_int first_ref is_blank
    ids_where ready_ids awaiting_close resolve_k picked_events picked_tasks promotion_react
    keyed_firings delays_after detectors_react promotions picked crossings all_firings latest_ts
    replayed_events replayed_tasks replay_promotions apply replay is_pruned is_done active_deps
    derive_join derive_one derive_loop derive fold on_task new_task e_created e_dependency_added
    e_priority_set e_worker_registered give e_assigned e_reassigned moves e_rejected e_accepted
    e_blocked e_unblocked e_result_posted e_review_passed e_review_failed e_done e_reopened
    e_cancelled e_failed e_escalated e_pruned e_plan_cancel task g_created g_needs_task on_roster
    g_known_worker g_assigned g_reassigned g_worker_registered from_state g_done has_reason
    g_cancelled is_live live_deps breaks_join first_broken_join g_prune g_plan_cancel is_text rules
    lookup non_board_whitelist worker_owned_emits owner_of worker_ownership_violation
computes = tt

-- The failure of tick 3 and the long block are promoted, each once.
two_promotions :
    about (promotions show default_config nothing_promoted turns)
    ≡ (some "t1", some 3) ∷ (some "t1", some 2) ∷ []
unfolding computes
two_promotions = refl

promotions-AreFirsts_example :
    (taken : List (PromotionKey × Emit)) × (promotions show default_config nothing_promoted turns
      ≡ items_of taken)
    × AreFirsts same_promotion taken (picked show default_config [] turns)
promotions-AreFirsts_example = promotions-AreFirsts show default_config turns

crossings-AreFirsts_example :
    (taken : List (FiringKey × Emit)) × (crossings runner nothing_fired turns ≡ items_of taken)
    × AreFirsts same_firing taken (all_firings runner [] turns)
crossings-AreFirsts_example = crossings-AreFirsts runner turns

-- A thread of three events with a limit of two, one event at each turn.
abbrev thread : List Event
thread = event 1 task_created end ∷ event 2 task_created end ∷ event 3 task_created end ∷ []

abbrev one_by_one : List Event → List Turn
one_by_one [] = []
one_by_one (e ∷ es) = record { new = e ∷ []; board = empty; now = e.logical_ts } ∷ one_by_one es

abbrev short_threads : PromotionConfig
short_threads = record default_config { n_thread = 2 }

-- The evaluator promotes the event that makes the thread too long.
promotes_third :
    about (promotions show short_threads nothing_promoted (one_by_one thread))
    ≡ (some "t1", some 3) ∷ []
unfolding computes
promotes_third = refl

-- The replay counts the whole thread from the start, and promotes its first event.
replays_first : replay_promotions show short_threads thread ≡ some (show 1 ∷ [])
unfolding computes show
replays_first = refl

abbrev first_events : List Event
first_events = event 1 task_created end ∷ failure 3 ∷ []

-- The stall of tick 14 and the aging of tick 31 are ahead.
two_wakes :
    (detectors_react runner nothing_fired first_events board 3).0.wakes ≡ pos 11 ∷ pos 28 ∷ []
unfolding computes
two_wakes = refl

detectors_react-wakes_example :
    (res : ReactResult) × (after : Fired) × (detectors_react runner nothing_fired first_events board
        3
      ≡ (res, after))
    × AreWakes IsPositive res.wakes
    × ((d : ℕ)
        → is_met eqb d after.scheduled ≡ (is_met eqb d [] || is_met eqb d (ticks_of 3 res.wakes)))
    × ((later : ℕ)
        → 3 ≤ later
        → all_pass (is_outside 3 later) after.scheduled ≡ true
        → waiting_on runner after board later ≡ waiting_on runner after board 3)
detectors_react-wakes_example = detectors_react-wakes runner nothing_fired first_events board 3

abbrev team : Team
team = record {
  coordinator = record {
    agent_id = "c1";
    workers = "w1" ∷ [];
    stale_assigned = none;
    blocked_for = none;
  };
  workers = λ id. record {
    agent_id = id;
    accept_delay = pos 0;
    progress_delay = pos 2;
    result_delay = pos 4;
    quality = "ok";
    cost = pos 5;
    silent = false;
    rejects = false;
    fails_at = none;
    blocks = none;
    chances = none;
    quality_on_fail = "missing_sources";
  };
  format = λ why. "late";
  show_uuid = show;
  show_amount = one;
  promotion = default_config;
  thresholds = [];
}

abbrev watcher : Actor
watcher = record { role = instrument; id = "promotion" }

team_react-AreFit_example :
    IfSome
      (TurnFits empty watcher)
      (team_react team (promotes nothing_promoted) (failure 3 ∷ []) board 20)
team_react-AreFit_example =
    team_react-AreFit team (promotes nothing_promoted) (failure 3 ∷ []) board 20 empty watcher refl
      refl

-- A failure and its promotion.
abbrev shown : List Event
shown =
    failure 3
    ∷ event 4 promotion_created (promotion show 3 "review_failed" (some "t1")).payload
    ∷ []

abbrev pick : Event → Pick
pick p = (3, "review_failed")

human_view-lines_example :
    (is : List HumanItem) × (human_view parse shown 2 ≡ some (promoted is))
    × (map line_of is ≡ map (picked_line pick shown) (keep is_promotion shown))
unfolding computes
human_view-lines_example =
    human_view-lines show parse parses pick shown
      ((λ none_such. absurd (ground arith)), ((λ same. refl), tt))
