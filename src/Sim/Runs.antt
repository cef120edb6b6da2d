-- ===== src/Sim/Runs.antt =====
-- A run of a small team, and the theorems about the engine at it.
use omegahive.Base.{
  ℕ, ◌+◌, String, ◌≡◌, refl, ◌≢◌, false, Option, none, some, List, [], ◌∷◌, map, arith, is_met,
  taken_once, met_after, change_in, ◌==◌, opt_eq, keep, count_if, member, add, pos, insert, sort,
  text_le, sort_by, get, put, values, keys, map_values, is_space, is_break, text_length, strip_left,
  strip_right, strip, lines_after, split_lines, cut, concat, negsuc, add_int,
}
use omegahive.Board.Legality.{
  on_task, new_task, e_created, e_dependency_added, e_priority_set, e_worker_registered, give,
  e_assigned, e_reassigned, moves, e_rejected, e_accepted, e_blocked, e_unblocked, e_result_posted,
  e_review_passed, e_review_failed, e_done, e_reopened, e_cancelled, e_failed, e_escalated,
  e_pruned, e_plan_cancel, task, g_created, g_needs_task, on_roster, g_known_worker, g_assigned,
  g_reassigned, g_worker_registered, from_state, g_done, has_reason, g_cancelled, is_live,
  live_deps, breaks_join, first_broken_join, g_prune, g_plan_cancel, is_text, rules, lookup,
  non_board_whitelist, worker_owned_emits, owner_of, worker_ownership_violation,
}
use omegahive.Board.Reducer.{
  apply, replay, is_pruned, is_done, active_deps, derive_join, derive_one, derive_loop, derive,
  fold,
}
use omegahive.Board.State.{ids_where, ready_ids, awaiting_close, resolve_k}
use omegahive.Events.Envelope.{
  Role, human, Actor, EventType, task_created, worker_registered, task_assigned,
  task_status_override, task_accepted, task_progress, task_result_posted, review_passed, tag,
  same_type,
}
use omegahive.Events.Json.{
  text, end, field, Payload, get_field, get_text, get_int, first_ref, is_blank,
}
use omegahive.Events.Log.{
  Row, Db, read_run, last_ts, find_id, first_row, find_by_key, thread_root, insert_row, times,
  append, open_run, generation, bump_generation, max_seq, head_seq, read_prefix, read_delta,
  is_refusal, find_recent_rejection, set_field, bump_coalesced_count,
}
use omegahive.Events.Types.{schema, is_hex, ends_in_sha, is_ref, all_refs, of_kind, conforms}
use omegahive.Gateway.Emit.{
  gate, Gateway, refusal_payload, now_ts, next_count, refusal_key, refusal_event, record_rejection,
  op_event, locked, emit, check, project,
}
use omegahive.Gateway.Names.{type_text, code_text, role_text}
use omegahive.Gateway.Policy.{may_emit, worker_sees, visible}
use omegahive.Metrics.Clocked.{
  is_churn, activity_vs_progress, non_terminal, last_change, stall, aging_at, aging, run_detectors,
  age_deadlines, distinct, time_based_deadlines,
}
use omegahive.Metrics.Core.{
  is_trigger, without, on_kind, on_recovery, note, note_all, sum_int, mean, times_since,
  gives_again, compute,
}
use omegahive.Metrics.Detectors.{
  first_seen, cycles_over, retries_at, retry_loop, count_threads, recurring, recurring_over, loop,
  cost_in, cost_spike,
}
use omegahive.Promotion.Rules.{
  default_config, thread_length, is_routine, evaluate, board_rules_at, board_rules, metric_name,
  severity,
}
use omegahive.Sim.Clock.{IsQueue, run_engine-IsQueue}
use omegahive.Sim.Coordinator.{
  Emit, coordinator_workers, escalation_reason, for_tasks, reopen_failed, untried, give_ready,
  escalate_late, close_passed, wakes_for, task_ids, decide,
}
use omegahive.Sim.Engine.{
  Member, Setup, HeapItem, clock_backward, not_converged, Step, went, stopped, item_le, push,
  emit_one, emit_all, push_all, push_wakes, unseen, ran_at, route, turn,
}
use omegahive.Sim.Firing.{keyed_firings, delays_after, detectors_react}
use omegahive.Sim.Heap.{Holds}
use omegahive.Sim.Loop.{
  settle, pass, Engine, settle_loop, advance_to, fire, run_loop, run_engine, start_cursors,
  start_engine,
}
use omegahive.Sim.Measures.{measure, crossings_of, metrics_react}
use omegahive.Sim.Promoter.{picked_events, picked_tasks, promotion_react}
use omegahive.Sim.Prompt.{team-GivesDelays, team-Ends}
use omegahive.Sim.Prompt.Work.{IsPrompt, GivesDelays-IsDelay}
use omegahive.Sim.Review.{qualities, all_ok, join_bad, verdict_on, review_react}
use omegahive.Sim.Settling.{settle-pass}
use omegahive.Sim.Stale.{fire-stale}
use omegahive.Sim.Team.{
  Team, Agent, coordinates, works, team_react, worker_members, build_members, setup_of,
}
use omegahive.Sim.Worker.{
  Worker, targets_me, next_attempt, draw_quality, result_in, on_assignment, worker_react,
}

abbrev row : ℕ → Actor → EventType → Option String → Payload → Row
row k a t task p = record {
  event = record {
    event_id = 100 + k;
    run_id = "r1";
    logical_ts = 0;
    wall_ts = none;
    actor = a;
    event_type = t;
    task_id = task;
    payload = p;
    causation_id = none;
    correlation_id = none;
    recipient = none;
    seq = some k;
  };
  key = none;
}

abbrev human_1 : Actor
human_1 = record { role = human; id = "h1" }

-- A registered worker and a task.
abbrev plan : Db
plan = record {
  rows =
      row 1 human_1 worker_registered none (field "worker_id" (text "w1") end)
      ∷ row 2 human_1 task_created (some "t1")
          (field "task_type" (text "build") (field "title" (text "T1") end))
      ∷ [];
  runs = ("r1", 1) ∷ [];
  next_seq = 3;
}

abbrev w1 : Worker
w1 = record {
  agent_id = "w1";
  accept_delay = pos 0;
  progress_delay = pos 2;
  result_delay = pos 4;
  quality = "ok";
  cost = pos 5;
  silent = false;
  rejects = false;
  fails_at = none;
  blocks = none;
  chances = none;
  quality_on_fail = "missing_sources";
}

abbrev team : Team
team = record {
  coordinator = record {
    agent_id = "c1";
    workers = "w1" ∷ [];
    stale_assigned = none;
    blocked_for = none;
  };
  workers = λ id. w1;
  format = λ why. "late";
  show_uuid = λ u. "result";
  show_amount = λ a. "1";
  promotion = default_config;
  thresholds = [];
}

abbrev members : List (Member Agent)
members = build_members "c1" ("w1" ∷ [])

-- Those that decide and act.
abbrev actors : List (Member Agent)
actors =
    record { role = Role.coordinator; agent_id = "c1"; memory = coordinates }
    ∷ record { role = Role.worker; agent_id = "w1"; memory = works "w1" [] }
    ∷ []

abbrev gateway_1 : Gateway
gateway_1 = record {
  store = record { run_id = "r1"; server_time = false; clock = 0 };
  coalesce_window = 10;
}

abbrev setup : Setup Agent
setup =
    setup_of team (record { dump = λ t p. some p; show = λ r. "refused" }) gateway_1
      (λ n. record { now = 0; uuid = 1000 + n }) 100 50

abbrev ran : Step (Engine Agent)
ran = elim (run_engine setup 20 (start_engine 0 plan members)) [
  | none ↦ stopped not_converged
  | some r ↦ r
]

abbrev log_after : Step (Engine Agent) → List EventType
log_after (went (ms, s)) = map (λ r. r.event.event_type) s.db.rows
log_after (stopped e) = []

evaluates : Unit {0}
unfolding add_int item_le push emit_one emit_all push_all push_wakes unseen ran_at route turn pass
    settle_loop settle advance_to fire run_loop run_engine start_cursors start_engine
    coordinator_workers escalation_reason for_tasks reopen_failed untried give_ready escalate_late
    close_passed wakes_for task_ids decide targets_me next_attempt draw_quality result_in
    on_assignment worker_react qualities all_ok join_bad verdict_on review_react team_react task
    g_created g_needs_task on_roster g_known_worker g_assigned g_reassigned g_worker_registered
    from_state g_done has_reason g_cancelled is_live live_deps breaks_join first_broken_join g_prune
    g_plan_cancel on_task new_task e_created e_dependency_added e_priority_set e_worker_registered
    give e_assigned e_reassigned moves e_rejected e_accepted e_blocked e_unblocked e_result_posted
    e_review_passed e_review_failed e_done e_reopened e_cancelled e_failed e_escalated e_pruned
    e_plan_cancel is_text rules lookup non_board_whitelist worker_owned_emits owner_of
    worker_ownership_violation apply replay is_pruned is_done active_deps derive_join derive_one
    derive_loop derive fold ids_where ready_ids awaiting_close resolve_k gate refusal_payload now_ts
    next_count refusal_key refusal_event record_rejection op_event locked emit check project
    may_emit worker_sees visible type_text code_text role_text read_run last_ts find_id first_row
    find_by_key thread_root insert_row times append open_run generation bump_generation max_seq
    head_seq read_prefix read_delta is_refusal find_recent_rejection set_field bump_coalesced_count
    get_field get_text get_int first_ref is_blank tag same_type schema is_hex ends_in_sha is_ref
    all_refs of_kind conforms get put values keys map_values ◌==◌ opt_eq insert sort text_le sort_by
    keep count_if member add is_space is_break text_length strip_left strip_right strip lines_after
    split_lines cut concat thread_length is_routine evaluate board_rules_at board_rules metric_name
    severity first_seen cycles_over retries_at retry_loop count_threads recurring recurring_over
    loop cost_in cost_spike is_churn activity_vs_progress non_terminal last_change stall aging_at
    aging run_detectors age_deadlines distinct time_based_deadlines picked_events picked_tasks
    promotion_react keyed_firings delays_after detectors_react measure crossings_of metrics_react
    is_trigger without on_kind on_recovery note note_all sum_int mean times_since gives_again
    compute is_met taken_once met_after worker_members build_members change_in
evaluates = tt

-- The task is given, worked on, reviewed and closed.
closes :
    log_after ran
    ≡ worker_registered ∷ task_created ∷ task_assigned ∷ task_accepted ∷ task_progress
      ∷ task_result_posted ∷ review_passed ∷ task_status_override ∷ []
unfolding evaluates
closes = refl

workers-IsPrompt : (id : String) → IsPrompt (team.workers id)
workers-IsPrompt id = record {
  accepts = tt;
  progresses = omega arith;
  posts = omega arith;
  no_failure = refl;
  no_block = refl;
}

run_engine-IsQueue_example :
    Holds (λ e. e ≢ clock_backward) (λ (ms, s). IsQueue s.clock s.future s.schedule_seq) ran
unfolding evaluates
run_engine-IsQueue_example =
    run_engine-IsQueue setup
      (GivesDelays-IsDelay setup (
        team-GivesDelays team setup.externals gateway_1 setup.draws 100 50 workers-IsPrompt
          (tt, tt)))
      20 0 plan members ran refl

-- A scenario whose workers report two ticks before they accept.
abbrev hasty : Team
hasty = record team { workers = λ id. record (team.workers id) { progress_delay = negsuc 1 } }

abbrev hasty_setup : Setup Agent
hasty_setup = setup_of hasty setup.externals gateway_1 setup.draws 100 50

goes_back : run_engine hasty_setup 20 (start_engine 0 plan members) ≡ some (stopped clock_backward)
unfolding evaluates
goes_back = refl

team-Ends_example :
    (n : ℕ) × (r : Step (Engine Agent)) × (run_engine setup n (start_engine 0 plan members)
      ≡ some r)
unfolding start_engine
team-Ends_example =
    team-Ends team setup.externals gateway_1 setup.draws 100 50 members
      (start_engine 0 plan members).1 workers-IsPrompt (tt, tt)

abbrev settled : Engine Agent
settled = elim (settle setup 0 (start_engine 0 plan actors)) [
  | went e ↦ e
  | stopped why ↦ ([], (start_engine 0 plan actors).1)
]

settle-pass_example : pass setup 0 settled.0 settled.1 ≡ went (settled.0, settled.1, false)
unfolding evaluates
settle-pass_example = settle-pass setup 0 (start_engine 0 plan actors) settled.0 settled.1 refl

-- A report by a worker who does not own the task.
abbrev stranger : Actor
stranger = record { role = Role.worker; id = "w2" }

abbrev report : Emit
report = record {
  event_type = task_progress;
  payload = field "note" (text "working") end;
  task_id = some "t1";
  causation_id = none;
  recipient = none;
}

abbrev stale : HeapItem
stale = record { logical_ts = 5; overdue = 0; schedule_seq = 0; carried = some (stranger, report) }

fire-stale_example :
    fire setup stale (actors, (start_engine 0 plan actors).1)
    ≡ went (actors, (start_engine 0 plan actors).1)
unfolding evaluates
fire-stale_example =
    fire-stale setup stale stranger report actors (start_engine 0 plan actors).1 refl refl
