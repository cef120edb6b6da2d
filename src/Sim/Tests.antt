-- ===== src/Sim/Tests.antt =====
-- A turn of the coordinator, and the theorem about its emits at it.
use omegahive.Base.{
  String, ◌≡◌, refl, false, Option, none, some, [], ◌∷◌, map, ◌==◌, keep, member, insert, sort,
  text_le, get, keys,
}
use omegahive.Board.State.{
  Status, ready, blocked, in_review, Review, passed, TaskState, Board, ids_where, ready_ids,
  awaiting_close,
}
use omegahive.Events.Envelope.{EventType, task_assigned, task_escalated, task_status_override}
use omegahive.Sim.Authority.{AllPass, coordinator_of, decide-AllPass}
use omegahive.Sim.Coordinator.{
  ReactResult, Coordinator, coordinator_workers, escalation_reason, Format, for_tasks,
  reopen_failed, untried, give_ready, escalate_late, close_passed, wakes_for, task_ids, decide,
}

abbrev idle : String → Status → TaskState
idle t st = record {
  task_id = t;
  status = st;
  owner = none;
  depends_on = [];
  latest_review = none;
  last_result_ref = none;
  last_causing_seq = none;
  last_causing_event_id = none;
  last_status_change_ts = 0;
  escalated = false;
  tried_by = [];
  task_type = none;
  ready_when = none;
  pruned = false;
  join_unsatisfiable = false;
  title = "";
  priority = "normal";
  blocker_reason = none;
  blocker_needs = none;
}

-- One task to assign, one to close, one to reopen, and one that has been blocked for long.
abbrev board : Board
board = record {
  tasks =
      ("a", idle "a" ready)
      ∷ ("b", record (idle "b" in_review) { latest_review = some passed })
      ∷ ("c", record (idle "c" in_review) { latest_review = some Review.failed })
      ∷ ("d", idle "d" blocked)
      ∷ [];
  roster = "w1" ∷ [];
}

abbrev greedy : Coordinator
greedy = record {
  agent_id = "c1";
  workers = coordinator_workers [];
  stale_assigned = none;
  blocked_for = some 3;
}

abbrev say : Format
say e = "late"

abbrev turn : ReactResult
turn = decide say greedy board [] 5

runs : Unit {0}
unfolding ◌==◌ keep member get keys insert sort text_le ids_where ready_ids awaiting_close
    coordinator_workers escalation_reason for_tasks reopen_failed untried give_ready escalate_late
    close_passed wakes_for task_ids decide
runs = tt

four_emits :
    map {B = Option String × EventType} (λ e. (e.task_id, e.event_type)) turn.immediate
    ≡ (some "c", task_status_override)
      ∷ (some "a", task_assigned)
      ∷ (some "d", task_escalated)
      ∷ (some "b", task_status_override)
      ∷ []
unfolding runs
four_emits = refl

decide-AllPass_example : AllPass board (coordinator_of greedy) turn.immediate
unfolding runs
decide-AllPass_example = decide-AllPass say greedy board [] 5 (refl, (refl, (refl, (refl, tt))))
