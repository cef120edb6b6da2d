-- ===== src/Gateway/Policy.antt =====
-- src/omegahive/gateway/policy.py: the authority to emit, and the access projection.
-- `event_type in EMIT_AUTHORITY.get(role, set())`
use omegahive.Base.{String, Bool, true, false, ◌&&◌, ◌||◌, Option, none, some, ◌==◌, opt_eq}
use omegahive.Board.Legality.{task, is_worker, owner_of}
use omegahive.Board.State.{Board}
use omegahive.Events.Envelope.{
  Role, planner, coordinator, instrument, gateway, human, machinist, Actor, EventType,
  goal_received, task_created, dependency_added, worker_registered, priority_set, plan_revised,
  task_assigned, task_reassigned, task_escalated, task_status_override, task_pruned, note_posted,
  task_accepted, task_rejected, task_progress, task_blocked, task_unblocked, task_result_posted,
  task_failed, question_asked, task_reported, execution_route_approved, execution_started,
  execution_finished, review_passed, review_failed, metric_threshold_crossed, promotion_created,
  promotion_suppressed, gateway_rejected, Event,
}

unfoldable pub may_emit : Role → EventType → Bool
may_emit planner goal_received = true
may_emit planner task_created = true
may_emit planner dependency_added = true
may_emit planner worker_registered = true
may_emit planner priority_set = true
may_emit planner plan_revised = true
may_emit coordinator task_assigned = true
may_emit coordinator task_reassigned = true
may_emit coordinator task_escalated = true
may_emit coordinator task_status_override = true
may_emit coordinator task_pruned = true
may_emit coordinator note_posted = true
may_emit Role.worker task_accepted = true
may_emit Role.worker task_rejected = true
may_emit Role.worker task_progress = true
may_emit Role.worker task_blocked = true
may_emit Role.worker task_unblocked = true
may_emit Role.worker task_result_posted = true
may_emit Role.worker task_failed = true
may_emit Role.worker question_asked = true
may_emit Role.worker task_reported = true
may_emit instrument promotion_created = true
may_emit instrument promotion_suppressed = true
may_emit instrument metric_threshold_crossed = true
may_emit instrument review_passed = true
may_emit instrument review_failed = true
may_emit instrument execution_started = true
may_emit instrument execution_finished = true
may_emit human task_reported = true
may_emit human task_created = true
may_emit human task_escalated = true
may_emit human task_status_override = true
may_emit human worker_registered = true
may_emit human execution_route_approved = true
may_emit machinist task_assigned = true
may_emit machinist note_posted = true
may_emit gateway gateway_rejected = true
may_emit _ _ = false

abbrev is_actor : String → Option Actor → Bool
is_actor id none = false
is_actor id (some a) = a.id == id

-- What a worker may see.
unfoldable pub worker_sees : String → Event → Board → Bool
worker_sees id ev b =
    is_worker ev.actor.role && ev.actor.id == id
    || (is_actor id ev.recipient || opt_eq (owner_of (task b ev.task_id)) (some id))

-- `Policy.visible`
unfoldable pub visible : Role → String → Event → Board → Bool
unfolding worker_sees
visible coordinator id ev b = true
visible instrument id ev b = true
visible Role.worker id ev b = worker_sees id ev b
visible _ id ev b = false
