-- ===== src/Gateway/Names.antt =====
-- The texts of the source for event types, codes and roles, as a recorded refusal carries them.
use omegahive.Base.{String}
use omegahive.Board.Legality.{
  Code, not_ready, already_owned, unknown_task, unknown_worker, not_authorized, illegal_transition,
}
use omegahive.Events.Envelope.{
  Role, planner, coordinator, instrument, gateway, human, machinist, EventType, goal_received,
  task_created, dependency_added, worker_registered, priority_set, plan_revised, task_assigned,
  task_reassigned, task_escalated, task_status_override, task_pruned, note_posted, task_accepted,
  task_rejected, task_progress, task_blocked, task_unblocked, task_result_posted, task_failed,
  question_asked, task_reported, execution_route_approved, execution_started, execution_finished,
  review_passed, review_failed, metric_threshold_crossed, promotion_created, promotion_suppressed,
  gateway_rejected,
}

unfoldable pub type_text : EventType → String
type_text goal_received = "goal.received"
type_text task_created = "task.created"
type_text dependency_added = "dependency.added"
type_text worker_registered = "worker.registered"
type_text priority_set = "priority.set"
type_text plan_revised = "plan.revised"
type_text task_assigned = "task.assigned"
type_text task_reassigned = "task.reassigned"
type_text task_escalated = "task.escalated"
type_text task_status_override = "task.status_override"
type_text task_pruned = "task.pruned"
type_text note_posted = "note.posted"
type_text task_accepted = "task.accepted"
type_text task_rejected = "task.rejected"
type_text task_progress = "task.progress"
type_text task_blocked = "task.blocked"
type_text task_unblocked = "task.unblocked"
type_text task_result_posted = "task.result_posted"
type_text task_failed = "task.failed"
type_text question_asked = "question.asked"
type_text task_reported = "task.reported"
type_text execution_route_approved = "execution.route_approved"
type_text execution_started = "execution.started"
type_text execution_finished = "execution.finished"
type_text review_passed = "review.passed"
type_text review_failed = "review.failed"
type_text metric_threshold_crossed = "metric.threshold_crossed"
type_text promotion_created = "promotion.created"
type_text promotion_suppressed = "promotion.suppressed"
type_text gateway_rejected = "gateway.rejected"
type_text (EventType.other s) = s

unfoldable pub code_text : Code → String
code_text not_ready = "NOT_READY"
code_text already_owned = "ALREADY_OWNED"
code_text unknown_task = "UNKNOWN_TASK"
code_text unknown_worker = "UNKNOWN_WORKER"
code_text not_authorized = "NOT_AUTHORIZED"
code_text illegal_transition = "ILLEGAL_TRANSITION"

unfoldable pub role_text : Role → String
role_text planner = "planner"
role_text coordinator = "coordinator"
role_text Role.worker = "worker"
role_text instrument = "instrument"
role_text gateway = "gateway"
role_text human = "human"
role_text machinist = "machinist"
