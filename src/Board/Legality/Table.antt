-- ===== src/Board/Legality/Table.antt =====
-- The table of src/omegahive/board/legality.py, its lookup, and the two sets beside it.
use omegahive.Base.{
  String, Bool, true, false, ◌&&◌, ◌||◌, not, Option, none, some, List, [], ◌∷◌, opt_eq,
  if◌then◌else◌,
}
use omegahive.Events.Json.{Payload, get_text}
use omegahive.Events.Envelope.{
  Role, Actor, EventType, same_type, worker, goal_received, task_created, dependency_added,
  worker_registered, priority_set, plan_revised, task_assigned, task_reassigned, task_escalated,
  task_status_override, task_pruned, note_posted, task_accepted, task_rejected, task_progress,
  task_blocked, task_unblocked, task_result_posted, task_failed, question_asked, task_reported,
  execution_route_approved, execution_started, execution_finished, review_passed, review_failed,
  metric_threshold_crossed, promotion_created, promotion_suppressed, gateway_rejected,
}
use omegahive.Board.State.{assigned, in_progress, blocked, in_review, TaskState, Board}
use omegahive.Board.Legality.Guards.{
  Guard, Rejection, reject, not_authorized, not_its_owner, task, g_created, g_needs_task,
  g_worker_registered, g_assigned, g_reassigned, from_state, g_done, g_cancelled, g_prune,
  g_plan_cancel,
}
use omegahive.Board.Legality.Effects.{
  Effect, e_created, e_dependency_added, e_priority_set, e_worker_registered, e_assigned,
  e_reassigned, e_rejected, e_accepted, e_blocked, e_unblocked, e_result_posted, e_review_passed,
  e_review_failed, e_done, e_reopened, e_cancelled, e_failed, e_escalated, e_pruned, e_plan_cancel,
}

pub record LegalityRule : Type 0 where
  pub event_type : EventType
  pub discriminant : Option (Payload → Bool)
  pub guard : Guard
  pub effect : Effect

abbrev rule : EventType → Guard → Effect → LegalityRule
rule t g e = record { event_type = t; discriminant = none; guard = g; effect = e }

-- `_is`
unfoldable pub is_text : String → String → Payload → Bool
is_text key value p = opt_eq (get_text key p) (some value)

abbrev rule_if : EventType → (Payload → Bool) → Guard → Effect → LegalityRule
rule_if t d g e = record { event_type = t; discriminant = some d; guard = g; effect = e }

unfoldable pub rules : List LegalityRule
rules =
    rule task_created g_created e_created
    ∷ rule dependency_added g_needs_task e_dependency_added
    ∷ rule priority_set g_needs_task e_priority_set
    ∷ rule worker_registered g_worker_registered e_worker_registered
    ∷ rule task_assigned g_assigned e_assigned
    ∷ rule task_reassigned g_reassigned e_reassigned
    ∷ rule task_rejected (from_state (assigned ∷ [])) e_rejected
    ∷ rule task_accepted (from_state (assigned ∷ [])) e_accepted
    ∷ rule task_blocked (from_state (in_progress ∷ [])) e_blocked
    ∷ rule task_unblocked (from_state (blocked ∷ [])) e_unblocked
    ∷ rule task_result_posted g_needs_task e_result_posted
    ∷ rule review_passed g_needs_task e_review_passed
    ∷ rule review_failed g_needs_task e_review_failed
    ∷ rule_if task_status_override (is_text "status" "done") g_done e_done
    ∷ rule_if task_status_override (is_text "status" "reopened") (from_state (in_review ∷ []))
        e_reopened
    ∷ rule_if task_status_override (is_text "status" "cancelled") g_cancelled e_cancelled
    ∷ rule task_failed (from_state (in_progress ∷ blocked ∷ [])) e_failed
    ∷ rule task_escalated g_needs_task e_escalated
    ∷ rule task_pruned g_prune e_pruned
    ∷ rule_if plan_revised (is_text "action" "cancel") g_plan_cancel e_plan_cancel
    ∷ []

abbrev pub fits : Option (Payload → Bool) → Payload → Bool
fits none p = true
fits (some d) p = d p

abbrev pub first_fit : EventType → Payload → List LegalityRule → Option LegalityRule
first_fit t p [] = none
first_fit t p (r ∷ rs) =
    if same_type r.event_type t && fits r.discriminant p then some r else first_fit t p rs

unfoldable pub lookup : EventType → Payload → Option LegalityRule
unfolding rules same_type
lookup t p = first_fit t p rules

-- `event_type in NON_BOARD_WHITELIST`
unfoldable pub non_board_whitelist : EventType → Bool
non_board_whitelist goal_received = true
non_board_whitelist note_posted = true
non_board_whitelist task_progress = true
non_board_whitelist question_asked = true
non_board_whitelist metric_threshold_crossed = true
non_board_whitelist promotion_created = true
non_board_whitelist promotion_suppressed = true
non_board_whitelist gateway_rejected = true
non_board_whitelist task_reported = true
non_board_whitelist execution_route_approved = true
non_board_whitelist execution_started = true
non_board_whitelist execution_finished = true
non_board_whitelist _ = false

-- `event_type in WORKER_OWNED_EMITS`
unfoldable pub worker_owned_emits : EventType → Bool
worker_owned_emits task_accepted = true
worker_owned_emits task_progress = true
worker_owned_emits task_blocked = true
worker_owned_emits task_unblocked = true
worker_owned_emits task_result_posted = true
worker_owned_emits task_failed = true
worker_owned_emits _ = false

abbrev pub is_worker : Role → Bool
is_worker worker = true
is_worker _ = false

-- The owner of a task, `none` for a task that is absent or not owned.
unfoldable pub owner_of : Option TaskState → Option String
owner_of none = none
owner_of (some ts) = ts.owner

unfoldable pub worker_ownership_violation :
    Board → Actor → EventType → Option String → Option Rejection
unfolding owner_of
worker_ownership_violation b a t id =
    if not (is_worker a.role) || not (worker_owned_emits t)
    then none
    else if opt_eq (owner_of (task b id)) (some a.id)
    then none
    else reject not_authorized (not_its_owner a.id t id (owner_of (task b id)))
