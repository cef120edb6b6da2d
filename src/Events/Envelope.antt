-- ===== src/Events/Envelope.antt =====
-- src/omegahive/events/envelope.py: the one shape every row of the log takes.
use omegahive.Base.{ℕ, String, Bool, true, ◌&&◌, Option, ◌==◌, eqb}
use omegahive.Events.Json.{Payload}

pub data Role : Type 0 where
  planner coordinator worker instrument gateway human machinist : Role

pub record Actor : Type 0 where
  pub role : Role
  pub id : String

-- The event types that the source names, and any other text.
pub data EventType : Type 0 where
  goal_received task_created dependency_added worker_registered priority_set plan_revised
        task_assigned task_reassigned task_escalated task_status_override task_pruned note_posted
        task_accepted task_rejected task_progress task_blocked task_unblocked task_result_posted
        task_failed question_asked task_reported execution_route_approved execution_started
        execution_finished review_passed review_failed metric_threshold_crossed promotion_created
        promotion_suppressed gateway_rejected :
      EventType
  other : String → EventType

unfoldable pub tag : EventType → ℕ
tag goal_received = 1
tag task_created = 2
tag dependency_added = 3
tag worker_registered = 4
tag priority_set = 5
tag plan_revised = 6
tag task_assigned = 7
tag task_reassigned = 8
tag task_escalated = 9
tag task_status_override = 10
tag task_pruned = 11
tag note_posted = 12
tag task_accepted = 13
tag task_rejected = 14
tag task_progress = 15
tag task_blocked = 16
tag task_unblocked = 17
tag task_result_posted = 18
tag task_failed = 19
tag question_asked = 20
tag task_reported = 21
tag execution_route_approved = 22
tag execution_started = 23
tag execution_finished = 24
tag review_passed = 25
tag review_failed = 26
tag metric_threshold_crossed = 27
tag promotion_created = 28
tag promotion_suppressed = 29
tag gateway_rejected = 30
tag (other s) = 0

abbrev same_other : EventType → EventType → Bool
same_other (other s) (other t) = s == t
same_other _ _ = true

-- Equality of event types.
unfoldable pub same_type : EventType → EventType → Bool
unfolding tag
same_type a b = eqb (tag a) (tag b) && same_other a b

-- A UUID is only compared.
abbrev pub Uuid : Type 0
Uuid = ℕ

pub record Event : Type 0 where
  pub event_id : Uuid
  pub run_id : String
  pub logical_ts : ℕ
  pub wall_ts : Option ℕ
  pub actor : Actor
  pub event_type : EventType
  pub task_id : Option String
  pub payload : Payload
  pub causation_id : Option Uuid
  pub correlation_id : Option Uuid
  pub recipient : Option Actor
  pub seq : Option ℕ
