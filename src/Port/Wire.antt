-- ===== src/Port/Wire.antt =====
-- src/omegahive/port/wire.py and keys.py: the ops, how each renders as an emit, and its key.
use omegahive.Base.{ℕ, String, Option, none, some}
use omegahive.Events.Envelope.{
  EventType, task_assigned, task_reassigned, task_escalated, task_status_override, task_pruned,
  Uuid,
}
use omegahive.Events.Json.{text, end, field, Payload, get_field, as_json}

pub data Op : Type 0 where
  assign : (task_id : String) (worker_id : String) → Op
  reassign : (task_id : String) (giver taker : String) (reason : Option String) → Op
  escalate : (task_id : String) (reason : String) → Op
  close : (task_id : String) (reason : Option String) → Op
  reopen : (task_id : String) (reason : Option String) → Op
  prune : (task_id : String) (reason : Option String) → Op
  raw : EventType → Payload → Option String → Op

-- An op with the event that the decision cites.
pub record CitedOp : Type 0 where
  pub op : Op
  pub causation_id : Option Uuid

pub record Emission : Type 0 where
  pub event_type : EventType
  pub payload : Payload
  pub task_id : Option String

-- `to_emit`
unfoldable pub to_emit : Op → Emission
to_emit (assign t w) = record {
  event_type = task_assigned;
  payload = field "worker" (text w) end;
  task_id = some t;
}
to_emit (reassign t giver taker reason) = record {
  event_type = task_reassigned;
  payload =
      field "from" (text giver) (field "to" (text taker) (field "reason" (as_json reason) end));
  task_id = some t;
}
to_emit (escalate t reason) = record {
  event_type = task_escalated;
  payload = field "reason" (text reason) end;
  task_id = some t;
}
to_emit (close t reason) = record {
  event_type = task_status_override;
  payload = field "status" (text "done") (field "reason" (as_json reason) end);
  task_id = some t;
}
to_emit (reopen t reason) = record {
  event_type = task_status_override;
  payload = field "status" (text "reopened") (field "reason" (as_json reason) end);
  task_id = some t;
}
to_emit (prune t reason) = record {
  event_type = task_pruned;
  payload = field "reason" (as_json reason) end;
  task_id = some t;
}
to_emit (raw t p id) = record { event_type = t; payload = p; task_id = id }

-- The material of a key: the six parts that `derive_key` joins, and the digest that is not the
-- repository's. The payload is keyed with the task id, where the payload's own entry wins.
pub record KeyParts : Type 0 where
  pub run_id : String
  pub actor_id : String
  pub op_type : String
  pub payload : Payload
  pub basis_seq : ℕ
  pub occ : ℕ

-- `{"task_id": task_id, **payload}`
unfoldable pub key_payload : Emission → Payload
key_payload e = elim (get_field "task_id" e.payload) [
  | some own ↦ e.payload
  | none ↦ field "task_id" (as_json e.task_id) e.payload
]
