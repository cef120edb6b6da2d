-- ===== src/Gateway/Emit.antt =====
-- src/omegahive/gateway/gateway.py: the gate, the write path and its recovery.
-- `_gate`: authority, then worker-ownership, then the legality of the transition.
use omegahive.Base.{
  ℕ, zero, suc, String, not, Option, none, some, List, if◌then◌else◌, keep, ℤ, pos, negsuc,
}
use omegahive.Board.Legality.{
  Code, not_authorized, illegal_transition, Reason, may_not_emit, no_rule, Rejection, reject,
  first_rejection, lookup, non_board_whitelist, worker_ownership_violation,
}
use omegahive.Board.Reducer.{fold}
use omegahive.Board.State.{Board}
use omegahive.Events.Envelope.{Role, gateway, Actor, EventType, gateway_rejected, Uuid, Event}
use omegahive.Events.Json.{Json, int, text, obj, end, field, Payload, as_json}
use omegahive.Events.Log.{
  Externals, Db, Store, Draw, unique_violation, key_error, type_error, Result, ok, raise, NewEvent,
  read_run, find_by_key, append, open_run, RefusalKey, find_recent_rejection, bump_coalesced_count,
}
use omegahive.Gateway.Names.{type_text, code_text, role_text}
use omegahive.Gateway.Policy.{may_emit, visible}

unfoldable pub gate : Board → Actor → EventType → Payload → Option String → Option Rejection
gate b a t p id =
    if not (may_emit a.role t)
    then reject not_authorized (may_not_emit a.role t)
    else first_rejection (worker_ownership_violation b a t id) (elim (lookup t p) [
      | some r ↦ r.guard b a p id
      | none ↦ if non_board_whitelist t then none else reject illegal_transition (no_rule t p)
    ])

pub record Gateway : Type 0 where
  pub store : Store
  pub coalesce_window : ℕ

pub record Request : Type 0 where
  pub actor : Actor
  pub event_type : EventType
  pub payload : Payload
  pub task_id : Option String
  pub causation_id : Option Uuid
  pub recipient : Option Actor
  pub logical_ts : Option ℕ
  pub key : Option String

pub data EmitResult : Type 0 where
  accepted : Event → EmitResult
  rejected : Code → Reason → Uuid → EmitResult

-- The payload of a `gateway.rejected` event.
unfoldable pub refusal_payload : Externals → Request → Rejection → Payload
refusal_payload x q rej = field "refused_event_type" (text (type_text q.event_type)) (
    field "refused_task_id" (as_json q.task_id) (
      field "refused_payload" (obj q.payload) (
        field "code" (text (code_text rej.code)) (
          field "reason" (text (x.show rej.reason)) (
            field "original_actor_role" (text (role_text q.actor.role))
              (field "original_actor_id" (text q.actor.id) end))))))

abbrev pub gateway_actor : Actor
gateway_actor = record { role = gateway; id = "gateway" }

-- `_now_ts`
unfoldable pub now_ts : Store → Draw → Option ℕ → ℕ
now_ts s d (some ts) = ts
now_ts s d none = if s.server_time then d.now else s.clock

-- `count + 1`
unfoldable pub next_count : ℤ → Json
next_count (pos n) = int (pos (suc n))
next_count (negsuc zero) = int (pos 0)
next_count (negsuc (suc n)) = int (negsuc n)

unfoldable pub refusal_key : Request → Rejection → RefusalKey
refusal_key q rej = record {
  actor_id = q.actor.id;
  type_text = type_text q.event_type;
  task_id = q.task_id;
  code_text = code_text rej.code;
}

unfoldable pub refusal_event : Externals → Gateway → Draw → Request → Rejection → NewEvent
refusal_event x g d q rej = record {
  actor = gateway_actor;
  event_type = gateway_rejected;
  payload = refusal_payload x q rej;
  task_id = q.task_id;
  causation_id = none;
  recipient = none;
  logical_ts = if g.store.server_time then none else some (now_ts g.store d q.logical_ts);
  key = none;
}

abbrev pub noted : Result (Event × Db) → Result (Uuid × Db)
noted (raise e) = raise e
noted (ok (ev, db)) = ok (ev.event_id, db)

-- One is added to the count of the refusal found; without a count, that is Python's TypeError.
abbrev pub coalesce : Uuid → Option ℤ → Db → Result (Uuid × Db)
coalesce u none db = raise type_error
coalesce u (some n) db = ok (u, bump_coalesced_count u (next_count n) db)

-- `_record_rejection`: coalesce onto a recent refusal, or append one.
unfoldable pub record_rejection :
    Externals → Gateway → Draw → Request → Rejection → Db → Result (Uuid × Db)
record_rejection x g d q rej db =
    elim (find_recent_rejection g.store.run_id (refusal_key q rej) (now_ts g.store d q.logical_ts)
      g.coalesce_window db) [
        | some (u, count) ↦ coalesce u count db
        | none ↦ noted (append x g.store d (refusal_event x g d q rej) db)
      ]

unfoldable pub op_event : Request → NewEvent
op_event q = record {
  actor = q.actor;
  event_type = q.event_type;
  payload = q.payload;
  task_id = q.task_id;
  causation_id = q.causation_id;
  recipient = q.recipient;
  logical_ts = q.logical_ts;
  key = q.key;
}

abbrev pub refuse : Rejection → Result (Uuid × Db) → Result (EmitResult × Db)
refuse rej (raise e) = raise e
refuse rej (ok (u, db)) = ok (rejected rej.code rej.reason u, db)

abbrev pub accept : Result (Event × Db) → Result (EmitResult × Db)
accept (raise e) = raise e
accept (ok (ev, db)) = ok (accepted ev, db)

-- What happens under the advisory lock: fold, gate, and append or record the refusal.
unfoldable pub locked : Externals → Gateway → Draw → Request → Db → Result (EmitResult × Db)
locked x g d q db = elim (fold (read_run g.store.run_id db)) [
  | none ↦ raise key_error
  | some b ↦ elim (gate b q.actor q.event_type q.payload q.task_id) [
    | some rej ↦ refuse rej (record_rejection x g d q rej db)
    | none ↦ accept (append x g.store d (op_event q) db)
  ]
]

abbrev pub find_request : Gateway → Request → Db → Option Event
find_request g q db = elim q.key [
  | none ↦ none
  | some k ↦ find_by_key g.store.run_id q.actor.id k db
]

-- The end of the transaction: its writes are committed, or rolled back to the state before; after
-- a unique violation the key is looked up again.
abbrev pub finish : Gateway → Request → Db → Result (EmitResult × Db) → Result EmitResult × Db
finish g q before (ok (r, db)) = (ok r, db)
finish g q before (raise unique_violation) = elim (find_request g q before) [
  | some ev ↦ (ok (accepted ev), before)
  | none ↦ (raise unique_violation, before)
]
finish g q before (raise e) = (raise e, before)

-- `Gateway.emit`. The key is looked up in `early`, the committed state when the transaction
-- begins; `late` is the one when the lock is granted, after which no one else writes to the run.
unfoldable pub emit :
    Externals → Gateway → Draw → Request → (early late : Db) → Result EmitResult × Db
emit x g d q early late = elim (find_request g q early) [
  | some ev ↦ (ok (accepted ev), open_run g.store.run_id early)
  | none ↦ finish g q late (locked x g d q (open_run g.store.run_id late))
]

-- `Gateway.check`
unfoldable pub check :
    Gateway → Db → Actor → EventType → Payload → Option String → Option (Option Rejection)
check g db a t p id = elim (fold (read_run g.store.run_id db)) [
  | none ↦ none
  | some b ↦ some (gate b a t p id)
]

-- `Gateway.project`
unfoldable pub project : Role → String → List Event → Board → List Event
project role id evs b = keep (λ e. visible role id e b) evs
