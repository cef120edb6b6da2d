-- ===== src/Events/Log.antt =====
-- src/omegahive/events/log.py: the append-only table of events and the registry of runs, with the
-- constraints and the trigger of migrations/*.sql.
-- The code that is not the repository's: pydantic's `model_cls(**payload).model_dump()`, where
-- `none` is a ValidationError, and Python's formatting of a refusal's text.
use omegahive.Base.{
  ℕ, suc, ◌+◌, max, String, ◌≡◌, Bool, true, false, ◌&&◌, ◌||◌, not, Option, none, some, List, [],
  ◌∷◌, ◌++◌, map, reverse, leb, eqb, ◌==◌, if◌then◌else◌, is_some, opt_eq, keep, ℤ, Dict, get, put,
  map_option,
}
use omegahive.Board.Legality.{Reason}
use omegahive.Events.Envelope.{Actor, EventType, gateway_rejected, same_type, Uuid, Event}
use omegahive.Events.Json.{Json, end, field, Payload, get_text, get_int}
use omegahive.Events.Types.{FieldSpec, schema, conforms}

pub record Externals : Type 0 where
  pub dump : EventType → Payload → Option Payload
  pub show : Reason → String

-- What the code relies on: a dumped payload has the fields that its model class declares.
pub record Documented (x : Externals) : Type 0 where
  pub dump-conforms :
      (t : EventType) (p q : Payload) (fs : List FieldSpec)
      → schema t ≡ some fs
      → x.dump t p ≡ some q
      → conforms fs q ≡ true

-- A row of `events`: the event, and the column that no query returns.
pub record Row : Type 0 where
  pub event : Event
  pub key : Option String

-- The rows in the order of their `seq`.
pub record Db : Type 0 where
  pub rows : List Row
  pub runs : Dict ℕ
  pub next_seq : ℕ

-- `EventLog`'s run, time binding and clock.
pub record Store : Type 0 where
  pub run_id : String
  pub server_time : Bool
  pub clock : ℕ

-- What the database draws for one statement: `now()` in whole seconds, and `gen_random_uuid()`.
pub record Draw : Type 0 where
  pub now : ℕ
  pub uuid : Uuid

pub data Error : Type 0 where
  unknown_event_type validation_error value_error unique_violation foreign_key_violation key_error
        type_error :
      Error

pub data Result (A : Type 0) : Type 0 where
  ok : A → Result A
  raise : Error → Result A

pub record NewEvent : Type 0 where
  pub actor : Actor
  pub event_type : EventType
  pub payload : Payload
  pub task_id : Option String
  pub causation_id : Option Uuid
  pub recipient : Option Actor
  pub logical_ts : Option ℕ
  pub key : Option String

abbrev pub in_run : String → Row → Bool
in_run run r = r.event.run_id == run

-- `read_run`
unfoldable pub read_run : String → Db → List Event
read_run run db = map (λ r. r.event) (keep (in_run run) db.rows)

-- `COALESCE(max(logical_ts), 0)` over a run.
unfoldable pub last_ts : List Event → ℕ
last_ts [] = 0
last_ts (e ∷ es) = max e.logical_ts (last_ts es)

unfoldable pub find_id : Uuid → List Row → Option Row
find_id u [] = none
find_id u (r ∷ rs) = if eqb r.event.event_id u then some r else find_id u rs

abbrev pub same_key : String → String → String → Row → Bool
same_key run actor k r =
    r.event.run_id == run && (r.event.actor.id == actor && opt_eq r.key (some k))

unfoldable pub first_row : (Row → Bool) → List Row → Option Row
first_row p [] = none
first_row p (r ∷ rs) = if p r then some r else first_row p rs

-- `find_by_key`
unfoldable pub find_by_key : String → String → String → Db → Option Event
find_by_key run actor k db = map_option (λ r. r.event) (first_row (same_key run actor k) db.rows)

-- `set_correlation_id`, the trigger before an insert.
unfoldable pub thread_root : Option Uuid → Uuid → List Row → Uuid
thread_root none own rows = own
thread_root (some c) own rows = elim (find_id c rows) [
  | none ↦ own
  | some r ↦ (elim r.event.correlation_id [ none ↦ own | some root ↦ root ])
]

-- The unique index on (run, actor, key).
abbrev pub key_taken : String → String → Option String → List Row → Bool
key_taken run actor none rows = false
key_taken run actor (some k) rows = is_some (first_row (same_key run actor k) rows)

abbrev pub cause_missing : Option Uuid → List Row → Bool
cause_missing none rows = false
cause_missing (some c) rows = not (is_some (find_id c rows))

-- The insert: the constraints, then the row at the end of the table.
unfoldable pub insert_row : Event → Option String → Db → Result (Event × Db)
insert_row ev k db =
    if is_some (find_id ev.event_id db.rows) || key_taken ev.run_id ev.actor.id k db.rows
    then raise unique_violation
    else if cause_missing ev.causation_id db.rows
    then raise foreign_key_violation
    else ok (
      ev,
      record db {
        rows = db.rows ++ record { event = ev; key = k } ∷ [];
        next_seq = suc db.next_seq;
      },
    )

-- `logical_ts` and `wall_ts`, by the two bindings of time; `none` is the ValueError.
unfoldable pub times : Store → Draw → Option ℕ → Db → Option (ℕ × Option ℕ)
times s d given db =
    if s.server_time
    then (elim given [
      | none ↦ some (max d.now (suc (last_ts (read_run s.run_id db))), some d.now)
      | some ts ↦ none
    ])
    else some (elim given [ none ↦ s.clock | some ts ↦ ts ], none)

-- The event that an append writes.
abbrev pub new_event : Store → Draw → NewEvent → Payload → ℕ × Option ℕ → Db → Event
new_event s d n canonical (ts, wall) db = record {
  event_id = d.uuid;
  run_id = s.run_id;
  logical_ts = ts;
  wall_ts = wall;
  actor = n.actor;
  event_type = n.event_type;
  task_id = n.task_id;
  payload = canonical;
  causation_id = n.causation_id;
  correlation_id = some (thread_root n.causation_id d.uuid db.rows);
  recipient = n.recipient;
  seq = some db.next_seq;
}

-- `EventLog.append`
unfoldable pub append : Externals → Store → Draw → NewEvent → Db → Result (Event × Db)
append x s d n db = elim (schema n.event_type) [
  | none ↦ raise unknown_event_type
  | some fs ↦ elim (x.dump n.event_type n.payload) [
    | none ↦ raise validation_error
    | some canonical ↦ elim (times s d n.logical_ts db) [
      | none ↦ raise value_error
      | some ts ↦ insert_row (new_event s d n canonical ts db) n.key db
    ]
  ]
]

-- `open_run`
unfoldable pub open_run : String → Db → Db
open_run run db = elim (get run db.runs) [
  | none ↦ record db { runs = put run 1 db.runs }
  | some g ↦ db
]

unfoldable pub generation : String → Db → Option ℕ
generation run db = get run db.runs

-- `bump_generation`
unfoldable pub bump_generation : String → Db → Db
bump_generation run db = elim (get run db.runs) [
  | none ↦ db
  | some g ↦ record db { runs = put run (suc g) db.runs }
]

abbrev later_seq : Option ℕ → Option ℕ → Option ℕ
later_seq none s = s
later_seq (some n) none = some n
later_seq (some n) (some m) = some (max n m)

unfoldable pub max_seq : List Event → Option ℕ
max_seq [] = none
max_seq (e ∷ es) = later_seq e.seq (max_seq es)

-- The greatest `seq` of the run.
unfoldable pub head_seq : String → Db → Option ℕ
unfolding max_seq
head_seq run db = max_seq (read_run run db)

-- `seq <= upto`
abbrev pub up_to : ℕ → Event → Bool
up_to n e = elim e.seq [ none ↦ false | some s ↦ leb s n ]

-- `read_prefix`
unfoldable pub read_prefix : String → ℕ → Db → List Event
read_prefix run upto db = keep (up_to upto) (read_run run db)

-- `read_delta`
unfoldable pub read_delta : String → ℕ → ℕ → Db → List Event
read_delta run cursor upto db = keep (λ e. not (up_to cursor e)) (read_prefix run upto db)

-- The key by which refusals coalesce: actor, refused type, refused task, code.
pub record RefusalKey : Type 0 where
  pub actor_id : String
  pub type_text : String
  pub task_id : Option String
  pub code_text : String

unfoldable pub is_refusal : String → RefusalKey → ℕ → ℕ → Row → Bool
is_refusal run k now window r =
    let p = r.event.payload in
    r.event.run_id == run
    && (same_type r.event.event_type gateway_rejected
        && (opt_eq (get_text "original_actor_id" p) (some k.actor_id)
            && (opt_eq (get_text "refused_event_type" p) (some k.type_text)
                && (opt_eq (get_text "refused_task_id" p) k.task_id
                    && (opt_eq (get_text "code" p) (some k.code_text)
                        && leb now (r.event.logical_ts + window))))))

-- `find_recent_rejection`: the last row that fits, with its count. The lower bound on
-- `logical_ts` is `now - window`.
unfoldable pub find_recent_rejection : String → RefusalKey → ℕ → ℕ → Db → Option (Uuid × Option ℤ)
unfolding is_refusal
find_recent_rejection run k now window db =
    map_option (λ r. (r.event.event_id, get_int "coalesced_count" r.event.payload))
      (first_row (is_refusal run k now window) (reverse db.rows))

unfoldable pub set_field : String → Json → Payload → Payload
set_field k v end = field k v end
set_field k v (field j w fs) = if j == k then field j v fs else field j w (set_field k v fs)

abbrev pub with_count : Json → Row → Row
with_count n r = record r {
  event = record r.event { payload = set_field "coalesced_count" n r.event.payload };
}

-- `bump_coalesced_count`
unfoldable pub bump_coalesced_count : Uuid → Json → Db → Db
bump_coalesced_count u n db = record db {
  rows = map (λ r. if eqb r.event.event_id u then with_count n r else r) db.rows;
}
