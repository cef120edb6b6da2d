-- ===== src/Sim/Engine.antt =====
-- src/omegahive/sim/engine/engine.py: the state of the discrete-event engine, and a reactor's turn.
use omegahive.Base.{
  ℕ, suc, ◌+◌, ◌-◌, String, Bool, true, false, ◌&&◌, ◌||◌, not, Option, none, some, List, [], ◌∷◌,
  ltb, leb, eqb, if◌then◌else◌, keep, ℤ, pos, negsuc, insert, Dict, get, put,
}
use omegahive.Board.Reducer.{fold}
use omegahive.Board.State.{Board}
use omegahive.Events.Envelope.{Role, Actor, Event}
use omegahive.Events.Log.{Externals, Db, Draw, Error, Result, ok, raise, read_run, max_seq}
use omegahive.Gateway.Emit.{Gateway, Request, EmitResult, emit, project}
use omegahive.Sim.Coordinator.{Emit, Scheduled, ReactResult}

-- A reactor of the engine's list, with what it remembers. One that writes to the log itself
-- (`self_emits`) is left out.
pub record Member (M : Type 0) : Type 0 where
  pub role : Role
  pub agent_id : String
  pub memory : M

-- What the engine is built from: the gateway, what the database draws for the nth emit, the
-- reactors' `react`, where `none` is an exception, and the two limits.
pub record Setup (M : Type 0) : Type 0 where
  pub externals : Externals
  pub gateway : Gateway
  pub draws : ℕ → Draw
  pub react : M → List Event → Board → ℕ → Option (ReactResult × M)
  pub max_logical_ts : ℕ
  pub max_settle_iters : ℕ

-- `_HeapItem`; a wake carries nothing. A negative delay gives an item a time before the clock, and
-- perhaps below zero: the item's time is `logical_ts` less `overdue`.
pub record HeapItem : Type 0 where
  pub logical_ts : ℕ
  pub overdue : ℕ
  pub schedule_seq : ℕ
  pub carried : Option (Actor × Emit)

-- The state that a run changes. The heap is the list of its items in the order of the pops;
-- `last_now` has no entry where the code starts with -1.
pub record State : Type 0 where
  pub db : Db
  pub drawn : ℕ
  pub clock : ℕ
  pub future : List HeapItem
  pub schedule_seq : ℕ
  pub cursors : Dict ℕ
  pub last_now : Dict ℕ

-- What ends a run by an exception.
pub data Stop : Type 0 where
  emit_raised : Error → Stop
  fold_raised react_raised clock_backward not_converged : Stop

pub data Step (A : Type 0) : Type 0 where
  went : A → Step A
  stopped : Stop → Step A

abbrev pub and_then : {A B : Type 0} → Step A → (A → Step B) → Step B
and_then (went a) f = f a
and_then (stopped e) f = stopped e

-- The order of `_HeapItem`.
unfoldable pub item_le : HeapItem → HeapItem → Bool
item_le a b =
    ltb (a.logical_ts + b.overdue) (b.logical_ts + a.overdue)
    || eqb (a.logical_ts + b.overdue) (b.logical_ts + a.overdue)
      && leb a.schedule_seq b.schedule_seq

-- The item that is due at `now + delay`.
abbrev pub item_in : ℕ → ℤ → ℕ → Option (Actor × Emit) → HeapItem
item_in now (pos d) k carried = record {
  logical_ts = now + d;
  overdue = 0;
  schedule_seq = k;
  carried = carried;
}
item_in now (negsuc d) k carried = record {
  logical_ts = now;
  overdue = suc d;
  schedule_seq = k;
  carried = carried;
}

-- An item's time. It is asked for when the clock has come to it, so it is not below zero.
abbrev pub time_of : HeapItem → ℕ
time_of i = i.logical_ts - i.overdue

-- `_push` and `_push_wake`, at `now + delay`
unfoldable pub push : ℕ → ℤ → Option (Actor × Emit) → State → State
unfolding item_le
push now delay carried s = record s {
  future = insert item_le (item_in now delay s.schedule_seq carried) s.future;
  schedule_seq = suc s.schedule_seq;
}

abbrev pub actor_of : {M : Type 0} → Member M → Actor
actor_of m = record { role = m.role; id = m.agent_id }

abbrev pub to_request : Actor → Emit → ℕ → Request
to_request a e now = record {
  actor = a;
  event_type = e.event_type;
  payload = e.payload;
  task_id = e.task_id;
  causation_id = e.causation_id;
  recipient = e.recipient;
  logical_ts = some now;
  key = none;
}

abbrev pub emitted : State → Result EmitResult × Db → Step State
emitted s (ok r, db) = went (record s { db = db; drawn = suc s.drawn })
emitted s (raise e, db) = stopped (emit_raised e)

-- `_emit`; a refusal is no exception.
unfoldable pub emit_one : {M : Type 0} → Setup M → Actor → ℕ → Emit → State → Step State
unfolding emit
emit_one c a now e s =
    emitted s (emit c.externals c.gateway (c.draws s.drawn) (to_request a e now) s.db s.db)

unfoldable pub emit_all : {M : Type 0} → Setup M → Actor → ℕ → List Emit → State → Step State
unfolding emit_one
emit_all c a now [] s = went s
emit_all c a now (e ∷ es) s = and_then (emit_one c a now e s) (λ s'. emit_all c a now es s')

unfoldable pub push_all : Actor → ℕ → List Scheduled → State → State
unfolding push
push_all a now [] s = s
push_all a now (sch ∷ schs) s = push_all a now schs (push now sch.delay (some (a, sch.emit)) s)

unfoldable pub push_wakes : ℕ → List ℤ → State → State
unfolding push
push_wakes now [] s = s
push_wakes now (d ∷ ds) s = push_wakes now ds (push now d none s)

-- `e.seq is not None and e.seq > cursor`
abbrev pub is_after : ℕ → Event → Bool
is_after cursor e = elim e.seq [ none ↦ false | some k ↦ ltb cursor k ]

abbrev pub or_0 : Option ℕ → ℕ
or_0 none = 0
or_0 (some n) = n

-- The events that a reactor has not seen and may see.
unfoldable pub unseen : {M : Type 0} → Setup M → Member M → Board → State → List Event
unfolding project
unseen c m b s =
    project m.role m.agent_id
      (keep (is_after (or_0 (get m.agent_id s.cursors))) (read_run c.gateway.store.run_id s.db)) b

-- `self._last_now[reactor.agent_id] >= now`
unfoldable pub ran_at : ℕ → Option ℕ → Bool
ran_at now none = false
ran_at now (some last) = leb now last

abbrev pub is_nil : {A : Type 0} → List A → Bool
is_nil [] = true
is_nil (x ∷ xs) = false

-- The cursor after a turn.
abbrev pub cursor_to : String → Option ℕ → State → State
cursor_to id none s = s
cursor_to id (some k) s = record s { cursors = put id k s.cursors }

abbrev pub move_cursor : String → List Event → State → State
move_cursor id new s = cursor_to id (max_seq new) s

abbrev pub has_output : ReactResult → Bool
has_output res = not (is_nil res.immediate && is_nil res.scheduled && is_nil res.wakes)

abbrev pub mark : String → ℕ → State → State
mark id now s = record s { last_now = put id now s.last_now }

-- What the engine does with the result of a `react`.
unfoldable pub route :
    {M : Type 0} → Setup M → Member M → ℕ → List Event → ReactResult → State → Step State
unfolding emit_all push_all push_wakes
route c m now new res s = and_then (emit_all c (actor_of m) now res.immediate s) (λ s'. went (
    move_cursor m.agent_id new
      (push_wakes now res.wakes (push_all (actor_of m) now res.scheduled s'))))

-- A reactor after its turn, the state, and whether the turn had output.
abbrev pub Turned : Type 0 → Type 0
Turned M = Member M × State × Bool

abbrev pub finish_turn :
    {M : Type 0}
    → Setup M
    → Member M
    → ℕ
    → List Event
    → State
    → Option (ReactResult × M)
    → Step (Turned M)
finish_turn c m now new s none = stopped react_raised
finish_turn c m now new s (some (res, memory)) =
    and_then (route c m now new res (mark m.agent_id now s))
      (λ s'. went (record m { memory = memory }, s', has_output res))

abbrev pub is_idle : {M : Type 0} → Setup M → Member M → ℕ → Board → State → Bool
is_idle c m now b s = is_nil (unseen c m b s) && ran_at now (get m.agent_id s.last_now)

abbrev pub turn_on : {M : Type 0} → Setup M → Member M → ℕ → State → Option Board → Step (Turned M)
turn_on c m now s none = stopped fold_raised
turn_on c m now s (some b) =
    if is_idle c m now b s
    then went (m, s, false)
    else finish_turn c m now (unseen c m b s) s (c.react m.memory (unseen c m b s) b now)

-- One turn of one reactor, in a pass of `_settle`.
unfoldable pub turn : {M : Type 0} → Setup M → Member M → ℕ → State → Step (Turned M)
unfolding unseen ran_at route
turn c m now s = turn_on c m now s (fold (read_run c.gateway.store.run_id s.db))
