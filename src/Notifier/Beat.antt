-- ===== src/Notifier/Beat.antt =====
-- src/omegahive/notifier/service.py: the daily heartbeat, and the loop's tick.
use omegahive.Base.{
  ℕ, ◌-◌, ◌/◌, String, Bool, true, false, ◌&&◌, ◌||◌, not, Option, none, some, List, [], ◌∷◌, ◌++◌,
  ltb, eqb, ◌==◌, if◌then◌else◌, opt_eq, ◌>>=◌, member, sub_ℕ, sort, text_le, Dict, get, put,
}
use omegahive.Board.State.{blocked, TaskState, is_status, ids_where}
use omegahive.Events.Envelope.{task_blocked, same_type, Event}
use omegahive.Notifier.Heartbeat.{RunHeartbeat, or_new, roll, RunDelta}
use omegahive.Notifier.Service.{
  Service, Config, Reader, Outcome, Transport, saved, cursor_of, poll_once,
}
use omegahive.Port.Session.{PortView}

-- The clock in one tick: the hour and the date of now, and now in whole seconds.
pub record Now : Type 0 where
  pub hour : ℕ
  pub date : String
  pub seconds : ℕ

abbrev minus : ℕ → Option ℕ → ℕ
minus head none = 0
minus head (some cursor) = head - cursor

abbrev delta_row : Service → String → ℕ → RunHeartbeat → RunDelta
delta_row s run head hb = record {
  run_id = run;
  head = head;
  delta = sub_ℕ head (elim hb.head [ none ↦ head | some prev ↦ prev ]);
  lag = minus head (cursor_of run s);
  counts = hb.counts;
}

-- `_deltas`
unfoldable pub deltas_over : Service → List String → List RunDelta
deltas_over s [] = []
deltas_over s (run ∷ runs) =
    let rest = deltas_over s runs in
    elim (get run s.heads) [
      | none ↦ rest
      | some none ↦ rest
      | some (some head) ↦ delta_row s run head (or_new (get run s.tallies.runs)) ∷ rest
    ]

abbrev is_open_block : TaskState → Bool
is_open_block ts = is_status ts.status blocked && not ts.pruned

abbrev wall_or : ℕ → Option ℕ → ℕ
wall_or now none = now
wall_or now (some t) = t

-- When each blocked task was last blocked.
unfoldable pub blocked_since : ℕ → List String → List Event → Dict ℕ → Dict ℕ
blocked_since now open_ids [] since = since
blocked_since now open_ids (ev ∷ evs) since = blocked_since now open_ids evs (elim ev.task_id [
  | none ↦ since
  | some t ↦
      if same_type ev.event_type task_blocked && member t open_ids
      then put t (wall_or now ev.wall_ts) since
      else since
])

-- The age in whole hours; 0 for a block in the future.
unfoldable pub age_hours : ℕ → Dict ℕ → String → ℕ
age_hours now since t = (now - wall_or now (get t since)) / 3600

abbrev rows_of : String → ℕ → Dict ℕ → List String → List (String × String × ℕ)
rows_of run now since [] = []
rows_of run now since (t ∷ ts) = (run, t, age_hours now since t) ∷ rows_of run now since ts

abbrev view_rows : String → ℕ → PortView → List (String × String × ℕ)
view_rows run now v = elim v.board [
  | none ↦ []
  | some b ↦
      let open_ids = ids_where is_open_block b.tasks in
      rows_of run now (blocked_since now open_ids v.events []) open_ids
]

-- The order of the rows: the oldest first, then by run and task.
unfoldable pub row_le : String × String × ℕ → String × String × ℕ → Bool
row_le (r, t, h) (r', t', h') =
    ltb h' h || eqb h h' && (not (text_le r' r) || r == r' && text_le t t')

unfoldable pub block_rows : Reader → ℕ → List String → Option (List (String × String × ℕ))
unfolding blocked_since age_hours
block_rows r now [] = some []
block_rows r now (run ∷ runs) = r.read run none none >>= λ v.
    block_rows r now runs >>= λ rest. some (view_rows run now v ++ rest)

-- `_open_blocks`
unfoldable pub open_blocks : Reader → ℕ → List String → Option (List (String × String × ℕ))
unfolding block_rows row_le
open_blocks r now runs = block_rows r now runs >>= λ rows. some (sort row_le rows)

-- What a heartbeat call did: whether it raised, its answer, and what became of the message, when
-- one was sent.
pub record Beaten : Type 0 where
  pub raised : Bool
  pub answer : Bool
  pub outcome : Option Outcome
  pub service : Service

abbrev pub no_beat : Service → Beaten
no_beat s = record { raised = false; answer = false; outcome = none; service = s }

-- The heartbeat is out, or dropped for good.
abbrev pub rolled : Config → Now → Service → Service
rolled c now s = saved (record s { tallies = roll now.date c.heartbeat_hour s.heads s.tallies })

abbrev pub beat_with : Config → Now → Service → Outcome → Beaten
beat_with c now s Outcome.failed = record {
  raised = true;
  answer = false;
  outcome = some Outcome.failed;
  service = s;
}
beat_with c now s o = record {
  raised = false;
  answer = true;
  outcome = some o;
  service = rolled c now s;
}

abbrev pub send_rows :
    Config
    → Now
    → Transport
    → Service
    → List RunDelta
    → Option (List (String × String × ℕ))
    → Beaten
send_rows c now out s ds none = record (no_beat s) { raised = true }
send_rows c now out s ds (some rows) = beat_with c now s (out.heartbeat now.date ds rows)

abbrev pub send_beat : Config → Now → Reader → Transport → Service → List RunDelta → Beaten
send_beat c now r out s [] = no_beat s
send_beat c now r out s (d ∷ ds) =
    send_rows c now out s (d ∷ ds) (open_blocks r now.seconds s.followed)

-- `maybe_heartbeat`
unfoldable pub maybe_heartbeat : Config → Now → Reader → Transport → Service → Beaten
unfolding deltas_over open_blocks roll
maybe_heartbeat c now r out s =
    if ltb now.hour c.heartbeat_hour || opt_eq s.tallies.last_date (some now.date)
    then no_beat s
    else send_beat c now r out s (deltas_over s s.followed)

-- One tick of `run`: the poll, then the heartbeat, each under its own guard.
unfoldable pub tick : Config → Now → Reader → Transport → Service → Beaten
unfolding poll_once maybe_heartbeat
tick c now r out s = maybe_heartbeat c now r out (poll_once c r out s).service

-- What one turn of `run` is given: the clock, the reader and the transport.
pub record Turn : Type 0 where
  pub now : Now
  pub reader : Reader
  pub out : Transport

-- `run`, for as many turns as it is left to run.
unfoldable pub run_turns : Config → List Turn → Service → List Beaten
unfolding tick
run_turns c [] s = []
run_turns c (t ∷ ts) s = let b = tick c t.now t.reader t.out s in b ∷ run_turns c ts b.service
