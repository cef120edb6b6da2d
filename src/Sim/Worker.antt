-- ===== src/Sim/Worker.antt =====
-- src/omegahive/sim/reactors/worker.py: the scripted worker.
use omegahive.Base.{
  ℕ, suc, ◌-◌, String, Bool, true, false, ◌&&◌, Option, none, some, List, [], ◌∷◌, ◌++◌,
  if◌then◌else◌, opt_eq, ◌>>=◌, count_if, ℤ, pos, add_int, int_is_zero, get, concat,
}
use omegahive.Board.State.{Board}
use omegahive.Events.Envelope.{
  EventType, task_assigned, task_reassigned, task_accepted, task_rejected, task_progress,
  task_blocked, task_unblocked, task_result_posted, task_failed, same_type, Event,
}
use omegahive.Events.Json.{null, int, text, arr, obj, nil, cons, end, field, Payload, get_text}
use omegahive.Sim.Coordinator.{Emit, Scheduled, ReactResult}

-- `BlockSpec`; no `until` is "never". The worker waits for `max(0, tick - now)`, so a tick below
-- zero is one of zero.
pub record BlockSpec : Type 0 where
  pub at_tick : ℕ
  pub until : Option ℕ

-- `p_success` with its draws: whether the seeded draw for a task and an attempt lies below the
-- chance of success for the task's type; `by_type` says that `success_by_type` is given.
pub record Chances : Type 0 where
  pub by_type : Bool
  pub succeeds : Option String → ℕ → Option String → Bool

pub record Worker : Type 0 where
  pub agent_id : String
  pub accept_delay : ℤ
  pub progress_delay : ℤ
  pub result_delay : ℤ
  pub quality : String
  pub cost : ℤ
  pub silent : Bool
  pub rejects : Bool
  pub fails_at : Option ℕ
  pub blocks : Option BlockSpec
  pub chances : Option Chances
  pub quality_on_fail : String

-- `_targets_me`
unfoldable pub targets_me : Worker → Event → Bool
unfolding same_type get_text
targets_me w ev =
    if same_type ev.event_type task_assigned
    then opt_eq (get_text "worker" ev.payload) (some w.agent_id)
    else same_type ev.event_type task_reassigned
      && opt_eq (get_text "to" ev.payload) (some w.agent_id)

-- `_attempts`: the tasks given so far, one entry for each time.
abbrev pub Attempts : Type 0
Attempts = List (Option String)

-- `self._attempts.get(tid, 0) + 1`
unfoldable pub next_attempt : Option String → Attempts → ℕ
next_attempt tid before = suc (count_if (opt_eq tid) before)

abbrev drawn_quality : Worker → Bool → String
drawn_quality w true = "ok"
drawn_quality w false = w.quality_on_fail

-- The task's type on the board; the outer `none` is the KeyError.
abbrev type_on : Board → Option String → Option (Option String)
type_on b none = some none
type_on b (some t) = elim (get t b.tasks) [ none ↦ none | some ts ↦ some ts.task_type ]

-- The quality of a result; `none` is an exception.
unfoldable pub draw_quality : Worker → Board → Option String → ℕ → Option String
draw_quality w b tid n = elim w.chances [
  | none ↦ some w.quality
  | some ch ↦
      if ch.by_type
      then (type_on b tid >>= λ ty. some (drawn_quality w (ch.succeeds tid n ty)))
      else some (drawn_quality w (ch.succeeds tid n none))
]

abbrev answer_to : Event → EventType → Payload → Emit
answer_to ev t p = record {
  event_type = t;
  payload = p;
  task_id = ev.task_id;
  causation_id = some ev.event_id;
  recipient = none;
}

abbrev in_ticks : ℤ → Emit → Scheduled
in_ticks d e = record { emit = e; delay = d }

abbrev artifact_of : Option String → String
artifact_of none = "None-artifact"
artifact_of (some t) = concat t "-artifact"

-- `_result`
unfoldable pub result_in : Worker → Event → String → ℤ → Scheduled
unfolding concat
result_in w ev quality d = in_ticks d (
    answer_to ev task_result_posted (
      field "artifact_refs"
        (arr (
          cons
            (obj (field "ref" (text (artifact_of ev.task_id)) (field "quality" (text quality) end)))
            nil))
        (field "cost" (int w.cost) end)))

-- The acceptance: at once, or scheduled.
abbrev accept_now : Worker → Event → List Emit
accept_now w ev = if int_is_zero w.accept_delay then answer_to ev task_accepted end ∷ [] else []

abbrev pub accept_later : Worker → Event → List Scheduled
accept_later w ev =
    if int_is_zero w.accept_delay
    then []
    else in_ticks w.accept_delay (answer_to ev task_accepted end) ∷ []

abbrev pub progress_in : Worker → Event → Scheduled
progress_in w ev = in_ticks w.progress_delay (
    answer_to ev task_progress
      (field "note" (text "working") (field "pct" (int (pos 50)) (field "cost" null end))))

-- What follows a block.
abbrev after_block : Worker → Event → String → ℕ → Option ℕ → List Scheduled
after_block w ev quality now none = []
after_block w ev quality now (some until) =
    in_ticks (pos (until - now)) (answer_to ev task_unblocked end)
    ∷ result_in w ev quality (add_int (pos (until - now)) w.result_delay)
    ∷ []

-- The work on an accepted task, after the progress report.
abbrev work_in : Worker → Event → String → ℕ → Option BlockSpec → List Scheduled
work_in w ev quality now none = result_in w ev quality w.result_delay ∷ []
work_in w ev quality now (some bl) =
    in_ticks (pos (bl.at_tick - now))
      (answer_to ev task_blocked (field "reason" (text "waiting") (field "needs" null end)))
    ∷ after_block w ev quality now bl.until

abbrev scheduled_after : Worker → Event → String → ℕ → Option ℕ → List Scheduled
scheduled_after w ev quality now (some t) =
    in_ticks (pos (t - now)) (answer_to ev task_failed (field "reason" (text "worker error") end))
    ∷ []
scheduled_after w ev quality now none = progress_in w ev ∷ work_in w ev quality now w.blocks

abbrev declined : Event → Emit
declined ev = answer_to ev task_rejected (field "reason" (text "declined") end)

-- What one assignment adds to the result of `react`.
unfoldable pub on_assignment : Worker → Event → String → ℕ → ReactResult
unfolding result_in
on_assignment w ev quality now =
    if w.silent
    then record { immediate = []; scheduled = []; wakes = [] }
    else if w.rejects
    then record { immediate = declined ev ∷ []; scheduled = []; wakes = [] }
    else record {
      immediate = accept_now w ev;
      scheduled = accept_later w ev ++ scheduled_after w ev quality now w.fails_at;
      wakes = [];
    }

abbrev pub no_result : ReactResult
no_result = record { immediate = []; scheduled = []; wakes = [] }

-- The results of two events, one after the other.
abbrev pub join_results : ReactResult → ReactResult → ReactResult
join_results r q = record {
  immediate = r.immediate ++ q.immediate;
  scheduled = r.scheduled ++ q.scheduled;
  wakes = r.wakes ++ q.wakes;
}

-- `WorkerStub.react`
unfoldable pub worker_react :
    Worker → Attempts → List Event → Board → ℕ → Option (ReactResult × Attempts)
unfolding targets_me next_attempt draw_quality on_assignment
worker_react w before [] b now = some (no_result, before)
worker_react w before (ev ∷ evs) b now =
    let skipped = worker_react w before evs b now in
    let given = worker_react w (before ++ (ev.task_id ∷ [])) evs b now in
    elim (targets_me w ev) [
      | false ↦ skipped
      | true ↦ draw_quality w b ev.task_id (next_attempt ev.task_id before) >>= λ quality.
          given >>= λ (res, after). some (join_results (on_assignment w ev quality now) res, after)
    ]
