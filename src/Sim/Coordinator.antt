-- ===== src/Sim/Coordinator.antt =====
-- src/omegahive/sim/reactors/coordinator.py: the greedy coordinator, and the values that reactors
-- return (src/omegahive/sim/engine/protocol.py).
use omegahive.Base.{
  ℕ, ◌+◌, ◌-◌, String, Bool, true, false, ◌&&◌, ◌||◌, not, Option, none, some, List, [], ◌∷◌, ◌++◌,
  leb, if◌then◌else◌, is_some, keep, member, ℤ, pos, sort, text_le, get, keys,
}
use omegahive.Board.State.{
  Status, assigned, in_progress, blocked, in_review, Review, TaskState, Board, is_status, ready_ids,
  awaiting_close,
}
use omegahive.Events.Envelope.{
  Actor, EventType, task_assigned, task_reassigned, task_escalated, task_status_override,
  task_blocked, same_type, Uuid, Event,
}
use omegahive.Events.Json.{text, end, field, Payload}

pub record Emit : Type 0 where
  pub event_type : EventType
  pub payload : Payload
  pub task_id : Option String
  pub causation_id : Option Uuid
  pub recipient : Option Actor

pub record Scheduled : Type 0 where
  pub emit : Emit
  pub delay : ℤ

pub record ReactResult : Type 0 where
  pub immediate : List Emit
  pub scheduled : List Scheduled
  pub wakes : List ℤ

-- `thresholds`: the two keys that the code looks up.
pub record Coordinator : Type 0 where
  pub agent_id : String
  pub workers : List String
  pub stale_assigned : Option ℕ
  pub blocked_for : Option ℕ

-- Why a task is escalated; the numbers are ticks.
pub data Escalation : Type 0 where
  task_failed_reason all_exhausted : Escalation
  stale_for : Status → ℕ → Escalation
  blocked_ticks : ℕ → Escalation

-- `sorted(workers or ["w1"])`
unfoldable pub coordinator_workers : List String → List String
coordinator_workers [] = "w1" ∷ []
coordinator_workers (w ∷ ws) = sort text_le (w ∷ ws)

-- `threshold is not None and now - since >= threshold`
abbrev pub is_past : Option ℕ → ℕ → ℕ → Bool
is_past none since now = false
is_past (some limit) since now = leb (since + limit) now

abbrev pub is_stale_status : Status → Bool
is_stale_status s = is_status s assigned || is_status s in_progress

-- `_escalation_reason`
unfoldable pub escalation_reason : Coordinator → TaskState → ℕ → Option Escalation
escalation_reason c ts now =
    if is_status ts.status Status.failed
    then some task_failed_reason
    else if is_stale_status ts.status && is_past c.stale_assigned ts.last_status_change_ts now
    then some (stale_for ts.status (now - ts.last_status_change_ts))
    else if is_status ts.status blocked && is_past c.blocked_for ts.last_status_change_ts now
    then some (blocked_ticks (now - ts.last_status_change_ts))
    else none

-- Python's formatting of a reason, which is not the repository's.
abbrev pub Format : Type 0
Format = Escalation → String

abbrev pub about : String → TaskState → EventType → Payload → Emit
about tid ts t p = record {
  event_type = t;
  payload = p;
  task_id = some tid;
  causation_id = ts.last_causing_event_id;
  recipient = none;
}

abbrev pub override : String → TaskState → String → String → Emit
override tid ts status why =
    about tid ts task_status_override (field "status" (text status) (field "reason" (text why) end))

abbrev pub escalation : Format → String → TaskState → Escalation → Emit
escalation f tid ts why = about tid ts task_escalated (field "reason" (text (f why)) end)

-- `[f(tid, tasks[tid]) for tid in ids if …]`, where `f` gives no emit for a task that it passes
-- over.
unfoldable pub for_tasks : (String → TaskState → Option Emit) → Board → List String → List Emit
for_tasks f b [] = []
for_tasks f b (t ∷ ts) =
    let rest = for_tasks f b ts in
    elim (get t b.tasks) [
      | none ↦ rest
      | some s ↦ (elim (f t s) [ none ↦ rest | some e ↦ e ∷ rest ])
    ]

abbrev pub is_failed_review : Option Review → Bool
is_failed_review (some Review.failed) = true
is_failed_review _ = false

-- 1. Reopen a task whose latest review failed.
unfoldable pub reopen_failed : String → TaskState → Option Emit
reopen_failed tid ts =
    if is_status ts.status in_review && is_failed_review ts.latest_review
    then some (override tid ts "reopened" "review failed")
    else none

-- `[w for w in workers if w not in ts.tried_by and w in board.roster]`
unfoldable pub untried : Coordinator → Board → TaskState → List String
untried c b ts = keep (λ w. not (member w ts.tried_by) && member w b.roster) c.workers

-- 2. Give a ready task to an untried worker, or escalate it once when there is none.
abbrev pub give_first : Format → String → TaskState → List String → Option Emit
give_first f tid ts (w ∷ ws) = some (about tid ts task_assigned (field "worker" (text w) end))
give_first f tid ts [] = if ts.escalated then none else some (escalation f tid ts all_exhausted)

unfoldable pub give_ready : Format → Coordinator → Board → String → TaskState → Option Emit
unfolding untried
give_ready f c b tid ts = give_first f tid ts (untried c b ts)

-- 3. Escalate, once, a task that failed, is stale, or is blocked for long.
unfoldable pub escalate_late : Format → Coordinator → ℕ → String → TaskState → Option Emit
escalate_late f c now tid ts = if ts.escalated then none else (elim (escalation_reason c ts now) [
  | none ↦ none
  | some why ↦ some (escalation f tid ts why)
])

-- 4. Close a task whose review passed.
unfoldable pub close_passed : String → TaskState → Option Emit
close_passed tid ts = some (override tid ts "done" "review passed")

abbrev is_give : EventType → Bool
is_give t = same_type t task_assigned || same_type t task_reassigned

-- 5. The wakes at the deadlines of new assignments and blocks.
unfoldable pub wakes_for : Coordinator → List Event → List ℤ
wakes_for c [] = []
wakes_for c (ev ∷ evs) =
    let rest = wakes_for c evs in
    if is_give ev.event_type && is_some c.stale_assigned
    then (elim c.stale_assigned [ none ↦ rest | some n ↦ pos n ∷ rest ])
    else if same_type ev.event_type task_blocked
    then (elim c.blocked_for [ none ↦ rest | some n ↦ pos n ∷ rest ])
    else rest

unfoldable pub task_ids : Board → List String
task_ids b = sort text_le (keys b.tasks)

-- `Coordinator.decide`
unfoldable pub decide : Format → Coordinator → Board → List Event → ℕ → ReactResult
decide f c b new_events now = record {
  immediate =
      for_tasks reopen_failed b (task_ids b)
      ++ (for_tasks (give_ready f c b) b (ready_ids b)
          ++ (for_tasks (escalate_late f c now) b (task_ids b)
              ++ for_tasks close_passed b (awaiting_close b)));
  scheduled = [];
  wakes = wakes_for c new_events;
}
