-- ===== src/Board/Legality/Guards.antt =====
-- The guards of src/omegahive/board/legality.py: predicates over the derived board.
use omegahive.Base.{
  ℕ, suc, String, Bool, true, false, ◌&&◌, ◌||◌, not, Option, none, some, List, [], ◌∷◌, ltb, leb,
  if◌then◌else◌, is_some, length, keep, member, get, values,
}
use omegahive.Board.State.{
  Status, created, ready, assigned, in_progress, blocked, in_review, done, cancelled, reopened,
  Review, TaskState, Board, is_status, is_passed, resolve_k,
}
use omegahive.Events.Envelope.{Role, human, Actor, EventType}
use omegahive.Events.Json.{Payload, get_text, is_blank}

-- The refusal codes.
pub data Code : Type 0 where
  not_ready already_owned unknown_task unknown_worker not_authorized illegal_transition : Code

-- The reasons: one constructor for each text of the source, with the values that it shows.
pub data Reason : Type 0 where
  needs_task_id : Reason
  no_such_task : Option String → Reason
  not_registered : Option String → Reason
  owned_by : Option String → Option String → Reason
  requires_ready : Option String → Status → Reason
  already_registered : Option String → Reason
  wrong_status : Option String → List Status → Status → Reason
  close_cancelled : Option String → Reason
  needs_passed_review : Option String → Option Review → Reason
  abandon_not_human abandon_without_reason : Reason
  abandon_pruned : Option String → Reason
  abandon_from : Option String → Status → Reason
  prune_terminal : Option String → Status → Reason
  already_pruned : Option String → Reason
  prune_breaks_join : Option String → String → ℕ → ℕ → Reason
  may_not_emit : Role → EventType → Reason
  not_its_owner : String → EventType → Option String → Option String → Reason
  no_rule : EventType → Payload → Reason

pub record Rejection : Type 0 where
  pub code : Code
  pub reason : Reason

abbrev pub reject : Code → Reason → Option Rejection
reject c r = some (record { code = c; reason = r })

abbrev pub Guard : Type 0
Guard = Board → Actor → Payload → Option String → Option Rejection

-- `_task`
unfoldable pub task : Board → Option String → Option TaskState
task b none = none
task b (some t) = get t b.tasks

unfoldable pub g_created : Guard
g_created b a p none = reject illegal_transition needs_task_id
g_created b a p (some t) = none

unfoldable pub g_needs_task : Guard
g_needs_task b a p t = elim (task b t) [
  | none ↦ reject unknown_task (no_such_task t)
  | some ts ↦ none
]

-- `worker in board.roster`
unfoldable pub on_roster : Board → Option String → Bool
on_roster b none = false
on_roster b (some w) = member w b.roster

unfoldable pub g_known_worker : Board → Option String → Option Rejection
unfolding on_roster
g_known_worker b w = if on_roster b w then none else reject unknown_worker (not_registered w)

abbrev pub first_rejection : Option Rejection → Option Rejection → Option Rejection
first_rejection (some r) _ = some r
first_rejection none s = s

unfoldable pub g_assigned : Guard
unfolding g_known_worker
g_assigned b a p t = elim (task b t) [
  | none ↦ reject unknown_task (no_such_task t)
  | some ts ↦ first_rejection (g_known_worker b (get_text "worker" p)) (
      if is_some ts.owner
      then reject already_owned (owned_by t ts.owner)
      else if is_status ts.status ready
      then none
      else reject not_ready (requires_ready t ts.status))
]

-- `status in allowed`
abbrev pub one_of : List Status → Status → Bool
one_of [] s = false
one_of (x ∷ xs) s = is_status s x || one_of xs s

abbrev pub reassignable : List Status
reassignable = assigned ∷ blocked ∷ in_progress ∷ []

unfoldable pub g_reassigned : Guard
unfolding g_known_worker
g_reassigned b a p t = elim (task b t) [
  | none ↦ reject unknown_task (no_such_task t)
  | some ts ↦ first_rejection (g_known_worker b (get_text "to" p)) (
      if one_of reassignable ts.status
      then none
      else reject illegal_transition (wrong_status t reassignable ts.status))
]

unfoldable pub g_worker_registered : Guard
unfolding on_roster
g_worker_registered b a p t =
    let wid = get_text "worker_id" p in
    if on_roster b wid then reject illegal_transition (already_registered wid) else none

-- `_from_state`
unfoldable pub from_state : List Status → Guard
from_state allowed b a p t = elim (task b t) [
  | none ↦ reject unknown_task (no_such_task t)
  | some ts ↦
      if one_of allowed ts.status
      then none
      else reject illegal_transition (wrong_status t allowed ts.status)
]

unfoldable pub g_done : Guard
g_done b a p t = elim (task b t) [
  | none ↦ reject illegal_transition (needs_passed_review t none)
  | some ts ↦
      if is_status ts.status cancelled
      then reject illegal_transition (close_cancelled t)
      else if is_passed ts.latest_review
      then none
      else reject illegal_transition (needs_passed_review t ts.latest_review)
]

abbrev pub is_human : Role → Bool
is_human human = true
is_human _ = false

abbrev pub abandonable : List Status
abandonable = created ∷ ready ∷ assigned ∷ in_progress ∷ blocked ∷ in_review ∷ reopened ∷ []

-- `isinstance(reason, str) and reason.strip()`
unfoldable pub has_reason : Payload → Bool
has_reason p = elim (get_text "reason" p) [ none ↦ false | some s ↦ not (is_blank s) ]

unfoldable pub g_cancelled : Guard
unfolding has_reason
g_cancelled b a p t = elim (task b t) [
  | none ↦ reject unknown_task (no_such_task t)
  | some ts ↦
      if not (is_human a.role)
      then reject not_authorized abandon_not_human
      else if not (has_reason p)
      then reject illegal_transition abandon_without_reason
      else if ts.pruned
      then reject illegal_transition (abandon_pruned t)
      else if one_of abandonable ts.status
      then none
      else reject illegal_transition (abandon_from t ts.status)
]

-- `d in board.tasks and not board.tasks[d].pruned`
unfoldable pub is_live : Board → String → Bool
is_live b d = elim (get d b.tasks) [ none ↦ false | some ts ↦ not ts.pruned ]

-- `[d for d in dependent.depends_on if d in board.tasks and not board.tasks[d].pruned]`
unfoldable pub live_deps : Board → TaskState → List String
live_deps b ts = keep (is_live b) ts.depends_on

-- `before >= k and before - 1 < k`, for a dependent that is not pruned.
unfoldable pub breaks_join : Board → String → TaskState → Bool
breaks_join b t dependent =
    let k = resolve_k dependent in
    let before = length (live_deps b dependent) in
    not (not (member t dependent.depends_on) || dependent.pruned)
    && (leb k before && ltb before (suc k))

-- The loop of `_g_prune` over `board.tasks.values()`.
unfoldable pub first_broken_join : Board → String → List TaskState → Option TaskState
first_broken_join b t [] = none
first_broken_join b t (d ∷ ds) = if breaks_join b t d then some d else first_broken_join b t ds

unfoldable pub g_prune : Guard
g_prune b a p none = reject unknown_task (no_such_task none)
g_prune b a p (some t) = elim (get t b.tasks) [
  | none ↦ reject unknown_task (no_such_task (some t))
  | some ts ↦
      if is_status ts.status done || is_status ts.status cancelled
      then reject illegal_transition (prune_terminal (some t) ts.status)
      else if ts.pruned
      then reject illegal_transition (already_pruned (some t))
      else (elim (first_broken_join b t (values b.tasks)) [
        | none ↦ none
        | some d ↦
            reject illegal_transition
              (prune_breaks_join (some t) d.task_id (length (live_deps b d)) (resolve_k d))
      ])
]

-- The guard of a cancelled plan.
unfoldable pub g_plan_cancel : Guard
g_plan_cancel b a p t = none
