-- ===== src/Board/State.antt =====
-- src/omegahive/board/state.py: the task state, the board, and the provenance stampers.
use omegahive.Base.{
  ℕ, String, Bool, true, false, ◌&&◌, not, Option, none, some, List, [], ◌∷◌, leb, if◌then◌else◌,
  is_some, length, ℤ, pos, negsuc, sort, text_le, Dict,
}
use omegahive.Events.Envelope.{Uuid, Event}

pub data Status : Type 0 where
  created ready assigned in_progress blocked in_review done failed cancelled reopened : Status

pub data Review : Type 0 where
  passed failed : Review

pub record TaskState : Type 0 where
  pub task_id : String
  pub status : Status
  pub owner : Option String
  pub depends_on : List String
  pub latest_review : Option Review
  pub last_result_ref : Option String
  pub last_causing_seq : Option ℕ
  pub last_causing_event_id : Option Uuid
  pub last_status_change_ts : ℕ
  pub escalated : Bool
  pub tried_by : List String
  pub task_type : Option String
  pub ready_when : Option ℤ
  pub pruned : Bool
  pub join_unsatisfiable : Bool
  pub title : String
  pub priority : String
  pub blocker_reason : Option String
  pub blocker_needs : Option String

pub record Board : Type 0 where
  pub tasks : Dict TaskState
  pub roster : List String

abbrev pub empty : Board
empty = record { tasks = []; roster = [] }

abbrev pub is_status : Status → Status → Bool
is_status created created = true
is_status ready ready = true
is_status assigned assigned = true
is_status in_progress in_progress = true
is_status blocked blocked = true
is_status in_review in_review = true
is_status done done = true
is_status failed failed = true
is_status cancelled cancelled = true
is_status reopened reopened = true
is_status _ _ = false

abbrev pub is_passed : Option Review → Bool
is_passed (some passed) = true
is_passed _ = false

-- The ids of the tasks that pass a test, in the order of the dict.
unfoldable pub ids_where : (TaskState → Bool) → Dict TaskState → List String
ids_where p [] = []
ids_where p ((t, s) ∷ d) = let rest = ids_where p d in if p s then t ∷ rest else rest

abbrev pub is_assignable : TaskState → Bool
is_assignable s = is_status s.status ready && not (is_some s.owner) && not s.pruned

-- `Board.ready`
unfoldable pub ready_ids : Board → List String
ready_ids b = sort text_le (ids_where is_assignable b.tasks)

-- `Board.awaiting_close`
unfoldable pub awaiting_close : Board → List String
awaiting_close b =
    sort text_le
      (ids_where (λ s. is_status s.status in_review && is_passed s.latest_review) b.tasks)

-- `ready_when` when it is a positive int, else the number of dependencies.
abbrev pub threshold : Option ℤ → ℕ → ℕ
threshold none n = n
threshold (some (pos k)) n = if leb 1 k then k else n
threshold (some (negsuc k)) n = n

-- The join threshold k.
unfoldable pub resolve_k : TaskState → ℕ
resolve_k ts = threshold ts.ready_when (length ts.depends_on)

abbrev pub stamp : Event → TaskState → TaskState
stamp ev ts = record ts { last_causing_seq = ev.seq; last_causing_event_id = some ev.event_id }

abbrev pub change : Event → TaskState → TaskState
change ev ts = record (stamp ev ts) { last_status_change_ts = ev.logical_ts }
