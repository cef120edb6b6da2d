-- ===== src/Harness/Turns.antt =====
-- src/omegahive/harness/turns.py: the classification of a turn from the events of the log and the
-- harness's own last word.
use omegahive.Base.{
  ℕ, String, Bool, true, false, ◌&&◌, ◌||◌, Option, none, some, List, [], ◌∷◌, ◌++◌, ltb,
  if◌then◌else◌, is_some, opt_eq, length, keep, ℤ,
}
use omegahive.Board.Legality.{is_worker}
use omegahive.Events.Envelope.{
  Role, EventType, task_blocked, task_result_posted, task_failed, same_type,
}

pub data Classification : Type 0 where
  posted blocked failed budget unclassified : Classification

pub data HarnessKind : Type 0 where
  completed error budget missing malformed : HarnessKind

-- What the classifier reads of an event; a field of another kind reads as absent.
pub record SpineEvent : Type 0 where
  pub seq : Option ℕ
  pub run_id : Option String
  pub task_id : Option String
  pub event_type : EventType
  pub actor_role : Option Role
  pub actor_id : Option String

pub record Terminal : Type 0 where
  pub kind : HarnessKind
  pub reason : String

pub data SpineBasis : Type 0 where
  was_read unavailable : SpineBasis

-- The reasons, one for each text of the source.
pub data Why : Type 0 where
  spine_unavailable cursor_unavailable missing_terminal_event : Why
  conflicting : List EventType → Why
  spine : EventType → Why
  harness : String → Why
  insufficient : HarnessKind → Why

pub record ExitRecord : Type 0 where
  pub classification : Classification
  pub reason : Why
  pub task_disposition : Option EventType
  pub terminal_event_seq : Option ℕ
  pub harness_kind : HarnessKind
  pub harness_reason : String
  pub exit_code : Option ℤ
  pub spine_cursor : Option ℕ
  pub spine_basis : SpineBasis
  pub harness_failed_after : Bool
  pub considered_events : ℕ

-- `needs_attention`
unfoldable pub needs_attention : ExitRecord → Bool
needs_attention r = elim r.classification [ posted ↦ false | blocked ↦ false | _ ↦ true ]

-- Whose turn it was.
pub record Scope : Type 0 where
  pub run : String
  pub task : String
  pub worker_id : String

-- `_seq_after`
unfoldable pub seq_after : SpineEvent → ℕ → Bool
seq_after ev cursor = elim ev.seq [ none ↦ false | some n ↦ ltb cursor n ]

abbrev is_worker_role : Option Role → Bool
is_worker_role none = false
is_worker_role (some r) = is_worker r

-- The events of this run and task, by this worker, after the cursor.
unfoldable pub in_scope : Scope → ℕ → SpineEvent → Bool
unfolding seq_after
in_scope s cursor ev =
    opt_eq ev.run_id (some s.run)
    && (opt_eq ev.task_id (some s.task)
        && (is_worker_role ev.actor_role
            && (opt_eq ev.actor_id (some s.worker_id) && seq_after ev cursor)))

-- `_CLASSIFICATION_OF`, defined on `TASK_DISPOSITIONS`.
unfoldable pub classification_of : EventType → Option Classification
classification_of task_result_posted = some posted
classification_of task_blocked = some Classification.blocked
classification_of task_failed = some Classification.failed
classification_of _ = none

abbrev pub is_disposition : SpineEvent → Bool
is_disposition ev = is_some (classification_of ev.event_type)

abbrev pub has_type : EventType → List SpineEvent → Bool
has_type t [] = false
has_type t (ev ∷ evs) = same_type ev.event_type t || has_type t evs

-- `sorted(kinds)`: the distinct types of the dispositions, in the order of their texts.
unfoldable pub kinds_of : List SpineEvent → List EventType
kinds_of evs =
    (if has_type task_blocked evs then task_blocked ∷ [] else [])
    ++ ((if has_type task_failed evs then task_failed ∷ [] else [])
        ++ (if has_type task_result_posted evs then task_result_posted ∷ [] else []))

abbrev pub seq_or_zero : SpineEvent → ℕ
seq_or_zero ev = elim ev.seq [ none ↦ 0 | some n ↦ n ]

-- `max(dispositions, key=…)`: the first of the greatest.
unfoldable pub newest : SpineEvent → List SpineEvent → SpineEvent
newest best [] = best
newest best (ev ∷ evs) = newest (if ltb (seq_or_zero best) (seq_or_zero ev) then ev else best) evs

abbrev is_harness_error : HarnessKind → Bool
is_harness_error completed = false
is_harness_error _ = true

-- The record of a turn that no task disposition decides.
abbrev undecided :
    Classification → Why → Terminal → Option ℤ → Option ℕ → SpineBasis → ℕ → ExitRecord
undecided c why t code cursor basis n = record {
  classification = c;
  reason = why;
  task_disposition = none;
  terminal_event_seq = none;
  harness_kind = t.kind;
  harness_reason = t.reason;
  exit_code = code;
  spine_cursor = cursor;
  spine_basis = basis;
  harness_failed_after = false;
  considered_events = n;
}

-- The harness speaks for its own process only.
unfoldable pub by_harness : Terminal → Option ℤ → ℕ → ℕ → HarnessKind → ExitRecord
by_harness t code cursor n budget =
    undecided Classification.budget (harness t.reason) t code (some cursor) was_read n
by_harness t code cursor n error =
    undecided Classification.failed (harness t.reason) t code (some cursor) was_read n
by_harness t code cursor n completed =
    undecided unclassified missing_terminal_event t code (some cursor) was_read n
by_harness t code cursor n k =
    undecided unclassified (insufficient k) t code (some cursor) was_read n

abbrev or_unclassified : Option Classification → Classification
or_unclassified none = unclassified
or_unclassified (some c) = c

-- The newest disposition decides.
unfoldable pub by_spine : SpineEvent → Terminal → Option ℤ → ℕ → ℕ → ExitRecord
by_spine ev t code cursor n = record {
  classification = or_unclassified (classification_of ev.event_type);
  reason = spine ev.event_type;
  task_disposition = some ev.event_type;
  terminal_event_seq = ev.seq;
  harness_kind = t.kind;
  harness_reason = t.reason;
  exit_code = code;
  spine_cursor = some cursor;
  spine_basis = was_read;
  harness_failed_after = is_harness_error t.kind;
  considered_events = n;
}

unfoldable pub decide_scoped :
    Terminal → Option ℤ → ℕ → ℕ → List EventType → List SpineEvent → ExitRecord
unfolding by_harness by_spine
decide_scoped t code cursor n (k ∷ j ∷ ks) ds =
    undecided unclassified (conflicting (k ∷ j ∷ ks)) t code (some cursor) was_read n
decide_scoped t code cursor n (k ∷ []) (ev ∷ evs) = by_spine (newest ev evs) t code cursor n
decide_scoped t code cursor n _ _ = by_harness t code cursor n t.kind

-- `classify`
unfoldable pub classify :
    Scope → List SpineEvent → Terminal → Option ℤ → Option ℕ → Bool → ExitRecord
unfolding decide_scoped
classify s evs t code cursor false =
    undecided unclassified spine_unavailable t code cursor unavailable 0
classify s evs t code none true = undecided unclassified cursor_unavailable t code none was_read 0
classify s evs t code (some c) true =
    let scoped = keep (in_scope s c) evs in
    let dispositions = keep is_disposition scoped in
    decide_scoped t code c (length scoped) (kinds_of dispositions) dispositions
