-- ===== src/Board/Reducer.antt =====
-- src/omegahive/board/reducer.py: the fold of a run's events, and the derived readiness.
pub mod Readiness
pub mod Neutral
use omegahive.Base.{
  ℕ, String, Bool, false, ◌||◌, not, Option, none, some, List, [], ◌∷◌, ltb, leb, if◌then◌else◌,
  is_some, ◌>>=◌, keep, count_if, sort_by, Dict, get, put, keys,
}
use omegahive.Board.Legality.{lookup}
use omegahive.Board.State.{
  created, ready, done, reopened, TaskState, Board, empty, is_status, resolve_k,
}
use omegahive.Events.Envelope.{Event}

-- One turn of the first loop of `fold`.
unfoldable pub apply : Board → Event → Option Board
apply b ev = elim (lookup ev.event_type ev.payload) [ none ↦ some b | some r ↦ r.effect b ev ]

unfoldable pub replay : Board → List Event → Option Board
replay b [] = some b
replay b (ev ∷ evs) = apply b ev >>= λ b'. replay b' evs

abbrev pub seq_or_zero : Event → ℕ
seq_or_zero ev = elim ev.seq [ none ↦ 0 | some n ↦ n ]

-- `d in board.tasks and board.tasks[d].pruned`
unfoldable pub is_pruned : Dict TaskState → String → Bool
is_pruned tasks d = elim (get d tasks) [ none ↦ false | some ts ↦ ts.pruned ]

-- `d in board.tasks and board.tasks[d].status == "done"`
unfoldable pub is_done : Dict TaskState → String → Bool
is_done tasks d = elim (get d tasks) [ none ↦ false | some ts ↦ is_status ts.status done ]

abbrev pub has_key : Dict TaskState → String → Bool
has_key tasks d = is_some (get d tasks)

abbrev pub is_waiting : TaskState → Bool
is_waiting ts = not (
    not (is_status ts.status created || is_status ts.status reopened)
    || is_some ts.owner
    || ts.pruned)

unfoldable pub active_deps : Dict TaskState → TaskState → List String
active_deps tasks ts = keep (λ d. not (is_pruned tasks d)) ts.depends_on

-- A join with dependencies: k, the dependencies that exist, and those that are done.
unfoldable pub settle : ℕ → ℕ → ℕ → TaskState → TaskState
settle required capacity n ts = record ts {
  join_unsatisfiable = ltb capacity required;
  status = if leb required n then ready else ts.status;
}

-- The body of the second loop of `fold`, for one task that is waiting and its dependencies.
unfoldable pub derive_join : List String → Dict TaskState → TaskState → TaskState
unfolding settle
derive_join [] tasks ts = record ts { status = ready }
derive_join (_ ∷ _) tasks ts =
    let active = active_deps tasks ts in
    settle (resolve_k ts) (count_if (has_key tasks) active) (count_if (is_done tasks) active) ts

unfoldable pub derive_one : Dict TaskState → TaskState → TaskState
unfolding derive_join
derive_one tasks ts = if is_waiting ts then derive_join ts.depends_on tasks ts else ts

abbrev derive_at : Dict TaskState → String → Option TaskState → Dict TaskState
derive_at tasks t none = tasks
derive_at tasks t (some ts) = put t (derive_one tasks ts) tasks

-- The loop: each turn reads the dict that the turns before it have changed.
unfoldable pub derive_loop : List String → Dict TaskState → Dict TaskState
unfolding derive_one
derive_loop [] tasks = tasks
derive_loop (t ∷ ts) tasks = derive_loop ts (derive_at tasks t (get t tasks))

unfoldable pub derive : Board → Board
unfolding derive_loop
derive b = record b { tasks = derive_loop (keys b.tasks) b.tasks }

unfoldable pub fold : List Event → Option Board
unfolding replay
fold evs = replay empty (sort_by seq_or_zero evs) >>= λ b. some (derive b)
