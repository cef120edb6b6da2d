-- ===== src/Board/Soundness/Sound.antt =====
-- The boards that accepted events produce, what is asked of a board, and the writes that keep it.
use omegahive.Base.{
  String, ◌≡◌, subst, ◌⊎◌, inl, inr, true, Option, none, some, List, arith, ◌==◌, ==_iff,
  Bool-cases, Option-cases, ◌>>=◌, IsDistinct-keys-put, member, member-add, IsDistinct, get, keys,
  get-put,
}
use omegahive.Board.Legality.{put_task, on_task, give, Rejection, lookup}
use omegahive.Board.Reducer.{apply, derive}
use omegahive.Board.State.{TaskState, Board, empty}
use omegahive.Events.Envelope.{Event}

-- The rule's guard on the derived board: `none` where it passes, and where no rule fits.
abbrev pub verdict : Board → Event → Option Rejection
verdict b ev = elim (lookup ev.event_type ev.payload) [
  | none ↦ none
  | some r ↦ r.guard (derive b) ev.actor ev.payload ev.task_id
]

-- The boards that a log of events produces, each of which the table let through.
pub data History : Board → Type 0 where
  start : History empty
  next :
      {b : Board} (ev : Event) (b' : Board)
      → History b
      → verdict b ev ≡ none
      → apply b ev ≡ some b'
      → History b'

-- A task's owner is a registered worker, and is among those who were given the task; no
-- dependency stands twice.
pub record IsSoundTask (roster : List String) (ts : TaskState) : Type 0 where
  pub once : IsDistinct ts.depends_on
  pub known : (w : String) → ts.owner ≡ some w → member w roster ≡ true
  pub tried : (w : String) → ts.owner ≡ some w → member w ts.tried_by ≡ true

pub record IsSound (b : Board) : Type 0 where
  pub keys_once : IsDistinct (keys b.tasks)
  pub at : (t : String) (ts : TaskState) → get t b.tasks ≡ some ts → IsSoundTask b.roster ts

pub IsSoundTask-same :
    (roster : List String) (a b : TaskState)
    → b.depends_on ≡ a.depends_on
    → b.tried_by ≡ a.tried_by
    → (b.owner ≡ a.owner) ⊎ (b.owner ≡ none)
    → IsSoundTask roster a
    → IsSoundTask roster b
IsSoundTask-same roster a b deps tried owner s = record {
  once = rw deps s.once;
  known = λ w e. ground (arith, s.known w);
  tried = λ w e. ground (arith, s.tried w);
}

pub IsSoundTask-give :
    (roster : List String) (ev : Event) (w : String) (a : TaskState)
    → member w roster ≡ true
    → IsSoundTask roster a
    → IsSoundTask roster (give ev w a)
unfolding give
IsSoundTask-give roster ev w a on s = record {
  once = s.once;
  known = λ x e. ground arith;
  tried = λ x e. ground (arith, member-add x w a.tried_by, ==_iff x w);
}

pub put-IsSound :
    (b : Board) (t : String) (ts : TaskState)
    → IsSound b
    → IsSoundTask b.roster ts
    → IsSound (put_task t ts b)
put-IsSound b t ts s sound = record {
  keys_once = IsDistinct-keys-put t ts b.tasks s.keys_once;
  at = λ j u e. elim (Bool-cases (t == j)) [
    | inl same ↦ subst (IsSoundTask b.roster) (ground (arith, get-put t j ts b.tasks)) sound
    | inr differs ↦ s.at j u (ground (arith, get-put t j ts b.tasks))
  ];
}

-- An effect on one task keeps the board sound if it keeps that task so.
pub on_task-IsSound :
    (f : TaskState → Option TaskState) (b b' : Board) (ev : Event)
    → IsSound b
    → ((a c : TaskState) → f a ≡ some c → IsSoundTask b.roster a → IsSoundTask b.roster c)
    → on_task f b ev ≡ some b'
    → IsSound b'
unfolding on_task
on_task-IsSound f b b' ev s keeps e = by_id ev.task_id e
  where
    by_id :
        (id : Option String)
        → (elim id [
          | none ↦ some b
          | some t ↦ elim (get t b.tasks) [
            | none ↦ some b
            | some here ↦ f here >>= λ there. some (put_task t there b)
          ]
        ])
          ≡ some b'
        → IsSound b'
    by_id none x = subst IsSound (ground arith) s
    by_id (some t) x = elim (Option-cases (get t b.tasks)) [
      | inl absent ↦ subst IsSound (ground arith) s
      | inr (here, found) ↦ elim (Option-cases (f here)) [
        | inl fails ↦ absurd (ground arith)
        | inr (there, gives) ↦
            subst IsSound (ground arith)
              (put-IsSound b t there s (keeps here there gives (s.at t here found)))
      ]
    ]

-- Effects that leave the dependencies and the tries alone, and the owner too or clear it.
abbrev pub Unmoved : (TaskState → Option TaskState) → Type 0
Unmoved f =
    (a c : TaskState)
    → f a ≡ some c
    → (c.depends_on ≡ a.depends_on)
      × (c.tried_by ≡ a.tried_by)
      × ((c.owner ≡ a.owner) ⊎ (c.owner ≡ none))
