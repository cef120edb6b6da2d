-- ===== src/Sim/Planning/Single.antt =====
-- The single emits of a plan at the gate and in the fold.
use omegahive.Base.{
  ℕ, suc, String, ◌≡◌, refl, ap, ◌∙◌, inl, inr, Bool, true, false, Option, none, some, List, [],
  ◌∷◌, map, arith, ◌==◌, ==_iff, is_some, Option-cases, member, add, Dict, get, put, keys, get-put,
}
use omegahive.Board.Legality.{
  put_task, on_task, new_task, e_created, e_dependency_added, e_priority_set, e_worker_registered,
  task, g_needs_task, on_roster, g_worker_registered, LegalityRule, rules, lookup,
  non_board_whitelist, worker_ownership_violation,
}
use omegahive.Board.Reducer.{apply, derive_one, derive_loop, derive}
use omegahive.Board.State.{TaskState, Board, stamp, change}
use omegahive.Board.Totality.{HasModel}
use omegahive.Events.Envelope.{
  planner, Actor, EventType, goal_received, task_created, dependency_added, worker_registered,
  priority_set, tag, same_type, Event,
}
use omegahive.Events.Json.{Json, text, end, field, Payload, get_field, get_text}
use omegahive.Events.Types.{schema}
use omegahive.Gateway.Emit.{gate}
use omegahive.Gateway.Policy.{may_emit}
use omegahive.Sim.Coordinator.{Emit}

-- The events that the log makes of the emits, by their place in it.
abbrev pub Made : Type 0
Made = ℕ → Emit → Event

-- The types of a plan's events. The fields of their model classes are texts, lists of texts and an
-- integer, which pydantic's dump leaves as they are.
abbrev pub is_planning : EventType → Bool
is_planning goal_received = true
is_planning worker_registered = true
is_planning task_created = true
is_planning dependency_added = true
is_planning priority_set = true
is_planning _ = false

abbrev pub declares : EventType → String → Bool
declares t k = elim (schema t) [ none ↦ false | some fs ↦ member k (map (λ f. f.name) fs) ]

-- What the log keeps of an emit: its type, its task, and, for the events of a plan, each field that
-- the model class declares. The dump by that class adds the fields that the emit leaves out, with
-- their defaults, and drops those that it does not declare.
pub record IsFaithful (made : Made) : Type 0 where
  pub keeps_type : (n : ℕ) (e : Emit) → (made n e).event_type ≡ e.event_type
  pub keeps_fields :
      (n : ℕ) (e : Emit) (k : String) (v : Json)
      → is_planning e.event_type ≡ true
      → HasModel e.event_type e.payload
      → declares e.event_type k ≡ true
      → get_field k e.payload ≡ some v
      → get_field k (made n e).payload ≡ some v
  pub keeps_task : (n : ℕ) (e : Emit) → (made n e).task_id ≡ e.task_id

-- From this board on, each emit's payload is one that its model class takes, the gate passes it on
-- the board that the ones before have made, the fold takes its event, and the last board is as
-- asked.
abbrev pub AllTaken : Made → Actor → (Board → Type 0) → ℕ → Board → List Emit → Type 0
AllTaken made a Q n b [] = Q b
AllTaken made a Q n b (e ∷ es) =
    (c : Board) × HasModel e.event_type e.payload
    × (gate (derive b) a e.event_type e.payload e.task_id ≡ none)
    × (apply b (made n e) ≡ some c)
    × AllTaken made a Q (suc n) c es

-- The readiness pass loses no task.
get-derive_loop :
    (j : String) (ts : List String) (tasks : Dict TaskState)
    → is_some (get j (derive_loop ts tasks)) ≡ is_some (get j tasks)
unfolding derive_loop
get-derive_loop j [] tasks = refl
get-derive_loop j (t ∷ ts) tasks = elim (Option-cases (get t tasks)) [
  | inl absent ↦ rw absent (get-derive_loop j ts tasks)
  | inr (s, found) ↦ rw found (
      get-derive_loop j ts (put t (derive_one tasks s) tasks)
      ∙ ground (arith, get-put t j (derive_one tasks s) tasks, ==_iff t j, found))
]

task-known :
    (b : Board) (t : String)
    → is_some (get t b.tasks) ≡ true
    → is_some (task (derive b) (some t)) ≡ true
unfolding task derive
task-known b t h = get-derive_loop t (keys b.tasks) b.tasks ∙ h

-- What the gate asks of a planner's emit that has a rule.
pub gate-planner :
    (b : Board) (a : Actor) (t : EventType) (p : Payload) (id : Option String) (r : LegalityRule)
    → a.role ≡ planner
    → may_emit planner t ≡ true
    → lookup t p ≡ some r
    → r.guard b a p id ≡ none
    → gate b a t p id ≡ none
unfolding gate worker_ownership_violation
gate-planner b a t p id r plans may found passes = ground arith

pub apply-rule :
    (b c : Board) (ev : Event) (t : EventType) (r : LegalityRule)
    → ev.event_type ≡ t
    → lookup t ev.payload ≡ some r
    → r.effect b ev ≡ some c
    → apply b ev ≡ some c
unfolding apply
apply-rule b c ev t r is_t found acts =
    let here : lookup ev.event_type ev.payload ≡ some r = cc in
    ap (λ o. elim o [ none ↦ some b | some q ↦ q.effect b ev ]) here ∙ acts

pub register-passes :
    (b : Board) (a : Actor) (w : String)
    → member w b.roster ≡ false
    → g_worker_registered (derive b) a (field "worker_id" (text w) end) none ≡ none
unfolding g_worker_registered on_roster get_text get_field ◌==◌ derive
register-passes b a w new = ground arith

pub needs_task-passes :
    (b : Board) (a : Actor) (p : Payload) (t : String)
    → is_some (get t b.tasks) ≡ true
    → g_needs_task (derive b) a p (some t) ≡ none
unfolding g_needs_task
needs_task-passes b a p t h = ground (arith, task-known b t h)

pub registers :
    (b : Board) (ev : Event) (w : String)
    → get_field "worker_id" ev.payload ≡ some (text w)
    → e_worker_registered b ev ≡ some (record b { roster = add w b.roster })
unfolding e_worker_registered get_text
registers b ev w is_p = rw is_p refl

pub creates :
    (b : Board) (ev : Event) (t : String)
    → ev.task_id ≡ some t
    → e_created b ev ≡ some (put_task t (change ev (new_task t ev)) b)
unfolding e_created
creates b ev t is_t = rw is_t refl

-- The goal is not on the board.
pub goal-passes :
    (b : Board) (a : Actor) (p : Payload) → a.role ≡ planner → gate b a goal_received p none ≡ none
unfolding gate may_emit worker_ownership_violation lookup rules same_type tag non_board_whitelist
goal-passes b a p plans = ground arith

pub goal-taken : (b : Board) (ev : Event) → ev.event_type ≡ goal_received → apply b ev ≡ some b
unfolding apply lookup rules same_type tag
goal-taken b ev is_goal =
    let none_fits : lookup ev.event_type ev.payload ≡ none =
      ap (λ t. lookup t ev.payload) is_goal in
    ap (λ o. elim o [ none ↦ some b | some q ↦ q.effect b ev ]) none_fits

module _ (made : Made) (faithful : IsFaithful made) (a : Actor) (plans : a.role ≡ planner)
    (Q : Board → Type 0) where
  -- An emit about a task that is there, and those after it.
  pub changed-taken :
      (n : ℕ) (b : Board) (e : Emit) (t : String) (r : LegalityRule) (f : TaskState → TaskState)
      (rest : List Emit)
      → e.task_id ≡ some t
      → may_emit planner e.event_type ≡ true
      → HasModel e.event_type e.payload
      → lookup e.event_type e.payload ≡ some r
      → lookup e.event_type (made n e).payload ≡ some r
      → r.guard (derive b) a e.payload (some t) ≡ none
      → is_some (get t b.tasks) ≡ true
      → ((s : TaskState)
          → get t b.tasks ≡ some s
          → r.effect b (made n e) ≡ some (put_task t (f s) b))
      → ((s : TaskState)
          → get t b.tasks ≡ some s
          → AllTaken made a Q (suc n) (put_task t (f s) b) rest)
      → AllTaken made a Q n b (e ∷ rest)
  changed-taken n b e t r f rest is_t may model found found' passes present acts after =
      elim (Option-cases (get t b.tasks)) [
        | inl absent ↦ absurd (ground arith)
        | inr (s, there) ↦ (
          put_task t (f s) b,
          model,
          gate-planner (derive b) a e.event_type e.payload e.task_id r plans may found
              (ap (r.guard (derive b) a e.payload) is_t ∙ passes),
          apply-rule b (put_task t (f s) b) (made n e) e.event_type r (faithful.keeps_type n e)
              found' (acts s there),
          after s there,
        )
      ]

-- What the two effects make of a task.
abbrev pub prioritized : Event → String → TaskState → TaskState
prioritized ev p s = stamp ev (record s { priority = p })

abbrev pub depending : Event → String → TaskState → TaskState
depending ev on s = stamp ev (record s { depends_on = add on s.depends_on })

pub prioritizes :
    (b : Board) (ev : Event) (t p : String) (s : TaskState)
    → ev.task_id ≡ some t
    → get_field "priority" ev.payload ≡ some (text p)
    → get t b.tasks ≡ some s
    → e_priority_set b ev ≡ some (put_task t (prioritized ev p s) b)
unfolding e_priority_set on_task get_text
prioritizes b ev t p s is_t is_p there =
    let asked : get_text "priority" ev.payload ≡ some p = rw is_p refl in ground (arith, asked)

pub depends :
    (b : Board) (ev : Event) (t on : String) (s : TaskState)
    → ev.task_id ≡ some t
    → get_field "depends_on" ev.payload ≡ some (text on)
    → get t b.tasks ≡ some s
    → e_dependency_added b ev ≡ some (put_task t (depending ev on s) b)
unfolding e_dependency_added on_task get_text
depends b ev t on s is_t is_p there =
    let asked : get_text "depends_on" ev.payload ≡ some on = rw is_p refl in ground (arith, asked)
