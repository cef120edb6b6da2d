-- ===== src/Sim/Planned.antt =====
-- A plan of two tasks, and the theorem about validated plans at it.
use omegahive.Base.{
  ℕ, String, ◌≡◌, refl, Bool, true, false, Option, none, some, List, [], ◌∷◌, arith, ◌==◌,
  if◌then◌else◌, member, add, ℤ, pos, get, put, keys,
}
use omegahive.Board.State.{empty}
use omegahive.Events.Envelope.{
  planner, Actor, EventType, task_created, worker_registered, Uuid, Event,
}
use omegahive.Events.Json.{Json, null, end, field, Payload, get_field}
use omegahive.Sim.Coordinator.{Emit}
use omegahive.Sim.Planning.{AreReachable, plan_emits-AllTaken}
use omegahive.Sim.Planning.Single.{AllTaken}
use omegahive.Sim.Scenario.{
  TaskSpec, high, Plan, task_names, refs_known, all_known, dep_ids, joins_fit, check_task_refs,
  effective_workers, worker_emits, task_payload, task_emits, task_events, dependency_emits,
  priority_emits, plan_emits,
}

abbrev planner_1 : Actor
planner_1 = record { role = planner; id = "planner" }

abbrev spec : String → Option ℤ → TaskSpec
spec id k = record {
  id = id;
  title = id;
  task_type = "build";
  acceptance = none;
  required_artifacts = [];
  ready_when = k;
}

-- The second task waits for the first, in a dependency that stands twice.
abbrev chain : Plan
chain = record {
  goal = "ship";
  tasks = spec "t1" none ∷ spec "t2" (some (pos 1)) ∷ [];
  dependencies = ("t2", "t1") ∷ ("t2", "t1") ∷ [];
  priorities = ("t2", high) ∷ [];
}

-- The same plan with a join of two, which the repeated dependency does not fill.
abbrev wide : Plan
wide = record chain { tasks = spec "t1" none ∷ spec "t2" (some (pos 2)) ∷ [] }

-- The dump of a task or a worker has two more fields, with their defaults.
abbrev traced : Payload → Payload
traced end = field "executed_by" null (field "decision_ref" null end)
traced (field k v p) = field k v (traced p)

abbrev is_traced : EventType → Bool
is_traced task_created = true
is_traced worker_registered = true
is_traced _ = false

abbrev dumped : EventType → Payload → Payload
dumped t p = if is_traced t then traced p else p

get_field-traced :
    (k : String) (v : Json) (p : Payload) → get_field k p ≡ some v → get_field k (traced p) ≡ some v
unfolding get_field
get_field-traced k v end e = absurd (ground arith)
get_field-traced k v (field j w p) e = ground (arith, get_field-traced k v p)

get_field-dumped :
    (b : Bool) (k : String) (v : Json) (p : Payload)
    → get_field k p ≡ some v
    → get_field k (if b then traced p else p) ≡ some v
get_field-dumped true k v p e = get_field-traced k v p e
get_field-dumped false k v p e = e

abbrev written : ℕ → Emit → Event
written n e = record {
  event_id = n;
  run_id = "r1";
  logical_ts = 0;
  wall_ts = none;
  actor = planner_1;
  event_type = e.event_type;
  task_id = e.task_id;
  payload = dumped e.event_type e.payload;
  causation_id = e.causation_id;
  correlation_id = some 0;
  recipient = e.recipient;
  seq = some n;
}

abbrev summary : Option (List Emit) → List (Option String × Option Uuid)
summary none = []
summary (some []) = []
summary (some (e ∷ es)) = (e.task_id, e.causation_id) ∷ summary (some es)

computes : Unit {0}
unfolding task_names refs_known all_known dep_ids joins_fit check_task_refs effective_workers
    worker_emits task_payload task_emits task_events dependency_emits priority_emits plan_emits
    member add keys get put ◌==◌
computes = tt

-- Each event hangs on the goal or on its task's creation.
seven_emits :
    summary (plan_emits (λ n. n) chain [])
    ≡ (none, none)
      ∷ (none, some 0)
      ∷ (some "t1", some 0)
      ∷ (some "t2", some 0)
      ∷ (some "t2", some 3)
      ∷ (some "t2", some 3)
      ∷ (some "t2", some 3)
      ∷ []
unfolding computes
seven_emits = refl

too_wide : check_task_refs wide ≡ false
unfolding computes
too_wide = refl

plan_emits-AllTaken_example :
    (es : List Emit) × (plan_emits (λ n. n) chain [] ≡ some es)
    × AllTaken written planner_1 AreReachable 0 empty es
unfolding computes
plan_emits-AllTaken_example =
    plan_emits-AllTaken written (λ n. n) planner_1 chain []
      (record {
        keeps_type = λ n e. refl;
        keeps_fields = λ n e k v plans model declared kept.
            get_field-dumped (is_traced e.event_type) k v e.payload kept;
        keeps_task = λ n e. refl;
      })
      refl tt refl
