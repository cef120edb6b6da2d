-- ===== src/Sim/Planning.antt =====
-- A validated plan at the gate, at the model classes and in the fold.
pub mod Payloads
pub mod Single
pub mod Phases
use omegahive.Base.{
  ℕ, suc, ◌≤◌, String, ◌≡◌, refl, true, ◌||◌, Option, none, some, List, [], ◌∷◌, ◌++◌, arith,
  ==_iff, is_some, length, member, IsDistinct, ℤ, pos, negsuc, Dict, get, put, get-put,
}
use omegahive.Board.Reducer.{derive}
use omegahive.Board.State.{TaskState, Board, empty, threshold, resolve_k}
use omegahive.Events.Envelope.{planner, Actor, goal_received, Uuid}
use omegahive.Events.Json.{text, end, field}
use omegahive.Sim.Coordinator.{Emit}
use omegahive.Sim.Planning.Payloads.{goal-HasModel}
use omegahive.Sim.Planning.Phases.{
  JoinsFit, workers-taken, tasks-taken, priorities-taken, dependencies-taken,
}
use omegahive.Sim.Planning.Single.{Made, IsFaithful, AllTaken, goal-passes, goal-taken}
use omegahive.Sim.Scenario.{
  TaskSpec, Plan, task_names, dep_ids, fits_join, check_task_refs, effective_workers, planned,
  worker_emits, task_emits, task_events, plan_emits,
}

-- Each task has the id of its event.
task_events-has :
    (ids : ℕ → Uuid) (n : ℕ) (ts : List TaskSpec) (d : Dict Uuid) (t : String)
    → (member t (task_names ts) || is_some (get t d)) ≡ true
    → is_some (get t (task_events ids n ts d)) ≡ true
unfolding task_events task_names member
task_events-has ids n [] d t h = ground arith
task_events-has ids n (s ∷ ts) d t h =
    task_events-has ids (suc n) ts (put s.id (ids n) d) t
      (ground (arith, get-put s.id t (ids n) d, ==_iff s.id t, ==_iff t s.id))

effective-IsDistinct : (ws : List String) → IsDistinct ws → IsDistinct (effective_workers ws)
unfolding effective_workers member
effective-IsDistinct [] h = (refl, tt)
effective-IsDistinct (w ∷ ws) h = h

-- What fits has its threshold within its dependencies.
fits_join-le : (k : Option ℤ) (n : ℕ) → fits_join k n ≡ true → threshold k n ≤ n
fits_join-le none n h = omega arith
fits_join-le (some (pos k)) n h = ground arith
fits_join-le (some (negsuc k)) n h = absurd (ground arith)

-- Each task of the board needs no more dependencies than it has.
abbrev pub AreReachable : Board → Type 0
AreReachable b =
    (t : String) (s : TaskState) → get t b.tasks ≡ some s → resolve_k s ≤ length s.depends_on

fit-AreReachable : (b : Board) → JoinsFit [] b → AreReachable b
unfolding dep_ids resolve_k
fit-AreReachable b fit t s there =
    fits_join-le s.ready_when (length s.depends_on) (fit.at t s there)

-- A plan that its validation passes is taken whole by an empty run: no reference is missing, each
-- emit of `emit_plan` has a payload that fits its model class, the gate passes it for a planner on
-- the board that the ones before have made, the fold takes its event, and on the board at the end
-- no task needs more dependencies than it has. The events keep the type, the task and the given
-- fields of their emits, and the workers' ids are the keys of a dict.
pub plan_emits-AllTaken :
    (made : Made) (ids : ℕ → Uuid) (a : Actor) (p : Plan) (workers : List String)
    → IsFaithful made
    → a.role ≡ planner
    → IsDistinct workers
    → check_task_refs p ≡ true
    → (es : List Emit) × (plan_emits ids p workers ≡ some es)
      × AllTaken made a AreReachable 0 empty es
unfolding plan_emits check_task_refs member get
plan_emits-AllTaken made ids a p workers faithful plans once valid =
    let roster = effective_workers workers in
    let names = task_names p.tasks in
    let created_by = task_events ids (suc (length roster)) p.tasks [] in
    let has : ((t : String) → member t names ≡ true → is_some (get t created_by) ≡ true) =
      λ t h. task_events-has ids (suc (length roster)) p.tasks [] t (ground arith) in
    let (deps, found_deps, deps_taken) =
      dependencies-taken made faithful a plans AreReachable created_by p.dependencies names has
        (ground arith) in
    let (prios, found_prios, prios_taken) =
      priorities-taken made faithful a plans AreReachable created_by p.priorities names has
        (ground arith) in
    let goal = planned goal_received (field "text" (text p.goal) end) none none in
    (
      goal ∷ worker_emits (ids 0) roster ++ (task_emits (ids 0) p.tasks ++ (deps ++ prios)),
      rw (found_deps, found_prios) refl,
      (
        empty,
        goal-HasModel p.goal,
        goal-passes (derive empty) a goal.payload plans,
        goal-taken empty (made 0 goal) (faithful.keeps_type 0 goal),
        workers-taken made faithful a plans AreReachable roster (ids 0) 1 empty
            (task_emits (ids 0) p.tasks ++ (deps ++ prios)) (effective-IsDistinct workers once)
            (λ w h. refl)
            (λ m c bare.
              tasks-taken made faithful a plans AreReachable p.dependencies p.tasks (ids 0) m c
                (deps ++ prios) (ground arith)
                (record { at = λ t s there. absurd (ground (arith, bare)) })
                (λ k d fit knows.
                  deps_taken k d prios (λ t h. knows t (ground arith)) fit
                    (λ j e there fits. prios_taken j e there fits fit-AreReachable))),
      ),
    )
