-- ===== src/Sim/Scenario.antt =====
-- src/omegahive/sim/scenario/schema.py and loader.py: the plan of a scenario, its validation, and
-- the events that it becomes.
use omegahive.Base.{
  ℕ, suc, String, Bool, true, false, ◌&&◌, Option, none, some, List, [], ◌∷◌, ◌++◌, leb, ◌==◌,
  if◌then◌else◌, ◌>>=◌, length, member, add, ℤ, pos, negsuc, Dict, get, put, keys,
}
use omegahive.Events.Envelope.{
  EventType, goal_received, task_created, dependency_added, worker_registered, priority_set, Uuid,
}
use omegahive.Events.Json.{
  Json, null, int, text, arr, Items, nil, cons, end, field, Payload, as_json,
}
use omegahive.Sim.Coordinator.{Emit}

pub record TaskSpec : Type 0 where
  pub id : String
  pub title : String
  pub task_type : String
  pub acceptance : Option String
  pub required_artifacts : List String
  pub ready_when : Option ℤ

pub data Priority : Type 0 where
  low normal high : Priority

-- `Literal["low", "normal", "high"]`
abbrev pub priority_text : Priority → String
priority_text low = "low"
priority_text normal = "normal"
priority_text high = "high"

pub record Plan : Type 0 where
  pub goal : String
  pub tasks : List TaskSpec
  pub dependencies : List (String × String)
  pub priorities : Dict Priority

-- `{t.id for t in self.tasks}`
unfoldable pub task_names : List TaskSpec → List String
task_names [] = []
task_names (t ∷ ts) = t.id ∷ task_names ts

-- Both sides of each dependency are tasks.
unfoldable pub refs_known : List String → List (String × String) → Bool
refs_known ids [] = true
refs_known ids ((t, on) ∷ deps) = member t ids && member on ids && refs_known ids deps

unfoldable pub all_known : List String → List String → Bool
all_known ids [] = true
all_known ids (t ∷ ts) = member t ids && all_known ids ts

-- `dep_ids[t]` after the loop over the dependencies, from what it is before.
unfoldable pub dep_ids : List (String × String) → String → List String → List String
dep_ids [] t before = before
dep_ids ((s, on) ∷ deps) t before = dep_ids deps t (if s == t then add on before else before)

-- `1 <= t.ready_when <= n`, where it is given.
abbrev pub fits_join : Option ℤ → ℕ → Bool
fits_join none n = true
fits_join (some (pos k)) n = leb 1 k && leb k n
fits_join (some (negsuc k)) n = false

unfoldable pub joins_fit : List (String × String) → List TaskSpec → Bool
unfolding dep_ids
joins_fit deps [] = true
joins_fit deps (t ∷ ts) =
    fits_join t.ready_when (length (dep_ids deps t.id [])) && joins_fit deps ts

-- `Plan._check_task_refs`
unfoldable pub check_task_refs : Plan → Bool
unfolding task_names refs_known all_known joins_fit
check_task_refs p =
    let ids = task_names p.tasks in
    refs_known ids p.dependencies
    && (all_known ids (keys p.priorities) && joins_fit p.dependencies p.tasks)

-- `scenario.workers or {"w1": WorkerPolicy()}`, by the ids.
unfoldable pub effective_workers : List String → List String
effective_workers [] = "w1" ∷ []
effective_workers (w ∷ ws) = w ∷ ws

abbrev pub planned : EventType → Payload → Option String → Option Uuid → Emit
planned t p tid cause = record {
  event_type = t;
  payload = p;
  task_id = tid;
  causation_id = cause;
  recipient = none;
}

unfoldable pub worker_emits : Uuid → List String → List Emit
worker_emits goal [] = []
worker_emits goal (w ∷ ws) =
    planned worker_registered (field "worker_id" (text w) end) none (some goal)
    ∷ worker_emits goal ws

abbrev pub int_or_null : Option ℤ → Json
int_or_null none = null
int_or_null (some k) = int k

abbrev pub texts_json : List String → Items
texts_json [] = nil
texts_json (s ∷ ss) = cons (text s) (texts_json ss)

unfoldable pub task_payload : TaskSpec → Payload
task_payload t = field "title" (text t.title) (
    field "task_type" (text t.task_type) (
      field "acceptance" (as_json t.acceptance) (
        field "required_artifacts" (arr (texts_json t.required_artifacts))
          (field "ready_when" (int_or_null t.ready_when) end))))

unfoldable pub task_emits : Uuid → List TaskSpec → List Emit
unfolding task_payload
task_emits goal [] = []
task_emits goal (t ∷ ts) =
    planned task_created (task_payload t) (some t.id) (some goal) ∷ task_emits goal ts

-- `task_events`: the id of the event that created each task. `ids` are the ids that the log gives
-- to the events, by their place.
unfoldable pub task_events : (ℕ → Uuid) → ℕ → List TaskSpec → Dict Uuid → Dict Uuid
task_events ids n [] d = d
task_events ids n (t ∷ ts) d = task_events ids (suc n) ts (put t.id (ids n) d)

-- The loop over the dependencies; `none` is a KeyError.
unfoldable pub dependency_emits : Dict Uuid → List (String × String) → Option (List Emit)
dependency_emits created_by [] = some []
dependency_emits created_by ((t, on) ∷ deps) = get t created_by >>= λ u.
    dependency_emits created_by deps >>= λ es.
    some (planned dependency_added (field "depends_on" (text on) end) (some t) (some u) ∷ es)

unfoldable pub priority_emits : Dict Uuid → Dict Priority → Option (List Emit)
priority_emits created_by [] = some []
priority_emits created_by ((t, p) ∷ rest) = get t created_by >>= λ u.
    priority_emits created_by rest >>= λ es.
    some
      (planned priority_set (field "priority" (text (priority_text p)) end) (some t) (some u) ∷ es)

-- What `emit_plan` emits, in order, where no emit is refused.
unfoldable pub plan_emits : (ℕ → Uuid) → Plan → List String → Option (List Emit)
unfolding worker_emits task_emits task_events dependency_emits priority_emits effective_workers
plan_emits ids p workers =
    let roster = effective_workers workers in
    let goal = ids 0 in
    let created_by = task_events ids (suc (length roster)) p.tasks [] in
    dependency_emits created_by p.dependencies >>= λ deps.
    priority_emits created_by p.priorities >>= λ prios. some (
      planned goal_received (field "text" (text p.goal) end) none none ∷ worker_emits goal roster
      ++ (task_emits goal p.tasks ++ (deps ++ prios)))
