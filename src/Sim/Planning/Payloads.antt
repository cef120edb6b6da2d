-- ===== src/Sim/Planning/Payloads.antt =====
-- The payloads of the emits of a plan, against their model classes.
use omegahive.Base.{
  ℕ, String, ◌≡◌, refl, true, false, Option, none, some, List, [], ◌∷◌, arith, ◌==◌, ==_refl,
  member, ℤ, pos, negsuc,
}
use omegahive.Board.Totality.{HasModel}
use omegahive.Events.Envelope.{
  goal_received, task_created, dependency_added, worker_registered, priority_set,
}
use omegahive.Events.Json.{Json, text, end, field, Payload, get_field, as_int, as_json}
use omegahive.Events.Types.{
  text_kind, positive_kind, schema, all_texts, of_kind, field_fits, conforms,
}
use omegahive.Sim.Scenario.{
  TaskSpec, Priority, low, normal, high, priority_text, fits_join, int_or_null, texts_json,
  task_payload,
}

pub asked_join : (t : TaskSpec) → as_int (some (int_or_null t.ready_when)) ≡ t.ready_when
asked_join t = elim t.ready_when as (λ k. as_int (some (int_or_null k)) ≡ k) [
  | none ↦ refl
  | some k ↦ refl
]

-- The payload of a task is one that its model class takes, where its join fits.
texts_json-all : (ss : List String) → all_texts (texts_json ss) ≡ true
texts_json-all [] = refl
texts_json-all (s ∷ ss) = texts_json-all ss

may_text-fits :
    (k : String) (s : Option String)
    → field_fits (record { name = k; required = false; kind = text_kind }) (some (as_json s)) ≡ true
unfolding of_kind
may_text-fits k none = refl
may_text-fits k (some s) = refl

may_join-fits :
    (k : String) (j : Option ℤ) (n : ℕ)
    → fits_join j n ≡ true
    → field_fits
        (record { name = k; required = false; kind = positive_kind })
        (some (int_or_null j))
      ≡ true
unfolding of_kind
may_join-fits k none n h = refl
may_join-fits k (some (pos i)) n h = ground arith
may_join-fits k (some (negsuc i)) n h = absurd (ground arith)

pub task_payload-HasModel :
    (t : TaskSpec) (n : ℕ)
    → fits_join t.ready_when n ≡ true
    → HasModel task_created (task_payload t)
unfolding schema conforms of_kind get_field task_payload ◌==◌
task_payload-HasModel t n h =
    let acceptance = may_text-fits "acceptance" t.acceptance in
    let artifacts = texts_json-all t.required_artifacts in
    let join = may_join-fits "ready_when" t.ready_when n h in
    rw acceptance (rw artifacts (rw join refl))

pub priority-HasModel :
    (p : Priority) → HasModel priority_set (field "priority" (text (priority_text p)) end)
unfolding schema conforms of_kind get_field member ◌==◌
priority-HasModel low = refl
priority-HasModel normal = refl
priority-HasModel high = refl

pub worker-HasModel : (w : String) → HasModel worker_registered (field "worker_id" (text w) end)
unfolding schema conforms of_kind get_field ◌==◌
worker-HasModel w = refl

pub dependency-HasModel :
    (on : String) → HasModel dependency_added (field "depends_on" (text on) end)
unfolding schema conforms of_kind get_field ◌==◌
dependency-HasModel on = refl

pub sets : (k : String) (v : Json) (p : Payload) → get_field k (field k v p) ≡ some v
unfolding get_field
sets k v p = ground (arith, ==_refl k)

pub sets_join :
    (t : TaskSpec) → get_field "ready_when" (task_payload t) ≡ some (int_or_null t.ready_when)
unfolding get_field task_payload ◌==◌
sets_join t = refl

pub goal-HasModel : (goal : String) → HasModel goal_received (field "text" (text goal) end)
unfolding schema conforms of_kind get_field ◌==◌
goal-HasModel goal = refl
