-- ===== src/Board/Soundness.antt =====
-- What holds of every board that accepted events can produce.
mod Sound
pub use Sound.*
use omegahive.Base.{
  String, ◌≡◌, refl, sym, subst, inl, inr, true, Option, none, some, arith, Bool-cases,
  Option-cases, keys-map_values, member, add, member-add, IsDistinct-add, get, keys, map_values,
  get-map_values,
}
use omegahive.Board.Legality.{
  on_task, new_task, e_created, e_dependency_added, e_priority_set, e_worker_registered, e_assigned,
  e_reassigned, moves, e_rejected, e_accepted, e_blocked, e_unblocked, e_result_posted,
  e_review_passed, e_review_failed, e_done, e_reopened, e_cancelled, e_failed, e_escalated,
  e_pruned, e_plan_cancel, g_known_worker, g_assigned, one_of, reassignable, g_reassigned,
  LegalityRule, is_text, lookup,
}
use omegahive.Board.Reducer.{apply, derive}
use omegahive.Board.State.{cancelled, TaskState, Board, stamp, change}
use omegahive.Events.Envelope.{
  EventType, task_created, dependency_added, worker_registered, priority_set, plan_revised,
  task_assigned, task_reassigned, task_escalated, task_status_override, task_pruned, task_accepted,
  task_rejected, task_blocked, task_unblocked, task_result_posted, task_failed, review_passed,
  review_failed, Event,
}
use omegahive.Events.Json.{get_text}

module _ (b b' : Board) (ev : Event) (s : IsSound b) where
  unmoved : (f : TaskState → Option TaskState) → Unmoved f → on_task f b ev ≡ some b' → IsSound b'
  unmoved f h = on_task-IsSound f b b' ev s λ a c e sound.
      let (deps, tried, owner) = h a c e in IsSoundTask-same b.roster a c deps tried owner sound

  created-IsSound : (id : Option String) → ev.task_id ≡ id → e_created b ev ≡ some b' → IsSound b'
  unfolding e_created new_task
  created-IsSound none named e = subst IsSound (ground arith) s
  created-IsSound (some t) named e = subst IsSound (ground arith) (
      put-IsSound b t (change ev (new_task t ev)) s
        (record { once = tt; known = λ w x. absurd (cc); tried = λ w x. absurd (cc) }))

  dependency-IsSound : e_dependency_added b ev ≡ some b' → IsSound b'
  unfolding e_dependency_added
  dependency-IsSound = on_task-IsSound _ b b' ev s λ a c e sound.
      elim (Option-cases (get_text "depends_on" ev.payload)) [
        | inl no_text ↦ absurd (ground arith)
        | inr (d, given) ↦ subst (IsSoundTask b.roster) (ground arith) (
            let added : TaskState = stamp ev (record a { depends_on = add d a.depends_on }) in
            let kept : IsSoundTask b.roster added = record {
              once = IsDistinct-add d a.depends_on sound.once;
              known = sound.known;
              tried = sound.tried;
            } in
            kept)
      ]

  registered-IsSound : e_worker_registered b ev ≡ some b' → IsSound b'
  unfolding e_worker_registered
  registered-IsSound e = elim (Option-cases (get_text "worker_id" ev.payload)) [
    | inl no_text ↦ absurd (ground arith)
    | inr (w, given) ↦ subst IsSound (ground arith) (
        let grown : IsSound (record b { roster = add w b.roster }) = record {
          keys_once = s.keys_once;
          at = λ t ts x.
              let sound = s.at t ts x in
              record {
                once = sound.once;
                known = λ o y. ground (arith, sound.known o, member-add o w b.roster);
                tried = sound.tried;
              };
        } in
        grown)
  ]

  cancelled_plan-IsSound : e_plan_cancel b ev ≡ some b' → IsSound b'
  unfolding e_plan_cancel
  cancelled_plan-IsSound e = subst IsSound (ground arith) (
      let f = λ (ts : TaskState). change ev (record ts { status = cancelled }) in
      let swept : IsSound (record b { tasks = map_values f b.tasks }) = record {
        keys_once = rw (keys-map_values f b.tasks) s.keys_once;
        at = λ t ts x. elim (Option-cases (get t b.tasks)) [
          | inl absent ↦ absurd (ground (arith, get-map_values f t b.tasks))
          | inr (old, found) ↦
              IsSoundTask-same b.roster old ts (ground (arith, get-map_values f t b.tasks))
                (ground (arith, get-map_values f t b.tasks))
                (ground (arith, get-map_values f t b.tasks)) (s.at t old found)
        ];
      } in
      swept)

  -- What the guards of the two give-aways say of the worker.
  known_worker :
      (w : Option String)
      → g_known_worker (derive b) w ≡ none
      → (x : String) × (w ≡ some x) × (member x b.roster ≡ true)
  unfolding g_known_worker derive
  known_worker none h = absurd (cc)
  known_worker (some w) h = (w, refl, ground arith)

  assigned-IsSound :
      g_assigned (derive b) ev.actor ev.payload ev.task_id ≡ none
      → e_assigned b ev ≡ some b'
      → IsSound b'
  unfolding g_assigned e_assigned
  assigned-IsSound g =
      let (w, given, on) = known_worker (get_text "worker" ev.payload) (ground arith) in
      on_task-IsSound _ b b' ev s λ a c e sound.
        subst (IsSoundTask b.roster) (ground arith) (IsSoundTask-give b.roster ev w a on sound)

  reassigned-IsSound :
      g_reassigned (derive b) ev.actor ev.payload ev.task_id ≡ none
      → e_reassigned b ev ≡ some b'
      → IsSound b'
  unfolding g_reassigned e_reassigned
  reassigned-IsSound g =
      let (w, given, on) = known_worker (get_text "to" ev.payload) (ground arith) in
      on_task-IsSound _ b b' ev s λ a c e sound. elim (Bool-cases (one_of reassignable a.status)) [
        | inl moves_on ↦
            subst (IsSoundTask b.roster) (ground arith) (IsSoundTask-give b.roster ev w a on sound)
        | inr stays ↦ subst (IsSoundTask b.roster) (ground arith) sound
      ]

-- One turn of the fold, for the rule that fits the event.
abbrev pub Steps : Board → Event → Board → Option LegalityRule → Type 0
Steps b ev b' none = some b ≡ some b'
Steps b ev b' (some r) =
    (r.guard (derive b) ev.actor ev.payload ev.task_id ≡ none) × (r.effect b ev ≡ some b')

module _ (b b' : Board) (ev : Event) (s : IsSound b) where
  override-IsSound : Steps b ev b' (lookup task_status_override ev.payload) → IsSound b'
  unfolding lookup moves e_done e_reopened e_cancelled
  override-IsSound h = elim (Bool-cases (is_text "status" "done" ev.payload)) [
    | inl closes ↦ unmoved b b' ev s _ (λ a c w. ground arith) ((rw closes at h).1)
    | inr not_done ↦ elim (Bool-cases (is_text "status" "reopened" ev.payload)) [
      | inl opens ↦ unmoved b b' ev s _ (λ a c w. ground arith) ((rw (not_done, opens) at h).1)
      | inr not_reopened ↦ elim (Bool-cases (is_text "status" "cancelled" ev.payload)) [
        | inl cancels ↦
            unmoved b b' ev s _ (λ a c w. ground arith)
              ((rw (not_done, not_reopened, cancels) at h).1)
        | inr nothing ↦ subst IsSound (ground arith) s
      ]
    ]
  ]

  plan-IsSound : Steps b ev b' (lookup plan_revised ev.payload) → IsSound b'
  unfolding lookup
  plan-IsSound h = elim (Bool-cases (is_text "action" "cancel" ev.payload)) [
    | inl cancels ↦ cancelled_plan-IsSound b b' ev s ((rw cancels at h).1)
    | inr keeps ↦ subst IsSound (ground arith) s
  ]

  step-IsSound : (k : EventType) → Steps b ev b' (lookup k ev.payload) → IsSound b'
  unfolding lookup moves e_priority_set e_rejected e_accepted e_blocked e_unblocked e_result_posted
      e_review_passed e_review_failed e_failed e_escalated e_pruned
  step-IsSound task_created (g, e) = created-IsSound b b' ev s ev.task_id refl e
  step-IsSound dependency_added (g, e) = dependency-IsSound b b' ev s e
  step-IsSound worker_registered (g, e) = registered-IsSound b b' ev s e
  step-IsSound plan_revised h = plan-IsSound h
  step-IsSound task_assigned (g, e) = assigned-IsSound b b' ev s g e
  step-IsSound task_reassigned (g, e) = reassigned-IsSound b b' ev s g e
  step-IsSound task_status_override h = override-IsSound h
  step-IsSound priority_set (g, e) = unmoved b b' ev s _ (λ a c w. ground arith) e
  step-IsSound task_rejected (g, e) = unmoved b b' ev s _ (λ a c w. ground arith) e
  step-IsSound task_accepted (g, e) = unmoved b b' ev s _ (λ a c w. ground arith) e
  step-IsSound task_blocked (g, e) = unmoved b b' ev s _ (λ a c w. ground arith) e
  step-IsSound task_unblocked (g, e) = unmoved b b' ev s _ (λ a c w. ground arith) e
  step-IsSound task_result_posted (g, e) = unmoved b b' ev s _ (λ a c w. ground arith) e
  step-IsSound review_passed (g, e) = unmoved b b' ev s _ (λ a c w. ground arith) e
  step-IsSound review_failed (g, e) = unmoved b b' ev s _ (λ a c w. ground arith) e
  step-IsSound task_failed (g, e) = unmoved b b' ev s _ (λ a c w. ground arith) e
  step-IsSound task_escalated (g, e) = unmoved b b' ev s _ (λ a c w. ground arith) e
  step-IsSound task_pruned (g, e) = unmoved b b' ev s _ (λ a c w. ground arith) e
  step-IsSound (EventType.other t) e = subst IsSound (ground arith) s
  step-IsSound _ e = subst IsSound (ground arith) s

-- An accepted event keeps the board sound.
pub apply-IsSound :
    (b b' : Board) (ev : Event)
    → IsSound b
    → verdict b ev ≡ none
    → apply b ev ≡ some b'
    → IsSound b'
unfolding apply
apply-IsSound b b' ev s v e = by_rule (lookup ev.event_type ev.payload) refl
  where
    by_rule : (r : Option LegalityRule) → lookup ev.event_type ev.payload ≡ r → IsSound b'
    by_rule none found =
        step-IsSound b b' ev s ev.event_type (subst (Steps b ev b') (sym found) (ground arith))
    by_rule (some r) found =
        step-IsSound b b' ev s ev.event_type
          (subst (Steps b ev b') (sym found) (ground arith, ground arith))

-- On every board that accepted events produce, each task id and each dependency stands once, and
-- the owner of a task is a registered worker who is among those that were given the task.
pub History-IsSound : {b : Board} → History b → IsSound b
unfolding keys get
History-IsSound start = record { keys_once = tt; at = λ t ts e. absurd (cc) }
History-IsSound (next {b} ev b' h v e) = apply-IsSound b b' ev (History-IsSound h) v e
