-- ===== src/Board/Reviewed.antt =====
-- The reviews of the tasks that are done.
use omegahive.Base.{
  String, ◌≡◌, refl, sym, ap, ◌∙◌, subst, inl, inr, Bool, true, ◌||◌, not, Option, none, some,
  arith, ==_iff, is_some, Bool-cases, Option-cases, add, get, get-put, map_values, map_option,
  get-map_values,
}
use omegahive.Board.Legality.{
  put_task, on_task, new_task, e_created, e_dependency_added, e_priority_set, e_worker_registered,
  give, e_assigned, e_reassigned, moves, e_rejected, e_accepted, e_blocked, e_unblocked,
  e_result_posted, e_review_passed, e_review_failed, e_done, e_reopened, e_cancelled, e_failed,
  e_escalated, e_pruned, e_plan_cancel, task, g_done, LegalityRule, is_text, lookup,
}
use omegahive.Board.Reducer.{apply, derive_one, derive}
use omegahive.Board.Reducer.Readiness.{derive_one-Refreshed, get-derive}
use omegahive.Board.Soundness.{next, Steps, History-IsSound, verdict, History, start, IsSound}
use omegahive.Board.State.{done, cancelled, TaskState, Board, is_status, change}
use omegahive.Events.Envelope.{
  EventType, task_created, dependency_added, worker_registered, priority_set, plan_revised,
  task_assigned, task_reassigned, task_escalated, task_status_override, task_pruned, task_accepted,
  task_rejected, task_blocked, task_unblocked, task_result_posted, task_failed, review_passed,
  review_failed, Event,
}
use omegahive.Events.Json.{get_text}

-- A task that is done has a review.
abbrev pub is_reviewed : TaskState → Bool
is_reviewed ts = not (is_status ts.status done) || is_some ts.latest_review

pub record AllReviewed (b : Board) : Type 0 where
  pub at : (t : String) (ts : TaskState) → get t b.tasks ≡ some ts → is_reviewed ts ≡ true

abbrev KeepsReviewed : (TaskState → Option TaskState) → Type 0
KeepsReviewed f = (a c : TaskState) → f a ≡ some c → is_reviewed a ≡ true → is_reviewed c ≡ true

put-AllReviewed :
    (b : Board) (t : String) (ts : TaskState)
    → AllReviewed b
    → is_reviewed ts ≡ true
    → AllReviewed (put_task t ts b)
put-AllReviewed b t ts all h = record {
  at = λ j u e. ground (arith, get-put t j ts b.tasks, ==_iff t j, all.at j u);
}

-- An effect on the event's task, which may use that the board has that task.
on_task-AllReviewed :
    (f : TaskState → Option TaskState) (b b' : Board) (ev : Event)
    → AllReviewed b
    → ((t : String) (a c : TaskState)
        → ev.task_id ≡ some t
        → get t b.tasks ≡ some a
        → f a ≡ some c
        → is_reviewed a ≡ true
        → is_reviewed c ≡ true)
    → on_task f b ev ≡ some b'
    → AllReviewed b'
unfolding on_task
on_task-AllReviewed f b b' ev all keeps e = elim (Option-cases ev.task_id) [
  | inl no_task ↦ subst AllReviewed (ground arith) all
  | inr (t, named) ↦ elim (Option-cases (get t b.tasks)) [
    | inl absent ↦ subst AllReviewed (ground arith) all
    | inr (a, found) ↦ elim (Option-cases (f a)) [
      | inl fails ↦ absurd (ground arith)
      | inr (c, gives) ↦
          subst AllReviewed (ground arith)
            (put-AllReviewed b t c all (keeps t a c named found gives (all.at t a found)))
    ]
  ]
]

module _ (b b' : Board) (ev : Event) (all : AllReviewed b) (sound : IsSound b) where
  kept :
      (f : TaskState → Option TaskState)
      → KeepsReviewed f
      → on_task f b ev ≡ some b'
      → AllReviewed b'
  kept f keeps = on_task-AllReviewed f b b' ev all (λ t a c named found. keeps a c)

  -- The gate closes only what has a passed review.
  done-AllReviewed :
      g_done (derive b) ev.actor ev.payload ev.task_id ≡ none
      → e_done b ev ≡ some b'
      → AllReviewed b'
  unfolding g_done e_done moves task
  done-AllReviewed g = on_task-AllReviewed _ b b' ev all λ t a c named found e r.
      let same = get-derive b t sound.keys_once ∙ ap (map_option (derive_one b.tasks)) found in
      let review = (derive_one-Refreshed b.tasks a).latest_review in ground (arith, same, review)

  created-AllReviewed :
      (id : Option String) → ev.task_id ≡ id → e_created b ev ≡ some b' → AllReviewed b'
  unfolding e_created new_task
  created-AllReviewed none named e = subst AllReviewed (ground arith) all
  created-AllReviewed (some t) named e =
      subst AllReviewed (ground arith) (put-AllReviewed b t (change ev (new_task t ev)) all refl)

  cancelled_plan-AllReviewed : e_plan_cancel b ev ≡ some b' → AllReviewed b'
  unfolding e_plan_cancel
  cancelled_plan-AllReviewed e = subst AllReviewed (ground arith) (
      let f = λ (ts : TaskState). change ev (record ts { status = cancelled }) in
      let swept : AllReviewed (record b { tasks = map_values f b.tasks }) = record {
        at = λ t ts x. elim (Option-cases (get t b.tasks)) [
          | inl absent ↦ absurd (ground (arith, get-map_values f t b.tasks))
          | inr (old, found) ↦ ground (arith, get-map_values f t b.tasks)
        ];
      } in
      swept)

  registered-AllReviewed : e_worker_registered b ev ≡ some b' → AllReviewed b'
  unfolding e_worker_registered
  registered-AllReviewed e = elim (Option-cases (get_text "worker_id" ev.payload)) [
    | inl no_text ↦ absurd (ground arith)
    | inr (w, given) ↦ subst AllReviewed (ground arith) (
        let grown : AllReviewed (record b { roster = add w b.roster }) = record { at = all.at } in
        grown)
  ]

  override-AllReviewed : Steps b ev b' (lookup task_status_override ev.payload) → AllReviewed b'
  unfolding lookup moves e_reopened e_cancelled
  override-AllReviewed h = elim (Bool-cases (is_text "status" "done" ev.payload)) [
    | inl closes ↦ let (g, e) = (rw closes at h) in done-AllReviewed g e
    | inr not_done ↦ elim (Bool-cases (is_text "status" "reopened" ev.payload)) [
      | inl opens ↦ kept _ (λ a c w r. ground arith) ((rw (not_done, opens) at h).1)
      | inr not_reopened ↦ elim (Bool-cases (is_text "status" "cancelled" ev.payload)) [
        | inl cancels ↦
            kept _ (λ a c w r. ground arith) ((rw (not_done, not_reopened, cancels) at h).1)
        | inr nothing ↦ subst AllReviewed (ground arith) all
      ]
    ]
  ]

  plan-AllReviewed : Steps b ev b' (lookup plan_revised ev.payload) → AllReviewed b'
  unfolding lookup
  plan-AllReviewed h = elim (Bool-cases (is_text "action" "cancel" ev.payload)) [
    | inl cancels ↦ cancelled_plan-AllReviewed ((rw cancels at h).1)
    | inr keeps ↦ subst AllReviewed (ground arith) all
  ]

  -- Effects that do not close a task and leave no done task without its review.
  step-AllReviewed : (k : EventType) → Steps b ev b' (lookup k ev.payload) → AllReviewed b'
  unfolding lookup moves e_priority_set e_rejected e_accepted e_blocked e_unblocked e_result_posted
      e_review_passed e_review_failed e_failed e_escalated e_pruned e_dependency_added e_assigned
      e_reassigned give
  step-AllReviewed task_created (g, e) = created-AllReviewed ev.task_id refl e
  step-AllReviewed worker_registered (g, e) = registered-AllReviewed e
  step-AllReviewed plan_revised h = plan-AllReviewed h
  step-AllReviewed task_status_override h = override-AllReviewed h
  step-AllReviewed dependency_added (g, e) = kept _ (λ a c w r. ground arith) e
  step-AllReviewed task_assigned (g, e) = kept _ (λ a c w r. ground arith) e
  step-AllReviewed task_reassigned (g, e) = kept _ (λ a c w r. ground arith) e
  step-AllReviewed priority_set (g, e) = kept _ (λ a c w r. ground arith) e
  step-AllReviewed task_rejected (g, e) = kept _ (λ a c w r. ground arith) e
  step-AllReviewed task_accepted (g, e) = kept _ (λ a c w r. ground arith) e
  step-AllReviewed task_blocked (g, e) = kept _ (λ a c w r. ground arith) e
  step-AllReviewed task_unblocked (g, e) = kept _ (λ a c w r. ground arith) e
  step-AllReviewed task_result_posted (g, e) = kept _ (λ a c w r. ground arith) e
  step-AllReviewed review_passed (g, e) = kept _ (λ a c w r. ground arith) e
  step-AllReviewed review_failed (g, e) = kept _ (λ a c w r. ground arith) e
  step-AllReviewed task_failed (g, e) = kept _ (λ a c w r. ground arith) e
  step-AllReviewed task_escalated (g, e) = kept _ (λ a c w r. ground arith) e
  step-AllReviewed task_pruned (g, e) = kept _ (λ a c w r. ground arith) e
  step-AllReviewed (EventType.other t) e = subst AllReviewed (ground arith) all
  step-AllReviewed _ e = subst AllReviewed (ground arith) all

-- An accepted event leaves every done task reviewed.
apply-AllReviewed :
    (b b' : Board) (ev : Event)
    → AllReviewed b
    → IsSound b
    → verdict b ev ≡ none
    → apply b ev ≡ some b'
    → AllReviewed b'
unfolding apply
apply-AllReviewed b b' ev all sound v e = by_rule (lookup ev.event_type ev.payload) refl
  where
    by_rule : (r : Option LegalityRule) → lookup ev.event_type ev.payload ≡ r → AllReviewed b'
    by_rule none found =
        step-AllReviewed b b' ev all sound ev.event_type
          (subst (Steps b ev b') (sym found) (ground arith))
    by_rule (some r) found =
        step-AllReviewed b b' ev all sound ev.event_type
          (subst (Steps b ev b') (sym found) (ground arith, ground arith))

-- On every board that accepted events produce, a task that is done has a review.
pub History-AllReviewed : {b : Board} → History b → AllReviewed b
unfolding get
History-AllReviewed start = record { at = λ t ts e. absurd (cc) }
History-AllReviewed (next {b} ev b' h v e) =
    apply-AllReviewed b b' ev (History-AllReviewed h) (History-IsSound h) v e
