-- ===== src/Board/Verdicts.antt =====
-- The review that the board keeps for a task, against the events of its history.
mod Judged
pub use Judged.*
use omegahive.Base.{
  String, ◌≡◌, refl, sym, ap, ◌∙◌, subst, inl, inr, true, Option, none, some, [], ◌∷◌, arith,
  ==_iff, is_some, opt_eq, Bool-cases, Option-cases, get, get-put, map_option, get-map_values,
}
use omegahive.Board.Legality.{
  new_task, e_created, e_dependency_added, e_priority_set, e_worker_registered, give, e_assigned,
  e_reassigned, moves, e_rejected, e_accepted, e_blocked, e_unblocked, e_result_posted,
  e_review_passed, e_review_failed, e_done, e_reopened, e_cancelled, e_failed, e_escalated,
  e_pruned, e_plan_cancel, task, from_state, LegalityRule, is_text, lookup,
}
use omegahive.Board.Reducer.{apply, derive_one, derive}
use omegahive.Board.Reducer.Readiness.{derive_one-Refreshed, get-derive}
use omegahive.Board.Reviewed.{History-AllReviewed}
use omegahive.Board.Soundness.{next, Steps, History-IsSound, verdict, History, start, IsSound}
use omegahive.Board.State.{in_review, done, cancelled, Review, TaskState, Board, is_status, change}
use omegahive.Board.Verdicts.Judged.{
  judge, judged, verdict_since, Agrees, on_task-Agrees, same-Agrees, one_text,
}
use omegahive.Events.Envelope.{
  EventType, task_created, dependency_added, worker_registered, priority_set, plan_revised,
  task_assigned, task_reassigned, task_escalated, task_status_override, task_pruned, task_accepted,
  task_rejected, task_blocked, task_unblocked, task_result_posted, task_failed, review_passed,
  review_failed, Event,
}
use omegahive.Events.Json.{get_text}

module _ (t : String) (b b' : Board) (ev : Event) (o : Option Review) (agrees : Agrees t b o)
    (sound : IsSound b) where
  created-Agrees :
      ev.event_type ≡ task_created
      → (id : Option String) → ev.task_id ≡ id
      → e_created b ev ≡ some b'
      → Agrees t b' (judged t ev o)
  unfolding e_created new_task opt_eq
  created-Agrees is none named e ts there = ground (arith, agrees ts)
  created-Agrees is (some j) named e ts there =
      ground (arith, get-put j t (change ev (new_task j ev)) b.tasks, ==_iff j t, agrees ts)

  cancelled_plan-Agrees :
      ev.event_type ≡ plan_revised → e_plan_cancel b ev ≡ some b' → Agrees t b' (judged t ev o)
  unfolding e_plan_cancel
  cancelled_plan-Agrees is e = same-Agrees t b b' ev o agrees (rw is refl) λ ts' there.
      elim (Option-cases (get t b.tasks)) [
        | inl absent ↦ absurd (
            ground (
              arith,
              get-map_values (λ (ts : TaskState). change ev (record ts { status = cancelled })) t
                  b.tasks,
            ))
        | inr (old, found) ↦ (
          old,
          found,
          ground (
            arith,
            get-map_values (λ (ts : TaskState). change ev (record ts { status = cancelled })) t
                b.tasks,
          ),
        )
      ]

  registered-Agrees :
      ev.event_type ≡ worker_registered
      → e_worker_registered b ev ≡ some b'
      → Agrees t b' (judged t ev o)
  unfolding e_worker_registered
  registered-Agrees is e = same-Agrees t b b' ev o agrees (rw is refl) λ ts' there.
      elim (Option-cases (get_text "worker_id" ev.payload)) [
        | inl no_text ↦ absurd (ground arith)
        | inr (w, given) ↦ (ts', ground arith, refl)
      ]

  unruled-Agrees :
      judge ev.event_type ev.payload o ≡ o → some b ≡ some b' → Agrees t b' (judged t ev o)
  unruled-Agrees idle e = same-Agrees t b b' ev o agrees idle λ ts' there. (ts', ground arith, refl)

  -- The gate lets through the reopening only of what is in review on the stored board too.
  reopened-Agrees :
      ev.event_type ≡ task_status_override
      → is_text "status" "reopened" ev.payload ≡ true
      → from_state (in_review ∷ []) (derive b) ev.actor ev.payload ev.task_id ≡ none
      → e_reopened b ev ≡ some b'
      → Agrees t b' (judged t ev o)
  unfolding from_state e_reopened moves task
  reopened-Agrees is opens g = on_task-Agrees t b b' ev o agrees _ λ j a c named found e.
      let same = get-derive b j sound.keys_once ∙ ap (map_option (derive_one b.tasks)) found in
      let status = (derive_one-Refreshed b.tasks a).status in ground (arith, same, status)

  override-Agrees :
      ev.event_type ≡ task_status_override
      → Steps b ev b' (lookup task_status_override ev.payload)
      → Agrees t b' (judged t ev o)
  unfolding lookup moves e_done e_cancelled
  override-Agrees is h = elim (Bool-cases (is_text "status" "reopened" ev.payload)) [
    | inl opens ↦ elim (Bool-cases (is_text "status" "done" ev.payload)) [
      | inl closes ↦ absurd (one_text ev.payload closes opens)
      | inr not_done ↦ let (g, e) = (rw (not_done, opens) at h) in reopened-Agrees is opens g e
    ]
    | inr not_reopened ↦ elim (Bool-cases (is_text "status" "done" ev.payload)) [
      | inl closes ↦
          on_task-Agrees t b b' ev o agrees _ (λ j a c named found x. ground arith)
            ((rw closes at h).1)
      | inr not_done ↦ elim (Bool-cases (is_text "status" "cancelled" ev.payload)) [
        | inl cancels ↦
            on_task-Agrees t b b' ev o agrees _ (λ j a c named found x. ground arith)
              ((rw (not_done, not_reopened, cancels) at h).1)
        | inr nothing ↦ unruled-Agrees (rw is (rw not_reopened refl)) (ground arith)
      ]
    ]
  ]

  plan-Agrees :
      ev.event_type ≡ plan_revised
      → Steps b ev b' (lookup plan_revised ev.payload)
      → Agrees t b' (judged t ev o)
  unfolding lookup
  plan-Agrees is h = elim (Bool-cases (is_text "action" "cancel" ev.payload)) [
    | inl cancels ↦ cancelled_plan-Agrees is ((rw cancels at h).1)
    | inr keeps ↦ unruled-Agrees (rw is refl) (ground arith)
  ]

  -- Every other rule leaves the review of its task, and a review is what its event gives.
  step-Agrees :
      (k : EventType)
      → ev.event_type ≡ k
      → Steps b ev b' (lookup k ev.payload)
      → Agrees t b' (judged t ev o)
  unfolding lookup moves e_priority_set e_rejected e_accepted e_blocked e_unblocked e_result_posted
      e_review_passed e_review_failed e_failed e_escalated e_pruned e_dependency_added e_assigned
      e_reassigned give
  step-Agrees task_created is (g, e) = created-Agrees is ev.task_id refl e
  step-Agrees worker_registered is (g, e) = registered-Agrees is e
  step-Agrees plan_revised is h = plan-Agrees is h
  step-Agrees task_status_override is h = override-Agrees is h
  step-Agrees dependency_added is (g, e) =
      on_task-Agrees t b b' ev o agrees _ (λ j a c named found x. ground arith) e
  step-Agrees task_assigned is (g, e) =
      on_task-Agrees t b b' ev o agrees _ (λ j a c named found x. ground arith) e
  step-Agrees task_reassigned is (g, e) =
      on_task-Agrees t b b' ev o agrees _ (λ j a c named found x. ground arith) e
  step-Agrees priority_set is (g, e) =
      on_task-Agrees t b b' ev o agrees _ (λ j a c named found x. ground arith) e
  step-Agrees task_rejected is (g, e) =
      on_task-Agrees t b b' ev o agrees _ (λ j a c named found x. ground arith) e
  step-Agrees task_accepted is (g, e) =
      on_task-Agrees t b b' ev o agrees _ (λ j a c named found x. ground arith) e
  step-Agrees task_blocked is (g, e) =
      on_task-Agrees t b b' ev o agrees _ (λ j a c named found x. ground arith) e
  step-Agrees task_unblocked is (g, e) =
      on_task-Agrees t b b' ev o agrees _ (λ j a c named found x. ground arith) e
  step-Agrees task_result_posted is (g, e) =
      on_task-Agrees t b b' ev o agrees _ (λ j a c named found x. ground arith) e
  step-Agrees review_passed is (g, e) =
      on_task-Agrees t b b' ev o agrees _ (λ j a c named found x. ground arith) e
  step-Agrees review_failed is (g, e) =
      on_task-Agrees t b b' ev o agrees _ (λ j a c named found x. ground arith) e
  step-Agrees task_failed is (g, e) =
      on_task-Agrees t b b' ev o agrees _ (λ j a c named found x. ground arith) e
  step-Agrees task_escalated is (g, e) =
      on_task-Agrees t b b' ev o agrees _ (λ j a c named found x. ground arith) e
  step-Agrees task_pruned is (g, e) =
      on_task-Agrees t b b' ev o agrees _ (λ j a c named found x. ground arith) e
  step-Agrees (EventType.other k) is e = unruled-Agrees (rw is refl) (ground arith)
  step-Agrees _ is e = unruled-Agrees (rw is refl) (ground arith)

apply-Agrees :
    (t : String) (b b' : Board) (ev : Event) (o : Option Review)
    → Agrees t b o
    → IsSound b
    → verdict b ev ≡ none
    → apply b ev ≡ some b'
    → Agrees t b' (judged t ev o)
unfolding apply
apply-Agrees t b b' ev o agrees sound v e = by_rule (lookup ev.event_type ev.payload) refl
  where
    by_rule :
        (r : Option LegalityRule)
        → lookup ev.event_type ev.payload ≡ r
        → Agrees t b' (judged t ev o)
    by_rule none found =
        step-Agrees t b b' ev o agrees sound ev.event_type refl
          (subst (Steps b ev b') (sym found) (ground arith))
    by_rule (some r) found =
        step-Agrees t b b' ev o agrees sound ev.event_type refl
          (subst (Steps b ev b') (sym found) (ground arith, ground arith))

History-Agrees : (t : String) {b : Board} (h : History b) → Agrees t b (verdict_since t h)
unfolding get
History-Agrees t start = λ ts there. absurd (cc)
History-Agrees t (next {b} ev b' h v e) =
    apply-Agrees t b b' ev (verdict_since t h) (History-Agrees t h) (History-IsSound h) v e

-- On every board that accepted events produce, the review that a task holds is the last one that the
-- events give since its latest result, creation or reopening, and none where they give none; and a
-- task that is done has one.
pub History-verdict_since :
    {b : Board} (h : History b) (t : String) (ts : TaskState)
    → get t b.tasks ≡ some ts
    → (ts.latest_review ≡ verdict_since t h)
      × (is_status ts.status done ≡ true → is_some (verdict_since t h) ≡ true)
History-verdict_since h t ts there =
    let agrees = History-Agrees t h ts there in
    let reviewed = (History-AllReviewed h).at t ts there in (agrees, λ closed. ground arith)
