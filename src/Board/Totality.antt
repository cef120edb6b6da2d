-- ===== src/Board/Totality.antt =====
-- An event whose payload conforms to its model class can always be folded.
use omegahive.Base.{
  String, ◌≡◌, refl, inl, inr, Bool, true, false, Option, none, some, List, [], ◌∷◌, arith, leb,
  is_some, Bool-cases, Option-cases, insert, sort, sort_by, get,
}
use omegahive.Board.Legality.{
  on_task, e_created, e_dependency_added, e_priority_set, e_worker_registered, e_assigned,
  e_reassigned, moves, e_rejected, e_accepted, e_blocked, e_unblocked, e_result_posted,
  e_review_passed, e_review_failed, e_done, e_reopened, e_cancelled, e_failed, e_escalated,
  e_pruned, e_plan_cancel, is_text, lookup,
}
use omegahive.Board.Reducer.{apply, replay, seq_or_zero, derive, fold}
use omegahive.Board.State.{TaskState, Board, empty}
use omegahive.Events.Envelope.{
  EventType, task_created, dependency_added, worker_registered, priority_set, plan_revised,
  task_assigned, task_reassigned, task_escalated, task_status_override, task_pruned, task_accepted,
  task_rejected, task_blocked, task_unblocked, task_result_posted, task_failed, review_passed,
  review_failed, Event,
}
use omegahive.Events.Json.{
  Json, text, arr, nil, cons, Payload, get_field, as_text, get_text, ref_of, head_ref, first_ref,
}
use omegahive.Events.Types.{
  text_kind, refs_kind, literal, schema, all_refs, of_kind, field_fits, conforms,
}

-- The payload has the fields that the model class of the type declares.
abbrev pub HasModel : EventType → Payload → Type 0
HasModel t p = (elim (schema t) [ none ↦ false | some fs ↦ conforms fs p ]) ≡ true

-- A required text is there.
text-required :
    (k : String) (p : Payload)
    → field_fits (record { name = k; required = true; kind = text_kind }) (get_field k p) ≡ true
    → is_some (get_text k p) ≡ true
unfolding get_text of_kind
text-required k p h = text_at (get_field k p) h
  where
    text_at :
        (j : Option Json)
        → field_fits (record { name = k; required = true; kind = text_kind }) j ≡ true
        → is_some (as_text j) ≡ true
    text_at (some (text s)) h = refl
    text_at none h = absurd (ground arith)
    text_at (some _) h = absurd (ground arith)

literal-required :
    (k : String) (ls : List String) (p : Payload)
    → field_fits (record { name = k; required = true; kind = literal ls }) (get_field k p) ≡ true
    → is_some (get_text k p) ≡ true
unfolding get_text of_kind
literal-required k ls p h = text_at (get_field k p) h
  where
    text_at :
        (j : Option Json)
        → field_fits (record { name = k; required = true; kind = literal ls }) j ≡ true
        → is_some (as_text j) ≡ true
    text_at (some (text s)) h = refl
    text_at none h = absurd (ground arith)
    text_at (some _) h = absurd (ground arith)

-- A required list of references has a first one, or is empty.
refs-required :
    (k : String) (p : Payload)
    → field_fits (record { name = k; required = true; kind = refs_kind }) (get_field k p) ≡ true
    → is_some (head_ref (get_field k p)) ≡ true
unfolding of_kind all_refs
refs-required k p h = refs_at (get_field k p) h
  where
    refs_at :
        (j : Option Json)
        → field_fits (record { name = k; required = true; kind = refs_kind }) j ≡ true
        → is_some (head_ref j) ≡ true
    refs_at (some (arr nil)) h = refl
    refs_at (some (arr (cons j js))) h = elim (Option-cases (ref_of j)) [
      | inl bad ↦ absurd (ground arith)
      | inr (r, is_ref_of) ↦ rw is_ref_of refl
    ]
    refs_at none h = absurd (ground arith)
    refs_at (some _) h = absurd (ground arith)

module _ (b : Board) (ev : Event) where
  on_task-some :
      (f : TaskState → Option TaskState)
      → ((here : TaskState) → is_some (f here) ≡ true)
      → is_some (on_task f b ev) ≡ true
  unfolding on_task
  on_task-some f h = elim (Option-cases ev.task_id) [
    | inl no_task ↦ rw no_task refl
    | inr (t, named) ↦ elim (Option-cases (get t b.tasks)) [
      | inl absent ↦ ground arith
      | inr (here, found) ↦ elim (Option-cases (f here)) [
        | inl fails ↦ absurd (ground (arith, h here))
        | inr (there, gives) ↦ ground arith
      ]
    ]
  ]

  abbrev CanApply : EventType → Type 0
  CanApply t =
      is_some (elim (lookup t ev.payload) [ none ↦ some b | some r ↦ r.effect b ev ]) ≡ true

  can-apply : (t : EventType) → HasModel t ev.payload → CanApply t
  unfolding lookup schema conforms e_created e_dependency_added e_worker_registered e_priority_set
      e_assigned e_reassigned moves e_rejected e_accepted e_blocked e_unblocked e_result_posted
      e_review_passed e_review_failed e_done e_reopened e_cancelled e_failed e_escalated e_pruned
      e_plan_cancel first_ref
  can-apply task_created h = elim (Option-cases ev.task_id) [
    | inl no_task ↦ rw no_task refl
    | inr (t, named) ↦ rw named refl
  ]
  can-apply dependency_added h =
      let given = text-required "depends_on" ev.payload (ground arith) in
      on_task-some _ (λ here. ground (arith, given))
  can-apply worker_registered h =
      let given = text-required "worker_id" ev.payload (ground arith) in ground (arith, given)
  can-apply priority_set h =
      let given =
        literal-required "priority" ("low" ∷ "normal" ∷ "high" ∷ []) ev.payload (ground arith) in
      on_task-some _ (λ here. ground (arith, given))
  can-apply task_assigned h =
      let given = text-required "worker" ev.payload (ground arith) in
      on_task-some _ (λ here. ground (arith, given))
  can-apply task_reassigned h =
      let given = text-required "to" ev.payload (ground arith) in
      on_task-some _ (λ here. ground (arith, given))
  can-apply task_blocked h =
      let given = text-required "reason" ev.payload (ground arith) in
      on_task-some _ (λ here. ground (arith, given))
  can-apply task_result_posted h =
      let given = refs-required "artifact_refs" ev.payload (ground arith) in
      on_task-some _ (λ here. ground (arith, given))
  can-apply task_rejected h = on_task-some _ (λ here. refl)
  can-apply task_accepted h = on_task-some _ (λ here. refl)
  can-apply task_unblocked h = on_task-some _ (λ here. refl)
  can-apply review_passed h = on_task-some _ (λ here. refl)
  can-apply review_failed h = on_task-some _ (λ here. refl)
  can-apply task_failed h = on_task-some _ (λ here. refl)
  can-apply task_escalated h = on_task-some _ (λ here. refl)
  can-apply task_pruned h = on_task-some _ (λ here. refl)
  can-apply task_status_override h = elim (Bool-cases (is_text "status" "done" ev.payload)) [
    | inl closes ↦ rw closes (on_task-some _ (λ here. refl))
    | inr stays ↦ elim (Bool-cases (is_text "status" "reopened" ev.payload)) [
      | inl reopens ↦ rw (stays, reopens) (on_task-some _ (λ here. refl))
      | inr open_still ↦ elim (Bool-cases (is_text "status" "cancelled" ev.payload)) [
        | inl cancels ↦ rw (stays, open_still, cancels) (on_task-some _ (λ here. refl))
        | inr other_text ↦ rw (stays, open_still, other_text) refl
      ]
    ]
  ]
  can-apply plan_revised h = elim (Bool-cases (is_text "action" "cancel" ev.payload)) [
    | inl cancels ↦ rw cancels refl
    | inr keeps ↦ rw keeps refl
  ]
  can-apply (EventType.other t) h = refl
  can-apply _ h = refl

abbrev pub EachHasModel : List Event → Type 0
EachHasModel [] = Unit {0}
EachHasModel (ev ∷ evs) = HasModel ev.event_type ev.payload × EachHasModel evs

insert-EachHasModel :
    (le : Event → Event → Bool) (ev : Event) (evs : List Event)
    → HasModel ev.event_type ev.payload
    → EachHasModel evs
    → EachHasModel (insert le ev evs)
unfolding insert
insert-EachHasModel le ev [] h hs = (h, tt)
insert-EachHasModel le ev (e ∷ evs) h (l, hs) = elim (Bool-cases (le ev e)) [
  | inl before ↦ rw before (h, (l, hs))
  | inr after ↦ rw after (l, insert-EachHasModel le ev evs h hs)
]

sort-EachHasModel :
    (le : Event → Event → Bool) (evs : List Event) → EachHasModel evs → EachHasModel (sort le evs)
unfolding sort
sort-EachHasModel le [] h = tt
sort-EachHasModel le (ev ∷ evs) (h, hs) =
    insert-EachHasModel le ev (sort le evs) h (sort-EachHasModel le evs hs)

replay-some :
    (b : Board) (evs : List Event) → EachHasModel evs → (b' : Board) × (replay b evs ≡ some b')
unfolding replay apply
replay-some b [] h = (b, refl)
replay-some b (ev ∷ evs) (h, hs) = elim (Option-cases (apply b ev)) [
  | inl fails ↦ absurd (ground (arith, can-apply b ev ev.event_type h))
  | inr (b', moved) ↦ let (last, replayed) = replay-some b' evs hs in (last, rw moved replayed)
]

-- The fold of events whose payloads have the fields of their model classes raises nothing: it ends
-- with a board.
pub fold-some : (evs : List Event) → EachHasModel evs → (b : Board) × (fold evs ≡ some b)
unfolding fold sort_by
fold-some evs h =
    let (b, replayed) =
      replay-some empty (sort_by seq_or_zero evs)
        (sort-EachHasModel (λ a c. leb (seq_or_zero a) (seq_or_zero c)) evs h) in
    (derive b, rw replayed refl)
