-- ===== src/Board/Agreement.antt =====
-- The gate judges the board after the readiness pass, and the fold changes the board before it:
-- an event that passes the gate moves its task all the same.
mod Stored
pub use Stored.*
use omegahive.Base.{
  String, ◌≡◌, refl, sym, ◌∙◌, subst, inl, inr, Bool, true, false, Option, none, some, [], ◌∷◌,
  arith, Bool-cases, IsDistinct, keys, get-put_self,
}
use omegahive.Board.Legality.{
  new_task, e_created, e_dependency_added, e_priority_set, give, e_assigned, e_reassigned, moves,
  e_rejected, e_accepted, e_blocked, e_unblocked, e_result_posted, e_review_passed, e_review_failed,
  e_done, e_reopened, e_cancelled, e_failed, e_escalated, e_pruned, g_created, LegalityRule,
  is_text, lookup,
}
use omegahive.Board.Reducer.{apply, derive}
use omegahive.Board.State.{assigned, in_progress, blocked, in_review, Board, change}
use omegahive.Events.Envelope.{
  EventType, task_created, dependency_added, worker_registered, priority_set, plan_revised,
  task_assigned, task_reassigned, task_escalated, task_status_override, task_pruned, task_accepted,
  task_rejected, task_blocked, task_unblocked, task_result_posted, task_failed, review_passed,
  review_failed, Event,
}

-- A rule's guard passes on the derived board, and its effect takes the stored board to `b'`.
abbrev Passes : Board → Event → Board → Option LegalityRule → Type 0
Passes b ev b' none = ⊥
Passes b ev b' (some r) =
    (r.guard (derive b) ev.actor ev.payload ev.task_id ≡ none) × (r.effect b ev ≡ some b')

-- The events that concern one task.
abbrev pub is_task_op : EventType → Bool
is_task_op worker_registered = false
is_task_op plan_revised = false
is_task_op _ = true

created-Moved :
    (b : Board) (ev : Event) (b' : Board) (id : Option String)
    → ev.task_id ≡ id
    → ev.event_type ≡ task_created
    → g_created (derive b) ev.actor ev.payload id ≡ none
    → e_created b ev ≡ some b'
    → Moved b ev b'
unfolding g_created e_created
created-Moved b ev b' none e is_k g x = absurd (cc)
created-Moved b ev b' (some t) e is_k g x = record {
  t = t;
  named = e;
  after = change ev (new_task t ev);
  stored = ground (arith, get-put_self t (change ev (new_task t ev)) b.tasks);
  cause = refl;
  cause_seq = refl;
  status = rw is_k refl;
}

module _ (b : Board) (distinct : IsDistinct (keys b.tasks)) (ev : Event) (b' : Board) where
  override-Moved :
      ev.event_type ≡ task_status_override
      → Passes b ev b' (lookup task_status_override ev.payload)
      → Moved b ev b'
  unfolding lookup moves e_done e_reopened e_cancelled
  override-Moved is_k h = elim (Bool-cases (is_text "status" "done" ev.payload)) [
    | inl closes ↦
        let (g, x) = rw closes at h in
        moved b distinct ev task_status_override is_k b' _ (g_done-Seen b distinct ev g)
          (λ there w. ground arith) x
    | inr not_done ↦ elim (Bool-cases (is_text "status" "reopened" ev.payload)) [
      | inl opens ↦
          let (g, x) = rw (not_done, opens) at h in
          let (s, at) = from_state-Seen b distinct ev (in_review ∷ []) g in
          moved b distinct ev task_status_override is_k b' _ s
            (λ there w. ground (arith, s.refreshed.status)) x
      | inr not_reopened ↦ elim (Bool-cases (is_text "status" "cancelled" ev.payload)) [
        | inl cancels ↦
            let (g, x) = rw (not_done, not_reopened, cancels) at h in
            moved b distinct ev task_status_override is_k b' _ (g_cancelled-Seen b distinct ev g)
              (λ there w. ground arith) x
        | inr nothing ↦ absurd (rw (not_done, not_reopened, nothing) at h)
      ]
    ]
  ]

  agrees :
      (k : EventType)
      → ev.event_type ≡ k
      → is_task_op k ≡ true
      → Passes b ev b' (lookup k ev.payload)
      → Moved b ev b'
  unfolding lookup moves e_dependency_added e_priority_set e_assigned e_reassigned e_rejected
      e_accepted e_blocked e_unblocked e_result_posted e_review_passed e_review_failed e_failed
      e_escalated e_pruned give
  agrees task_created is_k op (g, x) = created-Moved b ev b' ev.task_id refl is_k g x
  agrees dependency_added is_k op (g, x) =
      moved b distinct ev dependency_added is_k b' _ (needs_task-Seen b distinct ev g)
        (λ there w. ground arith) x
  agrees priority_set is_k op (g, x) =
      moved b distinct ev priority_set is_k b' _ (needs_task-Seen b distinct ev g)
        (λ there w. ground arith) x
  agrees task_assigned is_k op (g, x) =
      moved b distinct ev task_assigned is_k b' _ (g_assigned-Seen b distinct ev g)
        (λ there w. ground arith) x
  agrees task_reassigned is_k op (g, x) =
      let (s, at) = g_reassigned-Seen b distinct ev g in
      moved b distinct ev task_reassigned is_k b' _ s
        (λ there w. ground (arith, s.refreshed.status)) x
  agrees task_rejected is_k op (g, x) =
      let (s, at) = from_state-Seen b distinct ev (assigned ∷ []) g in
      moved b distinct ev task_rejected is_k b' _ s (λ there w. ground (arith, s.refreshed.status))
        x
  agrees task_accepted is_k op (g, x) =
      let (s, at) = from_state-Seen b distinct ev (assigned ∷ []) g in
      moved b distinct ev task_accepted is_k b' _ s (λ there w. ground (arith, s.refreshed.status))
        x
  agrees task_blocked is_k op (g, x) =
      let (s, at) = from_state-Seen b distinct ev (in_progress ∷ []) g in
      moved b distinct ev task_blocked is_k b' _ s (λ there w. ground (arith, s.refreshed.status)) x
  agrees task_unblocked is_k op (g, x) =
      let (s, at) = from_state-Seen b distinct ev (blocked ∷ []) g in
      moved b distinct ev task_unblocked is_k b' _ s (λ there w. ground (arith, s.refreshed.status))
        x
  agrees task_result_posted is_k op (g, x) =
      moved b distinct ev task_result_posted is_k b' _ (needs_task-Seen b distinct ev g)
        (λ there w. ground arith) x
  agrees review_passed is_k op (g, x) =
      moved b distinct ev review_passed is_k b' _ (needs_task-Seen b distinct ev g)
        (λ there w. ground arith) x
  agrees review_failed is_k op (g, x) =
      moved b distinct ev review_failed is_k b' _ (needs_task-Seen b distinct ev g)
        (λ there w. ground arith) x
  agrees task_status_override is_k op h = override-Moved is_k h
  agrees task_failed is_k op (g, x) =
      let (s, at) = from_state-Seen b distinct ev (in_progress ∷ blocked ∷ []) g in
      moved b distinct ev task_failed is_k b' _ s (λ there w. ground (arith, s.refreshed.status)) x
  agrees task_escalated is_k op (g, x) =
      moved b distinct ev task_escalated is_k b' _ (needs_task-Seen b distinct ev g)
        (λ there w. ground arith) x
  agrees task_pruned is_k op (g, x) =
      let (s, not_done, not_cancelled) = g_prune-Seen b distinct ev ev.task_id g in
      moved b distinct ev task_pruned is_k b' _ s (λ there w. ground (arith, s.refreshed.status)) x
  agrees worker_registered is_k op h = absurd (cc)
  agrees plan_revised is_k op h = absurd (cc)
  agrees (EventType.other s) is_k op h = absurd h
  agrees k is_k op h = absurd h

-- An event of one task that the gate lets through on the derived board, and whose effect the fold
-- then applies to the stored board, has moved its task: the task names it as its last cause, and
-- stands in the status that the transition is for.
pub gate_fold_agreement :
    (b : Board) (ev : Event) (b' : Board) (r : LegalityRule)
    → IsDistinct (keys b.tasks)
    → is_task_op ev.event_type ≡ true
    → lookup ev.event_type ev.payload ≡ some r
    → r.guard (derive b) ev.actor ev.payload ev.task_id ≡ none
    → apply b ev ≡ some b'
    → Moved b ev b'
unfolding apply
gate_fold_agreement b ev b' r distinct op found g x =
    let effect_eq : r.effect b ev ≡ apply b ev = rw (found, apply) in
    agrees b distinct ev b' ev.event_type refl op
      (subst (Passes b ev b') (sym found) (g, effect_eq ∙ x))
