-- ===== src/Sim/Authority.antt =====
-- Every emit of the coordinator is one that the gate accepts.
use omegahive.Base.{
  ℕ, String, ◌≡◌, refl, sym, ap, ◌∙◌, subst, inl, inr, Bool, true, false, ◌&&◌, ◌||◌, not, Option,
  none, some, List, [], ◌∷◌, ◌++◌, arith, ◌==◌, ==_iff, ==_refl, opt_eq, Bool-cases, Option-cases,
  keep, member, IsDistinct, insert, sort, text_le, Dict, get, keys,
}
use omegahive.Board.Legality.{
  Effect, e_assigned, e_done, e_reopened, e_escalated, Guard, task, g_needs_task, on_roster,
  g_known_worker, g_assigned, from_state, g_done, LegalityRule, is_text, lookup,
  worker_ownership_violation,
}
use omegahive.Board.State.{
  in_review, TaskState, Board, is_status, is_passed, ids_where, is_assignable, ready_ids,
  awaiting_close,
}
use omegahive.Events.Envelope.{
  coordinator, Actor, EventType, task_assigned, task_escalated, task_status_override, Event,
}
use omegahive.Events.Json.{text, end, field, Payload, get_field, get_text}
use omegahive.Gateway.Emit.{gate}
use omegahive.Gateway.Policy.{may_emit}
use omegahive.Sim.Coordinator.{
  Emit, Coordinator, Escalation, all_exhausted, escalation_reason, Format, about, override,
  escalation, for_tasks, reopen_failed, untried, give_first, give_ready, escalate_late,
  close_passed, task_ids, decide,
}

abbrev Passes : Board → Actor → Emit → Type 0
Passes b a e = gate b a e.event_type e.payload e.task_id ≡ none

-- The gate accepts each emit of a list on this board.
abbrev pub AllPass : Board → Actor → List Emit → Type 0
AllPass b a [] = Unit {0}
AllPass b a (e ∷ es) = Passes b a e × AllPass b a es

AllPass-append :
    (b : Board) (a : Actor) (xs ys : List Emit)
    → AllPass b a xs
    → AllPass b a ys
    → AllPass b a (xs ++ ys)
AllPass-append b a [] ys hx hy = hy
AllPass-append b a (x ∷ xs) ys (h, hx) hy = (h, AllPass-append b a xs ys hx hy)

member-insert :
    (x y : String) (ys : List String) → member x (insert text_le y ys) ≡ (x == y || member x ys)
unfolding insert member
member-insert x y [] = refl
member-insert x y (z ∷ ys) = ground (arith, member-insert x y ys)

member-sort : (x : String) (xs : List String) → member x (sort text_le xs) ≡ member x xs
unfolding sort member
member-sort x [] = refl
member-sort x (y ∷ ys) =
    member-insert x y (sort text_le ys) ∙ ap (λ m. x == y || m) (member-sort x ys)

member-keep :
    (p : String → Bool) (w : String) (ws : List String) → member w (keep p ws) ≡ true → p w ≡ true
unfolding keep member
member-keep p w [] h = absurd (ground arith)
member-keep p w (v ∷ ws) h = elim (Bool-cases (w == v)) [
  | inl same ↦
      let same_worker : w ≡ v = (==_iff w v).0 same in
      elim (Bool-cases (p v)) [
        | inl holds ↦ subst (λ u. p u ≡ true) (sym same_worker) holds
        | inr fails ↦ member-keep p w ws (ground arith)
      ]
  | inr differs ↦ member-keep p w ws (ground arith)
]

-- The test of `Board.awaiting_close`.
abbrev is_closable : TaskState → Bool
is_closable s = is_status s.status in_review && is_passed s.latest_review

ids_where-keys :
    (p : TaskState → Bool) (t : String) (d : Dict TaskState)
    → member t (ids_where p d) ≡ true
    → member t (keys d) ≡ true
unfolding ids_where keys member
ids_where-keys p t [] h = h
ids_where-keys p t ((k, s) ∷ d) h = ground (arith, ids_where-keys p t d)

-- A task that a comprehension over the dict has picked passes its test.
ids_where-get :
    (p : TaskState → Bool) (t : String) (s : TaskState) (d : Dict TaskState)
    → IsDistinct (keys d)
    → member t (ids_where p d) ≡ true
    → get t d ≡ some s
    → p s ≡ true
unfolding ids_where keys member get
ids_where-get p t s [] once h e = absurd (cc)
ids_where-get p t s ((k, u) ∷ d) (new, once) h e = elim (Bool-cases (k == t)) [
  | inl same ↦
      let not_later : member t (keys d) ≡ false =
        subst (λ j. member j (keys d) ≡ false) ((==_iff k t).0 same) new in
      let same_task : some u ≡ some s = ground arith in
      elim (Bool-cases (p u)) [
        | inl passes ↦ ground (arith, same_task)
        | inr fails ↦ absurd (ground (arith, ids_where-keys p t d, not_later))
      ]
  | inr differs ↦ ids_where-get p t s d once (ground (arith, ==_iff k t, ==_iff t k)) (ground arith)
]

module _ (b : Board) (a : Actor) where
  for_tasks-AllPass :
      (f : String → TaskState → Option Emit) (ids : List String)
      → ((t : String) (s : TaskState) (e : Emit)
          → member t ids ≡ true
          → get t b.tasks ≡ some s
          → f t s ≡ some e
          → Passes b a e)
      → AllPass b a (for_tasks f b ids)
  unfolding for_tasks member
  for_tasks-AllPass f [] h = tt
  for_tasks-AllPass f (t ∷ ts) h =
      let rest = for_tasks-AllPass f ts (λ u s e later. h u s e (ground (arith, later))) in
      elim (Option-cases (get t b.tasks)) [
        | inl absent ↦
            let skips : for_tasks f b (t ∷ ts) ≡ for_tasks f b ts = ground arith in
            subst (AllPass b a) (sym skips) rest
        | inr (s, found) ↦ elim (Option-cases (f t s)) [
          | inl passed_over ↦
              let skips : for_tasks f b (t ∷ ts) ≡ for_tasks f b ts = ground arith in
              subst (AllPass b a) (sym skips) rest
          | inr (e, gives) ↦
              let takes : for_tasks f b (t ∷ ts) ≡ e ∷ for_tasks f b ts = ground arith in
              subst (AllPass b a) (sym takes)
                (h t s e (ground (arith, ==_refl t)) found gives, rest)
        ]
      ]

gate-guard :
    (b : Board) (a : Actor) (t : EventType) (p : Payload) (id : Option String) (r : LegalityRule)
    → may_emit a.role t ≡ true
    → worker_ownership_violation b a t id ≡ none
    → lookup t p ≡ some r
    → r.guard b a p id ≡ none
    → gate b a t p id ≡ none
unfolding gate
gate-guard b a t p id r may owns found passes = ground arith

abbrev rule : EventType → Option (Payload → Bool) → Guard → Effect → LegalityRule
rule t d g e = record { event_type = t; discriminant = d; guard = g; effect = e }

-- What the lookup of a constant type and a constant status needs.
tables : Unit {0}
unfolding lookup is_text get_text get_field ◌==◌ opt_eq may_emit worker_ownership_violation
tables = tt

abbrev pub coordinator_of : Coordinator → Actor
coordinator_of c = record { role = coordinator; id = c.agent_id }

module _ (b : Board) (c : Coordinator) (f : Format) where
  reopen-Passes :
      (t : String) (s : TaskState) (e : Emit)
      → get t b.tasks ≡ some s
      → reopen_failed t s ≡ some e
      → Passes b (coordinator_of c) e
  unfolding reopen_failed from_state task tables
  reopen-Passes t s e found gives =
      let e_is : override t s "reopened" "review failed" ≡ e = ground arith in
      subst (Passes b (coordinator_of c)) e_is (
        gate-guard b (coordinator_of c) task_status_override
          (override t s "reopened" "review failed").payload (some t)
          (rule task_status_override (some (is_text "status" "reopened"))
            (from_state (in_review ∷ [])) e_reopened)
          refl refl refl (ground arith))

  close-Passes :
      (t : String) (s : TaskState) (e : Emit)
      → get t b.tasks ≡ some s
      → is_status s.status in_review && is_passed s.latest_review ≡ true
      → close_passed t s ≡ some e
      → Passes b (coordinator_of c) e
  unfolding close_passed g_done task tables
  close-Passes t s e found passed_review gives =
      let e_is : override t s "done" "review passed" ≡ e = ground arith in
      subst (Passes b (coordinator_of c)) e_is (
        gate-guard b (coordinator_of c) task_status_override
          (override t s "done" "review passed").payload (some t)
          (rule task_status_override (some (is_text "status" "done")) g_done e_done) refl refl refl
          (ground arith))

  escalation-Passes :
      (t : String) (s : TaskState) (why : Escalation)
      → get t b.tasks ≡ some s
      → Passes b (coordinator_of c) (escalation f t s why)
  unfolding g_needs_task task tables
  escalation-Passes t s why found =
      gate-guard b (coordinator_of c) task_escalated (escalation f t s why).payload (some t)
        (rule task_escalated none g_needs_task e_escalated) refl refl refl (ground arith)

  escalate-Passes :
      (now : ℕ) (t : String) (s : TaskState) (e : Emit)
      → get t b.tasks ≡ some s
      → escalate_late f c now t s ≡ some e
      → Passes b (coordinator_of c) e
  unfolding escalate_late
  escalate-Passes now t s e found gives = elim (Option-cases (escalation_reason c s now)) [
    | inl calm ↦ absurd (ground arith)
    | inr (why, late) ↦
        let e_is : escalation f t s why ≡ e = ground arith in
        subst (Passes b (coordinator_of c)) e_is (escalation-Passes t s why found)
  ]

  assign-Passes :
      (t w : String) (s : TaskState)
      → get t b.tasks ≡ some s
      → is_assignable s ≡ true
      → member w b.roster ≡ true
      → Passes b (coordinator_of c) (about t s task_assigned (field "worker" (text w) end))
  unfolding g_assigned g_known_worker on_roster task tables
  assign-Passes t w s found free known_worker =
      gate-guard b (coordinator_of c) task_assigned (field "worker" (text w) end) (some t)
        (rule task_assigned none g_assigned e_assigned) refl refl refl (ground arith)

  give-Passes :
      (t : String) (s : TaskState) (e : Emit) (ws : List String)
      → get t b.tasks ≡ some s
      → is_assignable s ≡ true
      → ((w : String) → member w ws ≡ true → member w b.roster ≡ true)
      → give_first f t s ws ≡ some e
      → Passes b (coordinator_of c) e
  unfolding member
  give-Passes t s e [] found free on gives =
      let e_is : escalation f t s all_exhausted ≡ e = ground arith in
      subst (Passes b (coordinator_of c)) e_is (escalation-Passes t s all_exhausted found)
  give-Passes t s e (w ∷ ws) found free on gives =
      let e_is : about t s task_assigned (field "worker" (text w) end) ≡ e = ground arith in
      subst (Passes b (coordinator_of c)) e_is
        (assign-Passes t w s found free (on w (ground (arith, ==_refl w))))

  untried-registered :
      (s : TaskState) (w : String) → member w (untried c b s) ≡ true → member w b.roster ≡ true
  unfolding untried
  untried-registered s w h =
      ground
        (arith, member-keep (λ v. not (member v s.tried_by) && member v b.roster) w c.workers h)

-- On a board whose ids are unique, the gate accepts each emit that a turn of the coordinator
-- returns: it reopens, assigns, escalates and closes only what it may, to registered workers.
pub decide-AllPass :
    (f : Format) (c : Coordinator) (b : Board) (new_events : List Event) (now : ℕ)
    → IsDistinct (keys b.tasks)
    → AllPass b (coordinator_of c) (decide f c b new_events now).immediate
unfolding decide ready_ids awaiting_close give_ready
decide-AllPass f c b new_events now once =
    let a = coordinator_of c in
    let reopened_pass =
      for_tasks-AllPass b a reopen_failed (task_ids b) (λ t s e here. reopen-Passes b c f t s e) in
    let given_pass = for_tasks-AllPass b a (give_ready f c b) (ready_ids b) (λ t s e here found.
      give-Passes b c f t s e (untried c b s) found
        (ids_where-get is_assignable t s b.tasks once
          (sym (member-sort t (ids_where is_assignable b.tasks)) ∙ here) found)
        (untried-registered b c f s)) in
    let late_pass =
      for_tasks-AllPass b a (escalate_late f c now) (task_ids b)
        (λ t s e here. escalate-Passes b c f now t s e) in
    let closed_pass = for_tasks-AllPass b a close_passed (awaiting_close b) (λ t s e here found.
      close-Passes b c f t s e found (
        ids_where-get is_closable t s b.tasks once
          (sym (member-sort t (ids_where is_closable b.tasks)) ∙ here) found)) in
    AllPass-append b a (for_tasks reopen_failed b (task_ids b)) _ reopened_pass (
      AllPass-append b a (for_tasks (give_ready f c b) b (ready_ids b)) _ given_pass (
        AllPass-append b a (for_tasks (escalate_late f c now) b (task_ids b)) _ late_pass
          closed_pass))
