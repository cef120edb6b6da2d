-- ===== src/Gateway/Authority.antt =====
-- What the gate asks of an emit: the authority of the role, ownership, and the table.
-- The table has a rule for the type.
use omegahive.Base.{
  String, ◌≡◌, refl, ◌⊎◌, inl, inr, Bool, true, false, ◌||◌, not, Option, none, some, List, [], ◌∷◌,
  arith, ◌==◌, is_some, opt_eq, opt_eq_iff, Option-cases,
}
use omegahive.Board.Legality.{
  task, one_of, abandonable, has_reason, g_cancelled, LegalityRule, is_text, rules, lookup,
  non_board_whitelist, worker_owned_emits, owner_of, worker_ownership_violation,
}
use omegahive.Board.State.{TaskState, Board}
use omegahive.Events.Envelope.{
  Role, planner, human, Actor, EventType, task_status_override, same_type,
}
use omegahive.Events.Json.{Payload, get_text}
use omegahive.Events.Types.{schema}
use omegahive.Gateway.Emit.{gate}
use omegahive.Gateway.Policy.{may_emit}

abbrev pub in_table : EventType → List LegalityRule → Bool
in_table t [] = false
in_table t (r ∷ rs) = same_type r.event_type t || in_table t rs

no_other : (r : Role) (s : String) → may_emit r (EventType.other s) ≡ false
unfolding may_emit
no_other planner s = refl
no_other _ s = refl

-- Every type that some role may emit has a payload model, and is either in the table or in the
-- whitelist, never in both.
pub authority_covered :
    (r : Role) (t : EventType)
    → may_emit r t ≡ true
    → (is_some (schema t) ≡ true) × (in_table t rules ≡ not (non_board_whitelist t))
unfolding schema non_board_whitelist rules same_type
authority_covered r (EventType.other s) h = absurd (cc (no_other r s))
authority_covered r _ h = (refl, refl)

-- The gate lets an emit through only if the role may emit the type, a worker owns the task where
-- the type asks for that, and the rule's guard passes or the type is whitelisted.
pub gate_passes :
    (b : Board) (a : Actor) (t : EventType) (p : Payload) (id : Option String)
    → gate b a t p id ≡ none
    → (may_emit a.role t ≡ true)
      × ((a.role ≡ Role.worker) → worker_owned_emits t ≡ true → owner_of (task b id) ≡ some a.id)
      × (((r : LegalityRule) × (lookup t p ≡ some r) × (r.guard b a p id ≡ none))
          ⊎ (lookup t p ≡ none) × (non_board_whitelist t ≡ true))
unfolding gate worker_ownership_violation
gate_passes b a t p id h = (
  ground arith,
  λ is_w owned. ground (arith, opt_eq_iff (owner_of (task b id)) (some a.id)),
  elim (Option-cases (lookup t p)) [
    | inl unknown ↦ inr (unknown, ground arith)
    | inr (r, found) ↦ inl (r, found, ground arith)
  ],
)

cancelled_text :
    (p : Payload)
    → is_text "status" "cancelled" p ≡ true
    → (is_text "status" "done" p ≡ false) × (is_text "status" "reopened" p ≡ false)
unfolding is_text
cancelled_text p h =
    let e : get_text "status" p ≡ some "cancelled" =
      (opt_eq_iff (get_text "status" p) (some "cancelled")).0 h in
    (rw e (unfold opt_eq ◌==◌ in refl), rw e (unfold opt_eq ◌==◌ in refl))

-- A task is abandoned by a human only, with a reason that is not blank, and only while it is
-- neither pruned nor done, failed or cancelled.
pub abandon_passes :
    (b : Board) (a : Actor) (p : Payload) (id : Option String)
    → is_text "status" "cancelled" p ≡ true
    → gate b a task_status_override p id ≡ none
    → (a.role ≡ human)
      × (has_reason p ≡ true)
      × ((ts : TaskState) × (task b id ≡ some ts)
          × (ts.pruned ≡ false)
          × (one_of abandonable ts.status ≡ true))
unfolding gate lookup g_cancelled
abandon_passes b a p id cancels h =
    let (not_done, not_reopened) = cancelled_text p cancels in
    elim (Option-cases (task b id)) [
      | inl absent ↦ absurd (ground arith)
      | inr (ts, found) ↦ (ground arith, ground arith, (ts, found, ground arith, ground arith))
    ]
