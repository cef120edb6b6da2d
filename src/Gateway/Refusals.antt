-- ===== src/Gateway/Refusals.antt =====
-- What a refused emit leaves behind: the board as it was.
use mathlib.Core.List.{reverse-cons}
use omegahive.Base.{
  ℕ, String, ◌≡◌, refl, sym, ap, ◌∙◌, subst, inl, inr, Bool, true, false, ◌&&◌, ◌||◌, not, Option,
  none, some, List, [], ◌∷◌, ◌++◌, map, reverse, arith, eqb, if◌then◌else◌, is_some, Bool-cases,
  Option-cases, keep, ℤ,
}
use omegahive.Board.Legality.{Code, Reason, Rejection, fits, lookup}
use omegahive.Board.Reducer.{fold}
use omegahive.Board.Reducer.Neutral.{is_neutral, fold-keep}
use omegahive.Board.State.{Board}
use omegahive.Events.Envelope.{EventType, gateway_rejected, same_type, Uuid, Event}
use omegahive.Events.Json.{Json, Payload}
use omegahive.Events.Log.{
  Externals, Row, Db, Draw, Result, ok, raise, in_run, read_run, find_id, first_row, append,
  open_run, RefusalKey, is_refusal, find_recent_rejection, with_count, bump_coalesced_count,
}
use omegahive.Gateway.Emit.{
  gate, Gateway, Request, rejected, now_ts, next_count, refusal_key, refusal_event, noted,
  record_rejection, emit,
}
use omegahive.Gateway.Idempotency.{append-Appended, rows-open_run, read_run-open_run, emit-Refused}

abbrev pub is_op : Event → Bool
is_op ev = not (same_type ev.event_type gateway_rejected)

no_rule_for :
    (t : EventType) (p : Payload)
    → same_type t gateway_rejected ≡ true
    → is_some (lookup t p) ≡ false
unfolding lookup same_type
no_rule_for gateway_rejected p h = refl
no_rule_for _ p h = absurd (ground arith)

is_op-neutral : (ev : Event) → is_op ev ≡ false → is_neutral ev ≡ true
unfolding is_neutral
is_op-neutral ev h = ground (arith, no_rule_for ev.event_type ev.payload)

-- The operations of a run: its events less the recorded refusals.
abbrev ops_of : String → List Row → List Event
ops_of run rows = keep is_op (map (λ r. r.event) (keep (in_run run) rows))

fold-ops :
    (run : String) (a b : Db)
    → ops_of run a.rows ≡ ops_of run b.rows
    → fold (read_run run a) ≡ fold (read_run run b)
unfolding read_run
fold-ops run a b e =
    fold-keep is_op is_op-neutral (read_run run a)
    ∙ ap fold e
    ∙ sym (fold-keep is_op is_op-neutral (read_run run b))

-- Every row with this event id is a refusal.
abbrev pub AreRefusals : Uuid → List Row → Type 0
AreRefusals u [] = Unit {0}
AreRefusals u (r ∷ rs) = (eqb r.event.event_id u ≡ true → is_op r.event ≡ false) × AreRefusals u rs

abbrev pub bump : Uuid → Json → Row → Row
bump u n r = if eqb r.event.event_id u then with_count n r else r

bump-ops :
    (run : String) (u : Uuid) (n : Json) (rows : List Row)
    → AreRefusals u rows
    → ops_of run (map (bump u n) rows) ≡ ops_of run rows
unfolding keep
bump-ops run u n [] h = refl
bump-ops run u n (r ∷ rs) (h, hs) = elim (Bool-cases (eqb r.event.event_id u)) [
  | inl hit ↦ let rest = bump-ops run u n rs hs in let drops = h hit in ground (arith, rest, drops)
  | inr other ↦ ground (arith, bump-ops run u n rs hs)
]

abbrev some_row : (Row → Bool) → List Row → Bool
some_row p [] = false
some_row p (r ∷ rs) = p r || some_row p rs

some_row-append :
    (p : Row → Bool) (xs ys : List Row) → some_row p (xs ++ ys) ≡ (some_row p xs || some_row p ys)
some_row-append p [] ys = refl
some_row-append p (x ∷ xs) ys = ground (arith, some_row-append p xs ys)

some_row-reverse : (p : Row → Bool) (xs : List Row) → some_row p (reverse xs) ≡ some_row p xs
some_row-reverse p [] = refl
some_row-reverse p (x ∷ xs) =
    ap (some_row p) (reverse-cons x xs)
    ∙ ground (arith, some_row-append p (reverse xs) (x ∷ []), some_row-reverse p xs)

some_row-first :
    (p q : Row → Bool) (xs : List Row) (r : Row)
    → ((r : Row) → p r ≡ true → q r ≡ true)
    → first_row p xs ≡ some r
    → some_row (λ s. eqb s.event.event_id r.event.event_id && q s) xs ≡ true
unfolding first_row
some_row-first p q [] r h e = absurd (cc)
some_row-first p q (x ∷ xs) r h e = elim (Bool-cases (p x)) [
  | inl fits ↦
      let same : x.event.event_id ≡ r.event.event_id = ground arith in ground (arith, h x fits)
  | inr skips ↦ ground (arith, some_row-first p q xs r h)
]

-- No event id stands in two rows: `event_id` is the primary key.
abbrev pub IdsOnce : List Row → Type 0
IdsOnce [] = Unit {0}
IdsOnce (r ∷ rs) = (find_id r.event.event_id rs ≡ none) × IdsOnce rs

abbrev refusal_with : Uuid → Row → Bool
refusal_with u r = eqb r.event.event_id u && not (is_op r.event)

absent-AreRefusals :
    (u : Uuid) (rows : List Row)
    → find_id u rows ≡ none
    → AreRefusals u rows × (some_row (refusal_with u) rows ≡ false)
unfolding find_id
absent-AreRefusals u [] h = (tt, refl)
absent-AreRefusals u (r ∷ rs) h =
    let (all, none_there) = absent-AreRefusals u rs (ground arith) in
    ((λ hit. absurd (ground arith), all), ground arith)

once-AreRefusals :
    (u : Uuid) (rows : List Row)
    → IdsOnce rows
    → some_row (refusal_with u) rows ≡ true
    → AreRefusals u rows
once-AreRefusals u [] once h = tt
once-AreRefusals u (r ∷ rs) (new, once) h = elim (Bool-cases (eqb r.event.event_id u)) [
  | inl hit ↦
      let same : r.event.event_id ≡ u = ground arith in
      let (all, none_there) = absent-AreRefusals u rs (ap (λ v. find_id v rs) (sym same) ∙ new) in
      (λ again. ground arith, all)
  | inr other ↦ (λ hit. absurd (ground arith), once-AreRefusals u rs once (ground arith))
]

refusal-NotOp :
    (run : String) (k : RefusalKey) (now window : ℕ) (r : Row)
    → is_refusal run k now window r ≡ true
    → not (is_op r.event) ≡ true
unfolding is_refusal
refusal-NotOp run k now window r h = ground arith

pub found-AreRefusals :
    (run : String) (k : RefusalKey) (now window : ℕ) (db : Db) (u : Uuid) (n : Option ℤ)
    → IdsOnce db.rows
    → find_recent_rejection run k now window db ≡ some (u, n)
    → AreRefusals u db.rows
unfolding find_recent_rejection
found-AreRefusals run k now window db u n once h =
    elim (Option-cases (first_row (is_refusal run k now window) (reverse db.rows))) [
      | inl absent ↦ absurd (ground arith)
      | inr (r, first) ↦
          let same : r.event.event_id ≡ u = ground arith in
          let here =
            some_row-first (is_refusal run k now window) (λ s. not (is_op s.event))
              (reverse db.rows) r (refusal-NotOp run k now window) first in
          once-AreRefusals u db.rows once (
            sym (some_row-reverse (refusal_with u) db.rows)
            ∙ subst (λ v. some_row (refusal_with v) (reverse db.rows) ≡ true) same here)
    ]

snoc-ops :
    (run : String) (rows : List Row) (r : Row)
    → is_op r.event ≡ false
    → ops_of run (rows ++ r ∷ []) ≡ ops_of run rows
unfolding keep
snoc-ops run [] r h = ground arith
snoc-ops run (x ∷ rows) r h = ground (arith, snoc-ops run rows r h)

written_event :
    (m : Result (Event × Db)) (u : Uuid) (db' : Db)
    → noted m ≡ ok (u, db')
    → (ev : Event) × (m ≡ ok (ev, db'))
written_event (raise e) u db' h = absurd (ground arith)
written_event (ok (ev, after)) u db' h = (ev, ground arith)

record_rejection-ops :
    (x : Externals) (g : Gateway) (d : Draw) (q : Request) (rej : Rejection) (db db' : Db)
    (u : Uuid)
    → IdsOnce db.rows
    → record_rejection x g d q rej db ≡ ok (u, db')
    → ops_of g.store.run_id db'.rows ≡ ops_of g.store.run_id db.rows
unfolding record_rejection bump_coalesced_count refusal_event same_type
record_rejection-ops x g d q rej db db' u once h =
    let run = g.store.run_id in
    elim (Option-cases (
      find_recent_rejection run (refusal_key q rej) (now_ts g.store d q.logical_ts)
        g.coalesce_window db)) [
          | inr ((v, none), found) ↦ absurd (ground arith)
          | inr ((v, some n), found) ↦
              let mapped : db'.rows ≡ map (bump v (next_count n)) db.rows = ground arith in
              ap (ops_of run) mapped
              ∙ bump-ops run v (next_count n) db.rows (
                  found-AreRefusals run (refusal_key q rej) (now_ts g.store d q.logical_ts)
                    g.coalesce_window db v (some n) once found)
          | inl alone ↦
              let (ev, written) =
                written_event (append x g.store d (refusal_event x g d q rej) db) u db'
                  (ground arith) in
              let w = append-Appended x g.store d (refusal_event x g d q rej) db db' ev written in
              let refusal : is_op ev ≡ false = rw w.event_type refl in
              ap (ops_of run) w.rows
              ∙ snoc-ops run db.rows (record { event = ev; key = none }) refusal
        ]

-- A refused emit was refused by the gate, with that code and reason, on the board that the run
-- folds to under the lock, and leaves a run that folds to the same board, whether it appended the
-- record of the refusal or counted it on an earlier one. Event ids must be unique.
pub refused_keeps_board :
    (x : Externals) (g : Gateway) (d : Draw) (q : Request) (early late db' : Db) (c : Code)
    (r : Reason) (u : Uuid)
    → IdsOnce late.rows
    → emit x g d q early late ≡ (ok (rejected c r u), db')
    → (b : Board) × (fold (read_run g.store.run_id late) ≡ some b)
      × (gate b q.actor q.event_type q.payload q.task_id ≡ some (record { code = c; reason = r }))
      × (fold (read_run g.store.run_id db') ≡ some b)
refused_keeps_board x g d q early late db' c r u once h =
    let run = g.store.run_id in
    let opened = open_run run late in
    let ref = emit-Refused x g d q early late db' c r u h in
    let folds = ap fold (sym (read_run-open_run run run late)) ∙ ref.folded in
    let kept =
      record_rejection-ops x g d q (record { code = c; reason = r }) opened db' u
        (subst IdsOnce (sym (rows-open_run run late)) once) ref.recorded in
    (ref.board, folds, ref.refused, fold-ops run db' opened kept ∙ ref.folded)
