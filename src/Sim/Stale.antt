-- ===== src/Sim/Stale.antt =====
-- What becomes of a scheduled event when its time has come.
use omegahive.Base.{
  ◌≡◌, refl, sym, ap, ◌∙◌, ◌≢◌, inl, inr, Bool, true, false, none, some, List, arith, Option-cases,
}
use omegahive.Board.Reducer.{fold}
use omegahive.Board.State.{Board}
use omegahive.Events.Envelope.{Actor, Event}
use omegahive.Events.Log.{
  Externals, Db, Draw, unknown_event_type, validation_error, value_error, unique_violation,
  foreign_key_violation, key_error, type_error, Result, ok, raise, read_run, append, open_run,
}
use omegahive.Gateway.Emit.{
  gate, Gateway, Request, EmitResult, op_event, accept, locked, find_request, finish, emit, check,
}
use omegahive.Gateway.Idempotency.{read_run-open_run}
use omegahive.Gateway.Race.{emit-absent}
use omegahive.Sim.Coordinator.{Emit}
use omegahive.Sim.Engine.{Member, Setup, HeapItem, time_of, State, went, to_request}
use omegahive.Sim.Loop.{after_check, carried_on, fire}

-- The answer is a refusal.
abbrev pub is_rejected : Result EmitResult → Bool
is_rejected (ok (EmitResult.rejected code reason u)) = true
is_rejected _ = false

-- An accepted append, or an exception.
finish-accept :
    (g : Gateway) (q : Request) (before : Db) (r : Result (Event × Db))
    → q.key ≡ none
    → is_rejected (finish g q before (accept r)).0 ≡ false
finish-accept g q before (ok (ev, db)) no_key = refl
finish-accept g q before (raise unique_violation) no_key = rw no_key refl
finish-accept g q before (raise unknown_event_type) no_key = refl
finish-accept g q before (raise validation_error) no_key = refl
finish-accept g q before (raise value_error) no_key = refl
finish-accept g q before (raise foreign_key_violation) no_key = refl
finish-accept g q before (raise key_error) no_key = refl
finish-accept g q before (raise type_error) no_key = refl

locked-accepted :
    (x : Externals) (g : Gateway) (d : Draw) (q : Request) (db : Db) (b : Board)
    → fold (read_run g.store.run_id db) ≡ some b
    → gate b q.actor q.event_type q.payload q.task_id ≡ none
    → locked x g d q db ≡ accept (append x g.store d (op_event q) db)
unfolding locked
locked-accepted x g d q db b folds passes = ground arith

check-gate :
    (g : Gateway) (q : Request) (db : Db) (b : Board)
    → fold (read_run g.store.run_id db) ≡ some b
    → check g db q.actor q.event_type q.payload q.task_id ≡ some none
    → gate b q.actor q.event_type q.payload q.task_id ≡ none
unfolding check
check-gate g q db b folds h = ground arith

check-folds :
    (g : Gateway) (q : Request) (db : Db)
    → fold (read_run g.store.run_id db) ≡ none
    → check g db q.actor q.event_type q.payload q.task_id ≢ some none
unfolding check
check-folds g q db folds h = absurd (ground arith)

emit-accepts :
    (x : Externals) (g : Gateway) (d : Draw) (q : Request) (db : Db)
    → check g db q.actor q.event_type q.payload q.task_id ≡ some none
    → q.key ≡ none
    → is_rejected (emit x g d q db db).0 ≡ false
emit-accepts x g d q db h no_key =
    let opened = open_run g.store.run_id db in
    let no_row : find_request g q db ≡ none = rw no_key refl in
    elim (Option-cases (fold (read_run g.store.run_id db))) [
      | inl none_folds ↦ absurd (check-folds g q db none_folds h)
      | inr (b, folds) ↦
          let folds' : fold (read_run g.store.run_id opened) ≡ some b =
            ap fold (read_run-open_run g.store.run_id g.store.run_id db) ∙ folds in
          ap (λ r. is_rejected r.0)
            (emit-absent x g d q db db no_row
              ∙ ap (finish g q db)
                  (locked-accepted x g d q opened b folds' (check-gate g q db b folds h)))
          ∙ finish-accept g q db (append x g.store d (op_event q) opened) no_key
    ]

locked-raises :
    (x : Externals) (g : Gateway) (d : Draw) (q : Request) (db : Db)
    → fold (read_run g.store.run_id db) ≡ none
    → locked x g d q db ≡ raise key_error
unfolding locked
locked-raises x g d q db folds = ground arith

check-folds_not :
    (g : Gateway) (q : Request) (db : Db)
    → check g db q.actor q.event_type q.payload q.task_id ≡ none
    → fold (read_run g.store.run_id db) ≡ none
unfolding check
check-folds_not g q db h = ground (arith, Option-cases (fold (read_run g.store.run_id db)))

emit-raises :
    (x : Externals) (g : Gateway) (d : Draw) (q : Request) (db : Db)
    → check g db q.actor q.event_type q.payload q.task_id ≡ none
    → q.key ≡ none
    → is_rejected (emit x g d q db db).0 ≡ false
emit-raises x g d q db h no_key =
    let opened = open_run g.store.run_id db in
    let no_row : find_request g q db ≡ none = rw no_key refl in
    let folds : fold (read_run g.store.run_id opened) ≡ none =
      ap fold (read_run-open_run g.store.run_id g.store.run_id db) ∙ check-folds_not g q db h in
    ap (λ r. is_rejected r.0)
      (emit-absent x g d q db db no_row ∙ ap (finish g q db) (locked-raises x g d q opened folds))

not_both : true ≢ false
not_both h = absurd (ground arith)

-- A scheduled event that the gateway would refuse, were it emitted when its time has come, is
-- dropped: the state of the engine, its log included, stays as it is, and no refusal is recorded.
pub fire-stale :
    {M : Type 0} (c : Setup M) (top : HeapItem) (a : Actor) (e : Emit) (ms : List (Member M))
    (s : State)
    → top.carried ≡ some (a, e)
    → is_rejected
        (emit c.externals c.gateway (c.draws s.drawn) (to_request a e (time_of top)) s.db s.db).0
      ≡ true
    → fire c top (ms, s) ≡ went (ms, s)
unfolding fire
fire-stale c top a e ms s has declined =
    let q = to_request a e (time_of top) in
    let x = c.externals in
    let d = c.draws s.drawn in
    let answer = check c.gateway s.db a e.event_type e.payload e.task_id in
    elim (Option-cases answer) [
      | inl nothing ↦
          absurd (not_both (sym declined ∙ emit-raises x c.gateway d q s.db nothing refl))
      | inr (o, e') ↦ elim (Option-cases o) [
        | inl passes ↦
            absurd (
              not_both
                (sym declined ∙ emit-accepts x c.gateway d q s.db (e' ∙ ap some passes) refl))
        | inr (rej, is_rej) ↦
            ap (carried_on c (time_of top) (ms, s)) has
            ∙ ap (after_check c (time_of top) a e (ms, s)) (e' ∙ ap some is_rej)
      ]
    ]
