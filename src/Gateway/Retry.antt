-- ===== src/Gateway/Retry.antt =====
-- A retry with the key of an accepted emit.
use omegahive.Base.{
  String, ◌≡◌, refl, sym, ap, ◌∙◌, inl, inr, true, none, some, [], ◌∷◌, ◌++◌, arith, ==_refl,
  opt_eq, Option-cases, map_option,
}
use omegahive.Board.Reducer.{fold}
use omegahive.Board.State.{Board}
use omegahive.Events.Envelope.{Event}
use omegahive.Events.Log.{
  Externals, Row, Db, Draw, ok, read_run, same_key, first_row, find_by_key, thread_root, times,
  open_run,
}
use omegahive.Gateway.Emit.{gate, Gateway, Request, accepted, op_event, find_request, emit}
use omegahive.Gateway.Idempotency.{
  first_row-snoc, append-Appended, rows-open_run, read_run-open_run, times-open_run,
  next_seq-open_run, Committed, Accepts, known, recovered, fresh, emit-Accepts,
}
use omegahive.Gateway.Others.{Writes, Writes-IsKept}
use omegahive.Gateway.Refusals.{is_op, IdsOnce}

module _ (x : Externals) (g : Gateway) (d : Draw) (q : Request) (k : String)
    (keyed : q.key ≡ some k) where
  pub find-congr :
      (a b : Db)
      → a.rows ≡ b.rows
      → find_by_key g.store.run_id q.actor.id k a ≡ find_by_key g.store.run_id q.actor.id k b
  unfolding find_by_key
  find-congr a b e = rw e refl

  find-Committed :
      (db db' : Db) (ev : Event)
      → Committed x g d q db ev db'
      → find_by_key g.store.run_id q.actor.id k db' ≡ some ev
  unfolding find_by_key op_event opt_eq
  find-Committed db db' ev c =
      let w = append-Appended x g.store d (op_event q) db db' ev c.written in
      let row : Row = record { event = ev; key = q.key } in
      let p = same_key g.store.run_id q.actor.id k in
      let unused : first_row p db.rows ≡ none = ground (arith, w.unused) in
      let holds : p row ≡ true =
        ground (arith, w.run_id, w.actor, ==_refl g.store.run_id, ==_refl q.actor.id, ==_refl k) in
      rw w.rows (ap (map_option (λ (r : Row). r.event)) (first_row-snoc p db.rows row unused holds))

  -- Whichever way an emit was accepted, its key now finds the event.
  pub find-accepted :
      (early late db' : Db) (ev : Event)
      → Accepts x g d q early late ev db'
      → find_by_key g.store.run_id q.actor.id k db' ≡ some ev
  find-accepted early late db' ev (known found same) =
      find-congr db' early (rw same (rows-open_run g.store.run_id early)) ∙ ground arith
  find-accepted early late db' ev (recovered found same) = ground arith
  find-accepted early late db' ev (fresh c) = find-Committed (open_run g.store.run_id late) db' ev c

-- Once an emit with a key is accepted, every later emit of the actor with that key returns the same
-- event, whatever its payload, and leaves the rows as they are, whatever other writers have
-- committed in between: appends, refusals counted in place on earlier ones, runs registered or
-- rebuilt, in any order. The event is no recorded refusal, and event ids are unique.
pub retry_returns_same :
    (x : Externals) (g : Gateway) (d d' : Draw) (q q' : Request) (early late db' now late' : Db)
    (ev : Event) (k : String)
    → q.key ≡ some k
    → q'.key ≡ some k
    → q'.actor.id ≡ q.actor.id
    → emit x g d q early late ≡ (ok (accepted ev), db')
    → is_op ev ≡ true
    → IdsOnce db'.rows
    → Writes db' now
    → emit x g d' q' now late' ≡ (ok (accepted ev), open_run g.store.run_id now)
unfolding emit find_by_key
retry_returns_same x g d d' q q' early late db' now late' ev k keyed keyed' same first op once ws =
    let found =
      find-accepted x g d q k keyed early late db' ev
        (emit-Accepts x g d q early late db' ev first) in
    elim (Option-cases (first_row (same_key g.store.run_id q.actor.id k) db'.rows)) [
      | inl absent ↦ absurd (ground arith)
      | inr (row, is_row) ↦
          let is_ev : row.event ≡ ev = ground arith in
          let kept =
            Writes-IsKept g.store.run_id q.actor.id k row ws
              (record { found = is_row; is_operation = ap is_op is_ev ∙ op; once = once }) in
          let later = kept.found in ground (arith, later)
    ]

-- An emit that is accepted, and whose key no one had committed, has passed the gate on the fold of
-- the run under the lock, and has added one row with the request's key. Its event has the request's
-- type, actor, task, cause and recipient, the dump of its payload by the model class, the run of the
-- gateway's store, the event id drawn, the times that the store binds, the thread of its cause and
-- the next `seq`.
pub accepted_appends_one :
    (x : Externals) (g : Gateway) (d : Draw) (q : Request) (early late db' : Db) (ev : Event)
    → find_request g q early ≡ none
    → find_request g q late ≡ none
    → emit x g d q early late ≡ (ok (accepted ev), db')
    → ((b : Board) × (fold (read_run g.store.run_id late) ≡ some b)
        × (gate b q.actor q.event_type q.payload q.task_id ≡ none))
      × (db'.rows ≡ late.rows ++ record { event = ev; key = q.key } ∷ [])
      × (ev.event_type ≡ q.event_type)
      × (ev.actor ≡ q.actor)
      × (ev.task_id ≡ q.task_id)
      × (x.dump q.event_type q.payload ≡ some ev.payload)
      × (ev.causation_id ≡ q.causation_id)
      × (ev.recipient ≡ q.recipient)
      × (ev.run_id ≡ g.store.run_id)
      × (ev.event_id ≡ d.uuid)
      × (times g.store d q.logical_ts late ≡ some (ev.logical_ts, ev.wall_ts))
      × (ev.correlation_id ≡ some (thread_root q.causation_id d.uuid late.rows))
      × (ev.seq ≡ some late.next_seq)
unfolding op_event
accepted_appends_one x g d q early late db' ev no_early no_late h =
    elim (emit-Accepts x g d q early late db' ev h) [
      | known found same ↦ absurd (cc)
      | recovered found same ↦ absurd (cc)
      | fresh c ↦
          let w =
            append-Appended x g.store d (op_event q) (open_run g.store.run_id late) db' ev
              c.written in
          (
            (
              c.board,
              ap fold (sym (read_run-open_run g.store.run_id g.store.run_id late)) ∙ c.folded,
              c.legal,
            ),
            w.rows
                ∙ ap (λ rs. rs ++ record { event = ev; key = q.key } ∷ [])
                    (rows-open_run g.store.run_id late),
            w.event_type,
            w.actor,
            w.task_id,
            w.payload,
            w.causation_id,
            w.recipient,
            w.run_id,
            w.event_id,
            sym (times-open_run g.store.run_id g.store d q.logical_ts late) ∙ w.stamped,
            w.thread
                ∙ ap (λ rs. some (thread_root q.causation_id d.uuid rs))
                    (rows-open_run g.store.run_id late),
            w.seq ∙ ap some (next_seq-open_run g.store.run_id late),
          )
    ]
