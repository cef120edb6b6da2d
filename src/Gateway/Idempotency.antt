-- ===== src/Gateway/Idempotency.antt =====
-- An idempotency key commits one event at most, and each retry is answered with it.
use omegahive.Base.{
  ℕ, suc, max, String, ◌≡◌, refl, sym, ap, ◌∙◌, inl, inr, Bool, true, false, Option, none, some,
  List, [], ◌∷◌, ◌++◌, arith, if◌then◌else◌, Option-cases,
}
use omegahive.Board.Legality.{Code, Reason}
use omegahive.Board.Reducer.{fold}
use omegahive.Board.State.{Board}
use omegahive.Events.Envelope.{Uuid, Event}
use omegahive.Events.Log.{
  Externals, Row, Db, Store, Draw, unique_violation, Result, ok, raise, NewEvent, read_run, last_ts,
  find_id, first_row, thread_root, key_taken, insert_row, times, new_event, append, open_run,
}
use omegahive.Events.Types.{schema}
use omegahive.Gateway.Emit.{
  gate, Gateway, Request, EmitResult, accepted, rejected, record_rejection, op_event, locked,
  find_request, finish, emit,
}

pub first_row-append :
    (p : Row → Bool) (xs ys : List Row) (r : Row)
    → first_row p xs ≡ some r
    → first_row p (xs ++ ys) ≡ some r
unfolding first_row
first_row-append p [] ys r e = absurd (cc)
first_row-append p (x ∷ xs) ys r e = ground (arith, first_row-append p xs ys r)

pub first_row-snoc :
    (p : Row → Bool) (xs : List Row) (r : Row)
    → first_row p xs ≡ none
    → p r ≡ true
    → first_row p (xs ++ r ∷ []) ≡ some r
unfolding first_row
first_row-snoc p [] r e h = ground arith
first_row-snoc p (x ∷ xs) r e h = ground (arith, first_row-snoc p xs r)

-- What an append that succeeds has written.
pub record Appended (x : Externals) (s : Store) (d : Draw) (n : NewEvent) (db : Db) (ev : Event)
    (db' : Db) : Type 0 where
  pub rows : db'.rows ≡ db.rows ++ record { event = ev; key = n.key } ∷ []
  pub new_id : find_id d.uuid db.rows ≡ none
  pub event_id : ev.event_id ≡ d.uuid
  pub unused : key_taken s.run_id n.actor.id n.key db.rows ≡ false
  pub run_id : ev.run_id ≡ s.run_id
  pub actor : ev.actor ≡ n.actor
  pub event_type : ev.event_type ≡ n.event_type
  pub task_id : ev.task_id ≡ n.task_id
  pub payload : x.dump n.event_type n.payload ≡ some ev.payload
  pub causation_id : ev.causation_id ≡ n.causation_id
  pub recipient : ev.recipient ≡ n.recipient
  pub stamped : times s d n.logical_ts db ≡ some (ev.logical_ts, ev.wall_ts)
  pub thread : ev.correlation_id ≡ some (thread_root n.causation_id d.uuid db.rows)
  pub seq : ev.seq ≡ some db.next_seq
  pub next_seq : db'.next_seq ≡ suc db.next_seq

insert_row-ok :
    (ev ev' : Event) (k : Option String) (db db' : Db)
    → insert_row ev k db ≡ ok (ev', db')
    → (ev' ≡ ev)
      × (find_id ev.event_id db.rows ≡ none)
      × (key_taken ev.run_id ev.actor.id k db.rows ≡ false)
      × (db'.rows ≡ db.rows ++ record { event = ev; key = k } ∷ [])
      × (db'.next_seq ≡ suc db.next_seq)
unfolding insert_row
insert_row-ok ev ev' k db db' h = ground arith

pub append-Appended :
    (x : Externals) (s : Store) (d : Draw) (n : NewEvent) (db db' : Db) (ev : Event)
    → append x s d n db ≡ ok (ev, db')
    → Appended x s d n db ev db'
unfolding append
append-Appended x s d n db db' ev h = elim (Option-cases (schema n.event_type)) [
  | inl unknown ↦ absurd (ground arith)
  | inr (fs, model) ↦ elim (Option-cases (x.dump n.event_type n.payload)) [
    | inl invalid ↦ absurd (ground arith)
    | inr (canonical, valid) ↦ elim (Option-cases (times s d n.logical_ts db)) [
      | inl refused ↦ absurd (ground arith)
      | inr (ts, timed) ↦
          let (is_ev, new_id, unused, grown, counted) =
            insert_row-ok (new_event s d n canonical ts db) ev n.key db db' (ground arith) in
          record {
            rows = ground arith;
            new_id = ground arith;
            event_id = ground arith;
            unused = ground arith;
            run_id = ground arith;
            actor = ground arith;
            event_type = ground arith;
            task_id = ground arith;
            payload = ground arith;
            causation_id = ground arith;
            recipient = ground arith;
            stamped = timed ∙ ap some (ap (λ e. (e.logical_ts, e.wall_ts)) (sym is_ev));
            thread = ap (λ e. e.correlation_id) is_ev;
            seq = ground arith;
            next_seq = ground arith;
          }
    ]
  ]
]

pub rows-open_run : (run : String) (db : Db) → (open_run run db).rows ≡ db.rows
unfolding open_run
rows-open_run run db = ground arith

pub read_run-open_run :
    (run' run : String) (db : Db) → read_run run' (open_run run db) ≡ read_run run' db
unfolding read_run
read_run-open_run run' run db = rw (rows-open_run run db) refl

pub times-open_run :
    (run : String) (s : Store) (d : Draw) (given : Option ℕ) (db : Db)
    → times s d given (open_run run db) ≡ times s d given db
unfolding times
times-open_run run s d given db =
    ap
      (λ evs.
        if s.server_time
        then (elim given [
          | none ↦ some (max d.now (suc (last_ts evs)), some d.now)
          | some ts ↦ none
        ])
        else some (elim given [ none ↦ s.clock | some ts ↦ ts ], none))
      (read_run-open_run s.run_id run db)

pub next_seq-open_run : (run : String) (db : Db) → (open_run run db).next_seq ≡ db.next_seq
unfolding open_run
next_seq-open_run run db = ground arith

-- What an emit that has got the lock and is accepted has done.
pub record Committed (x : Externals) (g : Gateway) (d : Draw) (q : Request) (db : Db) (ev : Event)
    (db' : Db) : Type 0 where
  pub board : Board
  pub folded : fold (read_run g.store.run_id db) ≡ some board
  pub legal : gate board q.actor q.event_type q.payload q.task_id ≡ none
  pub written : append x g.store d (op_event q) db ≡ ok (ev, db')

pub record Refused (x : Externals) (g : Gateway) (d : Draw) (q : Request) (db : Db) (c : Code)
    (r : Reason) (u : Uuid) (db' : Db) : Type 0 where
  pub board : Board
  pub folded : fold (read_run g.store.run_id db) ≡ some board
  pub refused :
      gate board q.actor q.event_type q.payload q.task_id ≡ some (record { code = c; reason = r })
  pub recorded : record_rejection x g d q (record { code = c; reason = r }) db ≡ ok (u, db')

module _ (x : Externals) (g : Gateway) (d : Draw) (q : Request) where
  locked-Committed :
      (db db' : Db) (ev : Event)
      → locked x g d q db ≡ ok (accepted ev, db')
      → Committed x g d q db ev db'
  unfolding locked
  locked-Committed db db' ev h = elim (Option-cases (fold (read_run g.store.run_id db))) [
    | inl fails ↦ absurd (ground arith)
    | inr (b, folds) ↦ elim (Option-cases (gate b q.actor q.event_type q.payload q.task_id)) [
      | inl legal ↦ record { board = b; folded = folds; legal = legal; written = ground arith }
      | inr (rej, refused) ↦ absurd (ground arith)
    ]
  ]

  locked-Refused :
      (db db' : Db) (c : Code) (r : Reason) (u : Uuid)
      → locked x g d q db ≡ ok (rejected c r u, db')
      → Refused x g d q db c r u db'
  unfolding locked
  locked-Refused db db' c r u h = elim (Option-cases (fold (read_run g.store.run_id db))) [
    | inl fails ↦ absurd (ground arith)
    | inr (b, folds) ↦ elim (Option-cases (gate b q.actor q.event_type q.payload q.task_id)) [
      | inl legal ↦ absurd (ground arith)
      | inr (rej, refused) ↦ record {
        board = b;
        folded = folds;
        refused = ground arith;
        recorded = ground arith;
      }
    ]
  ]

  -- The three ways in which an emit is accepted.
  pub data Accepts (early late : Db) (ev : Event) (db' : Db) : Type 0 where
    known :
        find_request g q early ≡ some ev
        → db' ≡ open_run g.store.run_id early
        → Accepts early late ev db'
    recovered : find_request g q late ≡ some ev → db' ≡ late → Accepts early late ev db'
    fresh : Committed x g d q (open_run g.store.run_id late) ev db' → Accepts early late ev db'

  finish-Accepts :
      (early late db' : Db) (ev : Event) (m : Result (EmitResult × Db))
      → locked x g d q (open_run g.store.run_id late) ≡ m
      → finish g q late m ≡ (ok (accepted ev), db')
      → Accepts early late ev db'
  finish-Accepts early late db' ev (ok (r, after)) e h =
      fresh (locked-Committed (open_run g.store.run_id late) db' ev (cc))
  finish-Accepts early late db' ev (raise unique_violation) e h =
      elim (Option-cases (find_request g q late)) [
        | inl lost ↦ absurd (ground arith)
        | inr (found, is_found) ↦ recovered (ground arith) (ground arith)
      ]
  finish-Accepts early late db' ev (raise _) e h = absurd (ground arith)

  pub emit-Accepts :
      (early late db' : Db) (ev : Event)
      → emit x g d q early late ≡ (ok (accepted ev), db')
      → Accepts early late ev db'
  unfolding emit
  emit-Accepts early late db' ev h = elim (Option-cases (find_request g q early)) [
    | inl absent ↦
        finish-Accepts early late db' ev (locked x g d q (open_run g.store.run_id late)) refl
          (ground arith)
    | inr (found, is_found) ↦ known (ground arith) (ground arith)
  ]

  finish-Refused :
      (late db' : Db) (c : Code) (r : Reason) (u : Uuid) (m : Result (EmitResult × Db))
      → locked x g d q (open_run g.store.run_id late) ≡ m
      → finish g q late m ≡ (ok (rejected c r u), db')
      → Refused x g d q (open_run g.store.run_id late) c r u db'
  finish-Refused late db' c r u (ok (res, after)) e h =
      locked-Refused (open_run g.store.run_id late) db' c r u (cc)
  finish-Refused late db' c r u (raise unique_violation) e h =
      elim (Option-cases (find_request g q late)) [
        | inl lost ↦ absurd (ground arith)
        | inr (found, is_found) ↦ absurd (ground arith)
      ]
  finish-Refused late db' c r u (raise _) e h = absurd (ground arith)

  pub emit-Refused :
      (early late db' : Db) (c : Code) (r : Reason) (u : Uuid)
      → emit x g d q early late ≡ (ok (rejected c r u), db')
      → Refused x g d q (open_run g.store.run_id late) c r u db'
  unfolding emit
  emit-Refused early late db' c r u h = elim (Option-cases (find_request g q early)) [
    | inl absent ↦
        finish-Refused late db' c r u (locked x g d q (open_run g.store.run_id late)) refl
          (ground arith)
    | inr (found, is_found) ↦ absurd (ground arith)
  ]
