-- ===== src/Gateway/Race.antt =====
-- An emit whose key another writer commits between the lookup and the lock.
use omegahive.Base.{
  ℕ, String, ◌≡◌, refl, sym, ap, ◌∙◌, ◌≢◌, inl, inr, none, some, arith, Bool-cases, Option-cases,
}
use omegahive.Board.Legality.{Rejection}
use omegahive.Board.Reducer.{fold}
use omegahive.Board.State.{Board}
use omegahive.Events.Envelope.{gateway_rejected, Uuid, Event}
use omegahive.Events.Json.{Payload}
use omegahive.Events.Log.{
  Externals, Db, Draw, Error, Result, ok, raise, read_run, find_id, insert_row, times, append,
  open_run, RefusalKey, find_recent_rejection,
}
use omegahive.Events.Types.{schema}
use omegahive.Gateway.Emit.{
  gate, Gateway, Request, rejected, refusal_payload, now_ts, refusal_key, refusal_event,
  record_rejection, refuse, locked, find_request, finish, emit,
}
use omegahive.Gateway.Idempotency.{rows-open_run, read_run-open_run}

-- A refusal is written without a key and without a cause, so it is recorded where its event id is
-- unused and its payload is valid, or where it is counted on a refusal that has a count.
record_rejection-no_error :
    (x : Externals) (g : Gateway) (d : Draw) (q : Request) (rej : Rejection) (db : Db)
    (canonical : Payload) (e : Error)
    → x.dump gateway_rejected (refusal_payload x q rej) ≡ some canonical
    → find_id d.uuid db.rows ≡ none
    → ((u : Uuid)
        → find_recent_rejection g.store.run_id
            (refusal_key q rej)
            (now_ts g.store d q.logical_ts)
            g.coalesce_window
            db
          ≢ some (u, none))
    → record_rejection x g d q rej db ≢ raise e
unfolding record_rejection append insert_row refusal_event times schema
record_rejection-no_error x g d q rej db canonical e valid unused counts h =
    elim (Option-cases (
      find_recent_rejection g.store.run_id (refusal_key q rej) (now_ts g.store d q.logical_ts)
        g.coalesce_window db)) [
          | inr ((u, none), found) ↦ absurd (counts u found)
          | inr ((u, some n), found) ↦ absurd (ground arith)
          | inl alone ↦ elim (Bool-cases g.store.server_time) [
            | inl server ↦ absurd (ground arith)
            | inr sim ↦ absurd (ground arith)
          ]
        ]

no_error-ok :
    (m : Result (Uuid × Db))
    → ((e : Error) → m ≢ raise e)
    → (u : Uuid) × (after : Db) × (m ≡ ok (u, after))
no_error-ok (ok (u, after)) h = (u, after, refl)
no_error-ok (raise e) h = absurd (h e refl)

find_recent-rows :
    (run : String) (k : RefusalKey) (now window : ℕ) (a b : Db)
    → a.rows ≡ b.rows
    → find_recent_rejection run k now window a ≡ find_recent_rejection run k now window b
unfolding find_recent_rejection
find_recent-rows run k now window a b e = rw e refl

module _ (x : Externals) (g : Gateway) (d : Draw) (q : Request) where
  pub emit-absent :
      (early late : Db)
      → find_request g q early ≡ none
      → emit x g d q early late ≡ finish g q late (locked x g d q (open_run g.store.run_id late))
  unfolding emit
  emit-absent early late absent = ground arith

  locked-refused :
      (db : Db) (b : Board) (rej : Rejection)
      → fold (read_run g.store.run_id db) ≡ some b
      → gate b q.actor q.event_type q.payload q.task_id ≡ some rej
      → locked x g d q db ≡ refuse rej (record_rejection x g d q rej db)
  unfolding locked
  locked-refused db b rej folds refused = ground arith

-- The key is not looked up again once the lock is granted: when another writer has committed it in
-- between, and the gate refuses the emit on the board under the lock, the answer is that refusal,
-- although the key has an event. The refusal's payload must be valid, the event id drawn for it
-- unused, and the refusal it is counted on, where there is one, must have a count.
pub regated_after_commit :
    (x : Externals) (g : Gateway) (d : Draw) (q : Request) (early late : Db) (first : Event)
    (b : Board) (rej : Rejection) (canonical : Payload)
    → find_request g q early ≡ none
    → find_request g q late ≡ some first
    → fold (read_run g.store.run_id late) ≡ some b
    → gate b q.actor q.event_type q.payload q.task_id ≡ some rej
    → x.dump gateway_rejected (refusal_payload x q rej) ≡ some canonical
    → find_id d.uuid late.rows ≡ none
    → ((u : Uuid)
        → find_recent_rejection g.store.run_id
            (refusal_key q rej)
            (now_ts g.store d q.logical_ts)
            g.coalesce_window
            late
          ≢ some (u, none))
    → (u : Uuid) × ((emit x g d q early late).0 ≡ ok (rejected rej.code rej.reason u))
regated_after_commit x g d q early late first b rej canonical no_early in_late folds refused valid
      unused counts =
    let run = g.store.run_id in
    let db = open_run run late in
    let rows : db.rows ≡ late.rows = rows-open_run run late in
    let fresh_id : find_id d.uuid db.rows ≡ none = ap (find_id d.uuid) rows ∙ unused in
    let folds_db : fold (read_run run db) ≡ some b =
      ap fold (read_run-open_run run run late) ∙ folds in
    let same =
      find_recent-rows run (refusal_key q rej) (now_ts g.store d q.logical_ts) g.coalesce_window db
        late rows in
    let (u, after, recorded) = no_error-ok (record_rejection x g d q rej db) (λ e.
      record_rejection-no_error x g d q rej db canonical e valid fresh_id
        (λ u found. counts u (sym same ∙ found))) in
    let runs : emit x g d q early late ≡ finish g q late (refuse rej (ok (u, after))) =
      emit-absent x g d q early late no_early
      ∙ ap (finish g q late)
          (locked-refused x g d q db b rej folds_db refused ∙ ap (refuse rej) recorded) in
    (u, ap (λ r. r.0) runs)
