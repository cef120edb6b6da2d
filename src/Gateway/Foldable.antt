-- ===== src/Gateway/Foldable.antt =====
-- src/omegahive/events/log.py: what is appended can be folded.
use omegahive.Base.{
  String, ◌≡◌, sym, subst, inl, inr, Option, some, List, [], ◌∷◌, ◌++◌, map, arith, Bool-cases,
  Option-cases, keep,
}
use omegahive.Board.Reducer.{fold}
use omegahive.Board.State.{Board}
use omegahive.Board.Totality.{HasModel, EachHasModel, fold-some}
use omegahive.Events.Envelope.{Event}
use omegahive.Events.Log.{
  Externals, Documented, Row, Db, Store, Draw, ok, NewEvent, in_run, read_run, insert_row, times,
  new_event, append,
}
use omegahive.Events.Types.{schema}
use omegahive.Gateway.Idempotency.{append-Appended}

abbrev pub RowsHaveModels : List Row → Type 0
RowsHaveModels [] = Unit {0}
RowsHaveModels (r ∷ rs) = HasModel r.event.event_type r.event.payload × RowsHaveModels rs

RowsHaveModels-snoc :
    (rs : List Row) (r : Row)
    → RowsHaveModels rs
    → HasModel r.event.event_type r.event.payload
    → RowsHaveModels (rs ++ r ∷ [])
RowsHaveModels-snoc [] r hs h = (h, tt)
RowsHaveModels-snoc (s ∷ rs) r (l, hs) h = (l, RowsHaveModels-snoc rs r hs h)

read-EachHasModel :
    (run : String) (rows : List Row)
    → RowsHaveModels rows
    → EachHasModel (map (λ r. r.event) (keep (in_run run) rows))
unfolding keep
read-EachHasModel run [] h = tt
read-EachHasModel run (r ∷ rows) (h, hs) = elim (Bool-cases (in_run run r)) [
  | inl mine ↦ rw mine (h, read-EachHasModel run rows hs)
  | inr others ↦ rw others (read-EachHasModel run rows hs)
]

-- A log whose events have the fields of their model classes folds to a board.
log-some :
    (run : String) (db : Db)
    → RowsHaveModels db.rows
    → (b : Board) × (fold (read_run run db) ≡ some b)
unfolding read_run
log-some run db h = fold-some (read_run run db) (read-EachHasModel run db.rows h)

insert_row-event :
    (ev ev' : Event) (k : Option String) (db db' : Db)
    → insert_row ev k db ≡ ok (ev', db')
    → ev' ≡ ev
unfolding insert_row
insert_row-event ev ev' k db db' h = ground arith

append-HasModel :
    (x : Externals) (s : Store) (d : Draw) (n : NewEvent) (db db' : Db) (ev : Event)
    → Documented x
    → append x s d n db ≡ ok (ev, db')
    → HasModel ev.event_type ev.payload
unfolding append
append-HasModel x s d n db db' ev doc h = elim (Option-cases (schema n.event_type)) [
  | inl unknown ↦ absurd (ground arith)
  | inr (fs, model) ↦ elim (Option-cases (x.dump n.event_type n.payload)) [
    | inl invalid ↦ absurd (ground arith)
    | inr (canonical, valid) ↦ elim (Option-cases (times s d n.logical_ts db)) [
      | inl refused ↦ absurd (ground arith)
      | inr (ts, timed) ↦
          let written = new_event s d n canonical ts db in
          let is_ev : ev ≡ written = insert_row-event written ev n.key db db' (ground arith) in
          let holds = doc.dump-conforms n.event_type n.payload canonical fs model valid in
          subst (λ e. HasModel e.event_type e.payload) (sym is_ev) (rw model holds)
    ]
  ]
]

-- On a log whose events have the fields of their model classes, an append that succeeds leaves
-- such a log, and each of its runs folds to a board. It is used that pydantic's dump of a validated
-- payload has the fields that its class declares.
pub append_keeps_foldable :
    (x : Externals) (s : Store) (d : Draw) (n : NewEvent) (db db' : Db) (ev : Event)
    → Documented x
    → RowsHaveModels db.rows
    → append x s d n db ≡ ok (ev, db')
    → RowsHaveModels db'.rows × ((run : String) → (b : Board) × (fold (read_run run db') ≡ some b))
append_keeps_foldable x s d n db db' ev doc models h =
    let w = append-Appended x s d n db db' ev h in
    let kept = subst RowsHaveModels (sym w.rows) (
      RowsHaveModels-snoc db.rows (record { event = ev; key = n.key }) models
        (append-HasModel x s d n db db' ev doc h)) in
    (kept, λ run. log-some run db' kept)
