-- ===== src/Port/Retrying.antt =====
-- src/omegahive/port/port.py, `_with_retry`: a request whose answer is lost after the commit.
use omegahive.Base.{
  String, ◌≡◌, refl, ap, ◌∙◌, Bool, true, false, none, some, List, [], ◌∷◌, arith, if◌then◌else◌,
}
use omegahive.Events.Envelope.{Event}
use omegahive.Events.Log.{Externals, Db, Draw, ok, find_by_key, open_run}
use omegahive.Gateway.Emit.{Gateway, Request, accepted, emit}
use omegahive.Gateway.Idempotency.{rows-open_run, emit-Accepts}
use omegahive.Gateway.Retry.{find-congr, find-accepted}
use omegahive.Port.Session.{Attempt, answered, lost_before_commit, lost_after_commit, with_retry}

-- Some attempt is answered.
unfoldable pub is_answered : List (Attempt × Draw) → Bool
is_answered [] = false
is_answered ((answered, d) ∷ rest) = true
is_answered ((_, d) ∷ rest) = is_answered rest

module _ (x : Externals) (g : Gateway) (q : Request) (k : String) (keyed : q.key ≡ some k) where
  emit-Found :
      (d : Draw) (ev : Event) (early late : Db)
      → find_by_key g.store.run_id q.actor.id k early ≡ some ev
      → emit x g d q early late ≡ (ok (accepted ev), open_run g.store.run_id early)
  unfolding emit
  emit-Found d ev early late found = ground arith

  retry-Found :
      (ev : Event) (rest : List (Attempt × Draw)) (db : Db)
      → find_by_key g.store.run_id q.actor.id k db ≡ some ev
      → ((with_retry x g q rest db).0
          ≡ (if is_answered rest then some (ok (accepted ev)) else none))
        × ((with_retry x g q rest db).1.rows ≡ db.rows)
  unfolding with_retry is_answered
  retry-Found ev [] db found = (refl, refl)
  retry-Found ev ((answered, d) ∷ rest) db found =
      let e = emit-Found d ev db db found in (rw e refl, rw e (rows-open_run g.store.run_id db))
  retry-Found ev ((lost_before_commit, d) ∷ rest) db found = retry-Found ev rest db found
  retry-Found ev ((lost_after_commit, d) ∷ rest) db found =
      let e = emit-Found d ev db db found in
      let opened = open_run g.store.run_id db in
      let still = find-congr x g d q k keyed opened db (rows-open_run g.store.run_id db) ∙ found in
      let (answer, same) = retry-Found ev rest opened still in
      let step = ap (λ r. with_retry x g q rest r.1) e in
      (
        ap (λ r. r.0) step ∙ answer,
        ap (λ r. r.1.rows) step ∙ same ∙ rows-open_run g.store.run_id db,
      )

-- When the answer of an accepted request is lost after the commit, the attempts that follow answer
-- with the committed event as soon as one is answered at all, and write no row.
pub lost_answer_recovered :
    (x : Externals) (g : Gateway) (d : Draw) (q : Request) (k : String) (db db' : Db) (ev : Event)
    (rest : List (Attempt × Draw))
    → q.key ≡ some k
    → emit x g d q db db ≡ (ok (accepted ev), db')
    → ((with_retry x g q ((lost_after_commit, d) ∷ rest) db).0
        ≡ (if is_answered rest then some (ok (accepted ev)) else none))
      × ((with_retry x g q ((lost_after_commit, d) ∷ rest) db).1.rows ≡ db'.rows)
unfolding with_retry
lost_answer_recovered x g d q k db db' ev rest keyed first =
    let found =
      find-accepted x g d q k keyed db db db' ev (emit-Accepts x g d q db db db' ev first) in
    let (answer, same) = retry-Found x g q k keyed ev rest db' found in
    let step = ap (λ r. with_retry x g q rest r.1) first in
    (ap (λ r. r.0) step ∙ answer, ap (λ r. r.1.rows) step ∙ same)
