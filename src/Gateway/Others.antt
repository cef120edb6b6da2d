-- ===== src/Gateway/Others.antt =====
-- What other writers do to the log between two calls, each in a transaction of its own.
use omegahive.Base.{
  ℕ, String, ◌≡◌, refl, sym, ap, ◌∙◌, subst, inl, inr, true, false, none, some, List, [], ◌∷◌, ◌++◌,
  map, arith, eqb, Bool-cases, ℤ,
}
use omegahive.Board.Legality.{fits}
use omegahive.Events.Envelope.{Uuid, Event}
use omegahive.Events.Json.{Json}
use omegahive.Events.Log.{
  Externals, Row, Db, Store, Draw, ok, NewEvent, find_id, same_key, first_row, append, open_run,
  bump_generation, RefusalKey, find_recent_rejection, bump_coalesced_count,
}
use omegahive.Gateway.Emit.{next_count}
use omegahive.Gateway.Idempotency.{first_row-append, append-Appended, rows-open_run}
use omegahive.Gateway.Refusals.{is_op, AreRefusals, bump, IdsOnce, found-AreRefusals}

-- One committed write: an event appended by any store, a refusal counted on the recent one that was
-- found for its key, a run registered, or a run's generation bumped.
pub data Write : Db → Db → Type 0 where
  appended :
      {db db' : Db} (x : Externals) (s : Store) (d : Draw) (n : NewEvent) (ev : Event)
      → append x s d n db ≡ ok (ev, db')
      → Write db db'
  counted :
      {db : Db} (run : String) (k : RefusalKey) (now window : ℕ) (u : Uuid) (n : ℤ)
      → find_recent_rejection run k now window db ≡ some (u, some n)
      → Write db (bump_coalesced_count u (next_count n) db)
  opened : {db : Db} (run : String) → Write db (open_run run db)
  bumped : {db : Db} (run : String) → Write db (bump_generation run db)

-- Any number of them, in any order.
pub data Writes (first : Db) : Db → Type 0 where
  here : Writes first first
  next : {db db' : Db} → Writes first db → Write db db' → Writes first db'

-- The first row with the key is this one, which is no refusal; and event ids are unique.
pub record IsKept (run actor k : String) (r : Row) (db : Db) : Type 0 where
  pub found : first_row (same_key run actor k) db.rows ≡ some r
  pub is_operation : is_op r.event ≡ true
  pub once : IdsOnce db.rows

find_id-snoc :
    (u : Uuid) (rs : List Row) (r : Row)
    → find_id u rs ≡ none
    → eqb r.event.event_id u ≡ false
    → find_id u (rs ++ r ∷ []) ≡ none
unfolding find_id
find_id-snoc u [] r h other = ground arith
find_id-snoc u (s ∷ rs) r h other = ground (arith, find_id-snoc u rs r)

IdsOnce-snoc :
    (rs : List Row) (r : Row)
    → IdsOnce rs
    → find_id r.event.event_id rs ≡ none
    → IdsOnce (rs ++ r ∷ [])
unfolding find_id
IdsOnce-snoc [] r once new = (refl, tt)
IdsOnce-snoc (s ∷ rs) r (fresh_id, once) new = (
  find_id-snoc s.event.event_id rs r fresh_id (ground arith),
  IdsOnce-snoc rs r once (ground arith),
)

find_id-bump :
    (v u : Uuid) (n : Json) (rs : List Row)
    → find_id v rs ≡ none
    → find_id v (map (bump u n) rs) ≡ none
unfolding find_id
find_id-bump v u n [] h = refl
find_id-bump v u n (r ∷ rs) h = ground (arith, find_id-bump v u n rs)

event_id-bump : (u : Uuid) (n : Json) (r : Row) → (bump u n r).event.event_id ≡ r.event.event_id
event_id-bump u n r = ground arith

IdsOnce-bump : (u : Uuid) (n : Json) (rs : List Row) → IdsOnce rs → IdsOnce (map (bump u n) rs)
IdsOnce-bump u n [] once = tt
IdsOnce-bump u n (r ∷ rs) (fresh_id, once) = (
  ap (λ v. find_id v (map (bump u n) rs)) (event_id-bump u n r)
      ∙ find_id-bump r.event.event_id u n rs fresh_id,
  IdsOnce-bump u n rs once,
)

same_key-bump :
    (run actor k : String) (u : Uuid) (n : Json) (r : Row)
    → same_key run actor k (bump u n r) ≡ same_key run actor k r
same_key-bump run actor k u n r = ground arith

-- A row that is no refusal is not counted on.
first_row-bump :
    (run actor k : String) (u : Uuid) (n : Json) (rs : List Row) (r : Row)
    → AreRefusals u rs
    → is_op r.event ≡ true
    → first_row (same_key run actor k) rs ≡ some r
    → first_row (same_key run actor k) (map (bump u n) rs) ≡ some r
unfolding first_row
first_row-bump run actor k u n [] r all op e = absurd (cc)
first_row-bump run actor k u n (s ∷ rs) r (drops, all) op e =
    elim (Bool-cases (same_key run actor k s)) [
      | inl fits ↦
          let fits' = same_key-bump run actor k u n s ∙ fits in
          let same : s ≡ r = ground arith in
          elim (Bool-cases (eqb s.event.event_id u)) [
            | inl hit ↦ absurd (ground (arith, drops hit, ap (λ v. is_op v.event) same))
            | inr other ↦
                let kept : bump u n s ≡ s = rw other refl in rw fits' (ap some (kept ∙ same))
          ]
      | inr skips ↦
          let skips' = same_key-bump run actor k u n s ∙ skips in
          let there : first_row (same_key run actor k) rs ≡ some r = ground arith in
          rw skips' (first_row-bump run actor k u n rs r all op there)
    ]

rows-IsKept :
    (run' actor k : String) (r : Row) (db db' : Db)
    → db'.rows ≡ db.rows
    → IsKept run' actor k r db
    → IsKept run' actor k r db'
rows-IsKept run' actor k r db db' same kept = record {
  found = ap (first_row (same_key run' actor k)) same ∙ kept.found;
  is_operation = kept.is_operation;
  once = subst IdsOnce (sym same) kept.once;
}

rows-bump_generation : (run : String) (db : Db) → (bump_generation run db).rows ≡ db.rows
unfolding bump_generation
rows-bump_generation run db = ground arith

Write-IsKept :
    (run actor k : String) (r : Row) {db db' : Db}
    → Write db db'
    → IsKept run actor k r db
    → IsKept run actor k r db'
unfolding bump_coalesced_count
Write-IsKept run actor k r {db} {db'} (appended x s d n ev written) kept =
    let w = append-Appended x s d n db db' ev written in
    let row : Row = record { event = ev; key = n.key } in
    record {
      found =
          ap (first_row (same_key run actor k)) w.rows
          ∙ first_row-append (same_key run actor k) db.rows (row ∷ []) r kept.found;
      is_operation = kept.is_operation;
      once =
          subst IdsOnce (sym w.rows) (
            IdsOnce-snoc db.rows row kept.once (ap (λ v. find_id v db.rows) w.event_id ∙ w.new_id));
    }
Write-IsKept run actor k r {db} (counted run' key now window u n found) kept = record {
  found =
      first_row-bump run actor k u (next_count n) db.rows r
        (found-AreRefusals run' key now window db u (some n) kept.once found) kept.is_operation
        kept.found;
  is_operation = kept.is_operation;
  once = IdsOnce-bump u (next_count n) db.rows kept.once;
}
Write-IsKept run actor k r {db} (opened run') kept =
    rows-IsKept run actor k r db (open_run run' db) (rows-open_run run' db) kept
Write-IsKept run actor k r {db} (bumped run') kept =
    rows-IsKept run actor k r db (bump_generation run' db) (rows-bump_generation run' db) kept

pub Writes-IsKept :
    (run actor k : String) (r : Row) {db db' : Db}
    → Writes db db'
    → IsKept run actor k r db
    → IsKept run actor k r db'
Writes-IsKept run actor k r here kept = kept
Writes-IsKept run actor k r (next ws w) kept =
    Write-IsKept run actor k r w (Writes-IsKept run actor k r ws kept)
