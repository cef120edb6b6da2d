-- ===== src/Port/Session.antt =====
-- src/omegahive/port/port.py: a client's session with one run.
-- What the port keeps between calls: the basis in memory and, with a workdir, on disk, and the
-- generation that it saw last.
use omegahive.Base.{
  ℕ, String, Bool, true, false, ◌&&◌, not, Option, none, some, List, [], ◌∷◌, ◌++◌, ltb, leb, eqb,
  if◌then◌else◌, ◌>>=◌, keep, count_if, map_option,
}
use omegahive.Board.Reducer.{fold}
use omegahive.Board.State.{Board, empty}
use omegahive.Events.Envelope.{Actor, same_type, Event}
use omegahive.Events.Json.{fields_eq}
use omegahive.Events.Log.{Externals, Db, Draw, Result, ok, generation, head_seq, read_prefix}
use omegahive.Gateway.Emit.{Gateway, Request, EmitResult, accepted, emit, project}
use omegahive.Gateway.Names.{type_text}
use omegahive.Port.Wire.{CitedOp, Emission, to_emit, KeyParts, key_payload}

pub record Session : Type 0 where
  pub actor : Actor
  pub gateway : Gateway
  pub basis_seq : ℕ
  pub basis_file : Option ℕ
  pub last_generation : Option ℕ

pub record PortView : Type 0 where
  pub cursor : ℕ
  pub generation : Option ℕ
  pub events : List Event
  pub board : Option Board
  pub changed : Bool
  pub generation_mismatch : Bool

-- `BasisStore.observe`, on the number that the file holds.
unfoldable pub observe : ℕ → ℕ → ℕ
observe seq current = if leb seq current then current else seq

-- `_advance_basis`
unfoldable pub advance_basis : Option ℕ → Session → Session
unfolding observe
advance_basis none s = s
advance_basis (some seq) s =
    if leb seq s.basis_seq
    then s
    else record s { basis_seq = seq; basis_file = map_option (observe seq) s.basis_file }

abbrev pub unchanged : ℕ → Option ℕ → Bool → PortView
unchanged cursor gen mismatch = record {
  cursor = cursor;
  generation = gen;
  events = [];
  board = none;
  changed = false;
  generation_mismatch = mismatch;
}

-- `cursor is not None and self._generation is not None and gen != self._generation`
unfoldable pub is_stale : Option ℕ → Option ℕ → Option ℕ → Bool
is_stale (some c) (some seen) (some gen) = not (eqb gen seen)
is_stale (some c) (some seen) none = true
is_stale _ _ _ = false

abbrev pub adopt : Option ℕ → Option ℕ → Session → Session
adopt none gen s = record s { last_generation = gen }
adopt (some c) gen s = s

-- The events of a prefix beyond a cursor.
abbrev pub beyond : ℕ → Event → Bool
beyond low e = elim e.seq [ none ↦ false | some n ↦ ltb low n ]

abbrev pub cursor_or_zero : Option ℕ → ℕ
cursor_or_zero none = 0
cursor_or_zero (some c) = c

unfoldable pub visible_delta : Actor → ℕ → List Event → Board → List Event
visible_delta a low prefix b = project a.role a.id (keep (beyond low) prefix) b

-- The read of a log with a head beyond the cursor; `none` is the exception of the fold.
unfoldable pub read_changed : Session → Option ℕ → ℕ → Db → Option (PortView × Session)
unfolding visible_delta
read_changed s cursor head db =
    let run = s.gateway.store.run_id in
    let prefix = read_prefix run head db in
    fold prefix >>= λ b. some (
      record {
        cursor = head;
        generation = generation run db;
        events = visible_delta s.actor (cursor_or_zero cursor) prefix b;
        board = some b;
        changed = true;
        generation_mismatch = false;
      },
      advance_basis (some head) (adopt cursor (generation run db) s),
    )

-- The read of an empty log from the start.
abbrev pub empty_view : Option ℕ → PortView
empty_view gen = record {
  cursor = 0;
  generation = gen;
  events = [];
  board = some empty;
  changed = true;
  generation_mismatch = false;
}

-- `head is None or head <= cursor`, for a read with a cursor.
abbrev pub is_quiet : Option ℕ → Option ℕ → Bool
is_quiet none head = false
is_quiet (some c) none = true
is_quiet (some c) (some h) = leb h c

unfoldable pub read_at_head : Session → Option ℕ → Option ℕ → Db → Option (PortView × Session)
read_at_head s cursor head db =
    let gen = generation s.gateway.store.run_id db in
    if is_quiet cursor head
    then some (unchanged (cursor_or_zero cursor) gen false, advance_basis head (adopt cursor gen s))
    else (elim head [
      | none ↦ some (empty_view gen, adopt cursor gen s)
      | some h ↦ read_changed s cursor h db
    ])

-- `HiveCoordinatorPort.read`
unfoldable pub read : Session → Option ℕ → Db → Option (PortView × Session)
unfolding read_at_head
read s cursor db =
    let run = s.gateway.store.run_id in
    let gen = generation run db in
    if is_stale cursor s.last_generation gen
    then some (unchanged (cursor_or_zero cursor) gen true, s)
    else read_at_head s cursor (head_seq run db) db

-- The digest of a key's parts, which is not the repository's.
abbrev pub Digest : Type 0
Digest = KeyParts → String

unfoldable pub parts : Session → Emission → ℕ → KeyParts
parts s e occ = record {
  run_id = s.gateway.store.run_id;
  actor_id = s.actor.id;
  op_type = type_text e.event_type;
  payload = key_payload e;
  basis_seq = s.basis_seq;
  occ = occ;
}

abbrev key_or : Option String → String → String
key_or none k = k
key_or (some given) k = given

-- The request of `_emit_one`.
unfoldable pub request : Digest → Session → CitedOp → Option String → ℕ → Request
request digest s o given occ =
    let e = to_emit o.op in
    record {
      actor = s.actor;
      event_type = e.event_type;
      payload = e.payload;
      task_id = e.task_id;
      causation_id = o.causation_id;
      recipient = none;
      logical_ts = if s.gateway.store.server_time then none else some s.gateway.store.clock;
      key = some (key_or given (digest (parts s e occ)));
    }

-- The basis after an emit: an accepted event of one's own advances it.
unfoldable pub after_emit : Result EmitResult → Session → Session
after_emit (ok (accepted ev)) s = advance_basis ev.seq s
after_emit _ s = s

-- `_emit_one`, where the connection holds.
unfoldable pub emit_one :
    Externals
    → Digest
    → Draw
    → Session
    → CitedOp
    → Option String
    → ℕ
    → Db
    → Result EmitResult × (Session × Db)
unfolding request after_emit
emit_one x digest d s o given occ db =
    let (r, db') = emit x s.gateway d (request digest s o given occ) db db in
    (r, (after_emit r s, db'))

-- `ops[j].to_emit()[:2] == target`
unfoldable pub same_op : Emission → Emission → Bool
same_op a b = same_type a.event_type b.event_type && fields_eq a.payload b.payload

-- `_occ`: how many of the ops before are the same.
unfoldable pub occ : List CitedOp → CitedOp → ℕ
unfolding same_op
occ before o = count_if (λ p. same_op (to_emit p.op) (to_emit o.op)) before

-- `emit` of a batch: each member at its place, with the draws of its statements.
unfoldable pub emit_members :
    Externals
    → Digest
    → Session
    → List CitedOp
    → List (CitedOp × Draw)
    → Db
    → List (Result EmitResult) × (Session × Db)
unfolding emit_one occ
emit_members x digest s before [] db = ([], (s, db))
emit_members x digest s before ((o, d) ∷ ops) db =
    let (r, (s', db')) = emit_one x digest d s o none (occ before o) db in
    let (rs, last) = emit_members x digest s' (before ++ o ∷ []) ops db' in (r ∷ rs, last)

-- What a call through a connection may meet: an answer, or its loss before or after the commit.
pub data Attempt : Type 0 where
  answered lost_before_commit lost_after_commit : Attempt

-- `_with_retry`: the same request over a list of attempts; `none` is PortInfraError. Between the
-- attempts no other writer commits.
unfoldable pub with_retry :
    Externals → Gateway → Request → List (Attempt × Draw) → Db → Option (Result EmitResult) × Db
with_retry x g q [] db = (none, db)
with_retry x g q ((answered, d) ∷ rest) db = let (r, db') = emit x g d q db db in (some r, db')
with_retry x g q ((lost_before_commit, d) ∷ rest) db = with_retry x g q rest db
with_retry x g q ((lost_after_commit, d) ∷ rest) db = with_retry x g q rest (emit x g d q db db).1
