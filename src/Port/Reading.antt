-- ===== src/Port/Reading.antt =====
-- src/omegahive/port/port.py, `read`: what a client learns from two reads in a row.
use omegahive.Base.{
  ℕ, ◌≤◌, ◌≡◌, refl, sym, ap, ◌∙◌, subst, inl, inr, true, false, Option, none, some, arith,
  Bool-cases, Option-cases,
}
use omegahive.Board.Reducer.{fold}
use omegahive.Events.Log.{Db, generation, head_seq, read_prefix}
use omegahive.Port.Session.{
  Session, PortView, advance_basis, unchanged, is_stale, adopt, cursor_or_zero, read_changed,
  is_quiet, read_at_head, read,
}

-- The basis never goes back.
advance_basis-grows : (n : Option ℕ) (s : Session) → s.basis_seq ≤ (advance_basis n s).basis_seq
unfolding advance_basis
advance_basis-grows none s = omega arith
advance_basis-grows (some n) s = ground arith

advance_basis-reaches : (n : ℕ) (s : Session) → n ≤ (advance_basis (some n) s).basis_seq
unfolding advance_basis
advance_basis-reaches n s = ground arith

advance_basis-old : (n : ℕ) (s : Session) → n ≤ s.basis_seq → advance_basis (some n) s ≡ s
unfolding advance_basis
advance_basis-old n s h = ground arith

advance_basis-again :
    (n : ℕ) (s : Session)
    → advance_basis (some n) (advance_basis (some n) s) ≡ advance_basis (some n) s
advance_basis-again n s = advance_basis-old n (advance_basis (some n) s) (advance_basis-reaches n s)

last_generation-advance :
    (n : Option ℕ) (s : Session) → (advance_basis n s).last_generation ≡ s.last_generation
unfolding advance_basis
last_generation-advance none s = refl
last_generation-advance (some n) s = ground arith

gateway-advance : (n : Option ℕ) (s : Session) → (advance_basis n s).gateway ≡ s.gateway
unfolding advance_basis
gateway-advance none s = refl
gateway-advance (some n) s = ground arith

gateway-adopt : (cursor gen : Option ℕ) (s : Session) → (adopt cursor gen s).gateway ≡ s.gateway
gateway-adopt none gen s = refl
gateway-adopt (some c) gen s = refl

basis-adopt : (cursor gen : Option ℕ) (s : Session) → (adopt cursor gen s).basis_seq ≡ s.basis_seq
basis-adopt none gen s = refl
basis-adopt (some c) gen s = refl

-- A cursor of the generation that was adopted is not stale.
own_generation : (gen : Option ℕ) (c : ℕ) → is_stale (some c) gen gen ≡ false
unfolding is_stale
own_generation none c = refl
own_generation (some n) c = ground arith

stale-any :
    (seen gen : Option ℕ) (d c : ℕ)
    → is_stale (some d) seen gen ≡ false
    → is_stale (some c) seen gen ≡ false
unfolding is_stale
stale-any none gen d c h = refl
stale-any (some n) none d c h = h
stale-any (some n) (some m) d c h = h

fresh-again :
    (cursor : Option ℕ) (s : Session) (gen : Option ℕ) (c : ℕ)
    → is_stale cursor s.last_generation gen ≡ false
    → is_stale (some c) (adopt cursor gen s).last_generation gen ≡ false
fresh-again none s gen c h = own_generation gen c
fresh-again (some d) s gen c h = stale-any s.last_generation gen d c h

-- What a read that shows the board gives.
record Shown (s : Session) (cursor : Option ℕ) (db : Db) (v : PortView) (s' : Session)
    : Type 0 where
  head : Option ℕ
  is_head : head_seq s.gateway.store.run_id db ≡ head
  fresh_cursor : is_stale cursor s.last_generation (generation s.gateway.store.run_id db) ≡ false
  at : v.cursor ≡ cursor_or_zero head
  seen : v.generation ≡ generation s.gateway.store.run_id db
  after : s' ≡ advance_basis head (adopt cursor (generation s.gateway.store.run_id db) s)

read-Shown :
    (s s' : Session) (cursor : Option ℕ) (db : Db) (v : PortView)
    → read s cursor db ≡ some (v, s')
    → v.changed ≡ true
    → Shown s cursor db v s'
unfolding read read_at_head read_changed advance_basis
read-Shown s s' cursor db v h shows =
    let run = s.gateway.store.run_id in
    elim (Bool-cases (is_stale cursor s.last_generation (generation run db))) [
      | inl stale ↦ absurd (ground arith)
      | inr fresh_c ↦ elim (Bool-cases (is_quiet cursor (head_seq run db))) [
        | inl quiet ↦ absurd (ground arith)
        | inr news ↦ elim (Option-cases (head_seq run db)) [
          | inl no_head ↦ record {
            head = none;
            is_head = no_head;
            fresh_cursor = fresh_c;
            at = ground arith;
            seen = ground arith;
            after = ground arith;
          }
          | inr (n, is_n) ↦ elim (Option-cases (fold (read_prefix run n db))) [
            | inl fails ↦ absurd (ground arith)
            | inr (b, folds) ↦ record {
              head = some n;
              is_head = is_n;
              fresh_cursor = fresh_c;
              at = ground arith;
              seen = ground arith;
              after = ground arith;
            }
          ]
        ]
      ]
    ]

quiet_read :
    (s : Session) (c : ℕ) (db : Db) (gen head : Option ℕ)
    → generation s.gateway.store.run_id db ≡ gen
    → head_seq s.gateway.store.run_id db ≡ head
    → is_stale (some c) s.last_generation gen ≡ false
    → is_quiet (some c) head ≡ true
    → advance_basis head s ≡ s
    → read s (some c) db ≡ some (unchanged c gen false, s)
unfolding read read_at_head
quiet_read s c db gen head is_gen is_head fresh_c quiet same =
    rw is_gen (rw is_head (rw fresh_c (rw quiet (ap (λ t. some (unchanged c gen false, t)) same))))

quiet_at : (head : Option ℕ) → is_quiet (some (cursor_or_zero head)) head ≡ true
quiet_at none = refl
quiet_at (some n) = ground arith

advance-again :
    (head : Option ℕ) (s : Session)
    → advance_basis head (advance_basis head s) ≡ advance_basis head s
unfolding advance_basis
advance-again none s = refl
advance-again (some n) s = advance_basis-again n s

basis-bounds :
    (cursor gen head : Option ℕ) (s : Session)
    → (s.basis_seq ≤ (advance_basis head (adopt cursor gen s)).basis_seq)
      × (cursor_or_zero head ≤ (advance_basis head (adopt cursor gen s)).basis_seq)
basis-bounds cursor gen none s = (
  subst (λ n. n ≤ (advance_basis none (adopt cursor gen s)).basis_seq) (basis-adopt cursor gen s)
      (advance_basis-grows none (adopt cursor gen s)),
  omega arith,
)
basis-bounds cursor gen (some n) s = (
  subst (λ m. m ≤ (advance_basis (some n) (adopt cursor gen s)).basis_seq)
      (basis-adopt cursor gen s) (advance_basis-grows (some n) (adopt cursor gen s)),
  advance_basis-reaches n (adopt cursor gen s),
)

same_gateway :
    (s s' : Session) (cursor : Option ℕ) (db : Db) (v : PortView)
    → Shown s cursor db v s'
    → s'.gateway ≡ s.gateway
same_gateway s s' cursor db v k =
    ap (λ t. t.gateway) k.after
    ∙ gateway-advance k.head (adopt cursor (generation s.gateway.store.run_id db) s)
    ∙ gateway-adopt cursor (generation s.gateway.store.run_id db) s

-- A read that shows the board moves the client on: its cursor is the head of the log, the basis
-- reaches it and has not gone back, and reading again at that cursor, with nothing written in
-- between, shows nothing new, is not refused as stale, and leaves the session as it is.
pub reread_quiet :
    (s s' : Session) (cursor : Option ℕ) (db : Db) (v : PortView)
    → read s cursor db ≡ some (v, s')
    → v.changed ≡ true
    → (v.cursor ≡ cursor_or_zero (head_seq s.gateway.store.run_id db))
      × (s.basis_seq ≤ s'.basis_seq)
      × (v.cursor ≤ s'.basis_seq)
      × (read s' (some v.cursor) db ≡ some (unchanged v.cursor v.generation false, s'))
reread_quiet s s' cursor db v h shows =
    let run = s.gateway.store.run_id in
    let gen = generation run db in
    let k = read-Shown s s' cursor db v h shows in
    let moved = adopt cursor gen s in
    let (grows, reaches) = basis-bounds cursor gen k.head s in
    let same_run = ap (λ t. t.store.run_id) (same_gateway s s' cursor db v k) in
    let is_gen : generation s'.gateway.store.run_id db ≡ v.generation =
      ap (λ r. generation r db) same_run ∙ sym k.seen in
    let is_head : head_seq s'.gateway.store.run_id db ≡ k.head =
      ap (λ r. head_seq r db) same_run ∙ k.is_head in
    let last : s'.last_generation ≡ moved.last_generation =
      ap (λ t. t.last_generation) k.after ∙ last_generation-advance k.head moved in
    let fresh_c : is_stale (some v.cursor) s'.last_generation v.generation ≡ false =
      subst (λ t. is_stale (some v.cursor) s'.last_generation t ≡ false) (sym k.seen)
        (subst (λ t. is_stale (some v.cursor) t gen ≡ false) (sym last)
          (fresh-again cursor s gen v.cursor k.fresh_cursor)) in
    let quiet : is_quiet (some v.cursor) k.head ≡ true =
      subst (λ t. is_quiet (some t) k.head ≡ true) (sym k.at) (quiet_at k.head) in
    let stays : advance_basis k.head s' ≡ s' =
      subst (λ t. advance_basis k.head t ≡ t) (sym k.after) (advance-again k.head moved) in
    (
      k.at ∙ ap cursor_or_zero (sym k.is_head),
      subst (λ t. s.basis_seq ≤ t.basis_seq) (sym k.after) grows,
      subst (λ n. n ≤ s'.basis_seq) (sym k.at)
          (subst (λ t. cursor_or_zero k.head ≤ t.basis_seq) (sym k.after) reaches),
      quiet_read s' v.cursor db v.generation k.head is_gen is_head fresh_c quiet stays,
    )
