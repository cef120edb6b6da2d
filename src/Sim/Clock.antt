-- ===== src/Sim/Clock.antt =====
-- The order of the engine's heap, and the clock that follows it.
use omegahive.Base.{
  ℕ, zero, suc, ◌+◌, ◌≤◌, ◌<◌, ◌≡◌, refl, sym, subst, ◌≢◌, ◌⊎◌, inl, inr, true, false, Option, none,
  some, List, [], ◌∷◌, arith, ltb, Bool-cases, ℤ, pos, negsuc, insert,
}
use omegahive.Events.Log.{Db}
use omegahive.Sim.Engine.{
  Member, Setup, HeapItem, State, Stop, clock_backward, Step, went, stopped, and_then, item_le,
  item_in, time_of,
}
use omegahive.Sim.Heap.{
  Holds, Holds-map, GivesDelays, OnHeap, At, SparesOthers, SurvivesPush, settle_loop-At, fire-At,
}
use omegahive.Sim.Loop.{
  settle, Engine, settle_loop, advance_to, fire, popped, after_pop, loop_on, run_loop, run_engine,
  start_engine,
}

-- The item comes after one of time `t` with number `q`.
abbrev Follows : ℕ → ℕ → HeapItem → Type 0
Follows t q i = (t < i.logical_ts) ⊎ ((t ≡ i.logical_ts) × (q < i.schedule_seq))

-- Items in the order of their times, those of one time in the order they were scheduled in, all
-- numbered below `n`.
abbrev pub InOrder : ℕ → ℕ → ℕ → List HeapItem → Type 0
InOrder t q n [] = Unit {0}
InOrder t q n (i ∷ is) =
    (i.overdue ≡ 0)
    × Follows t q i
    × (i.schedule_seq < n)
    × InOrder i.logical_ts i.schedule_seq n is

-- A heap in order, none of whose items lies before the clock.
abbrev pub IsQueue : OnHeap
IsQueue clock [] n = Unit {0}
IsQueue clock (i ∷ is) n =
    (i.overdue ≡ 0)
    × (clock ≤ i.logical_ts)
    × (i.schedule_seq < n)
    × InOrder i.logical_ts i.schedule_seq n is

InOrder-suc : (t q n : ℕ) (is : List HeapItem) → InOrder t q n is → InOrder t q (suc n) is
InOrder-suc t q n [] h = tt
InOrder-suc t q n (i ∷ is) (up, f, lt, h) =
    (up, f, omega arith, InOrder-suc i.logical_ts i.schedule_seq n is h)

before-lt :
    (i j : HeapItem)
    → i.overdue ≡ 0
    → j.overdue ≡ 0
    → item_le i j ≡ true
    → j.schedule_seq < i.schedule_seq
    → i.logical_ts < j.logical_ts
unfolding item_le
before-lt i j on up h lt = ground arith

split_le : (a b : ℕ) → a ≤ b → (a < b) ⊎ (a ≡ b)
split_le a b h = omega arith

after-le :
    (i j : HeapItem)
    → i.overdue ≡ 0
    → j.overdue ≡ 0
    → item_le i j ≡ false
    → j.logical_ts ≤ i.logical_ts
unfolding item_le
after-le i j on up h = ground arith

after-Follows :
    (i j : HeapItem)
    → i.overdue ≡ 0
    → j.overdue ≡ 0
    → item_le i j ≡ false
    → j.schedule_seq < i.schedule_seq
    → Follows j.logical_ts j.schedule_seq i
after-Follows i j on up h lt = elim (split_le j.logical_ts i.logical_ts (after-le i j on up h)) [
  | inl less ↦ inl less
  | inr same ↦ inr (same, lt)
]

InOrder-insert :
    (i : HeapItem) (t q n : ℕ) (is : List HeapItem)
    → i.overdue ≡ 0
    → i.schedule_seq ≡ n
    → Follows t q i
    → InOrder t q n is
    → InOrder t q (suc n) (insert item_le i is)
unfolding insert
InOrder-insert i t q n [] on e f h = (on, f, omega arith, tt)
InOrder-insert i t q n (j ∷ is) on e f (up, g, lt, h) = elim (Bool-cases (item_le i j)) [
  | inl before ↦ rw before (
    on,
    f,
    omega arith,
    (
      up,
      inl (before-lt i j on up before (omega arith)),
      omega arith,
      InOrder-suc j.logical_ts j.schedule_seq n is h,
    ),
  )
  | inr after ↦ rw after (
    up,
    g,
    omega arith,
    InOrder-insert i j.logical_ts j.schedule_seq n is on e
        (after-Follows i j on up after (omega arith)) h,
  )
]

IsQueue-insert :
    (i : HeapItem) (clock n : ℕ) (is : List HeapItem)
    → i.overdue ≡ 0
    → i.schedule_seq ≡ n
    → clock ≤ i.logical_ts
    → IsQueue clock is n
    → IsQueue clock (insert item_le i is) (suc n)
unfolding insert
IsQueue-insert i clock n [] on e f h = (on, f, omega arith, tt)
IsQueue-insert i clock n (j ∷ is) on e f (up, g, lt, h) = elim (Bool-cases (item_le i j)) [
  | inl before ↦ rw before (
    on,
    f,
    omega arith,
    (
      up,
      inl (before-lt i j on up before (omega arith)),
      omega arith,
      InOrder-suc j.logical_ts j.schedule_seq n is h,
    ),
  )
  | inr after ↦ rw after (
    up,
    g,
    omega arith,
    InOrder-insert i j.logical_ts j.schedule_seq n is on e
        (after-Follows i j on up after (omega arith)) h,
  )
]

-- A delay of no time or more.
abbrev pub IsDelay : ℤ → Type 0
IsDelay (pos d) = Unit {0}
IsDelay (negsuc d) = ⊥

-- The clock stands at `t`, and the heap is in order from there.
abbrev QueueAt : ℕ → OnHeap
QueueAt t clock future n = (clock ≡ t) × IsQueue clock future n

QueueAt-push : (t : ℕ) → SurvivesPush t IsDelay (QueueAt t)
QueueAt-push t clock future k (pos d) carried good (here, h) =
    (here, IsQueue-insert (item_in t (pos d) k carried) clock k future refl refl (omega arith) h)
QueueAt-push t clock future k (negsuc d) carried good h = absurd good

-- The heap after a pop is in order from the time of the popped item.
IsQueue-rest : (t q n : ℕ) (is : List HeapItem) → InOrder t q n is → IsQueue t is n
IsQueue-rest t q n [] h = tt
IsQueue-rest t q n (i ∷ is) (up, f, lt, h) = (up, follows_le t q i f, lt, h)
  where
    follows_le : (t' q' : ℕ) (j : HeapItem) → Follows t' q' j → t' ≤ j.logical_ts
    follows_le t' q' j (inl less) = omega arith
    follows_le t' q' j (inr (same, lt')) = omega arith

abbrev NotBackward : Stop → Type 0
NotBackward e = e ≢ clock_backward

not_backward : SparesOthers NotBackward
not_backward e h = h

IsQueue-before :
    (clock t n : ℕ) (is : List HeapItem) → clock ≤ t → IsQueue t is n → IsQueue clock is n
IsQueue-before clock t n [] le h = tt
IsQueue-before clock t n (i ∷ is) le (up, f, lt, h) = (up, omega arith, lt, h)

advance_to-le :
    (i : HeapItem) (s : State)
    → i.overdue ≡ 0
    → s.clock ≤ i.logical_ts
    → advance_to i s ≡ went (record s { clock = time_of i })
unfolding advance_to
advance_to-le i s up le = ground arith

module _ {M : Type 0} (c : Setup M) (gives : GivesDelays IsDelay c) where
  settle-QueueAt :
      (t : ℕ) (ms : List (Member M)) (s : State)
      → At (QueueAt t) s
      → Holds NotBackward (λ (ms', s'). At IsQueue s') (settle c t (ms, s))
  unfolding settle
  settle-QueueAt t ms s h =
      Holds-map NotBackward (λ (ms', s'). At (QueueAt t) s') (λ (ms', s'). At IsQueue s')
        (settle_loop c t c.max_settle_iters (ms, s))
        (settle_loop-At NotBackward not_backward c t IsDelay (QueueAt t) gives (QueueAt-push t)
          c.max_settle_iters ms s h)
        (λ (ms', s') (here, q). q)

  popped-IsQueue :
      (top : HeapItem) (rest : List HeapItem) (ms : List (Member M)) (s : State)
      → IsQueue s.clock (top ∷ rest) s.schedule_seq
      → Holds NotBackward (λ (ms', s'). At IsQueue s') (popped c top rest (ms, s))
  popped-IsQueue top rest ms s (up, le, lt, h) =
      let t = time_of top in
      let same : t ≡ top.logical_ts = omega arith in
      let s' : State = record s { future = rest; clock = t } in
      subst
        (λ r. Holds NotBackward (λ (ms', s'). At IsQueue s') (and_then r (λ q. fire c top (ms, q))))
        (sym (advance_to-le top (record s { future = rest }) up le))
        (Holds-map NotBackward (λ (ms', q). At (QueueAt t) q) (λ (ms', q). At IsQueue q)
          (fire c top (ms, s'))
          (fire-At NotBackward not_backward c top IsDelay (QueueAt t) gives (QueueAt-push t) ms s' (
            refl,
            subst (λ u. IsQueue u rest s.schedule_seq) (sym same)
                (IsQueue-rest top.logical_ts top.schedule_seq s.schedule_seq rest h),
          ))
          (λ (ms', q) (here, k). k))

  abbrev RunHolds : Option (Step (Engine M)) → Type 0
  RunHolds none = Unit {0}
  RunHolds (some r) = Holds NotBackward (λ (ms, s). At IsQueue s) r

  after_pop-RunHolds :
      (go : Engine M → Option (Step (Engine M))) (r : Step (Engine M))
      → ((ms : List (Member M)) (s : State) → At IsQueue s → RunHolds (go (ms, s)))
      → Holds NotBackward (λ (ms, s). At IsQueue s) r
      → RunHolds (after_pop go r)
  after_pop-RunHolds go (went (ms, s)) run h = run ms s h
  after_pop-RunHolds go (stopped why) run h = h

  loop_on-RunHolds :
      (go : Engine M → Option (Step (Engine M))) (ms : List (Member M)) (s : State)
      (future : List HeapItem)
      → ((ms' : List (Member M)) (s' : State) → At IsQueue s' → RunHolds (go (ms', s')))
      → At IsQueue s
      → IsQueue s.clock future s.schedule_seq
      → RunHolds (loop_on c go (ms, s) future)
  loop_on-RunHolds go ms s [] run h q = h
  loop_on-RunHolds go ms s (top ∷ rest) run h (up, le, lt, q) =
      elim (Bool-cases (ltb c.max_logical_ts s.clock)) [
        | inl late ↦ rw late h
        | inr in_time ↦ elim (Bool-cases (ltb (c.max_logical_ts + top.overdue) top.logical_ts)) [
          | inl past ↦ rw in_time (
              rw past (
                IsQueue-before s.clock top.logical_ts s.schedule_seq rest le
                  (IsQueue-rest top.logical_ts top.schedule_seq s.schedule_seq rest q)))
          | inr due_time ↦ rw in_time (
              rw due_time (
                after_pop-RunHolds go (popped c top rest (ms, s)) run
                  (popped-IsQueue top rest ms s (up, le, lt, q))))
        ]
      ]

  run_loop-RunHolds :
      (n : ℕ) (ms : List (Member M)) (s : State) → At IsQueue s → RunHolds (run_loop c n (ms, s))
  unfolding run_loop
  run_loop-RunHolds zero ms s h = tt
  run_loop-RunHolds (suc n) ms s h =
      loop_on-RunHolds (run_loop c n) ms s s.future (run_loop-RunHolds n) h h

  -- A run from the start of the engine, with reactors that give no negative delay, never asks the
  -- clock to go back; the heap that it leaves is in the order of times and, at one time, in the
  -- order of scheduling, with no item before the clock.
  pub run_engine-IsQueue :
      (n t : ℕ) (db : Db) (ms : List (Member M)) (r : Step (Engine M))
      → run_engine c n (start_engine t db ms) ≡ some r
      → Holds (λ e. e ≢ clock_backward) (λ (ms', s'). IsQueue s'.clock s'.future s'.schedule_seq) r
  unfolding run_engine start_engine
  run_engine-IsQueue n t db ms r e =
      let s : State = (start_engine t db ms).1 in
      subst RunHolds e (
        after_pop-RunHolds (run_loop c n) (settle c t (ms, s)) (run_loop-RunHolds n)
          (settle-QueueAt t ms s (refl, tt)))
