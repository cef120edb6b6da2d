-- ===== src/Sim/Horizon.antt =====
-- The run of the engine comes to an end.
use omegahive.Base.{
  ℕ, zero, suc, ◌+◌, ◌≤◌, ◌<◌, ◌≡◌, refl, sym, ap, ◌∙◌, subst, ◌⊎◌, inl, inr, Bool, false, Option,
  some, List, [], ◌∷◌, arith, ltb, leb, Bool-cases, count_if, ℤ, pos, negsuc, insert,
}
use omegahive.Board.Agreement.{moved}
use omegahive.Port.Session.{beyond}
use omegahive.Sim.Engine.{
  Member, Setup, HeapItem, State, Step, went, stopped, item_le, item_in, time_of,
}
use omegahive.Sim.Heap.{
  Holds, and_then-Holds, Holds-map, GivesDelays, OnHeap, At, AnyStop, any_stop, SurvivesPush,
  fire-At,
}
use omegahive.Sim.Loop.{
  settle, Engine, advance_to, fire, popped, after_pop, loop_on, run_loop, run_engine,
}

-- The items that are due by a time.
abbrev pub due : ℕ → List HeapItem → ℕ
due t future = count_if (λ i. leb i.logical_ts (t + i.overdue)) future

count_if-insert :
    (p : HeapItem → Bool) (i : HeapItem) (xs : List HeapItem)
    → count_if p (insert item_le i xs) ≡ count_if p (i ∷ xs)
unfolding count_if insert
count_if-insert p i [] = refl
count_if-insert p i (x ∷ xs) = ground (arith, count_if-insert p i xs)

due-top :
    (top : HeapItem) (rest : List HeapItem)
    → due (time_of top) (top ∷ rest) ≡ suc (due (time_of top) rest)
unfolding count_if
due-top top rest = ground arith

le-or-lt : (k a : ℕ) → (k ≤ a) ⊎ (a < k)
le-or-lt k a = omega arith

-- The clock stands at `t`, and `k` items are due.
abbrev DueAt : ℕ → ℕ → OnHeap
DueAt t k clock future seq = (clock ≡ t) × (due t future ≡ k)

-- A delay of at least one tick.
abbrev pub IsPositive : ℤ → Type 0
IsPositive (pos d) = 1 ≤ d
IsPositive (negsuc d) = ⊥

DueAt-push : (t k : ℕ) → SurvivesPush t IsPositive (DueAt t k)
unfolding count_if
DueAt-push t k clock future seq (pos d) carried positive (here, e) =
    let i = item_in t (pos d) seq carried in
    (here, count_if-insert (λ j. leb j.logical_ts (t + j.overdue)) i future ∙ ground arith)
DueAt-push t k clock future seq (negsuc d) carried positive h = absurd positive

abbrev pub Ends : {M : Type 0} → Setup M → Engine M → Type 0
Ends {M} c e = (n : ℕ) × (r : Step (Engine M)) × (run_loop c n e ≡ some r)

-- A pop in time: the loop goes on from what it leaves.
loop_on-popped :
    {M : Type 0} (c : Setup M) (go : Engine M → Option (Step (Engine M))) (top : HeapItem)
    (rest : List HeapItem) (ms : List (Member M)) (s : State)
    → ltb c.max_logical_ts s.clock ≡ false
    → ltb (c.max_logical_ts + top.overdue) top.logical_ts ≡ false
    → loop_on c go (ms, s) (top ∷ rest) ≡ after_pop go (popped c top rest (ms, s))
loop_on-popped c go top rest ms s in_time due_time = rw in_time (rw due_time refl)

module _ {M : Type 0} (c : Setup M) where
  after_pop-Ends :
      (r : Step (Engine M))
      → Holds AnyStop (Ends c) r
      → (n : ℕ) × (q : Step (Engine M)) × (after_pop (run_loop c n) r ≡ some q)
  after_pop-Ends (went e) (n, q, ended) = (n, q, ended)
  after_pop-Ends (stopped why) h = (0, stopped why, refl)

  -- The loop ends at once, or goes on after a pop.
  loop-Ends :
      (ms : List (Member M)) (s : State) (future : List HeapItem)
      → s.future ≡ future
      → ((top : HeapItem) (rest : List HeapItem)
          → future ≡ top ∷ rest
          → ltb c.max_logical_ts s.clock ≡ false
          → ltb (c.max_logical_ts + top.overdue) top.logical_ts ≡ false
          → Holds AnyStop (Ends c) (popped c top rest (ms, s)))
      → Ends c (ms, s)
  unfolding run_loop
  loop-Ends ms s [] e go = (1, went (ms, s), ap (loop_on c (run_loop c 0) (ms, s)) e)
  loop-Ends ms s (top ∷ rest) e go = elim (Bool-cases (ltb c.max_logical_ts s.clock)) [
    | inl late ↦ (1, went (ms, s), ap (loop_on c (run_loop c 0) (ms, s)) e ∙ rw late refl)
    | inr in_time ↦ elim (Bool-cases (ltb (c.max_logical_ts + top.overdue) top.logical_ts)) [
      | inl beyond ↦ (
        1,
        went (ms, record s { future = rest }),
        ap (loop_on c (run_loop c 0) (ms, s)) e ∙ rw in_time (rw beyond refl),
      )
      | inr due_time ↦
          let (n, q, ended) =
            after_pop-Ends (popped c top rest (ms, s)) (go top rest refl in_time due_time) in
          (
            suc n,
            q,
            ap (loop_on c (run_loop c n) (ms, s)) e
                ∙ loop_on-popped c (run_loop c n) top rest ms s in_time due_time
                ∙ ended,
          )
    ]
  ]

  advanced :
      (top : HeapItem) (k : ℕ) (s : State)
      → due (time_of top) s.future ≡ k
      → Holds AnyStop
          (λ s'. (s.clock + top.overdue ≤ top.logical_ts) × At (DueAt (time_of top) k) s')
          (advance_to top s)
  unfolding advance_to
  advanced top k s e = elim (Bool-cases (ltb top.logical_ts (s.clock + top.overdue))) [
    | inl back ↦ rw back tt
    | inr on ↦ rw on (ground arith, (refl, e))
  ]

module _ {M : Type 0} (c : Setup M) (gives : GivesDelays IsPositive c) where
  popped-Ends :
      (top : HeapItem) (rest : List HeapItem) (ms : List (Member M)) (s : State)
      → ((ms' : List (Member M)) (s' : State)
          → s.clock + top.overdue ≤ top.logical_ts
          → s'.clock ≡ time_of top
          → due (time_of top) s'.future ≡ due (time_of top) rest
          → Ends c (ms', s'))
      → Holds AnyStop (Ends c) (popped c top rest (ms, s))
  popped-Ends top rest ms s go =
      let t = time_of top in
      let k = due t rest in
      and_then-Holds AnyStop (λ s'. (s.clock + top.overdue ≤ top.logical_ts) × At (DueAt t k) s')
        (Ends c) (advance_to top (record s { future = rest })) (λ s'. fire c top (ms, s'))
        (advanced c top k (record s { future = rest }) refl)
        (λ s' (on, at).
          Holds-map AnyStop (λ (ms', s''). At (DueAt t k) s'') (Ends c) (fire c top (ms, s'))
            (fire-At AnyStop any_stop c top IsPositive (DueAt t k) gives (DueAt-push t k) ms s' at)
            (λ (ms', s'') (here, e). go ms' s'' on here e))

  step-Ends :
      (d k : ℕ) (ms : List (Member M)) (s : State)
      → ((ms' : List (Member M)) (s' : State)
          → c.max_logical_ts < s'.clock + suc d
          → suc (due s'.clock s'.future) ≤ k
          → Ends c (ms', s'))
      → ((ms' : List (Member M)) (s' : State) → c.max_logical_ts < s'.clock + d → Ends c (ms', s'))
      → c.max_logical_ts < s.clock + suc d
      → due s.clock s.future ≤ k
      → Ends c (ms, s)
  step-Ends d k ms s same later h le =
      loop-Ends c ms s s.future refl (λ top rest e in_time due_time.
        popped-Ends top rest ms s (λ ms' s' on here e'. elim (le-or-lt (time_of top) s.clock) [
          | inl eq ↦
              let stood : s.clock ≡ time_of top = omega arith in
              let due_now : due (time_of top) (top ∷ rest) ≤ k =
                subst (λ t. due t (top ∷ rest) ≤ k) stood (subst (λ f. due s.clock f ≤ k) e le) in
              let left : suc (due (time_of top) rest) ≤ k =
                subst (λ n. n ≤ k) (due-top top rest) due_now in
              same ms' s' (omega arith) (
                subst (λ t. suc (due t s'.future) ≤ k) (sym here)
                  (subst (λ n. suc n ≤ k) (sym e') left))
          | inr moved ↦ later ms' s' (omega arith)
        ]))

  clock-Ends :
      (d k : ℕ) (ms : List (Member M)) (s : State)
      → c.max_logical_ts < s.clock + d
      → due s.clock s.future ≤ k
      → Ends c (ms, s)
  clock-Ends zero k ms s h le =
      loop-Ends c ms s s.future refl (λ top rest e in_time due_time. absurd (ground arith))
  clock-Ends (suc d) zero ms s h le =
      step-Ends d zero ms s (λ ms' s' h' le'. absurd (omega arith))
        (λ ms' s' h'. clock-Ends d (due s'.clock s'.future) ms' s' h' (omega arith)) h le
  clock-Ends (suc d) (suc k) ms s h le =
      step-Ends d (suc k) ms s (λ ms' s' h' le'. clock-Ends (suc d) k ms' s' h' (omega arith))
        (λ ms' s' h'. clock-Ends d (due s'.clock s'.future) ms' s' h' (omega arith)) h le

  all-Ends : (r : Step (Engine M)) → Holds AnyStop (Ends c) r
  all-Ends (went (ms, s)) =
      clock-Ends (suc c.max_logical_ts) (due s.clock s.future) ms s (omega arith) (omega arith)
  all-Ends (stopped why) = tt

  -- With reactors that give only delays of at least one tick, a run comes to an end from any state
  -- of the engine: for some number of pops it returns or raises.
  pub run_engine-Ends :
      (ms : List (Member M)) (s : State)
      → (n : ℕ) × (r : Step (Engine M)) × (run_engine c n (ms, s) ≡ some r)
  unfolding run_engine
  run_engine-Ends ms s =
      after_pop-Ends c (settle c s.clock (ms, s)) (all-Ends (settle c s.clock (ms, s)))
