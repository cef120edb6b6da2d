-- ===== src/Sim/Settling.antt =====
-- A settling ends when the reactors have nothing to do.
use omegahive.Base.{
  ℕ, zero, suc, ◌≡◌, refl, sym, ap, ◌∙◌, subst, inl, inr, Bool, true, false, ◌&&◌, ◌||◌, some, List,
  [], ◌∷◌, arith, if◌then◌else◌, Option-cases,
}
use omegahive.Board.Reducer.{fold}
use omegahive.Board.State.{Board}
use omegahive.Events.Log.{read_run}
use omegahive.Sim.Engine.{
  Member, Setup, State, Step, went, stopped, and_then, unseen, is_nil, finish_turn, turn_on, turn,
}
use omegahive.Sim.Heap.{Holds, and_then-Holds, Holds-map, AnyStop}
use omegahive.Sim.Loop.{settle, Passed, pass, Engine, settle_loop}
use omegahive.Sim.Quiescence.{
  Later, Later-refl, Later-trans, IsDone, IsDone-Later, Quiet, turn-Quiet,
}

module _ {M : Type 0} (c : Setup M) (now : ℕ) where
  abbrev AllDone : Board → State → List (Member M) → Type 0
  AllDone b s [] = Unit {0}
  AllDone b s (m ∷ ms) = IsDone c now b s m × AllDone b s ms

  -- A pass without output leaves every reactor done.
  abbrev QuietPass : State → Board → Passed M → Type 0
  QuietPass s b (ms', s', p) = p ≡ false → Later c now s s' × AllDone b s' ms'

  abbrev rest_of : Member M → Bool → Step (Passed M) → Step (Passed M)
  rest_of m p r = and_then r (λ (ms', s', q). went (m ∷ ms', s', p || q))

  rest-Quiet :
      (m : Member M) (p : Bool) (s s' : State) (b : Board) (r : Step (Passed M))
      → Quiet c now s b (m, s', p)
      → (p ≡ false → Holds AnyStop (QuietPass s' b) r)
      → Holds AnyStop (QuietPass s b) (rest_of m p r)
  rest-Quiet m p s s' b (stopped e) before after = tt
  rest-Quiet m true s s' b (went (ms', s'', q)) before after = λ h. absurd (ground arith)
  rest-Quiet m false s s' b (went (ms', s'', q)) before after = λ h.
      let (on, done) = before refl in
      let (on', all) = after refl h in
      (Later-trans c now s s' s'' on on', (IsDone-Later c now b s' s'' m on' done, all))

  pass-Quiet :
      (b : Board) (ms : List (Member M)) (s : State)
      → fold (read_run c.gateway.store.run_id s.db) ≡ some b
      → Holds AnyStop (QuietPass s b) (pass c now ms s)
  unfolding pass
  pass-Quiet b [] s folds = λ h. (Later-refl c now s, tt)
  pass-Quiet b (m ∷ ms) s folds =
      and_then-Holds AnyStop (Quiet c now s b) (QuietPass s b) (turn c m now s)
        (λ (m', s', p). rest_of m' p (pass c now ms s')) (turn-Quiet c now m b s folds)
        (λ (m', s', p) quiet. rest-Quiet m' p s s' b (pass c now ms s') quiet (λ none_yet.
          let (on, done) = quiet none_yet in
          pass-Quiet b ms s'
            (ap (λ db. fold (read_run c.gateway.store.run_id db)) on.same_db ∙ folds)))

  turn-done :
      (m : Member M) (b : Board) (s : State)
      → fold (read_run c.gateway.store.run_id s.db) ≡ some b
      → IsDone c now b s m
      → turn c m now s ≡ went (m, s, false)
  unfolding turn
  turn-done m b s folds h =
      ap (turn_on c m now s) folds
      ∙ ap
          (λ idle.
            if idle
            then went (m, s, false)
            else finish_turn c m now (unseen c m b s) s (c.react m.memory (unseen c m b s) b now))
          (λ i. is_nil (h.none_new i) && h.has_run i)

  pass-done :
      (b : Board) (s : State) (ms : List (Member M))
      → fold (read_run c.gateway.store.run_id s.db) ≡ some b
      → AllDone b s ms
      → pass c now ms s ≡ went (ms, s, false)
  unfolding pass
  pass-done b s [] folds all = refl
  pass-done b s (m ∷ ms) folds (done, all) =
      ap (λ t. and_then t (λ (m', s', p). rest_of m' p (pass c now ms s')))
        (turn-done m b s folds done)
      ∙ ap (rest_of m false) (pass-done b s ms folds all)

  -- Another pass changes nothing.
  abbrev IsAtRest : Engine M → Type 0
  IsAtRest (ms, s) = pass c now ms s ≡ went (ms, s, false)

  abbrev RestsOnFalse : Passed M → Type 0
  RestsOnFalse (ms, s, p) = p ≡ false → IsAtRest (ms, s)

  board-RestsOnFalse :
      (b : Board) (ms : List (Member M)) (s : State)
      → fold (read_run c.gateway.store.run_id s.db) ≡ some b
      → Holds AnyStop RestsOnFalse (pass c now ms s)
  board-RestsOnFalse b ms s folds =
      Holds-map AnyStop (QuietPass s b) RestsOnFalse (pass c now ms s) (pass-Quiet b ms s folds)
        (λ (ms', s', p) quiet h.
          let (on, all) = quiet h in
          pass-done b s' ms'
            (ap (λ db. fold (read_run c.gateway.store.run_id db)) on.same_db ∙ folds) all)

  pass-RestsOnFalse :
      (ms : List (Member M)) (s : State) → Holds AnyStop RestsOnFalse (pass c now ms s)
  unfolding pass turn
  pass-RestsOnFalse [] s = λ h. refl
  pass-RestsOnFalse (m ∷ ms) s = elim (Option-cases (fold (read_run c.gateway.store.run_id s.db))) [
    | inl none_folds ↦
        subst
          (λ o.
            Holds AnyStop RestsOnFalse
              (and_then (turn_on c m now s o) (λ (m', s', p). rest_of m' p (pass c now ms s'))))
          (sym none_folds) tt
    | inr (b, folds) ↦ board-RestsOnFalse b (m ∷ ms) s folds
  ]

  again :
      (n : ℕ) (ms : List (Member M)) (s : State) (p : Bool)
      → ((ms' : List (Member M)) (s' : State)
          → Holds AnyStop IsAtRest (settle_loop c now n (ms', s')))
      → RestsOnFalse (ms, s, p)
      → Holds AnyStop IsAtRest
          (elim p [ true ↦ settle_loop c now n (ms, s) | false ↦ went (ms, s) ])
  again n ms s true go h = go ms s
  again n ms s false go h = h refl

  settle_loop-IsAtRest :
      (n : ℕ) (ms : List (Member M)) (s : State)
      → Holds AnyStop IsAtRest (settle_loop c now n (ms, s))
  unfolding settle_loop
  settle_loop-IsAtRest zero ms s = tt
  settle_loop-IsAtRest (suc n) ms s =
      and_then-Holds AnyStop RestsOnFalse IsAtRest (pass c now ms s)
        (λ (ms', s', progressed). elim progressed [
          | true ↦ settle_loop c now n (ms', s')
          | false ↦ went (ms', s')
        ])
        (pass-RestsOnFalse ms s) (λ (ms', s', p) h. again n ms' s' p (settle_loop-IsAtRest n) h)

  -- A settling that returns has converged: one more pass of the reactors at the same time changes
  -- nothing, neither the log, the heap, the cursors nor what a reactor remembers.
  pub settle-pass :
      (e : Engine M) (ms : List (Member M)) (s : State)
      → settle c now e ≡ went (ms, s)
      → pass c now ms s ≡ went (ms, s, false)
  unfolding settle
  settle-pass (ms', s') ms s e =
      subst (Holds AnyStop IsAtRest) e (settle_loop-IsAtRest c.max_settle_iters ms' s')
