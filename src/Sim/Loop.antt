-- ===== src/Sim/Loop.antt =====
-- src/omegahive/sim/engine/engine.py: the passes of a settling, and the loop of a run.
use omegahive.Base.{
  ℕ, zero, suc, ◌+◌, Bool, true, false, ◌||◌, Option, none, some, List, [], ◌∷◌, ltb, if◌then◌else◌,
  Dict, put,
}
use omegahive.Board.Legality.{Rejection}
use omegahive.Events.Envelope.{Actor}
use omegahive.Events.Log.{Db}
use omegahive.Gateway.Emit.{check}
use omegahive.Sim.Coordinator.{Emit}
use omegahive.Sim.Engine.{
  Member, Setup, HeapItem, State, fold_raised, clock_backward, not_converged, Step, went, stopped,
  and_then, time_of, emit_one, turn,
}

abbrev pub Passed : Type 0 → Type 0
Passed M = List (Member M) × State × Bool

-- One pass over the reactors.
unfoldable pub pass : {M : Type 0} → Setup M → ℕ → List (Member M) → State → Step (Passed M)
unfolding turn
pass c now [] s = went ([], s, false)
pass c now (m ∷ ms) s =
    and_then (turn c m now s)
      (λ (m', s', p). and_then (pass c now ms s') (λ (ms', s'', q). went (m' ∷ ms', s'', p || q)))

abbrev pub Engine : Type 0 → Type 0
Engine M = List (Member M) × State

-- The loop of `_settle`, for the iterations that are left.
unfoldable pub settle_loop : {M : Type 0} → Setup M → ℕ → ℕ → Engine M → Step (Engine M)
unfolding pass
settle_loop c now zero e = stopped not_converged
settle_loop c now (suc n) (ms, s) = and_then (pass c now ms s) (λ (ms', s', progressed).
    elim progressed [ true ↦ settle_loop c now n (ms', s') | false ↦ went (ms', s') ])

-- `_settle`
unfoldable pub settle : {M : Type 0} → Setup M → ℕ → Engine M → Step (Engine M)
unfolding settle_loop
settle c now e = settle_loop c now c.max_settle_iters e

-- `advance_to`, to an item's time; going back is the ValueError.
unfoldable pub advance_to : HeapItem → State → Step State
advance_to i s =
    if ltb i.logical_ts (s.clock + i.overdue)
    then stopped clock_backward
    else went (record s { clock = time_of i })

-- The gate's answer before a scheduled emit.
abbrev pub after_check :
    {M : Type 0}
    → Setup M
    → ℕ
    → Actor
    → Emit
    → Engine M
    → Option (Option Rejection)
    → Step (Engine M)
after_check c ts a e (ms, s) none = stopped fold_raised
after_check c ts a e (ms, s) (some (some rej)) = went (ms, s)
after_check c ts a e (ms, s) (some none) =
    and_then (emit_one c a ts e s) (λ s'. settle c ts (ms, s'))

abbrev pub carried_on :
    {M : Type 0} → Setup M → ℕ → Engine M → Option (Actor × Emit) → Step (Engine M)
carried_on c ts e none = settle c ts e
carried_on c ts (ms, s) (some (a, e)) =
    after_check c ts a e (ms, s) (check c.gateway s.db a e.event_type e.payload e.task_id)

-- What an item does when its time has come.
unfoldable pub fire : {M : Type 0} → Setup M → HeapItem → Engine M → Step (Engine M)
unfolding settle check
fire c top e = carried_on c (time_of top) e top.carried

abbrev pub popped : {M : Type 0} → Setup M → HeapItem → List HeapItem → Engine M → Step (Engine M)
popped c top rest (ms, s) =
    and_then (advance_to top (record s { future = rest })) (λ s'. fire c top (ms, s'))

abbrev pub after_pop :
    {M : Type 0}
    → (Engine M → Option (Step (Engine M)))
    → Step (Engine M)
    → Option (Step (Engine M))
after_pop go (went e) = go e
after_pop go (stopped why) = some (stopped why)

-- One turn of the loop of `run`, at this heap.
abbrev pub loop_on :
    {M : Type 0}
    → Setup M
    → (Engine M → Option (Step (Engine M)))
    → Engine M
    → List HeapItem
    → Option (Step (Engine M))
loop_on c go (ms, s) [] = some (went (ms, s))
loop_on c go (ms, s) (top ∷ rest) =
    if ltb c.max_logical_ts s.clock
    then some (went (ms, s))
    else if ltb (c.max_logical_ts + top.overdue) top.logical_ts
    then some (went (ms, record s { future = rest }))
    else after_pop go (popped c top rest (ms, s))

-- The loop of `run`; the fuel counts the pops, and `none` is a loop that goes on.
unfoldable pub run_loop : {M : Type 0} → Setup M → ℕ → Engine M → Option (Step (Engine M))
unfolding advance_to fire
run_loop c zero e = none
run_loop c (suc n) (ms, s) = loop_on c (run_loop c n) (ms, s) s.future

-- `run`
unfoldable pub run_engine : {M : Type 0} → Setup M → ℕ → Engine M → Option (Step (Engine M))
unfolding run_loop
run_engine c n (ms, s) = after_pop (run_loop c n) (settle c s.clock (ms, s))

-- `__init__`: the engine at the start.
unfoldable pub start_cursors : {M : Type 0} → List (Member M) → Dict ℕ
start_cursors [] = []
start_cursors (m ∷ ms) = put m.agent_id 0 (start_cursors ms)

unfoldable pub start_engine : {M : Type 0} → ℕ → Db → List (Member M) → Engine M
unfolding start_cursors
start_engine t db ms = (
  ms,
  record {
    db = db;
    drawn = 0;
    clock = t;
    future = [];
    schedule_seq = 0;
    cursors = start_cursors ms;
    last_now = [];
  },
)
