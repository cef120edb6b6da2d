-- ===== src/Sim/Heap.antt =====
-- What a settling does to the heap of the engine: it pushes the delays that the reactors give.
use omegahive.Base.{
  ℕ, zero, suc, String, ◌≡◌, refl, ◌≢◌, inl, inr, Bool, true, false, ◌||◌, Option, none, some, List,
  [], ◌∷◌, Bool-cases, ℤ, insert,
}
use omegahive.Board.Legality.{Rejection}
use omegahive.Board.Reducer.{fold}
use omegahive.Board.State.{Board}
use omegahive.Events.Envelope.{Actor, Event}
use omegahive.Events.Log.{Db, Result, ok, raise, read_run, max_seq}
use omegahive.Gateway.Emit.{EmitResult, emit, check}
use omegahive.Sim.Coordinator.{Emit, Scheduled, ReactResult}
use omegahive.Sim.Engine.{
  Member, Setup, HeapItem, State, Stop, emit_raised, fold_raised, react_raised, clock_backward,
  not_converged, Step, went, stopped, and_then, item_le, item_in, time_of, push, actor_of,
  to_request, emitted, emit_one, emit_all, push_all, push_wakes, unseen, cursor_to, move_cursor,
  has_output, mark, route, Turned, finish_turn, is_idle, turn_on, turn,
}
use omegahive.Sim.Loop.{settle, Passed, pass, Engine, settle_loop, after_check, carried_on, fire}

-- What holds of the value of a step, or of the exception that stops it.
abbrev pub Holds : {A : Type 0} → (Stop → Type 0) → (A → Type 0) → Step A → Type 0
Holds S P (went a) = P a
Holds S P (stopped e) = S e

pub and_then-Holds :
    {A B : Type 0} (S : Stop → Type 0) (P : A → Type 0) (Q : B → Type 0) (r : Step A)
    (f : A → Step B)
    → Holds S P r
    → ((a : A) → P a → Holds S Q (f a))
    → Holds S Q (and_then r f)
and_then-Holds S P Q (went a) f h g = g a h
and_then-Holds S P Q (stopped e) f h g = h

pub Holds-map :
    {A : Type 0} (S : Stop → Type 0) (P Q : A → Type 0) (r : Step A)
    → Holds S P r
    → ((a : A) → P a → Q a)
    → Holds S Q r
Holds-map S P Q (went a) h g = g a h
Holds-map S P Q (stopped e) h g = h

-- Each delay satisfies the predicate.
abbrev pub AreDelays : (ℤ → Type 0) → List Scheduled → Type 0
AreDelays Ok [] = Unit {0}
AreDelays Ok (sch ∷ schs) = Ok sch.delay × AreDelays Ok schs

abbrev pub AreWakes : (ℤ → Type 0) → List ℤ → Type 0
AreWakes Ok [] = Unit {0}
AreWakes Ok (d ∷ ds) = Ok d × AreWakes Ok ds

-- The reactors give only such delays.
abbrev pub GivesDelays : {M : Type 0} → (ℤ → Type 0) → Setup M → Type 0
GivesDelays {M} Ok c =
    (memory : M) (new : List Event) (b : Board) (t : ℕ) (res : ReactResult) (memory' : M)
    → c.react memory new b t ≡ some (res, memory')
    → AreDelays Ok res.scheduled × AreWakes Ok res.wakes

-- A predicate on the clock, the heap and the counter of the heap's items.
abbrev pub OnHeap : Type 1
OnHeap = ℕ → List HeapItem → ℕ → Type 0

abbrev pub At : OnHeap → State → Type 0
At I s = I s.clock s.future s.schedule_seq

-- Every exception but the clock's satisfies the predicate.
abbrev pub SparesOthers : (Stop → Type 0) → Type 0
SparesOthers S = (e : Stop) → e ≢ clock_backward → S e

abbrev pub AnyStop : Stop → Type 0
AnyStop e = Unit {0}

pub any_stop : SparesOthers AnyStop
any_stop e h = tt

-- The predicate survives the push of such a delay.
abbrev pub SurvivesPush : ℕ → (ℤ → Type 0) → OnHeap → Type 0
SurvivesPush now Ok I =
    (clock : ℕ) (future : List HeapItem) (k : ℕ) (d : ℤ) (carried : Option (Actor × Emit))
    → Ok d
    → I clock future k
    → I clock (insert item_le (item_in now d k carried) future) (suc k)

module _ {M : Type 0} (S : Stop → Type 0) (others : SparesOthers S) (c : Setup M) (now : ℕ)
    (Ok : ℤ → Type 0) (I : OnHeap) (gives : GivesDelays Ok c)
    (survives : SurvivesPush now Ok I) where
  push_all-At :
      (a : Actor) (schs : List Scheduled) (s : State)
      → AreDelays Ok schs
      → At I s
      → At I (push_all a now schs s)
  unfolding push_all
  push_all-At a [] s oks h = h
  push_all-At a (sch ∷ schs) s (good, oks) h =
      push_all-At a schs (push now sch.delay (some (a, sch.emit)) s) oks
        (survives s.clock s.future s.schedule_seq sch.delay (some (a, sch.emit)) good h)

  push_wakes-At : (ds : List ℤ) (s : State) → AreWakes Ok ds → At I s → At I (push_wakes now ds s)
  unfolding push_wakes
  push_wakes-At [] s oks h = h
  push_wakes-At (d ∷ ds) s (good, oks) h =
      push_wakes-At ds (push now d none s) oks
        (survives s.clock s.future s.schedule_seq d none good h)

  emitted-At : (s : State) (r : Result EmitResult × Db) → At I s → Holds S (At I) (emitted s r)
  emitted-At s (ok r, db) h = h
  emitted-At s (raise e, db) h = others (emit_raised e) (λ q. cc)

  pub emit_one-At :
      (a : Actor) (t : ℕ) (e : Emit) (s : State) → At I s → Holds S (At I) (emit_one c a t e s)
  unfolding emit_one
  emit_one-At a t e s h =
      emitted-At s (emit c.externals c.gateway (c.draws s.drawn) (to_request a e t) s.db s.db) h

  emit_all-At :
      (a : Actor) (es : List Emit) (s : State) → At I s → Holds S (At I) (emit_all c a now es s)
  unfolding emit_all
  emit_all-At a [] s h = h
  emit_all-At a (e ∷ es) s h =
      and_then-Holds S (At I) (At I) (emit_one c a now e s) (emit_all c a now es)
        (emit_one-At a now e s h) (emit_all-At a es)

  cursor_to-At : (id : String) (k : Option ℕ) (s : State) → At I s → At I (cursor_to id k s)
  cursor_to-At id none s h = h
  cursor_to-At id (some k) s h = h

  route-At :
      (m : Member M) (new : List Event) (res : ReactResult) (s : State)
      → AreDelays Ok res.scheduled × AreWakes Ok res.wakes
      → At I s
      → Holds S (At I) (route c m now new res s)
  unfolding route
  route-At m new res s (schs, ds) h =
      and_then-Holds S (At I) (At I) (emit_all c (actor_of m) now res.immediate s)
        (λ s'. went (
          move_cursor m.agent_id new
            (push_wakes now res.wakes (push_all (actor_of m) now res.scheduled s'))))
        (emit_all-At (actor_of m) res.immediate s h)
        (λ s' h'.
          cursor_to-At m.agent_id (max_seq new)
            (push_wakes now res.wakes (push_all (actor_of m) now res.scheduled s'))
            (push_wakes-At res.wakes (push_all (actor_of m) now res.scheduled s') ds
              (push_all-At (actor_of m) res.scheduled s' schs h')))

  abbrev TurnedAt : Turned M → Type 0
  TurnedAt (m, s, p) = At I s

  abbrev EngineAt : Engine M → Type 0
  EngineAt (ms, s) = At I s

  finish_turn-At :
      (m : Member M) (new : List Event) (b : Board) (s : State) (o : Option (ReactResult × M))
      → c.react m.memory new b now ≡ o
      → At I s
      → Holds S TurnedAt (finish_turn c m now new s o)
  finish_turn-At m new b s none e h = others react_raised (λ q. cc)
  finish_turn-At m new b s (some (res, memory)) e h =
      and_then-Holds S (At I) TurnedAt (route c m now new res (mark m.agent_id now s))
        (λ s'. went (record m { memory = memory }, s', has_output res))
        (route-At m new res (mark m.agent_id now s) (gives m.memory new b now res memory e) h)
        (λ s' h'. h')

  turn_on-At :
      (m : Member M) (s : State) (b : Option Board)
      → At I s
      → Holds S TurnedAt (turn_on c m now s b)
  turn_on-At m s none h = others fold_raised (λ q. cc)
  turn_on-At m s (some b) h = elim (Bool-cases (is_idle c m now b s)) [
    | inl idle ↦ rw idle h
    | inr busy ↦
        rw busy
          (finish_turn-At m (unseen c m b s) b s (c.react m.memory (unseen c m b s) b now) refl h)
  ]

  turn-At : (m : Member M) (s : State) → At I s → Holds S TurnedAt (turn c m now s)
  unfolding turn
  turn-At m s h = turn_on-At m s (fold (read_run c.gateway.store.run_id s.db)) h

  abbrev PassedAt : Passed M → Type 0
  PassedAt (ms, s, p) = At I s

  pass-At : (ms : List (Member M)) (s : State) → At I s → Holds S PassedAt (pass c now ms s)
  unfolding pass
  pass-At [] s h = h
  pass-At (m ∷ ms) s h =
      and_then-Holds S TurnedAt PassedAt (turn c m now s)
        (λ (m', s', p). and_then (pass c now ms s') (λ (ms', s'', q). went (m' ∷ ms', s'', p || q)))
        (turn-At m s h)
        (λ (m', s', p) h'.
          and_then-Holds S PassedAt PassedAt (pass c now ms s')
            (λ (ms', s'', q). went (m' ∷ ms', s'', p || q)) (pass-At ms s' h') (λ u h''. h''))

  again :
      (n : ℕ) (ms : List (Member M)) (s : State) (p : Bool)
      → ((ms' : List (Member M)) (s' : State)
          → At I s'
          → Holds S EngineAt (settle_loop c now n (ms', s')))
      → At I s
      → Holds S EngineAt (elim p [ true ↦ settle_loop c now n (ms, s) | false ↦ went (ms, s) ])
  again n ms s true go h = go ms s h
  again n ms s false go h = h

  pub settle_loop-At :
      (n : ℕ) (ms : List (Member M)) (s : State)
      → At I s
      → Holds S EngineAt (settle_loop c now n (ms, s))
  unfolding settle_loop
  settle_loop-At zero ms s h = others not_converged (λ q. cc)
  settle_loop-At (suc n) ms s h =
      and_then-Holds S PassedAt EngineAt (pass c now ms s)
        (λ (ms', s', progressed). elim progressed [
          | true ↦ settle_loop c now n (ms', s')
          | false ↦ went (ms', s')
        ])
        (pass-At ms s h) (λ (ms', s', p) h'. again n ms' s' p (settle_loop-At n) h')

-- What an item does when its time has come keeps the predicate.
pub fire-At :
    {M : Type 0} (S : Stop → Type 0) (others : SparesOthers S) (c : Setup M) (top : HeapItem)
    (Ok : ℤ → Type 0) (I : OnHeap)
    → GivesDelays Ok c
    → SurvivesPush (time_of top) Ok I
    → (ms : List (Member M)) (s : State) → At I s
    → Holds S (λ (ms', s'). At I s') (fire c top (ms, s))
unfolding fire settle
fire-At S others c top Ok I gives survives ms s h = carried-At top.carried
  where
    settled :
        (s' : State) → At I s' → Holds S (λ (ms', s'). At I s') (settle c (time_of top) (ms, s'))
    settled s' h' =
        settle_loop-At S others c (time_of top) Ok I gives survives c.max_settle_iters ms s' h'

    checked-At :
        (a : Actor) (e : Emit) (answer : Option (Option Rejection))
        → Holds S (λ (ms', s'). At I s') (after_check c (time_of top) a e (ms, s) answer)
    checked-At a e none = others fold_raised (λ q. cc)
    checked-At a e (some (some rej)) = h
    checked-At a e (some none) =
        and_then-Holds S (At I) (λ (ms', s'). At I s') (emit_one c a (time_of top) e s)
          (λ s'. settle c (time_of top) (ms, s'))
          (emit_one-At S others c (time_of top) Ok I gives survives a (time_of top) e s h) settled

    carried-At :
        (carried : Option (Actor × Emit))
        → Holds S (λ (ms', s'). At I s') (carried_on c (time_of top) (ms, s) carried)
    carried-At none = settled s h
    carried-At (some (a, e)) =
        checked-At a e (check c.gateway s.db a e.event_type e.payload e.task_id)
