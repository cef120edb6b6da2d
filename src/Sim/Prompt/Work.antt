-- ===== src/Sim/Prompt/Work.antt =====
-- The delays of a worker and of the coordinator's thresholds.
use omegahive.Base.{
  ℕ, zero, suc, ◌≤◌, String, ◌≡◌, inl, inr, Bool, true, false, ◌&&◌, ◌||◌, Option, none, some, List,
  [], ◌∷◌, ◌++◌, arith, if◌then◌else◌, is_some, Bool-cases, ◌>>=◌, ℤ, pos, negsuc, int_is_zero,
}
use omegahive.Board.State.{Board}
use omegahive.Events.Envelope.{task_assigned, task_reassigned, task_blocked, same_type, Event}
use omegahive.Sim.Clock.{IsDelay}
use omegahive.Sim.Coordinator.{Scheduled, ReactResult, Coordinator, wakes_for}
use omegahive.Sim.Engine.{Setup}
use omegahive.Sim.Heap.{AreDelays, AreWakes, GivesDelays}
use omegahive.Sim.Horizon.{IsPositive}
use omegahive.Sim.Worker.{
  Worker, targets_me, Attempts, next_attempt, draw_quality, result_in, accept_later, progress_in,
  on_assignment, join_results, worker_react,
}

-- A worker whose acceptance takes no negative time, whose reports and results take at least one tick, and that neither fails nor blocks at a
-- set time.
pub record IsPrompt (w : Worker) : Type 0 where
  pub progresses : IsPositive w.progress_delay
  pub posts : IsPositive w.result_delay
  pub accepts : IsDelay w.accept_delay
  pub no_failure : w.fails_at ≡ none
  pub no_block : w.blocks ≡ none

abbrev pub IsPositiveOr : Option ℕ → Type 0
IsPositiveOr none = Unit {0}
IsPositiveOr (some n) = 1 ≤ n

-- The coordinator's thresholds, where given, are at least one tick.
abbrev pub IsPatient : Coordinator → Type 0
IsPatient c = IsPositiveOr c.stale_assigned × IsPositiveOr c.blocked_for

AreDelays-append :
    (xs ys : List Scheduled)
    → AreDelays IsPositive xs
    → AreDelays IsPositive ys
    → AreDelays IsPositive (xs ++ ys)
AreDelays-append [] ys h g = g
AreDelays-append (x ∷ xs) ys (a, h) g = (a, AreDelays-append xs ys h g)

pub if_either :
    {A : Type 0} (P : A → Type 0) (b : Bool) (x y : A) → P x → P y → P (if b then x else y)
if_either P true x y h g = h
if_either P false x y h g = g

elim_either :
    {A : Type 0} (P : A → Type 0) (b : Bool) (x y : A)
    → P x
    → P y
    → P (elim b [ false ↦ x | true ↦ y ])
elim_either P true x y h g = g
elim_either P false x y h g = h

deadline-AreWakes :
    (o : Option ℕ) (ds : List ℤ)
    → IsPositiveOr o
    → AreWakes IsPositive ds
    → AreWakes IsPositive (elim o [ none ↦ ds | some n ↦ pos n ∷ ds ])
deadline-AreWakes none ds p h = h
deadline-AreWakes (some n) ds p h = (p, h)

pub wakes_for-AreWakes :
    (c : Coordinator) (evs : List Event) → IsPatient c → AreWakes IsPositive (wakes_for c evs)
unfolding wakes_for
wakes_for-AreWakes c [] h = tt
wakes_for-AreWakes c (ev ∷ evs) (stale, block) =
    let rest = wakes_for-AreWakes c evs (stale, block) in
    if_either (AreWakes IsPositive)
      ((same_type ev.event_type task_assigned || same_type ev.event_type task_reassigned)
        && is_some c.stale_assigned)
      (elim c.stale_assigned [ none ↦ wakes_for c evs | some n ↦ pos n ∷ wakes_for c evs ])
      (if same_type ev.event_type task_blocked
        then (elim c.blocked_for [ none ↦ wakes_for c evs | some n ↦ pos n ∷ wakes_for c evs ])
        else wakes_for c evs)
      (deadline-AreWakes c.stale_assigned (wakes_for c evs) stale rest)
      (if_either (AreWakes IsPositive) (same_type ev.event_type task_blocked)
        (elim c.blocked_for [ none ↦ wakes_for c evs | some n ↦ pos n ∷ wakes_for c evs ])
        (wakes_for c evs) (deadline-AreWakes c.blocked_for (wakes_for c evs) block rest) rest)

-- What a worker schedules after it accepts.
abbrev pub ArePrompt : ReactResult → Type 0
ArePrompt res = AreDelays IsPositive res.scheduled × AreWakes IsPositive res.wakes

-- A delay of some time that is not at once is at least one tick.
later-IsPositive : (d : ℤ) → IsDelay d → int_is_zero d ≡ false → IsPositive d
later-IsPositive (pos zero) good later = absurd (ground arith)
later-IsPositive (pos (suc d)) good later = omega arith
later-IsPositive (negsuc d) good later = good

accept_later-AreDelays :
    (w : Worker) (ev : Event) → IsDelay w.accept_delay → AreDelays IsPositive (accept_later w ev)
accept_later-AreDelays w ev good = elim (Bool-cases (int_is_zero w.accept_delay)) [
  | inl at_once ↦ rw at_once tt
  | inr later ↦ rw later (later-IsPositive w.accept_delay good later, tt)
]

on_assignment-ArePrompt :
    (w : Worker) (ev : Event) (quality : String) (now : ℕ)
    → IsPrompt w
    → ArePrompt (on_assignment w ev quality now)
unfolding on_assignment
on_assignment-ArePrompt w ev quality now h = elim (Bool-cases w.silent) [
  | inl quiet ↦ rw quiet (tt, tt)
  | inr speaks ↦ elim (Bool-cases w.rejects) [
    | inl declines ↦ rw speaks (rw declines (tt, tt))
    | inr takes ↦ rw speaks (
        rw takes (
          rw h.no_failure (
            rw h.no_block (
              AreDelays-append (accept_later w ev)
                  (progress_in w ev ∷ result_in w ev quality w.result_delay ∷ [])
                  (accept_later-AreDelays w ev h.accepts) (h.progresses, (h.posts, tt)),
              tt,
            ))))
  ]
]

-- What holds of a value that is there.
abbrev pub IfSome : {A : Type 0} → (A → Type 0) → Option A → Type 0
IfSome P none = Unit {0}
IfSome P (some a) = P a

AreWakes-append :
    (xs ys : List ℤ)
    → AreWakes IsPositive xs
    → AreWakes IsPositive ys
    → AreWakes IsPositive (xs ++ ys)
AreWakes-append [] ys h g = g
AreWakes-append (x ∷ xs) ys (a, h) g = (a, AreWakes-append xs ys h g)

join_results-ArePrompt :
    (r q : ReactResult) → ArePrompt r → ArePrompt q → ArePrompt (join_results r q)
join_results-ArePrompt r q (rs, ds) (qs, qw) =
    (AreDelays-append r.scheduled q.scheduled rs qs, AreWakes-append r.wakes q.wakes ds qw)

-- A turn that asks for nothing at once or in the past.
abbrev pub IsPromptTurn {ℓ} : {M : Type ℓ} → ReactResult × M → Type 0
IsPromptTurn (res, after) = ArePrompt res

module _ (w : Worker) (prompt : IsPrompt w) (b : Board) (now : ℕ) where
  -- The result of one event, before those after it.
  given-IsPromptTurn :
      (ev : Event) (drawn : Option String) (rest : Option (ReactResult × Attempts))
      → IfSome IsPromptTurn rest
      → IfSome IsPromptTurn (
          drawn >>= λ quality.
          rest >>= λ (res, after). some (join_results (on_assignment w ev quality now) res, after))
  given-IsPromptTurn ev none rest h = tt
  given-IsPromptTurn ev (some quality) none h = tt
  given-IsPromptTurn ev (some quality) (some (res, after)) h =
      join_results-ArePrompt (on_assignment w ev quality now) res
        (on_assignment-ArePrompt w ev quality now prompt) h

  pub worker_react-IsPromptTurn :
      (evs : List Event) (before : Attempts) → IfSome IsPromptTurn (worker_react w before evs b now)
  unfolding worker_react
  worker_react-IsPromptTurn [] before = (tt, tt)
  worker_react-IsPromptTurn (ev ∷ evs) before =
      elim_either (IfSome IsPromptTurn) (targets_me w ev) (worker_react w before evs b now)
        (draw_quality w b ev.task_id (next_attempt ev.task_id before) >>= λ quality.
          worker_react w (before ++ (ev.task_id ∷ [])) evs b now >>= λ (res, after).
          some (join_results (on_assignment w ev quality now) res, after))
        (worker_react-IsPromptTurn evs before)
        (given-IsPromptTurn ev (draw_quality w b ev.task_id (next_attempt ev.task_id before))
          (worker_react w (before ++ (ev.task_id ∷ [])) evs b now)
          (worker_react-IsPromptTurn evs (before ++ (ev.task_id ∷ []))))

positive-IsDelay : (d : ℤ) → IsPositive d → IsDelay d
positive-IsDelay (pos d) p = tt
positive-IsDelay (negsuc d) p = p

AreDelays-IsDelay : (schs : List Scheduled) → AreDelays IsPositive schs → AreDelays IsDelay schs
AreDelays-IsDelay [] h = tt
AreDelays-IsDelay (sch ∷ schs) (p, h) = (positive-IsDelay sch.delay p, AreDelays-IsDelay schs h)

AreWakes-IsDelay : (ds : List ℤ) → AreWakes IsPositive ds → AreWakes IsDelay ds
AreWakes-IsDelay [] h = tt
AreWakes-IsDelay (d ∷ ds) (p, h) = (positive-IsDelay d p, AreWakes-IsDelay ds h)

-- Reactors that give delays of at least one tick give no negative delay.
pub GivesDelays-IsDelay :
    {M : Type 0} (c : Setup M) → GivesDelays IsPositive c → GivesDelays IsDelay c
GivesDelays-IsDelay c gives memory new b t res memory' e =
    let (schs, ds) = gives memory new b t res memory' e in
    (AreDelays-IsDelay res.scheduled schs, AreWakes-IsDelay res.wakes ds)
