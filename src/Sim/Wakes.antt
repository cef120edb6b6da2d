-- ===== src/Sim/Wakes.antt =====
-- The wakes that the detectors' runner asks for.
use omegahive.Base.{
  ℕ, suc, ◌+◌, ◌-◌, ◌≤◌, String, ◌≡◌, refl, ap, ◌∙◌, inl, inr, true, false, ◌||◌, Option, List, [],
  ◌∷◌, ◌++◌, map, arith, is_met, taken_once, met_after, items_of, ltb, eqb, Bool-cases, ℤ, pos,
  negsuc,
}
use omegahive.Board.State.{Board}
use omegahive.Events.Envelope.{Event}
use omegahive.Metrics.Clocked.{stall, aging, time_based_deadlines}
use omegahive.Metrics.Deadlines.{
  situations, all_pass, is_outside, pass-is_met, time_based_deadlines_complete,
}
use omegahive.Sim.Coordinator.{ReactResult}
use omegahive.Sim.Firing.{delays_after, Fired, DetectorsRunner, detectors_react}
use omegahive.Sim.Heap.{AreWakes}
use omegahive.Sim.Horizon.{IsPositive}

-- What the detectors that wait fire about.
abbrev pub waiting_on : DetectorsRunner → Fired → Board → ℕ → List (String × Option String)
waiting_on r memory b now =
    situations (stall r.config b now) ++ situations (aging r.config memory.seen b now)

-- The ticks of some delays.
abbrev pub ticks_of : ℕ → List ℤ → List ℕ
ticks_of now [] = []
ticks_of now (pos w ∷ ws) = (now + w) ∷ ticks_of now ws
ticks_of now (negsuc w ∷ ws) = (now - suc w) ∷ ticks_of now ws

taken_once-AreWakes :
    (met : List ℕ) (cs : List (ℕ × ℕ))
    → AreWakes IsPositive (map pos (items_of cs))
    → AreWakes IsPositive (map pos (items_of (taken_once eqb met cs)))
unfolding taken_once
taken_once-AreWakes met [] h = tt
taken_once-AreWakes met ((d, w) ∷ cs) (p, h) =
    elim (is_met eqb d met)
      as (λ old. AreWakes IsPositive (
        map pos (
          items_of (elim old [
            | true ↦ taken_once eqb met cs
            | false ↦ (d, w) ∷ taken_once eqb (d ∷ met) cs
          ])))) [
            | true ↦ taken_once-AreWakes met cs h
            | false ↦ (p, taken_once-AreWakes (d ∷ met) cs h)
          ]

module _ (now : ℕ) where
  delays-AreWakes : (ds : List ℕ) → AreWakes IsPositive (map pos (items_of (delays_after now ds)))
  unfolding delays_after
  delays-AreWakes [] = tt
  delays-AreWakes (d ∷ ds) = elim (Bool-cases (ltb now d)) [
    | inl ahead ↦ rw ahead (ground arith, delays-AreWakes ds)
    | inr past ↦ rw past (delays-AreWakes ds)
  ]

  -- The ticks that are scheduled afterwards are those of before and those of the wakes.
  scheduled-after :
      (k : ℕ) (met : List ℕ) (ds : List ℕ)
      → is_met eqb k (met_after eqb met (delays_after now ds)) ≡ (
          is_met eqb k met
          || is_met eqb k
              (ticks_of now (map pos (items_of (taken_once eqb met (delays_after now ds))))))
  unfolding taken_once met_after delays_after is_met
  scheduled-after k met [] = ground arith
  scheduled-after k met (d ∷ ds) =
      ground (arith, scheduled-after k met ds, scheduled-after k (d ∷ met) ds)

  module _ (later : ℕ) where
    pass-before :
        (met : List ℕ) (ds : List ℕ)
        → all_pass (is_outside now later) (met_after eqb met (delays_after now ds)) ≡ true
        → all_pass (is_outside now later) met ≡ true
    unfolding met_after delays_after
    pass-before met [] h = h
    pass-before met (d ∷ ds) h = ground (arith, pass-before met ds, pass-before (d ∷ met) ds)

    -- If no scheduled tick is between the two, then no deadline is.
    deadlines-pass :
        (met : List ℕ) (ds : List ℕ)
        → all_pass (is_outside now later) (met_after eqb met (delays_after now ds)) ≡ true
        → all_pass (is_outside now later) ds ≡ true
    unfolding met_after delays_after
    deadlines-pass met [] h = refl
    deadlines-pass met (d ∷ ds) h = ground (
      arith,
      deadlines-pass met ds,
      deadlines-pass (d ∷ met) ds,
      pass-before met ds,
      pass-before (d ∷ met) ds,
      pass-is_met (is_outside now later) d met,
    )

-- The detectors' runner asks for the wakes that its waiting detectors need. After each turn: every
-- wake is at least one tick away; the ticks it has scheduled are those from before and those of the
-- wakes; and as long as the board and the events stay the same, stall and aging fire about the same
-- until a tick that is scheduled.
pub detectors_react-wakes :
    (r : DetectorsRunner) (memory : Fired) (new : List Event) (b : Board) (now : ℕ)
    → (res : ReactResult) × (after : Fired) × (detectors_react r memory new b now ≡ (res, after))
      × AreWakes IsPositive res.wakes
      × ((d : ℕ)
          → is_met eqb d after.scheduled
            ≡ (is_met eqb d memory.scheduled || is_met eqb d (ticks_of now res.wakes)))
      × ((later : ℕ)
          → now ≤ later
          → all_pass (is_outside now later) after.scheduled ≡ true
          → waiting_on r after b later ≡ waiting_on r after b now)
unfolding detectors_react
detectors_react-wakes r memory new b now =
    let (res, after) = detectors_react r memory new b now in
    let deadlines = time_based_deadlines r.config after.seen b in
    (
      res,
      after,
      refl,
      taken_once-AreWakes memory.scheduled (delays_after now deadlines)
          (delays-AreWakes now deadlines),
      (λ d. scheduled-after now d memory.scheduled deadlines),
      λ later le free.
          let (same_stall, same_aging) =
            time_based_deadlines_complete r.config b after.seen now later le
              (deadlines-pass now later memory.scheduled deadlines free) in
          ap (λ fs. fs ++ situations (aging r.config after.seen b later)) same_stall
          ∙ ap (λ fs. situations (stall r.config b now) ++ fs) same_aging,
    )
