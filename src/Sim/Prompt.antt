-- ===== src/Sim/Prompt.antt =====
-- A team whose delays are at least one tick.
pub mod Work
pub use Work.*
use omegahive.Base.{
  ℕ, String, ◌≡◌, sym, subst, Option, none, some, List, [], ◌∷◌, ◌++◌, ◌>>=◌, Dict,
}
use omegahive.Board.Reducer.{fold}
use omegahive.Board.State.{Board}
use omegahive.Events.Envelope.{Event}
use omegahive.Events.Log.{Externals, Draw}
use omegahive.Gateway.Emit.{Gateway}
use omegahive.Metrics.Detectors.{Amount}
use omegahive.Promotion.Rules.{Fraction}
use omegahive.Sim.Coordinator.{Emit, ReactResult}
use omegahive.Sim.Engine.{Member, State, Step, turn}
use omegahive.Sim.Firing.{Fired, DetectorsRunner, detectors_react}
use omegahive.Sim.Heap.{AreWakes, GivesDelays}
use omegahive.Sim.Horizon.{IsPositive, run_engine-Ends}
use omegahive.Sim.Loop.{Engine, run_engine}
use omegahive.Sim.Measures.{Measured, crossed, metrics_react}
use omegahive.Sim.Prompt.Work.{
  IsPrompt, IsPatient, wakes_for-AreWakes, ArePrompt, IfSome, IsPromptTurn,
  worker_react-IsPromptTurn,
}
use omegahive.Sim.Review.{review_react}
use omegahive.Sim.Team.{
  Team, Agent, coordinates, reviews, measures, detects, promotes, works, review_step, agent_step,
  runner_of, team_react, setup_of,
}
use omegahive.Sim.Wakes.{detectors_react-wakes}
use omegahive.Sim.Worker.{worker_react}

agent_step-IsPromptTurn :
    {M : Type 0} (agent : M → Agent) (o : Option (ReactResult × M))
    → IfSome IsPromptTurn o
    → IfSome IsPromptTurn (agent_step agent o)
agent_step-IsPromptTurn agent none h = tt
agent_step-IsPromptTurn agent (some (res, after)) h = h

review_step-IsPromptTurn : (o : Option (List Emit)) → IfSome IsPromptTurn (review_step o)
review_step-IsPromptTurn none = tt
review_step-IsPromptTurn (some es) = (tt, tt)

measured-IsPromptTurn :
    (show : Amount → String) (thresholds : Dict Fraction) (memory : Measured) (o : Option Board)
    → IfSome IsPromptTurn (o >>= λ b. some (crossed show thresholds memory b))
measured-IsPromptTurn show thresholds memory none = tt
measured-IsPromptTurn show thresholds memory (some b) = (tt, tt)

metrics_react-IsPromptTurn :
    (show : Amount → String) (thresholds : Dict Fraction) (memory : Measured) (new : List Event)
    → IfSome IsPromptTurn (metrics_react show thresholds memory new)
unfolding metrics_react
metrics_react-IsPromptTurn show [] memory new = (tt, tt)
metrics_react-IsPromptTurn show (row ∷ rows) memory new =
    let after : Measured = record memory { seen = memory.seen ++ new } in
    measured-IsPromptTurn show (row ∷ rows) after (fold after.seen)

detectors_react-IsPromptTurn :
    (r : DetectorsRunner) (memory : Fired) (new : List Event) (b : Board) (now : ℕ)
    → ArePrompt (detectors_react r memory new b now).0
unfolding detectors_react
detectors_react-IsPromptTurn r memory new b now =
    let (res, after, same, wakes, ticks, later) = detectors_react-wakes r memory new b now in
    (tt, subst (λ turn. AreWakes IsPositive turn.0.wakes) (sym same) wakes)

module _ (team : Team) (prompt : (id : String) → IsPrompt (team.workers id))
    (patient : IsPatient team.coordinator) where
  team_react-IsPromptTurn :
      (agent : Agent) (new : List Event) (b : Board) (now : ℕ)
      → IfSome IsPromptTurn (team_react team agent new b now)
  unfolding team_react
  team_react-IsPromptTurn coordinates new b now =
      (tt, wakes_for-AreWakes team.coordinator new patient)
  team_react-IsPromptTurn (works id before) new b now =
      agent_step-IsPromptTurn (works id) (worker_react (team.workers id) before new b now)
        (worker_react-IsPromptTurn (team.workers id) (prompt id) b now new before)
  team_react-IsPromptTurn reviews new b now =
      review_step-IsPromptTurn (review_react team.show_uuid new)
  team_react-IsPromptTurn (measures memory) new b now =
      let res = metrics_react team.show_amount team.thresholds memory new in
      agent_step-IsPromptTurn measures res
        (metrics_react-IsPromptTurn team.show_amount team.thresholds memory new)
  team_react-IsPromptTurn (detects memory) new b now =
      detectors_react-IsPromptTurn (runner_of team) memory new b now
  team_react-IsPromptTurn (promotes memory) new b now = (tt, tt)

pub team-GivesDelays :
    (team : Team) (x : Externals) (g : Gateway) (draws : ℕ → Draw) (limit iterations : ℕ)
    → ((id : String) → IsPrompt (team.workers id))
    → IsPatient team.coordinator
    → GivesDelays IsPositive (setup_of team x g draws limit iterations)
team-GivesDelays team x g draws limit iterations prompt patient memory new b t res memory' e =
    subst (IfSome IsPromptTurn) e (team_react-IsPromptTurn team prompt patient memory new b t)

-- A simulation by the coordinator, the workers and the instruments of reviews, measures, detectors
-- and promotions comes to an end, from any state of the engine and within any limits: for some
-- number of pops its run returns or raises. No worker's acceptance takes negative time, the reports
-- and results take at least one tick, none fails or blocks at a set time, and the coordinator's
-- thresholds are at least one tick.
pub team-Ends :
    (team : Team) (x : Externals) (g : Gateway) (draws : ℕ → Draw) (limit iterations : ℕ)
    (ms : List (Member Agent)) (s : State)
    → ((id : String) → IsPrompt (team.workers id))
    → IsPatient team.coordinator
    → (n : ℕ) × (r : Step (Engine Agent)) × (run_engine
          (setup_of team x g draws limit iterations)
          n
          (ms, s)
        ≡ some r)
team-Ends team x g draws limit iterations ms s prompt patient =
    run_engine-Ends (setup_of team x g draws limit iterations)
      (team-GivesDelays team x g draws limit iterations prompt patient) ms s
