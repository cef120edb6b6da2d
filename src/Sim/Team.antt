-- ===== src/Sim/Team.antt =====
-- The reactors of src/omegahive/sim/engine/assembly.py at the engine: the coordinator, the
-- instruments and the workers.
use omegahive.Base.{ℕ, String, Option, none, some, List, [], ◌∷◌, Dict}
use omegahive.Board.State.{Board}
use omegahive.Events.Envelope.{Role, instrument, Uuid, Event}
use omegahive.Events.Log.{Externals, Draw}
use omegahive.Gateway.Emit.{Gateway}
use omegahive.Metrics.Detectors.{Amount}
use omegahive.Promotion.Rules.{Fraction, PromotionConfig}
use omegahive.Sim.Coordinator.{Emit, ReactResult, Coordinator, Format, decide}
use omegahive.Sim.Engine.{Member, Setup}
use omegahive.Sim.Firing.{Fired, nothing_fired, DetectorsRunner, detectors_react}
use omegahive.Sim.Measures.{Measured, nothing_measured, metrics_react}
use omegahive.Sim.Promoter.{Promoted, nothing_promoted, promotion_react}
use omegahive.Sim.Review.{review_react}
use omegahive.Sim.Worker.{Worker, Attempts, worker_react}

-- How the team is set up; a worker is found by its id. `show_amount` is the text of a float, and
-- `thresholds` those of the measures, of which `build_engine` gives none.
pub record Team : Type 0 where
  pub coordinator : Coordinator
  pub workers : String → Worker
  pub format : Format
  pub show_uuid : Uuid → String
  pub show_amount : Amount → String
  pub promotion : PromotionConfig
  pub thresholds : Dict Fraction

-- What each reactor is and remembers.
pub data Agent : Type 0 where
  coordinates reviews : Agent
  measures : Measured → Agent
  detects : Fired → Agent
  promotes : Promoted → Agent
  works : String → Attempts → Agent

abbrev pub review_step : Option (List Emit) → Option (ReactResult × Agent)
review_step none = none
review_step (some es) = some (record { immediate = es; scheduled = []; wakes = [] }, reviews)

-- The result of a reactor, with what it remembers as the agent's.
abbrev pub agent_step :
    {M : Type 0} → (M → Agent) → Option (ReactResult × M) → Option (ReactResult × Agent)
agent_step agent none = none
agent_step agent (some (res, after)) = some (res, agent after)

-- `DetectorsRunner(config=promo_config.detector)`
abbrev pub runner_of : Team → DetectorsRunner
runner_of team = record {
  config = team.promotion.detector;
  enabled = none;
  show_amount = team.show_amount;
}

-- The `react` of each reactor.
unfoldable pub team_react : Team → Agent → List Event → Board → ℕ → Option (ReactResult × Agent)
unfolding decide worker_react review_react metrics_react detectors_react promotion_react
team_react team coordinates new b now =
    some (decide team.format team.coordinator b new now, coordinates)
team_react team (works id before) new b now =
    agent_step (works id) (worker_react (team.workers id) before new b now)
team_react team reviews new b now = review_step (review_react team.show_uuid new)
team_react team (measures memory) new b now =
    agent_step measures (metrics_react team.show_amount team.thresholds memory new)
team_react team (detects memory) new b now =
    agent_step detects (some (detectors_react (runner_of team) memory new b now))
team_react team (promotes memory) new b now =
    agent_step promotes (some (promotion_react team.show_uuid team.promotion memory new b now))

abbrev instrument_at : String → Agent → Member Agent
instrument_at id agent = record { role = instrument; agent_id = id; memory = agent }

-- The workers' members, in the order of the roster.
unfoldable pub worker_members : List String → List (Member Agent)
worker_members [] = []
worker_members (w ∷ ws) =
    record { role = Role.worker; agent_id = w; memory = works w [] } ∷ worker_members ws

-- The list of reactors of `build_engine`.
unfoldable pub build_members : String → List String → List (Member Agent)
unfolding worker_members
build_members coordinator_id roster =
    record { role = Role.coordinator; agent_id = coordinator_id; memory = coordinates }
    ∷ instrument_at "review" reviews
    ∷ instrument_at "metrics" (measures nothing_measured)
    ∷ instrument_at "detectors" (detects nothing_fired)
    ∷ instrument_at "promotion" (promotes nothing_promoted)
    ∷ worker_members roster

-- The engine of a team.
abbrev pub setup_of : Team → Externals → Gateway → (ℕ → Draw) → (limit iterations : ℕ) → Setup Agent
setup_of team x g draws limit iterations = record {
  externals = x;
  gateway = g;
  draws = draws;
  react = team_react team;
  max_logical_ts = limit;
  max_settle_iters = iterations;
}
