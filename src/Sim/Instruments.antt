-- ===== src/Sim/Instruments.antt =====
-- The emits of the instruments at the gate and at the payload classes.
use omegahive.Base.{
  ℕ, String, ◌≡◌, refl, subst, inl, inr, Bool, true, false, Option, none, some, List, [], ◌∷◌, ◌++◌,
  arith, is_met, taken_once, met_after, items_of, ◌==◌, Bool-cases, Option-cases, ◌>>=◌, sort, Dict,
}
use omegahive.Board.Legality.{
  rules, lookup, non_board_whitelist, worker_owned_emits, worker_ownership_violation,
}
use omegahive.Board.Reducer.{fold}
use omegahive.Board.State.{Board}
use omegahive.Events.Envelope.{instrument, Actor, EventType, tag, same_type, Uuid, Event}
use omegahive.Events.Json.{Payload, get_field}
use omegahive.Events.Types.{schema, of_kind, conforms}
use omegahive.Gateway.Emit.{gate}
use omegahive.Gateway.Policy.{may_emit}
use omegahive.Metrics.Clocked.{run_detectors}
use omegahive.Metrics.Core.{Metrics, compute}
use omegahive.Metrics.Detectors.{Amount, DetectorFiring}
use omegahive.Promotion.Rules.{Fraction, PromotionConfig, evaluate, board_rules}
use omegahive.Sim.Coordinator.{Emit, ReactResult}
use omegahive.Sim.Firing.{same_firing, threshold_crossed, keyed_firings, detectors_react}
use omegahive.Sim.Measures.{
  measure, is_over, firing_of, crossing, crossings_of, Measured, name_le, crossed, metrics_react,
}
use omegahive.Sim.Promoter.{
  same_promotion, promotion, key_of, picked_events, picked_tasks, promotion_react,
}
use omegahive.Sim.Prompt.Work.{IfSome}
use omegahive.Sim.Team.{
  Team, Agent, coordinates, reviews, measures, detects, promotes, works, agent_step, team_react,
}

-- The payload has the shape of its type's class.
abbrev pub has_shape : EventType → Payload → Bool
has_shape t p = elim (schema t) [ none ↦ false | some fs ↦ conforms fs p ]

-- The gate passes the emit on this board, and its payload has its shape.
abbrev pub IsFit : Board → Actor → Emit → Type 0
IsFit b a e =
    (gate b a e.event_type e.payload e.task_id ≡ none) × (has_shape e.event_type e.payload ≡ true)

abbrev pub AreFit : Board → Actor → List Emit → Type 0
AreFit b a [] = Unit {0}
AreFit b a (e ∷ es) = IsFit b a e × AreFit b a es

module _ (b : Board) (a : Actor) (reports : a.role ≡ instrument) where
  AreFit-append : (xs ys : List Emit) → AreFit b a xs → AreFit b a ys → AreFit b a (xs ++ ys)
  AreFit-append [] ys h g = g
  AreFit-append (x ∷ xs) ys (e, h) g = (e, AreFit-append xs ys h g)

  taken_once-AreFit :
      {K : Type 0} (same : K → K → Bool) (met : List K) (cs : List (K × Emit))
      → AreFit b a (items_of cs)
      → AreFit b a (items_of (taken_once same met cs))
  unfolding taken_once
  taken_once-AreFit same met [] h = tt
  taken_once-AreFit same met ((k, e) ∷ cs) (p, h) =
      elim (is_met same k met)
        as (λ old. AreFit b a (
          items_of (elim old [
            | true ↦ taken_once same met cs
            | false ↦ (k, e) ∷ taken_once same (k ∷ met) cs
          ]))) [
            | true ↦ taken_once-AreFit same met cs h
            | false ↦ (p, taken_once-AreFit same (k ∷ met) cs h)
          ]

  crossed-IsFit :
      (show : Amount → String) (f : DetectorFiring) → IsFit b a (threshold_crossed show f)
  unfolding gate may_emit worker_ownership_violation worker_owned_emits lookup rules same_type tag
      non_board_whitelist conforms schema of_kind get_field ◌==◌
  crossed-IsFit show f = (ground arith, refl)

  promotion-IsFit :
      (show : Uuid → String) (ref : Uuid) (rule : String) (tid : Option String)
      → IsFit b a (promotion show ref rule tid)
  unfolding gate may_emit worker_ownership_violation worker_owned_emits lookup rules same_type tag
      non_board_whitelist conforms schema of_kind get_field ◌==◌
  promotion-IsFit show ref rule tid = (ground arith, refl)

  AreFit-by :
      {K : Type 0} {cs ds : List (K × Emit)}
      → cs ≡ ds
      → AreFit b a (items_of cs)
      → AreFit b a (items_of ds)
  AreFit-by e = subst (λ xs. AreFit b a (items_of xs)) e

  picked_events-AreFit :
      (show : Uuid → String) (c : PromotionConfig) (seen evs : List Event)
      → AreFit b a (items_of (picked_events show c seen evs))
  unfolding picked_events
  picked_events-AreFit show c seen [] = tt
  picked_events-AreFit show c seen (ev ∷ evs) =
      let rest = picked_events-AreFit show c seen evs in
      elim (Option-cases (evaluate c seen ev)) [
        | inl routine ↦ AreFit-by (ground arith) rest
        | inr (rule, picks) ↦
            AreFit-by
              {cs = (key_of show ev rule, promotion show ev.event_id rule ev.task_id)
                ∷ picked_events show c seen evs}
              (ground arith) (promotion-IsFit show ev.event_id rule ev.task_id, rest)
      ]

  picked_tasks-AreFit :
      (show : Uuid → String) (tasks : List (String × String × Option Uuid))
      → AreFit b a (items_of (picked_tasks show tasks))
  unfolding picked_tasks
  picked_tasks-AreFit show [] = tt
  picked_tasks-AreFit show ((t, rule, none) ∷ tasks) = picked_tasks-AreFit show tasks
  picked_tasks-AreFit show ((t, rule, some ref) ∷ tasks) =
      (promotion-IsFit show ref rule (some t), picked_tasks-AreFit show tasks)

  keyed_firings-AreFit :
      (show : Amount → String) (fs : List DetectorFiring)
      → AreFit b a (items_of (keyed_firings show fs))
  unfolding keyed_firings
  keyed_firings-AreFit show [] = tt
  keyed_firings-AreFit show (f ∷ fs) = (crossed-IsFit show f, keyed_firings-AreFit show fs)

  crossings_of-AreFit :
      (show : Amount → String) (m : Metrics) (limits : List (String × Fraction))
      → AreFit b a (items_of (crossings_of show m limits))
  unfolding crossings_of
  crossings_of-AreFit show m [] = tt
  crossings_of-AreFit show m ((t, limit) ∷ limits) =
      let rest = crossings_of-AreFit show m limits in
      elim (Option-cases (measure t m)) [
        | inl absent ↦ AreFit-by (ground arith) rest
        | inr (v, is_value) ↦ elim (Bool-cases (is_over v limit)) [
          | inl over ↦
              let e = crossing show t v limit in
              AreFit-by {cs = (t, e) ∷ crossings_of show m limits} (ground arith)
                (crossed-IsFit show (firing_of t v limit), rest)
          | inr under ↦ AreFit-by (ground arith) rest
        ]
      ]

-- The instruments of measures, detectors and promotions.
abbrev pub is_reporter : Agent → Bool
is_reporter (measures memory) = true
is_reporter (detects memory) = true
is_reporter (promotes memory) = true
is_reporter _ = false

abbrev pub TurnFits : Board → Actor → ReactResult × Agent → Type 0
TurnFits b a (res, after) = AreFit b a res.immediate

module _ (at_gate : Board) (a : Actor) (reports : a.role ≡ instrument) where
  measured-TurnFits :
      (show : Amount → String) (thresholds : Dict Fraction) (memory : Measured) (o : Option Board)
      → IfSome
          (TurnFits at_gate a)
          (agent_step measures (o >>= λ b. some (crossed show thresholds memory b)))
  measured-TurnFits show thresholds memory none = tt
  measured-TurnFits show thresholds memory (some b) =
      let rows = crossings_of show (compute memory.seen b) (sort name_le thresholds) in
      taken_once-AreFit at_gate a reports ◌==◌ memory.emitted rows (
        crossings_of-AreFit at_gate a reports show (compute memory.seen b)
          (sort name_le thresholds))

  metrics_react-TurnFits :
      (show : Amount → String) (thresholds : Dict Fraction) (memory : Measured) (new : List Event)
      → IfSome (TurnFits at_gate a) (agent_step measures (metrics_react show thresholds memory new))
  unfolding metrics_react
  metrics_react-TurnFits show [] memory new = tt
  metrics_react-TurnFits show (row ∷ rows) memory new =
      let after : Measured = record memory { seen = memory.seen ++ new } in
      measured-TurnFits show (row ∷ rows) after (fold after.seen)

-- The gateway refuses no report: what the instruments of measures, detectors and promotions emit in
-- a turn passes the gate on every board, under an actor of their role, and each payload has the
-- shape of its type's class.
pub team_react-AreFit :
    (team : Team) (agent : Agent) (new : List Event) (b : Board) (now : ℕ) (at_gate : Board)
    (a : Actor)
    → a.role ≡ instrument
    → is_reporter agent ≡ true
    → IfSome (TurnFits at_gate a) (team_react team agent new b now)
unfolding team_react detectors_react promotion_react
team_react-AreFit team coordinates new b now at_gate a h r = absurd (ground arith)
team_react-AreFit team reviews new b now at_gate a h r = absurd (ground arith)
team_react-AreFit team (works id before) new b now at_gate a h r = absurd (ground arith)
team_react-AreFit team (measures memory) new b now at_gate a h r =
    metrics_react-TurnFits at_gate a h team.show_amount team.thresholds memory new
team_react-AreFit team (detects memory) new b now at_gate a h r =
    let fs = run_detectors team.promotion.detector none (memory.seen ++ new) b now in
    taken_once-AreFit at_gate a h same_firing memory.fired (keyed_firings team.show_amount fs)
      (keyed_firings-AreFit at_gate a h team.show_amount fs)
team_react-AreFit team (promotes memory) new b now at_gate a h r =
    let seen = memory.seen ++ new in
    let es = picked_events team.show_uuid team.promotion seen new in
    let bs = board_rules team.promotion now b in
    let met = met_after same_promotion memory.promoted es in
    AreFit-append at_gate a h (items_of (taken_once same_promotion memory.promoted es))
      (items_of (taken_once same_promotion met (picked_tasks team.show_uuid bs)))
      (taken_once-AreFit at_gate a h same_promotion memory.promoted es
        (picked_events-AreFit at_gate a h team.show_uuid team.promotion seen new))
      (taken_once-AreFit at_gate a h same_promotion met (picked_tasks team.show_uuid bs)
        (picked_tasks-AreFit at_gate a h team.show_uuid bs))
