-- ===== src/Promotion/Tests.antt =====
-- A few events of one thread, and the theorem about the chain of causes at them.
use omegahive.Base.{
  ℕ, ◌≡◌, refl, true, Option, none, some, List, [], ◌∷◌, is_met, taken_once, met_after, times_of,
  find_in, change_in, taken_rounds, ◌==◌, opt_eq, keep, count_if, member, add, insert, sort,
  text_le, sort_by, Dict, get, put, values, keys, map_values, is_space, is_break, text_length,
  strip_left, strip_right, strip, lines_after, split_lines, cut, concat, without_prefix,
}
use omegahive.Events.Envelope.{Role, Actor, task_escalated, tag, same_type, Uuid, Event}
use omegahive.Events.Json.{end, get_field, get_text, get_int, first_ref, is_blank}
use omegahive.Promotion.Chain.{Linked, ids_of, NoRepeat, last_event, met_in, caused_by_chain-Linked}
use omegahive.Promotion.Overrides.{ScenarioConfig, override_one, override_detectors, from_scenario}
use omegahive.Promotion.Rules.{
  Fraction, default_detectors, thread_length, is_routine, evaluate, board_rules_at, board_rules,
  warning, critical, metric_name, severity,
}
use omegahive.Promotion.View.{
  by_id, cause_of, causes, seqs_of, caused_by_chain, digest, item_of, items_over, human_view,
}

abbrev gateway_1 : Actor
gateway_1 = record { role = Role.gateway; id = "gateway" }

-- The events cause each other: the log is not one that the gateway writes.
abbrev event : Uuid → Uuid → Event
event u cause = record {
  event_id = u;
  run_id = "r1";
  logical_ts = u;
  wall_ts = none;
  actor = gateway_1;
  event_type = task_escalated;
  task_id = some "t1";
  payload = end;
  causation_id = some cause;
  correlation_id = some 1;
  recipient = none;
  seq = some u;
}

abbrev circle : List Event
circle = event 1 2 ∷ event 2 3 ∷ event 3 1 ∷ []

computes : Unit {0}
unfolding override_one override_detectors from_scenario ◌==◌ opt_eq get put values keys map_values
    keep count_if member add insert sort text_le sort_by is_space is_break text_length strip_left
    strip_right strip lines_after split_lines cut concat without_prefix is_met taken_once met_after
    times_of find_in change_in taken_rounds thread_length is_routine evaluate board_rules_at
    board_rules metric_name severity by_id causes seqs_of caused_by_chain digest item_of items_over
    human_view tag same_type get_field get_text get_int first_ref is_blank
computes = tt

-- The walk stops where the circle closes.
walks_once : caused_by_chain (event 1 2) circle ≡ some (1 ∷ 2 ∷ 3 ∷ [])
unfolding computes
walks_once = refl

critical_loop : severity "metric:loop" ≡ critical
unfolding computes
critical_loop = refl

milder_spike : severity "metric:cost_spike" ≡ warning
unfolding computes
milder_spike = refl

abbrev scenario : Option ℕ → Dict Fraction → ScenarioConfig
scenario spike overrides = record {
  tiers = 2;
  t_block = some 4;
  n_thread = none;
  c_spike = spike;
  detectors = overrides;
}

-- The field c_spike is not read.
spike_ignored :
    from_scenario (some (scenario (some 5) [])) ≡ from_scenario (some (scenario none []))
unfolding computes
spike_ignored = refl

overridden :
    from_scenario (some (scenario none (("c_spike", record { num = 5; den = 1 }) ∷ [])))
    ≡ some
        (record { t_block = 4; n_thread = 20; detector = record default_detectors { c_spike = 5 } })
unfolding computes
overridden = refl

caused_by_chain-Linked_example :
    (es : List Event) × (caused_by_chain (event 1 2) circle ≡ some (seqs_of (event 1 2 ∷ es)))
    × Linked circle (event 1 2) es
    × NoRepeat (event 1 2 ∷ es)
    × (met_in (cause_of circle (last_event (event 1 2) es)) (ids_of (event 1 2 ∷ es)) ≡ true)
caused_by_chain-Linked_example = caused_by_chain-Linked (event 1 2) circle
