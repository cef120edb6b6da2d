-- ===== src/Sim/Promoter.antt =====
-- src/omegahive/sim/reactors/promotion.py: the reactor that promotes events.
use omegahive.Base.{
  ℕ, String, Bool, ◌&&◌, Option, none, some, List, [], ◌∷◌, ◌++◌, taken_once, met_after, items_of,
  ◌==◌, if◌then◌else◌, opt_eq,
}
use omegahive.Board.State.{Board}
use omegahive.Events.Envelope.{promotion_created, Uuid, Event}
use omegahive.Events.Json.{text, end, field}
use omegahive.Promotion.Rules.{PromotionConfig, evaluate, board_rules}
use omegahive.Sim.Coordinator.{Emit, ReactResult}

-- What a promotion is deduplicated by.
abbrev pub PromotionKey : Type 0
PromotionKey = Option String × String

abbrev pub same_promotion : PromotionKey → PromotionKey → Bool
same_promotion (a, r) (b, s) = opt_eq a b && r == s

abbrev pub promotion : (Uuid → String) → Uuid → String → Option String → Emit
promotion show ref rule tid = record {
  event_type = promotion_created;
  payload = field "ref_event" (text (show ref)) (field "rule_id" (text rule) end);
  task_id = tid;
  causation_id = some ref;
  recipient = none;
}

-- `str(ev.correlation_id)`
abbrev thread_text : (Uuid → String) → Option Uuid → String
thread_text show none = "None"
thread_text show (some u) = show u

abbrev pub key_of : (Uuid → String) → Event → String → PromotionKey
key_of show ev rule =
    if rule == "thread_too_long"
    then (some (thread_text show ev.correlation_id), rule)
    else (ev.task_id, rule)

-- The new events that a rule picks, before the dedup.
unfoldable pub picked_events :
    (Uuid → String) → PromotionConfig → List Event → List Event → List (PromotionKey × Emit)
unfolding evaluate
picked_events show c seen [] = []
picked_events show c seen (ev ∷ evs) =
    let rest = picked_events show c seen evs in
    elim (evaluate c seen ev) [
      | none ↦ rest
      | some rule ↦ (key_of show ev rule, promotion show ev.event_id rule ev.task_id) ∷ rest
    ]

-- The tasks that a rule picks and whose last event is known, before the dedup.
unfoldable pub picked_tasks :
    (Uuid → String) → List (String × String × Option Uuid) → List (PromotionKey × Emit)
picked_tasks show [] = []
picked_tasks show ((t, rule, none) ∷ rows) = picked_tasks show rows
picked_tasks show ((t, rule, some ref) ∷ rows) =
    ((some t, rule), promotion show ref rule (some t)) ∷ picked_tasks show rows

-- `_seen` and `_promoted`
pub record Promoted : Type 0 where
  pub seen : List Event
  pub promoted : List PromotionKey

abbrev pub nothing_promoted : Promoted
nothing_promoted = record { seen = []; promoted = [] }

-- `PromotionEvaluator.react`
unfoldable pub promotion_react :
    (Uuid → String) → PromotionConfig → Promoted → List Event → Board → ℕ → ReactResult × Promoted
unfolding picked_events picked_tasks board_rules taken_once met_after
promotion_react show c memory new b now =
    let seen = memory.seen ++ new in
    let events = picked_events show c seen new in
    let met = met_after same_promotion memory.promoted events in
    let tasks = picked_tasks show (board_rules c now b) in
    (
      record {
        immediate =
            items_of (taken_once same_promotion memory.promoted events)
            ++ items_of (taken_once same_promotion met tasks);
        scheduled = [];
        wakes = [];
      },
      record { seen = seen; promoted = met_after same_promotion met tasks },
    )
