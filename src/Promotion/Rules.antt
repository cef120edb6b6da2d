-- ===== src/Promotion/Rules.antt =====
-- src/omegahive/promotion/rules.py and config.py: which events are promoted, and how severe a
-- promotion is.
use omegahive.Base.{
  ℕ, ◌+◌, String, Bool, true, false, ◌&&◌, ◌||◌, Option, none, some, List, [], ◌∷◌, ltb, eqb, ◌==◌,
  if◌then◌else◌, count_if, member, sort, text_le, get, keys, concat, without_prefix,
}
use omegahive.Board.State.{blocked, TaskState, Board, is_status}
use omegahive.Events.Envelope.{
  EventType, task_assigned, task_escalated, task_accepted, task_progress, review_failed,
  metric_threshold_crossed, Uuid, Event,
}
use omegahive.Events.Json.{Payload, get_text}

-- A float of the thresholds or of a metric, as an exact fraction with its denominator.
pub record Fraction : Type 0 where
  pub num : ℕ
  pub den : ℕ

pub record DetectorConfig : Type 0 where
  pub k_retry : ℕ
  pub c_spike : ℕ
  pub c_window : ℕ
  pub a_thresh : Fraction
  pub t_stall : ℕ
  pub t_age : ℕ
  pub loop_repeat : ℕ

abbrev pub default_detectors : DetectorConfig
default_detectors = record {
  k_retry = 3;
  c_spike = 50;
  c_window = 10;
  a_thresh = record { num = 8; den = 1 };
  t_stall = 12;
  t_age = 30;
  loop_repeat = 3;
}

pub record PromotionConfig : Type 0 where
  pub t_block : ℕ
  pub n_thread : ℕ
  pub detector : DetectorConfig

-- The config with its defaults.
abbrev pub default_config : PromotionConfig
default_config = record { t_block = 6; n_thread = 20; detector = default_detectors }

-- `a == b` on values of type `UUID | None`.
abbrev pub uuid_eq : Option Uuid → Option Uuid → Bool
uuid_eq none none = true
uuid_eq (some a) (some b) = eqb a b
uuid_eq _ _ = false

-- `thread_len[corr]`, where `thread_len` counts the events of each thread.
unfoldable pub thread_length : List Event → Uuid → ℕ
thread_length evs u = count_if (λ e. uuid_eq e.correlation_id (some u)) evs

-- `ROUTINE`
unfoldable pub is_routine : EventType → Bool
is_routine task_progress = true
is_routine task_accepted = true
is_routine task_assigned = true
is_routine _ = false

-- A metric's name in a rule id; a value that is no text, which the schema does not let through, is
-- written as None.
abbrev metric_of : Option String → String
metric_of none = "None"
metric_of (some m) = m

abbrev too_long : ℕ → List Event → Event → Option String
too_long limit seen ev = elim ev.correlation_id [
  | none ↦ none
  | some u ↦ if ltb limit (thread_length seen u) then some "thread_too_long" else none
]

-- The rule of an event that is not routine.
abbrev rule_of : EventType → Payload → Option String → Option String
rule_of task_escalated p long = some "escalated"
rule_of review_failed p long = some "review_failed"
rule_of metric_threshold_crossed p long = some (concat "metric:" (metric_of (get_text "metric" p)))
rule_of _ p long = long

-- `evaluate`, with the events of `ctx.thread_len` in place of their counts.
unfoldable pub evaluate : PromotionConfig → List Event → Event → Option String
unfolding is_routine concat thread_length
evaluate c seen ev =
    if is_routine ev.event_type
    then none
    else rule_of ev.event_type ev.payload (too_long c.n_thread seen ev)

abbrev blocked_long : ℕ → ℕ → TaskState → Bool
blocked_long limit now ts =
    is_status ts.status blocked && ltb (ts.last_status_change_ts + limit) now

unfoldable pub board_rules_at :
    PromotionConfig → ℕ → Board → List String → List (String × String × Option Uuid)
board_rules_at c now b [] = []
board_rules_at c now b (t ∷ ts) =
    let rest = board_rules_at c now b ts in
    elim (get t b.tasks) [
      | none ↦ rest
      | some s ↦
          if blocked_long c.t_block now s
          then (t, "blocked_too_long", s.last_causing_event_id) ∷ rest
          else rest
    ]

-- `board_rules`
unfoldable pub board_rules : PromotionConfig → ℕ → Board → List (String × String × Option Uuid)
unfolding board_rules_at
board_rules c now b = board_rules_at c now b (sort text_le (keys b.tasks))

pub data Severity : Type 0 where
  info warning critical : Severity

-- `rule_id.split(":", 1)[1]` of a rule id that starts with "metric:".
unfoldable pub metric_name : String → Option String
unfolding without_prefix
metric_name rule = without_prefix "metric:" rule

-- `_CRITICAL_METRICS`
abbrev pub critical_metrics : List String
critical_metrics = "stall" ∷ "loop" ∷ "retry_loop" ∷ []

abbrev metric_severity : String → Severity
metric_severity m = if member m critical_metrics then critical else warning

-- `severity`
unfoldable pub severity : String → Severity
unfolding metric_name
severity rule =
    if rule == "escalated" || rule == "review_failed" then critical else (elim (metric_name rule) [
      | some m ↦ metric_severity m
      | none ↦ if rule == "blocked_too_long" then warning else info
    ])
