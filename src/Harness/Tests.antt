-- ===== src/Harness/Tests.antt =====
-- A turn, and the theorem about its class at it.
use omegahive.Base.{ℕ, String, ◌≡◌, true, none, some, List, [], ◌∷◌, ◌==◌, opt_eq, keep}
use omegahive.Events.Envelope.{
  Role, EventType, task_blocked, task_result_posted, task_failed, same_type,
}
use omegahive.Harness.Evidence.{turn_class, classify-turn_class}
use omegahive.Harness.Turns.{
  posted, HarnessKind, SpineEvent, Terminal, Scope, seq_after, in_scope, classify,
}

abbrev scope : Scope
scope = record { run = "r1"; task = "a"; worker_id = "w1" }

abbrev said : ℕ → String → EventType → SpineEvent
said n w t = record {
  seq = some n;
  run_id = some "r1";
  task_id = some "a";
  event_type = t;
  actor_role = some Role.worker;
  actor_id = some w;
}

-- A block before the turn, a failure by another worker, and the result.
abbrev events : List SpineEvent
events = said 3 "w1" task_blocked ∷ said 7 "w2" task_failed ∷ said 8 "w1" task_result_posted ∷ []

abbrev completed_turn : Terminal
completed_turn = record { kind = HarnessKind.error; reason = "lost its connection" }

classify-turn_class_example :
    (classify scope events completed_turn none (some 5) true).classification ≡ posted
unfolding ◌==◌ keep in_scope seq_after opt_eq same_type turn_class
classify-turn_class_example = classify-turn_class scope events completed_turn none 5
