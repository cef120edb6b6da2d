-- ===== src/Board/Tests.antt =====
-- Small boards, and the theorems about the board at them.
use omegahive.Base.{
  ℕ, ◌≤◌, String, ◌≡◌, refl, ◌↔◌, ◌⊎◌, true, false, none, some, List, [], ◌∷◌, arith, ◌==◌, is_some,
  opt_eq, length, keep, count_if, member, add, IsDistinct, pos, insert, sort, text_le, sort_by, get,
  put, values, keys, map_option,
}
use omegahive.Board.Agreement.{gate_fold_agreement, Moved}
use omegahive.Board.Legality.{
  on_task, new_task, e_created, e_dependency_added, e_worker_registered, give, e_assigned, moves,
  e_accepted, e_result_posted, e_review_passed, e_review_failed, e_done, e_pruned, task, g_created,
  g_needs_task, on_roster, g_known_worker, g_assigned, g_worker_registered, from_state, g_done,
  is_live, live_deps, breaks_join, first_broken_join, g_prune, LegalityRule, is_text, lookup,
}
use omegahive.Board.Pruning.{prune_keeps_joins}
use omegahive.Board.Reducer.{
  apply, replay, is_pruned, is_done, active_deps, derive_one, derive, fold,
}
use omegahive.Board.Reducer.Readiness.{get-derive, done_deps, derive-ready_iff}
use omegahive.Board.Soundness.{next, History-IsSound, History, start, IsSound}
use omegahive.Board.State.{
  created, ready, done, passed, TaskState, Board, is_status, resolve_k, stamp, change,
}
use omegahive.Board.Verdicts.{History-verdict_since, verdict_since}
use omegahive.Events.Envelope.{
  Role, planner, coordinator, instrument, Actor, EventType, task_created, worker_registered,
  task_assigned, task_status_override, task_pruned, task_accepted, task_result_posted,
  review_passed, review_failed, same_type, Event,
}
use omegahive.Events.Json.{
  text, arr, obj, nil, cons, end, field, Payload, get_field, get_text, get_int, first_ref, is_blank,
}

abbrev planner_1 : Actor
planner_1 = record { role = planner; id = "p1" }

abbrev coordinator_1 : Actor
coordinator_1 = record { role = coordinator; id = "c1" }

abbrev event : ℕ → Actor → EventType → String → Payload → Event
event n a t task_id p = record {
  event_id = n;
  run_id = "r1";
  logical_ts = n;
  wall_ts = none;
  actor = a;
  event_type = t;
  task_id = some task_id;
  payload = p;
  causation_id = none;
  correlation_id = none;
  recipient = none;
  seq = some n;
}

abbrev idle : String → List String → TaskState
idle t deps = record {
  task_id = t;
  status = created;
  owner = none;
  depends_on = deps;
  latest_review = none;
  last_result_ref = none;
  last_causing_seq = none;
  last_causing_event_id = none;
  last_status_change_ts = 0;
  escalated = false;
  tried_by = [];
  task_type = none;
  ready_when = none;
  pruned = false;
  join_unsatisfiable = false;
  title = "";
  priority = "normal";
  blocker_reason = none;
  blocker_needs = none;
}

-- `a` and `b` have no dependencies; `j` waits for one of them.
abbrev board : Board
board = record {
  tasks =
      ("a", record (idle "a" []) { status = done })
      ∷ ("b", idle "b" [])
      ∷ ("j", record (idle "j" ("a" ∷ "b" ∷ [])) { ready_when = some (pos 1) })
      ∷ [];
  roster = "w1" ∷ [];
}

runs : Unit {0}
unfolding ◌==◌ opt_eq get put keys values keep count_if member add insert sort text_le sort_by
    get_field get_text get_int first_ref is_blank same_type lookup is_text resolve_k task on_roster
    g_known_worker g_assigned g_created g_worker_registered g_needs_task from_state g_done
    e_accepted e_result_posted e_review_failed e_review_passed e_done g_prune first_broken_join
    breaks_join live_deps is_live on_task give moves e_created e_assigned e_pruned
    e_worker_registered e_dependency_added new_task apply replay fold derive is_pruned is_done
    active_deps
runs = tt

keys_once : IsDistinct (keys board.tasks)
unfolding runs
keys_once = (refl, (refl, (refl, tt)))

abbrev give_b : Event
give_b = event 7 coordinator_1 task_assigned "b" (field "worker" (text "w1") end)

abbrev assign_rule : LegalityRule
assign_rule = record {
  event_type = task_assigned;
  discriminant = none;
  guard = g_assigned;
  effect = e_assigned;
}

abbrev after_give : Board
after_give = record board {
  tasks =
      put "b"
        (give (event 7 coordinator_1 task_assigned "b" (field "worker" (text "w1") end)) "w1"
          (idle "b" []))
        board.tasks;
}

gate_fold_agreement_example : Moved board give_b after_give
unfolding runs
gate_fold_agreement_example =
    gate_fold_agreement board give_b after_give assign_rule keys_once refl refl refl refl

abbrev prune_b : Event
prune_b = event 8 coordinator_1 task_pruned "b" end

abbrev after_prune : Board
after_prune = record board {
  tasks = put "b" (stamp prune_b (record (idle "b" []) { pruned = true })) board.tasks;
}

abbrev join : TaskState
join = record (idle "j" ("a" ∷ "b" ∷ [])) { ready_when = some (pos 1) }

prune_keeps_joins_example : 1 ≤ length (live_deps after_prune join)
unfolding runs
prune_keeps_joins_example =
    prune_keeps_joins board after_prune prune_b "b" "j" join keys_once (refl, (refl, tt)) refl refl
      refl refl refl (omega arith)

get-derive_example :
    get "j" (derive board).tasks ≡ map_option (derive_one board.tasks) (get "j" board.tasks)
get-derive_example = get-derive board "j" keys_once

derive-ready_iff_example :
    (map_option (λ s. s.status) (get "j" (derive board).tasks) ≡ some ready)
    ↔ ((join.depends_on ≡ []) ⊎ (resolve_k join ≤ done_deps board join))
unfolding runs
derive-ready_iff_example = derive-ready_iff board "j" join keys_once refl refl

ready_join : map_option (λ s. s.status) (get "j" (derive board).tasks) ≡ some ready
unfolding runs
ready_join = refl

-- A worker is registered and a task is created and given to the worker.
abbrev register_w1 : Event
register_w1 = event 1 planner_1 worker_registered "a" (field "worker_id" (text "w1") end)

abbrev create_a : Event
create_a = event 2 planner_1 task_created "a" (field "title" (text "A") end)

abbrev give_a : Event
give_a = event 3 coordinator_1 task_assigned "a" (field "worker" (text "w1") end)

abbrev one_worker : Board
one_worker = record { tasks = []; roster = "w1" ∷ [] }

abbrev one_task : Board
one_task = record one_worker {
  tasks = ("a", change create_a (record (idle "a" []) { title = "A" })) ∷ [];
}

abbrev one_given : Board
one_given = record one_task {
  tasks =
      put "a" (give give_a "w1" (change create_a (record (idle "a" []) { title = "A" })))
        one_task.tasks;
}

three_events : History one_given
unfolding runs
three_events =
    next give_a one_given
      (next create_a one_task (next register_w1 one_worker start refl refl) refl refl) refl refl

History-IsSound_example : IsSound one_given
History-IsSound_example = History-IsSound three_events

-- The worker accepts, posts a result that fails its review, and posts another.
abbrev worker_1 : Actor
worker_1 = record { role = Role.worker; id = "w1" }

abbrev reviewer_1 : Actor
reviewer_1 = record { role = instrument; id = "v1" }

abbrev accept_a : Event
accept_a = event 4 worker_1 task_accepted "a" end

abbrev result_of : String → Payload
result_of ref = field "artifact_refs" (arr (cons (obj (field "ref" (text ref) end)) nil)) end

abbrev post_a : Event
post_a = event 5 worker_1 task_result_posted "a" (result_of "first")

abbrev fail_a : Event
fail_a = event 6 reviewer_1 review_failed "a" end

abbrev pass_a : Event
pass_a = event 7 reviewer_1 review_passed "a" end

abbrev close_a : Event
close_a = event 8 coordinator_1 task_status_override "a" (field "status" (text "done") end)

abbrev board_after : Event → Board → Board
board_after ev b = elim (apply b ev) [ none ↦ b | some b' ↦ b' ]

abbrev closed_board : Board
closed_board =
    board_after close_a (
      board_after pass_a (board_after fail_a (board_after post_a (board_after accept_a one_given))))

eight_events : History closed_board
unfolding runs
eight_events =
    next close_a closed_board
      (next pass_a _
        (next fail_a _ (next post_a _ (next accept_a _ three_events refl refl) refl refl) refl refl)
        refl refl)
      refl refl

History-verdict_since_example :
    (some passed ≡ verdict_since "a" eight_events)
    × (is_status done done ≡ true → is_some (verdict_since "a" eight_events) ≡ true)
unfolding runs
History-verdict_since_example =
    History-verdict_since eight_events "a"
      (elim (get "a" closed_board.tasks) [ none ↦ idle "a" [] | some ts ↦ ts ]) refl
