-- ===== src/Gateway/Tests.antt =====
-- A small log, and the theorems about the gateway at it.
use omegahive.Base.{
  ℕ, String, ◌≡◌, refl, ◌⊎◌, inl, inr, true, false, not, Option, none, some, [], ◌∷◌, ◌++◌, arith,
  ◌==◌, if◌then◌else◌, is_some, opt_eq, Bool-cases, keep, count_if, member, add, pos, insert, sort,
  text_le, sort_by, get, put, values, keys, map_values,
}
use omegahive.Board.Legality.{
  on_task, new_task, e_created, e_dependency_added, e_priority_set, e_worker_registered, give,
  e_assigned, e_reassigned, moves, e_rejected, e_accepted, e_blocked, e_unblocked, e_result_posted,
  e_review_passed, e_review_failed, e_done, e_reopened, e_cancelled, e_failed, e_escalated,
  e_pruned, e_plan_cancel, already_owned, Reason, owned_by, task, g_created, g_needs_task,
  on_roster, g_known_worker, g_assigned, one_of, g_reassigned, g_worker_registered, from_state,
  g_done, abandonable, has_reason, g_cancelled, is_live, live_deps, breaks_join, first_broken_join,
  g_prune, g_plan_cancel, LegalityRule, is_text, rules, lookup, non_board_whitelist,
  worker_owned_emits, owner_of, worker_ownership_violation,
}
use omegahive.Board.Reducer.{
  apply, replay, is_pruned, is_done, active_deps, settle, derive_join, derive_one, derive_loop,
  derive, fold,
}
use omegahive.Board.State.{TaskState, Board, empty, ids_where, ready_ids, awaiting_close, resolve_k}
use omegahive.Events.Envelope.{
  Role, planner, coordinator, human, Actor, EventType, task_created, worker_registered,
  task_assigned, tag, same_type, Uuid, Event,
}
use omegahive.Events.Json.{
  int, text, end, field, Payload, get_field, get_text, get_int, first_ref, is_blank,
}
use omegahive.Events.Log.{
  Externals, Documented, Row, Db, Draw, Result, ok, raise, NewEvent, read_run, last_ts, find_id,
  first_row, find_by_key, thread_root, insert_row, times, append, open_run, generation,
  bump_generation, max_seq, head_seq, read_prefix, read_delta, is_refusal, find_recent_rejection,
  set_field, bump_coalesced_count,
}
use omegahive.Events.Types.{schema, is_hex, ends_in_sha, is_ref, all_refs, of_kind, conforms}
use omegahive.Gateway.Authority.{in_table, authority_covered, gate_passes, abandon_passes}
use omegahive.Gateway.Emit.{
  gate, Gateway, Request, accepted, rejected, refusal_payload, now_ts, next_count, refusal_key,
  refusal_event, record_rejection, op_event, locked, emit, check, project,
}
use omegahive.Gateway.Foldable.{RowsHaveModels, append_keeps_foldable}
use omegahive.Gateway.Names.{type_text, code_text, role_text}
use omegahive.Gateway.Others.{appended, counted, Writes, here, next}
use omegahive.Gateway.Policy.{may_emit, worker_sees, visible}
use omegahive.Gateway.Race.{regated_after_commit}
use omegahive.Gateway.Refusals.{refused_keeps_board}
use omegahive.Gateway.Retry.{retry_returns_same, accepted_appends_one}

-- Payloads are dumped as they are.
abbrev x : Externals
x = record { dump = λ t p. some p; show = λ r. "refused" }

abbrev g : Gateway
g = record {
  store = record { run_id = "r1"; server_time = false; clock = 5 };
  coalesce_window = 10;
}

abbrev planner_1 : Actor
planner_1 = record { role = planner; id = "p1" }

abbrev coordinator_1 : Actor
coordinator_1 = record { role = coordinator; id = "c1" }

abbrev row : ℕ → Actor → EventType → Option String → Payload → Option String → Row
row n a t task_id p k = record {
  event = record {
    event_id = n;
    run_id = "r1";
    logical_ts = n;
    wall_ts = none;
    actor = a;
    event_type = t;
    task_id = task_id;
    payload = p;
    causation_id = none;
    correlation_id = some n;
    recipient = none;
    seq = some n;
  };
  key = k;
}

-- A worker and a task.
abbrev start : Db
start = record {
  rows =
      row 1 planner_1 worker_registered none (field "worker_id" (text "w1") end) none
      ∷ row 2 planner_1 task_created (some "a") (field "title" (text "A") end) none
      ∷ [];
  runs = ("r1", 1) ∷ [];
  next_seq = 3;
}

abbrev draw : Draw
draw = record { now = 100; uuid = 40 }

abbrev request : Actor → EventType → Payload → Request
request a t p = record {
  actor = a;
  event_type = t;
  payload = p;
  task_id = some "a";
  causation_id = none;
  recipient = none;
  logical_ts = none;
  key = some "k1";
}

abbrev give_a : Request
give_a = request coordinator_1 task_assigned (field "worker" (text "w1") end)

abbrev given : Row
given = record {
  event =
      record (row 3 coordinator_1 task_assigned (some "a") (field "worker" (text "w1") end)
        none).event { event_id = 40; logical_ts = 5; correlation_id = some 40 };
  key = some "k1";
}

abbrev after_give : Db
after_give = record start { rows = start.rows ++ given ∷ []; next_seq = 4 }

runs : Unit {0}
unfolding ◌==◌ opt_eq keep count_if member add get put values keys map_values insert sort text_le
    sort_by get_field get_text get_int first_ref is_blank schema is_hex ends_in_sha is_ref all_refs
    of_kind conforms tag same_type read_run last_ts find_id first_row find_by_key thread_root
    insert_row times append open_run generation bump_generation max_seq head_seq read_prefix
    read_delta is_refusal find_recent_rejection set_field bump_coalesced_count ids_where ready_ids
    awaiting_close resolve_k task g_created g_needs_task on_roster g_known_worker g_assigned
    g_reassigned g_worker_registered from_state g_done has_reason g_cancelled is_live live_deps
    breaks_join first_broken_join g_prune g_plan_cancel on_task new_task e_created
    e_dependency_added e_priority_set e_worker_registered give e_assigned e_reassigned moves
    e_rejected e_accepted e_blocked e_unblocked e_result_posted e_review_passed e_review_failed
    e_done e_reopened e_cancelled e_failed e_escalated e_pruned e_plan_cancel is_text rules lookup
    non_board_whitelist worker_owned_emits owner_of worker_ownership_violation apply replay
    is_pruned is_done active_deps settle derive_join derive_one derive_loop derive fold gate
    refusal_payload now_ts next_count refusal_key refusal_event record_rejection op_event locked
    emit check project may_emit worker_sees visible type_text code_text role_text
runs = tt

first_emit : emit x g draw give_a start start ≡ (ok (accepted given.event), after_give)
unfolding runs
first_emit = refl

-- The board of a log, as the gate sees it.
abbrev board_of : Db → Board
board_of db = elim (fold (read_run "r1" db)) [ none ↦ empty | some b ↦ b ]

accepted_appends_one_example :
    ((b : Board) × (fold (read_run "r1" start) ≡ some b)
      × (gate b coordinator_1 task_assigned give_a.payload (some "a") ≡ none))
    × (after_give.rows ≡ start.rows ++ given ∷ [])
    × (given.event.event_type ≡ task_assigned)
    × (given.event.actor ≡ coordinator_1)
    × (given.event.task_id ≡ some "a")
    × (x.dump task_assigned give_a.payload ≡ some given.event.payload)
    × (given.event.causation_id ≡ none)
    × (given.event.recipient ≡ none)
    × (given.event.run_id ≡ "r1")
    × (given.event.event_id ≡ 40)
    × (times g.store draw none start ≡ some (5, none))
    × (some 40 ≡ some (thread_root none 40 start.rows))
    × (given.event.seq ≡ some 3)
unfolding runs
accepted_appends_one_example =
    accepted_appends_one x g draw give_a start start after_give given.event refl refl first_emit

-- A second assignment with another key: the task is no longer ready.
abbrev again : Request
again = record give_a { key = some "k2" }

abbrev draw_2 : Draw
draw_2 = record { now = 101; uuid = 41 }

abbrev refused_db : Db
refused_db = (emit x g draw_2 again after_give after_give).1

abbrev owned_a : Reason
owned_a = owned_by (some "a") (some "w1")

refused_again :
    emit x g draw_2 again after_give after_give
    ≡ (ok (rejected already_owned owned_a 41), refused_db)
unfolding runs
refused_again = refl

-- A retry with another payload, after two refusals of another writer, the second of them counted
-- on the first.
abbrev retry : Request
retry = request coordinator_1 task_assigned (field "worker" (text "w2") end)

-- A payload is dumped with the default of the count of refusals.
abbrev counting : Externals
counting = record {
  dump = λ t p. some (set_field "coalesced_count" (int (pos 1)) p);
  show = λ r. "refused";
}

abbrev refusal_of_again : NewEvent
refusal_of_again =
    refusal_event counting g draw_2 again (record { code = already_owned; reason = owned_a })

abbrev refused_once : Result (Event × Db)
refused_once = append counting g.store draw_2 refusal_of_again after_give

abbrev written_event : Result (Event × Db) → Event
written_event (raise e) = given.event
written_event (ok (ev, db)) = ev

abbrev written_db : Result (Event × Db) → Db
written_db (raise e) = after_give
written_db (ok (ev, db)) = db

abbrev refused_twice : Db
refused_twice = bump_coalesced_count 41 (next_count (pos 1)) (written_db refused_once)

others : Writes after_give refused_twice
unfolding runs
others =
    next
      (next here
        (appended counting g.store draw_2 refusal_of_again (written_event refused_once) refl))
      (counted "r1" (refusal_key again (record { code = already_owned; reason = owned_a })) 5 10 41
        (pos 1) refl)

retry_returns_same_example :
    emit x g draw retry refused_twice refused_twice
    ≡ (ok (accepted given.event), open_run "r1" refused_twice)
unfolding runs
retry_returns_same_example =
    retry_returns_same x g draw draw give_a retry start start after_give refused_twice after_give
      given.event "k1" refl refl refl first_emit refl (refl, (refl, (refl, tt))) others

refused_keeps_board_example :
    (b : Board) × (fold (read_run "r1" after_give) ≡ some b)
    × (gate b coordinator_1 task_assigned again.payload (some "a")
        ≡ some (record { code = already_owned; reason = owned_a }))
    × (fold (read_run "r1" refused_db) ≡ some b)
unfolding runs
refused_keeps_board_example =
    refused_keeps_board x g draw_2 again after_give after_give refused_db already_owned owned_a 41
      (refl, (refl, (refl, tt))) refused_again

-- Another writer commits the assignment, with its key, after the lookup.
regated_after_commit_example :
    (u : Uuid) × ((emit x g draw_2 give_a start after_give).0
      ≡ ok (rejected already_owned owned_a u))
unfolding runs
regated_after_commit_example =
    regated_after_commit x g draw_2 give_a start after_give given.event (board_of after_give)
      (record { code = already_owned; reason = owned_a })
      (refusal_payload x give_a (record { code = already_owned; reason = owned_a })) refl refl refl
      refl refl refl (λ u found. cc)

authority_covered_example :
    (is_some (schema task_assigned) ≡ true)
    × (in_table task_assigned rules ≡ not (non_board_whitelist task_assigned))
unfolding runs
authority_covered_example = authority_covered coordinator task_assigned refl

gate_passes_example :
    (may_emit coordinator task_assigned ≡ true)
    × ((coordinator ≡ Role.worker)
        → worker_owned_emits task_assigned ≡ true
        → owner_of (task (board_of start) (some "a")) ≡ some "c1")
    × (((r : LegalityRule) × (lookup task_assigned give_a.payload ≡ some r)
          × (r.guard (board_of start) coordinator_1 give_a.payload (some "a") ≡ none))
        ⊎ (lookup task_assigned give_a.payload ≡ none) × (non_board_whitelist task_assigned ≡ true))
unfolding runs
gate_passes_example =
    gate_passes (board_of start) coordinator_1 task_assigned give_a.payload (some "a") refl

abbrev human_1 : Actor
human_1 = record { role = human; id = "h1" }

abbrev drop_a : Payload
drop_a = field "status" (text "cancelled") (field "reason" (text "no longer wanted") end)

abandon_passes_example :
    (human ≡ human)
    × (has_reason drop_a ≡ true)
    × ((ts : TaskState) × (task (board_of start) (some "a") ≡ some ts)
        × (ts.pruned ≡ false)
        × (one_of abandonable ts.status ≡ true))
unfolding runs
abandon_passes_example = abandon_passes (board_of start) human_1 drop_a (some "a") refl refl

-- A dump that keeps a payload with the fields of its class, and refuses any other.
abbrev strict_dump : EventType → Payload → Option Payload
strict_dump t p = elim (schema t) [ none ↦ none | some fs ↦ if conforms fs p then some p else none ]

abbrev strict : Externals
strict = record { dump = strict_dump; show = λ r. "refused" }

strict-Documented : Documented strict
strict-Documented = record {
  dump-conforms = λ t p q fs model valid. elim (Bool-cases (conforms fs p)) [
    | inl holds ↦ let same : some p ≡ some q = ground arith in ground (arith, same)
    | inr fails ↦ absurd (ground arith)
  ];
}

abbrev one_worker : Db
one_worker = record {
  rows = row 1 planner_1 worker_registered none (field "worker_id" (text "w1") end) none ∷ [];
  runs = ("r1", 1) ∷ [];
  next_seq = 2;
}

abbrev new_worker : NewEvent
new_worker = record {
  actor = planner_1;
  event_type = worker_registered;
  payload = field "worker_id" (text "w2") end;
  task_id = none;
  causation_id = none;
  recipient = none;
  logical_ts = none;
  key = none;
}

abbrev second : Row
second = record {
  event =
      record (row 2 planner_1 worker_registered none (field "worker_id" (text "w2") end)
        none).event { event_id = 40; logical_ts = 5; correlation_id = some 40 };
  key = none;
}

abbrev two_workers : Db
two_workers = record one_worker { rows = one_worker.rows ++ second ∷ []; next_seq = 3 }

append_keeps_foldable_example :
    RowsHaveModels two_workers.rows
    × ((run : String) → (b : Board) × (fold (read_run run two_workers) ≡ some b))
unfolding runs
append_keeps_foldable_example =
    append_keeps_foldable strict g.store draw new_worker one_worker two_workers second.event
      strict-Documented (refl, tt) refl
