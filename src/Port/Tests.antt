-- ===== src/Port/Tests.antt =====
-- A client of a small log, and the theorems about the port at it.
use omegahive.Base.{
  ◌≤◌, ◌≡◌, refl, true, false, none, some, List, [], ◌∷◌, ◌==◌, opt_eq, keep, count_if, member, add,
  insert, sort, text_le, sort_by, get, put, values, keys, map_values,
}
use omegahive.Board.Legality.{
  on_task, new_task, e_created, e_dependency_added, e_priority_set, e_worker_registered, give,
  e_assigned, e_reassigned, moves, e_rejected, e_accepted, e_blocked, e_unblocked, e_result_posted,
  e_review_passed, e_review_failed, e_done, e_reopened, e_cancelled, e_failed, e_escalated,
  e_pruned, e_plan_cancel, task, g_created, g_needs_task, on_roster, g_known_worker, g_assigned,
  g_reassigned, g_worker_registered, from_state, g_done, has_reason, g_cancelled, is_live,
  live_deps, breaks_join, first_broken_join, g_prune, g_plan_cancel, is_text, rules, lookup,
  non_board_whitelist, worker_owned_emits, owner_of, worker_ownership_violation,
}
use omegahive.Board.Reducer.{
  apply, replay, is_pruned, is_done, active_deps, settle, derive_join, derive_one, derive_loop,
  derive, fold,
}
use omegahive.Board.State.{ids_where, ready_ids, awaiting_close, resolve_k}
use omegahive.Events.Envelope.{coordinator, human, Actor, worker_registered, tag, same_type, Event}
use omegahive.Events.Json.{text, end, field, get_field, get_text, get_int, first_ref, is_blank}
use omegahive.Events.Log.{
  Externals, Db, Draw, ok, read_run, last_ts, find_id, first_row, find_by_key, thread_root,
  insert_row, times, append, open_run, generation, bump_generation, max_seq, head_seq, read_prefix,
  read_delta, is_refusal, find_recent_rejection, set_field, bump_coalesced_count,
}
use omegahive.Events.Types.{schema, is_hex, ends_in_sha, is_ref, all_refs, of_kind, conforms}
use omegahive.Gateway.Emit.{
  gate, Gateway, Request, accepted, refusal_payload, now_ts, next_count, refusal_key, refusal_event,
  record_rejection, op_event, locked, emit, check, project,
}
use omegahive.Gateway.Names.{type_text, code_text, role_text}
use omegahive.Gateway.Policy.{may_emit, worker_sees, visible}
use omegahive.Port.Reading.{reread_quiet}
use omegahive.Port.Retrying.{is_answered, lost_answer_recovered}
use omegahive.Port.Session.{
  Session, PortView, observe, advance_basis, unchanged, is_stale, cursor_or_zero, visible_delta,
  read_changed, read_at_head, read, Attempt, answered, lost_before_commit, lost_after_commit,
  with_retry,
}

abbrev x : Externals
x = record { dump = λ t p. some p; show = λ r. "refused" }

abbrev g : Gateway
g = record {
  store = record { run_id = "r1"; server_time = false; clock = 5 };
  coalesce_window = 10;
}

abbrev human_1 : Actor
human_1 = record { role = human; id = "h1" }

abbrev register : Request
register = record {
  actor = human_1;
  event_type = worker_registered;
  payload = field "worker_id" (text "w1") end;
  task_id = none;
  causation_id = none;
  recipient = none;
  logical_ts = none;
  key = some "k1";
}

abbrev nothing : Db
nothing = record { rows = []; runs = []; next_seq = 1 }

abbrev draw : Draw
draw = record { now = 100; uuid = 40 }

abbrev registered : Event
registered = record {
  event_id = 40;
  run_id = "r1";
  logical_ts = 5;
  wall_ts = none;
  actor = human_1;
  event_type = worker_registered;
  task_id = none;
  payload = field "worker_id" (text "w1") end;
  causation_id = none;
  correlation_id = some 40;
  recipient = none;
  seq = some 1;
}

abbrev one_row : Db
one_row = record {
  rows = record { event = registered; key = some "k1" } ∷ [];
  runs = ("r1", 1) ∷ [];
  next_seq = 2;
}

runs : Unit {0}
unfolding ◌==◌ opt_eq keep count_if member add get put values keys map_values insert sort text_le
    sort_by get_field get_text get_int first_ref is_blank schema is_hex ends_in_sha is_ref all_refs
    of_kind conforms tag same_type read_run last_ts find_id first_row find_by_key thread_root
    insert_row times append open_run generation bump_generation max_seq head_seq read_prefix
    read_delta is_refusal find_recent_rejection set_field bump_coalesced_count ids_where ready_ids
    awaiting_close resolve_k task g_created g_needs_task on_roster g_known_worker g_assigned
    g_reassigned g_worker_registered from_state g_done has_reason g_cancelled is_live live_deps
    breaks_join first_broken_join g_prune g_plan_cancel on_task new_task e_created
    e_dependency_added e_priority_set e_worker_registered give e_assigned e_reassigned moves
    e_rejected e_accepted e_blocked e_unblocked e_result_posted e_review_passed e_review_failed
    e_done e_reopened e_cancelled e_failed e_escalated e_pruned e_plan_cancel is_text rules lookup
    non_board_whitelist worker_owned_emits owner_of worker_ownership_violation apply replay
    is_pruned is_done active_deps settle derive_join derive_one derive_loop derive fold gate
    refusal_payload now_ts next_count refusal_key refusal_event record_rejection op_event locked
    emit check project may_emit worker_sees visible type_text code_text role_text advance_basis
    is_stale observe read_at_head read_changed visible_delta read
runs = tt

first_emit : emit x g draw register nothing nothing ≡ (ok (accepted registered), one_row)
unfolding runs
first_emit = refl

abbrev attempts : List (Attempt × Draw)
attempts = (lost_before_commit, draw) ∷ (answered, draw) ∷ []

lost_answer_recovered_example :
    ((with_retry x g register ((lost_after_commit, draw) ∷ attempts) nothing).0
      ≡ some (ok (accepted registered)))
    × ((with_retry x g register ((lost_after_commit, draw) ∷ attempts) nothing).1.rows
        ≡ one_row.rows)
unfolding is_answered
lost_answer_recovered_example =
    lost_answer_recovered x g draw register "k1" nothing one_row registered attempts refl first_emit

abbrev coordinator_1 : Actor
coordinator_1 = record { role = coordinator; id = "c1" }

abbrev client : Session
client = record {
  actor = coordinator_1;
  gateway = g;
  basis_seq = 0;
  basis_file = some 0;
  last_generation = none;
}

abbrev client_after : Session
client_after = record client { basis_seq = 1; basis_file = some 1; last_generation = some 1 }

abbrev first_view : PortView
first_view = record {
  cursor = 1;
  generation = some 1;
  events = registered ∷ [];
  board = some (record { tasks = []; roster = "w1" ∷ [] });
  changed = true;
  generation_mismatch = false;
}

reread_quiet_example :
    (1 ≡ cursor_or_zero (head_seq "r1" one_row))
    × (0 ≤ 1)
    × (1 ≤ 1)
    × (read client_after (some 1) one_row ≡ some (unchanged 1 (some 1) false, client_after))
unfolding runs
reread_quiet_example = reread_quiet client client_after none one_row first_view refl refl
