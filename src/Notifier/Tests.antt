-- ===== src/Notifier/Tests.antt =====
-- Two events of one run, and the theorems about the notifier at them.
use omegahive.Base.{
  ℕ, ◌≤◌, String, ◌≡◌, refl, ◌↔◌, true, false, none, some, List, [], ◌∷◌, arith, ◌==◌, is_some,
  opt_eq, keep, count_if, member, add, pos, insert, sort, text_le, sort_by, get, put, values, keys,
  map_values, is_space, is_break, text_length, strip_left, strip_right, strip, lines_after,
  split_lines, cut, concat,
}
use omegahive.Board.State.{ids_where, ready_ids, awaiting_close, resolve_k}
use omegahive.Events.Envelope.{
  Role, Actor, EventType, task_blocked, task_result_posted, question_asked, tag, same_type, Event,
}
use omegahive.Events.Json.{
  text, end, field, Payload, get_field, get_text, get_int, first_ref, is_blank,
}
use omegahive.Notifier.Attention.{
  label_of, IsUncounted, notification_from-IsUncounted, first_line-bounds,
}
use omegahive.Notifier.Beat.{
  Turn, deltas_over, blocked_since, age_hours, row_le, block_rows, open_blocks, maybe_heartbeat,
  tick, run_turns,
}
use omegahive.Notifier.Cursor.{
  cursor_rows, load, load_heartbeat, thread_rows, load_threads, cursors_json, save, threads_json,
  save_threads,
}
use omegahive.Notifier.Daily.{beats, run_turns-beats_le}
use omegahive.Notifier.Delivery.{Passed, Split, send_each-Split}
use omegahive.Notifier.Draining.{send_each-Passed}
use omegahive.Notifier.Files.{load-save, load-save_threads}
use omegahive.Notifier.Heartbeat.{
  new_run, tally, tally_key, observe, roll_run, is_quiet, PortfolioHeartbeat, on_run, roll_runs,
  roll, counts_json, run_to_dict, run_from_dict, runs_json, to_dict, runs_from, from_dict,
}
use omegahive.Notifier.Service.{
  Service, Config, Reader, Outcome, delivered, Transport, arm, rebaseline, visit, scan, notes,
  triggers_of, crosses, observe_crossed, commit, commit_all, send_each, send_summary, send_all,
  poll_once,
}
use omegahive.Notifier.Tallies.{commit-commit}
use omegahive.Notifier.Triggers.{
  trigger, Notification, result_ref, first_stripped, first_line, is_gated_out, details,
  notification_from,
}
use omegahive.Port.Session.{PortView}

abbrev worker_1 : Actor
worker_1 = record { role = Role.worker; id = "w1" }

abbrev event_at : ℕ → EventType → Payload → Event
event_at k t p = record {
  event_id = k;
  run_id = "r1";
  logical_ts = k;
  wall_ts = none;
  actor = worker_1;
  event_type = t;
  task_id = some "t1";
  payload = p;
  causation_id = none;
  correlation_id = none;
  recipient = none;
  seq = some k;
}

abbrev stuck : Event
stuck = event_at 3 task_blocked (field "reason" (text "no key") end)

abbrev posted : Event
posted = event_at 4 task_result_posted end

abbrev asked : Event
asked = event_at 5 question_asked (field "text" (text "Which key?") end)

abbrev pages : List Notification
pages = notes (stuck ∷ posted ∷ [])

abbrev view : PortView
view = record {
  cursor = 4;
  generation = some 1;
  events = stuck ∷ posted ∷ [];
  board = none;
  changed = true;
  generation_mismatch = false;
}

abbrev service : Service
service = record {
  cursors = ("r1", record { cursor = some 2; generation = some 1 }) ∷ [];
  tallies = record { last_date = none; last_hour = none; runs = ("r1", new_run) ∷ [] };
  heads = ("r1", some 4) ∷ [];
  followed = "r1" ∷ [];
  file = none;
}

-- A transport that is down for results.
abbrev half_down : Transport
half_down = record {
  event = λ n. elim (n.event_type) [ task_result_posted ↦ Outcome.failed | _ ↦ delivered ];
  summary = λ ns. delivered;
  heartbeat = λ date ds rows. delivered;
}

abbrev config : Config
config = record { batch_threshold = 5; heartbeat_hour = 9; summarises = true }

abbrev reader : Reader
reader = record { run_ids = some ("r1" ∷ []); read = λ run after known. some view }

abbrev turn : Turn
turn = record {
  now = record { hour = 10; date = "2026-01-05"; seconds = 1000 };
  reader = reader;
  out = half_down;
}

runs : Unit {0}
unfolding trigger result_ref first_stripped first_line is_gated_out details notification_from tally
    tally_key observe roll_run is_quiet on_run roll_runs roll counts_json run_to_dict run_from_dict
    runs_json to_dict runs_from from_dict cursor_rows load load_heartbeat thread_rows load_threads
    cursors_json save threads_json save_threads arm rebaseline visit scan notes triggers_of crosses
    observe_crossed commit commit_all send_each send_summary send_all poll_once deltas_over
    blocked_since age_hours row_le block_rows open_blocks maybe_heartbeat tick run_turns is_space
    is_break text_length strip_left strip_right strip lines_after split_lines cut concat get put
    values keys map_values ◌==◌ opt_eq insert sort text_le sort_by keep count_if member add
    get_field get_text get_int first_ref is_blank ids_where ready_ids awaiting_close resolve_k tag
    same_type
runs = tt

send_each-Split_example :
    Split half_down pages (send_each half_down (("r1", view) ∷ []) pages service)
unfolding runs
send_each-Split_example =
    send_each-Split half_down (("r1", view) ∷ []) 2 pages service
      (refl, omega arith, (refl, omega arith, tt)) ((view, refl), ((view, refl), tt))
      (refl, (refl, tt))

-- The same pages through a transport that is up.
abbrev up : Transport
up = record half_down { event = λ n. delivered }

send_each-Passed_example :
    ((send_each up (("r1", view) ∷ []) pages service).raised ≡ false)
    × Passed (send_each up (("r1", view) ∷ []) pages service).service pages
unfolding runs
send_each-Passed_example =
    send_each-Passed up (("r1", view) ∷ []) 2 pages service
      (refl, omega arith, (refl, omega arith, tt)) ((view, refl), ((view, refl), tt))
      (refl, (refl, tt)) ((λ e. cc), ((λ e. cc), tt))

commit-commit_example :
    commit "r1" (some 4) view (commit "r1" (some 3) view service)
    ≡ commit "r1" (some 4) view service
commit-commit_example =
    commit-commit "r1" 3 4 view service (omega arith)
      (3, refl, omega arith, (4, refl, omega arith, tt))

run_turns-beats_le_example : beats (run_turns config (turn ∷ turn ∷ []) service) ≤ 1
run_turns-beats_le_example =
    run_turns-beats_le config "2026-01-05" (turn ∷ turn ∷ []) service (refl, (refl, tt))

-- The first of the two turns does send.
one_beat : beats (run_turns config (turn ∷ turn ∷ []) service) ≡ 1
unfolding runs
one_beat = refl

abbrev tallied : PortfolioHeartbeat
tallied = (commit "r1" (some 4) view service).tallies

load-save_example :
    (load (save service.cursors (some service.tallies) none) ≡ service.cursors)
    × (load_heartbeat (save service.cursors (some service.tallies) none) ≡ service.tallies)
    × (load_threads (save service.cursors (some service.tallies) none) ≡ load_threads none)
load-save_example =
    load-save service.cursors service.tallies none ((pos 0, pos 0, pos 0, pos 0, pos 0, refl), tt)

load-save_threads_example :
    (load_threads (save_threads (("t1", "17.5") ∷ []) none) ≡ ("t1", "17.5") ∷ [])
    × (load (save_threads (("t1", "17.5") ∷ []) none) ≡ load none)
    × (load_heartbeat (save_threads (("t1", "17.5") ∷ []) none) ≡ load_heartbeat none)
load-save_threads_example = load-save_threads (("t1", "17.5") ∷ []) none (refl, tt)

notification_from-IsUncounted_example :
    ((key : String)
      → tally_key question_asked asked.payload ≡ some key
      → label_of (notification_from asked) ≡ some key)
    × (((is_some (label_of (notification_from asked)) ≡ true)
          × (tally_key question_asked asked.payload ≡ none))
        ↔ IsUncounted question_asked asked.payload)
notification_from-IsUncounted_example = notification_from-IsUncounted asked

first_line-bounds_example : (1 ≤ text_length "Why?") × (text_length "Why?" ≤ 140)
unfolding runs
first_line-bounds_example = first_line-bounds " \n Why? \nBecause." "Why?" refl
