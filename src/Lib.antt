-- ===== src/Lib.antt =====
-- OmegaHive: a coordination substrate in which humans and agents work through one append-only log
-- of events. The board of tasks is a fold of the log; every write passes the gateway, which judges
-- it by the same table that the fold applies; clients read and write through the port.
--
-- The parts, and the files that model them (paths from the repository's root):
--   Base        Python's dicts, sets, stable sort and comparisons, as lists and Boolean functions.
--               A dict is a list of pairs in the order of insertion, a set a list with no repetition.
--   Events      src/omegahive/events. Json: payloads. Envelope: Event, Actor, Role; an event type
--               is one of the constants that the source names, or another text. Types: the fields
--               of each payload model (types.py). Log: the table `events` with its constraints and
--               its trigger (migrations/*.sql), the registry `runs`, and the methods of EventLog.
--   Board       src/omegahive/board. State: TaskState, Board. Legality: the guards (`_g_…`), the
--               effects (`_e_…`), the table RULES and its lookup. Reducer: `fold`, whose second
--               loop is `derive`. An effect is a function to an optional board, where `none` is
--               the exception of a missing payload field. Agreement, Pruning, Soundness, Reviewed,
--               Verdicts and Totality are about the gate and the fold together.
--   Gateway     src/omegahive/gateway. Policy: EMIT_AUTHORITY and `visible`. Names: the texts of
--               types, codes and roles. Emit: `_gate`, `emit`, `_record_rejection`. Authority,
--               Idempotency, Retry, Refusals, Race and Foldable are about one emit and its retries,
--               Others about what other writers commit between two calls.
--   Port        src/omegahive/port. Wire: the ops and the parts of a key. Session: `read`, `emit`,
--               batches and `_with_retry`. Reading and Retrying are about sequences of these.
--   Promotion   src/omegahive/promotion. Rules: `evaluate`, `board_rules`, `severity` and the
--               defaults of config.py. Overrides: `from_scenario`. View: `human_view`.
--               Tuning: `replay_promotions`. Chain is about the view's chains of causes.
--   Metrics     src/omegahive/metrics. Detectors: those over the events. Clocked: those that wait,
--               `run_detectors` and `time_based_deadlines`. Core: `compute`. Deadlines is about
--               the ticks at which a detector may fire, Completions about the false completions.
--   Sim         src/omegahive/sim. Coordinator: one turn of the greedy coordinator.
--               Authority is about its emits at the gate. Engine: the heap and a reactor's turn.
--               Loop: `_settle` and `run`. Worker, Review, Measures (MetricsRunner), Firing
--               (DetectorsRunner), Promoter (PromotionEvaluator): the other reactors. Team: all of
--               them at the engine, as `build_engine` lists them. Heap and Quiescence carry what
--               Horizon, Prompt, Clock, Settling and Stale say about the end of a run, its clock,
--               its settling and its stale events. Reports, Wakes and Instruments are about what
--               the instruments emit over a run, Viewing about their promotions in the view.
--               Scenario: a plan, its validation and `emit_plan`. Planning is about these two.
--   Harness     src/omegahive/harness. Turns: the classification of a worker's turn.
--               Evidence is about what it rests on.
--   Notifier    src/omegahive/notifier. Triggers: `notification_from`. Heartbeat: the tallies.
--               Cursor: the state file. Service: `poll_once`. Beat: `maybe_heartbeat` and a turn of
--               `run`. Delivery, Draining, Tallies, Daily, Files and Attention are about pages,
--               cursors, the heartbeat's day, the file and the triggers. The spine reader, the
--               transport and the clock are given anew to each turn, and may raise in it.
--
-- The Tests of a folder hold small inputs at which its theorems are applied.
--
-- How the state is modelled. The database is a record of rows, runs and the next `seq`, passed
-- from call to call; a raised error gives back the state before the transaction. `emit` takes two
-- states, the one in which the key is looked up and the one found when the advisory lock is
-- granted, so that what other writers commit in between is part of the model. A time in whole
-- seconds or ticks is a natural number, so `now - window` is written as a sum on the other side.
-- A latency may be negative, as the source lets it be; an item of the engine's heap then lies before
-- the clock, and the run raises when it is popped. The thresholds of the coordinator and of the
-- detectors are natural numbers. Most loops are over lists. `_settle` has the source's own bound on
-- its passes; `run` takes fuel that counts the pops, and there is a theorem that enough fuel exists.
-- The walk along the causes of an event takes fuel for each event of the log and two more turns,
-- which is always enough.
-- A float of a threshold, a metric, a mean or a ratio is an exact fraction.
--
-- Parameters. pydantic's validation and dump (`Externals.dump`), the formatting of a refusal's or
-- an escalation's text, SHA-256 with JSON serialization (`Digest`), and what the database draws
-- for a statement, `now()` and `gen_random_uuid()` (`Draw`). A payload value of the wrong kind
-- reads as absent where the code compares it with texts.
-- In the simulation the seeded draws of a worker (`Chances`), the text of a UUID or of a float and
-- the parsing of a UUID are parameters, and the heap is the list of its items in the order of the
-- pops, which is what heapq documents.
-- A write of the notifier's state file does not fail.
-- Between the attempts of one call through the port no other writer commits.
--
-- Not modelled: the command lines, the pages and the reports, the reading of scenario files with
-- the sweeps, scores and distributions over them, the text of the notifier's messages and its
-- transports, the adapters of harnesses and the deployment scripts, which stand around this core; a
-- reactor that writes to the log itself (`self_emits`); and the nested blocks of the execution
-- payloads, which are only asked to be objects.
pub mod Base
pub mod Events
pub mod Board
pub mod Gateway
pub mod Port
pub mod Sim
pub mod Harness
pub mod Notifier
pub mod Promotion
pub mod Metrics
