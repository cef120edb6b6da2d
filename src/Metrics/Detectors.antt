-- ===== src/Metrics/Detectors.antt =====
-- src/omegahive/metrics/detectors.py: the detectors over the events, the board and the clock.
use omegahive.Base.{
  ℕ, suc, ◌+◌, max, String, Bool, ◌&&◌, ◌||◌, Option, none, some, List, [], ◌∷◌, map, change_in,
  leb, if◌then◌else◌, opt_eq, ℤ, pos, add_int, exceeds, sort, text_le, Dict, get, put, keys,
}
use omegahive.Events.Envelope.{
  EventType, task_status_override, task_rejected, task_progress, task_result_posted, same_type,
  Uuid, Event,
}
use omegahive.Events.Json.{get_text, get_int}
use omegahive.Promotion.Rules.{DetectorConfig, uuid_eq}

-- A value or a threshold of a firing: a float, as an exact fraction of an integer.
pub record Amount : Type 0 where
  pub num : ℤ
  pub den : ℕ

abbrev pub whole : ℕ → Amount
whole n = record { num = pos n; den = 1 }

pub record DetectorFiring : Type 0 where
  pub metric : String
  pub value : Amount
  pub threshold : Amount
  pub task_id : Option String

-- `_first_seen`: the first event that names a task.
unfoldable pub first_seen : List Event → String → Option ℕ
first_seen [] t = none
first_seen (e ∷ es) t = if opt_eq e.task_id (some t) then some e.logical_ts else first_seen es t

abbrev pub is_retry : Event → Bool
is_retry e =
    same_type e.event_type task_rejected
    || same_type e.event_type task_status_override
      && opt_eq (get_text "status" e.payload) (some "reopened")

-- A counter's `counter[key] += 1`.
abbrev pub one_more : Option ℕ → ℕ
one_more none = 1
one_more (some n) = suc n

unfoldable pub cycles_over : List Event → Dict ℕ → Dict ℕ
cycles_over [] cycles = cycles
cycles_over (e ∷ es) cycles = cycles_over es (elim e.task_id [
  | none ↦ cycles
  | some t ↦ if is_retry e then put t (one_more (get t cycles)) cycles else cycles
])

abbrev firing : String → ℕ → ℕ → Option String → DetectorFiring
firing metric n limit tid = record {
  metric = metric;
  value = whole n;
  threshold = whole limit;
  task_id = tid;
}

unfoldable pub retries_at : DetectorConfig → Dict ℕ → List String → List DetectorFiring
retries_at c cycles [] = []
retries_at c cycles (t ∷ ts) =
    let rest = retries_at c cycles ts in
    elim (get t cycles) [
      | none ↦ rest
      | some n ↦ if leb c.k_retry n then firing "retry_loop" n c.k_retry (some t) ∷ rest else rest
    ]

-- `retry_loop`
unfoldable pub retry_loop : DetectorConfig → List Event → List DetectorFiring
unfolding cycles_over retries_at
retry_loop c events =
    let cycles = cycles_over events [] in retries_at c cycles (sort text_le (keys cycles))

-- The key of a thread's counter.
abbrev pub Kind : Type 0
Kind = EventType × Option String

abbrev same_kind : Kind → Kind → Bool
same_kind (t, a) (u, b) = same_type t u && opt_eq a b

-- `by_thread`
abbrev pub Threads : Type 0
Threads = List (Option Uuid × List (Kind × ℕ))

abbrev or_empty : Option (List (Kind × ℕ)) → List (Kind × ℕ)
or_empty none = []
or_empty (some counter) = counter

unfoldable pub count_threads : List Event → Threads → Threads
unfolding change_in
count_threads [] threads = threads
count_threads (e ∷ es) threads = count_threads es (
    change_in uuid_eq e.correlation_id
      (λ counter. change_in same_kind (e.event_type, e.task_id) one_more (or_empty counter))
      threads)

abbrev at_least : ℕ → Option ℕ → ℕ
at_least n none = n
at_least n (some m) = max m n

-- The loops over the counters: the highest count of each task that recurs.
unfoldable pub recurring : ℕ → List (Kind × ℕ) → List (Option String × ℕ) → List (Option String × ℕ)
unfolding change_in
recurring limit [] firings = firings
recurring limit (((t, tid), n) ∷ counter) firings =
    recurring limit counter
      (if leb limit n then change_in opt_eq tid (at_least n) firings else firings)

unfoldable pub recurring_over : ℕ → Threads → List (Option String × ℕ) → List (Option String × ℕ)
unfolding recurring
recurring_over limit [] firings = firings
recurring_over limit ((u, counter) ∷ threads) firings =
    recurring_over limit threads (recurring limit counter firings)

abbrev or_blank : Option String → String
or_blank none = ""
or_blank (some t) = t

-- `loop`
unfoldable pub loop : DetectorConfig → List Event → List DetectorFiring
unfolding count_threads recurring_over
loop c events =
    map (λ (tid, n). firing "loop" n c.loop_repeat tid)
      (sort (λ a b. text_le (or_blank a.0) (or_blank b.0))
        (recurring_over c.loop_repeat (count_threads events []) []))

abbrev is_costed : Event → Bool
is_costed e = same_type e.event_type task_progress || same_type e.event_type task_result_posted

abbrev cost_of : Event → ℤ
cost_of e = elim (get_int "cost" e.payload) [ none ↦ pos 0 | some n ↦ n ]

-- The sum of the costs from `lo` to `now`; `lo <= ts` is written as a sum on the other side.
unfoldable pub cost_in : ℕ → ℕ → List Event → ℤ
unfolding add_int
cost_in now window [] = pos 0
cost_in now window (e ∷ es) =
    let rest = cost_in now window es in
    if is_costed e && (leb now (e.logical_ts + window) && leb e.logical_ts now)
    then add_int (cost_of e) rest
    else rest

-- `cost_spike`
unfoldable pub cost_spike : DetectorConfig → List Event → ℕ → List DetectorFiring
unfolding cost_in
cost_spike c events now =
    let total = cost_in now c.c_window events in
    if exceeds total c.c_spike
    then record {
      metric = "cost_spike";
      value = record { num = total; den = 1 };
      threshold = whole c.c_spike;
      task_id = none;
    }
      ∷ []
    else []
