-- ===== src/Notifier/Heartbeat.antt =====
-- src/omegahive/notifier/heartbeat.py: what is remembered between two heartbeats.
use omegahive.Base.{
  ℕ, zero, String, Bool, true, false, ◌&&◌, Option, none, some, List, [], ◌∷◌, if◌then◌else◌, ℤ,
  pos, next_int, Dict, get, put,
}
use omegahive.Events.Envelope.{
  EventType, task_escalated, task_blocked, task_result_posted, task_reported, execution_finished,
  Event,
}
use omegahive.Events.Json.{
  Json, null, flag, int, obj, end, field, Payload, get_field, get_text, as_json,
}
use omegahive.Notifier.Triggers.{attention_classifications, text_in}

-- `_COUNT_KEYS`
abbrev pub count_keys : List String
count_keys = "question" ∷ "blocked" ∷ "escalated" ∷ "result" ∷ "exit" ∷ []

abbrev zero_counts : List String → Dict ℤ
zero_counts [] = []
zero_counts (k ∷ ks) = (k, pos 0) ∷ zero_counts ks

-- `_empty_counts`
abbrev pub empty_counts : Dict ℤ
empty_counts = zero_counts count_keys

pub record RunHeartbeat : Type 0 where
  pub head : Option ℕ
  pub counts : Dict ℤ

abbrev pub new_run : RunHeartbeat
new_run = record { head = none; counts = empty_counts }

abbrev pub or_zero : Option ℤ → ℤ
or_zero none = pos 0
or_zero (some n) = n

-- `counts[key] = counts.get(key, 0) + 1`
unfoldable pub tally : String → RunHeartbeat → RunHeartbeat
tally key hb = record hb { counts = put key (next_int (or_zero (get key hb.counts))) hb.counts }

-- The key that an event is tallied under.
unfoldable pub tally_key : EventType → Payload → Option String
tally_key task_reported p = if text_in "kind" ("question" ∷ []) p then some "question" else none
tally_key task_blocked p = some "blocked"
tally_key task_escalated p = some "escalated"
tally_key task_result_posted p = some "result"
tally_key execution_finished p =
    if text_in "classification" attention_classifications p then some "exit" else none
tally_key _ p = none

-- `RunHeartbeat.observe`
unfoldable pub observe : Event → RunHeartbeat → RunHeartbeat
unfolding tally_key tally
observe ev hb = elim (tally_key ev.event_type ev.payload) [ none ↦ hb | some key ↦ tally key hb ]

abbrev or_keep : Option ℕ → Option ℕ → Option ℕ
or_keep none old = old
or_keep (some n) old = some n

-- `RunHeartbeat.roll`
unfoldable pub roll_run : Option ℕ → RunHeartbeat → RunHeartbeat
roll_run head hb = record { head = or_keep head hb.head; counts = empty_counts }

abbrev is_zero : ℤ → Bool
is_zero (pos zero) = true
is_zero _ = false

abbrev all_zero : List String → Dict ℤ → Bool
all_zero [] counts = true
all_zero (k ∷ ks) counts = is_zero (or_zero (get k counts)) && all_zero ks counts

-- `quiet`
unfoldable pub is_quiet : Dict ℤ → Bool
is_quiet counts = all_zero count_keys counts

pub record PortfolioHeartbeat : Type 0 where
  pub last_date : Option String
  pub last_hour : Option ℕ
  pub runs : Dict RunHeartbeat

abbrev pub or_new : Option RunHeartbeat → RunHeartbeat
or_new none = new_run
or_new (some hb) = hb

-- The change of one run's tally; the tally is created on first sight (`for_run`).
unfoldable pub on_run :
    String → (RunHeartbeat → RunHeartbeat) → PortfolioHeartbeat → PortfolioHeartbeat
on_run run f hb = record hb { runs = put run (f (or_new (get run hb.runs))) hb.runs }

unfoldable pub roll_runs : Dict (Option ℕ) → PortfolioHeartbeat → PortfolioHeartbeat
unfolding on_run roll_run
roll_runs [] hb = hb
roll_runs ((run, head) ∷ heads) hb = roll_runs heads (on_run run (roll_run head) hb)

-- `PortfolioHeartbeat.roll`
unfoldable pub roll : String → ℕ → Dict (Option ℕ) → PortfolioHeartbeat → PortfolioHeartbeat
unfolding roll_runs
roll date hour heads hb =
    roll_runs heads (record hb { last_date = some date; last_hour = some hour })

abbrev pub nat_json : Option ℕ → Json
nat_json none = null
nat_json (some n) = int (pos n)

-- A number of the file; anything else, which no save writes, reads as absent.
abbrev pub as_nat : Option Json → Option ℕ
as_nat (some (int (pos n))) = some n
as_nat _ = none

unfoldable pub counts_json : Dict ℤ → Payload
counts_json [] = end
counts_json ((k, n) ∷ d) = field k (int n) (counts_json d)

-- `RunHeartbeat.to_dict`
unfoldable pub run_to_dict : RunHeartbeat → Payload
unfolding counts_json
run_to_dict hb = field "head" (nat_json hb.head) (field "counts" (obj (counts_json hb.counts)) end)

-- `v if isinstance(v, int)`, where a Boolean is an int.
abbrev as_count : Option Json → Option ℤ
as_count (some (int n)) = some n
as_count (some (flag true)) = some (pos 1)
as_count (some (flag false)) = some (pos 0)
as_count _ = none

abbrev pub counts_over : List String → Payload → Dict ℤ → Dict ℤ
counts_over [] stored counts = counts
counts_over (k ∷ ks) stored counts =
    counts_over ks stored
      (elim (as_count (get_field k stored)) [ none ↦ counts | some n ↦ put k n counts ])

abbrev pub counts_in : Option Json → Dict ℤ
counts_in (some (obj stored)) = counts_over count_keys stored empty_counts
counts_in _ = empty_counts

-- `RunHeartbeat.from_dict` of a dict; an empty one gives the defaults too.
unfoldable pub run_from_dict : Payload → RunHeartbeat
run_from_dict data_of = record {
  head = as_nat (get_field "head" data_of);
  counts = counts_in (get_field "counts" data_of);
}

unfoldable pub runs_json : Dict RunHeartbeat → Payload
unfolding run_to_dict
runs_json [] = end
runs_json ((run, hb) ∷ d) = field run (obj (run_to_dict hb)) (runs_json d)

-- `PortfolioHeartbeat.to_dict`
unfoldable pub to_dict : PortfolioHeartbeat → Payload
unfolding runs_json
to_dict hb =
    field "last_date" (as_json hb.last_date)
      (field "last_hour" (nat_json hb.last_hour) (field "runs" (obj (runs_json hb.runs)) end))

-- `RunHeartbeat.from_dict(v)`; a value that is no dict, which no save writes, gives the defaults.
abbrev pub run_from_json : Json → RunHeartbeat
run_from_json (obj fs) = run_from_dict fs
run_from_json _ = new_run

unfoldable pub runs_from : Payload → Dict RunHeartbeat
unfolding run_from_dict
runs_from end = []
runs_from (field run v fs) = (run, run_from_json v) ∷ runs_from fs

abbrev pub runs_in : Option Json → Dict RunHeartbeat
runs_in (some (obj fs)) = runs_from fs
runs_in _ = []

-- `PortfolioHeartbeat.from_dict`
unfoldable pub from_dict : Payload → PortfolioHeartbeat
unfolding runs_from
from_dict fs = record {
  last_date = get_text "last_date" fs;
  last_hour = as_nat (get_field "last_hour" fs);
  runs = runs_in (get_field "runs" fs);
}

pub record RunDelta : Type 0 where
  pub run_id : String
  pub head : ℕ
  pub delta : ℤ
  pub lag : ℕ
  pub counts : Dict ℤ
