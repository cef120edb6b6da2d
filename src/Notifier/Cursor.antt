-- ===== src/Notifier/Cursor.antt =====
-- src/omegahive/notifier/cursor.py: the state file of the notifier.
use omegahive.Base.{ℕ, String, Option, none, some, [], ◌∷◌, if◌then◌else◌, Dict, is_empty}
use omegahive.Events.Json.{Json, text, obj, end, field, Payload, get_field}
use omegahive.Events.Log.{set_field}
use omegahive.Notifier.Heartbeat.{PortfolioHeartbeat, nat_json, as_nat, to_dict, from_dict}

pub record RunCursor : Type 0 where
  pub cursor : Option ℕ
  pub generation : Option ℕ

-- The file's JSON document; `none` when it is missing or unreadable.
abbrev pub File : Type 0
File = Option Json

-- `_read`
abbrev pub blob : File → Payload
blob (some (obj fs)) = fs
blob _ = end

abbrev pub cursor_row : Json → Option RunCursor
cursor_row (obj fs) = some (record {
  cursor = as_nat (get_field "cursor" fs);
  generation = as_nat (get_field "generation" fs);
})
cursor_row _ = none

unfoldable pub cursor_rows : Payload → Dict RunCursor
cursor_rows end = []
cursor_rows (field run v fs) =
    let rest = cursor_rows fs in elim (cursor_row v) [ none ↦ rest | some rc ↦ (run, rc) ∷ rest ]

abbrev pub cursors_in : Option Json → Dict RunCursor
cursors_in (some (obj fs)) = cursor_rows fs
cursors_in _ = []

-- `load`
unfoldable pub load : File → Dict RunCursor
unfolding cursor_rows
load file = cursors_in (get_field "runs" (blob file))

abbrev pub dict_or_empty : Option Json → Payload
dict_or_empty (some (obj fs)) = fs
dict_or_empty _ = end

-- `load_heartbeat`
unfoldable pub load_heartbeat : File → PortfolioHeartbeat
load_heartbeat file = from_dict (dict_or_empty (get_field "heartbeat" (blob file)))

abbrev pub thread_text : Json → Option String
thread_text (text s) = if is_empty s then none else some s
thread_text _ = none

unfoldable pub thread_rows : Payload → Dict String
thread_rows end = []
thread_rows (field key v fs) =
    let rest = thread_rows fs in elim (thread_text v) [ none ↦ rest | some ts ↦ (key, ts) ∷ rest ]

-- `load_threads`
unfoldable pub load_threads : File → Dict String
unfolding thread_rows
load_threads file = thread_rows (dict_or_empty (get_field "threads" (blob file)))

unfoldable pub cursors_json : Dict RunCursor → Payload
cursors_json [] = end
cursors_json ((run, rc) ∷ d) =
    field run
      (obj (field "cursor" (nat_json rc.cursor) (field "generation" (nat_json rc.generation) end)))
      (cursors_json d)

abbrev pub keep_threads : Option Json → Payload
keep_threads (some (obj fs)) = field "threads" (obj fs) end
keep_threads _ = end

abbrev pub with_heartbeat : Option PortfolioHeartbeat → Payload → Payload
with_heartbeat none fs = fs
with_heartbeat (some hb) fs = field "heartbeat" (obj (to_dict hb)) fs

-- `save`
unfoldable pub save : Dict RunCursor → Option PortfolioHeartbeat → File → File
unfolding cursors_json
save cursors hb file = some (
    obj (
      field "runs" (obj (cursors_json cursors))
        (with_heartbeat hb (keep_threads (get_field "threads" (blob file))))))

unfoldable pub threads_json : Dict String → Payload
threads_json [] = end
threads_json ((key, ts) ∷ d) = field key (text ts) (threads_json d)

-- `save_threads`
unfoldable pub save_threads : Dict String → File → File
unfolding threads_json
save_threads threads file =
    some (obj (set_field "threads" (obj (threads_json threads)) (blob file)))
