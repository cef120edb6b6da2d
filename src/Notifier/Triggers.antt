-- ===== src/Notifier/Triggers.antt =====
-- src/omegahive/notifier/events.py: which events page, and what a page carries.
use omegahive.Base.{
  ℕ, suc, ◌-◌, String, Bool, false, not, Option, none, some, List, [], ◌∷◌, leb, if◌then◌else◌,
  member, values, text_length, is_empty, strip, split_lines, cut, concat,
}
use omegahive.Events.Envelope.{
  EventType, task_escalated, task_status_override, task_blocked, task_result_posted, question_asked,
  task_reported, execution_finished, Event,
}
use omegahive.Events.Json.{Json, arr, obj, Items, nil, cons, Payload, get_field, get_text}

-- `_TRIGGERS`: the label and the glyph of a type.
unfoldable pub trigger : EventType → Option (String × String)
trigger task_blocked = some ("blocked", "⛔")
trigger task_escalated = some ("escalated", "⬆")
trigger task_reported = some ("question", "❓")
trigger task_result_posted = some ("result", "📄")
trigger execution_finished = some ("exit", "⏻")
trigger question_asked = some ("question", "❓")
trigger task_status_override = some ("cancelled", "✖")
trigger _ = none

-- `_QUESTION_CHARS`
abbrev pub question_chars : ℕ
question_chars = 140

-- `ATTENTION_CLASSIFICATIONS`
abbrev pub attention_classifications : List String
attention_classifications = "failed" ∷ "budget" ∷ "unclassified" ∷ []

pub record Notification : Type 0 where
  pub label : String
  pub glyph : String
  pub event_type : EventType
  pub run_id : String
  pub task_id : Option String
  pub actor_id : String
  pub ref : Option String
  pub reason : Option String
  pub extra_refs : ℕ
  pub seq : Option ℕ

-- `x if isinstance(x, str) and x else None`
abbrev pub non_empty : Option String → Option String
non_empty none = none
non_empty (some s) = if is_empty s then none else some s

abbrev count_items : Items → ℕ
count_items nil = 0
count_items (cons j js) = suc (count_items js)

abbrev ref_in : Json → Option String
ref_in (obj fs) = non_empty (get_text "ref" fs)
ref_in _ = none

abbrev refs_of : Option Json → Option String × ℕ
refs_of (some (arr (cons j js))) = (ref_in j, count_items js)
refs_of _ = (none, 0)

-- `_result_ref`
unfoldable pub result_ref : Payload → Option String × ℕ
result_ref p = refs_of (get_field "artifact_refs" p)

-- `next((ln.strip() for ln in lines if ln.strip()), "")`
unfoldable pub first_stripped : List String → String
first_stripped [] = ""
first_stripped (l ∷ ls) = if is_empty (strip l) then first_stripped ls else strip l

abbrev pub bounded : String → String
bounded line =
    if leb (text_length line) question_chars then line else cut (question_chars - 1) "…" line

-- `_first_line`
unfoldable pub first_line : Option String → Option String
unfolding first_stripped split_lines strip text_length cut
first_line none = none
first_line (some body) =
    let line = first_stripped (split_lines body) in
    if is_empty line then none else some (bounded line)

-- `payload.get(key) in values`
abbrev pub text_in : String → List String → Payload → Bool
text_in key values p = elim (get_text key p) [ none ↦ false | some s ↦ member s values ]

-- The gates on the payload, by type.
unfoldable pub is_gated_out : EventType → Payload → Bool
is_gated_out task_reported p = not (text_in "kind" ("question" ∷ []) p)
is_gated_out execution_finished p = not (text_in "classification" attention_classifications p)
is_gated_out task_status_override p = not (text_in "status" ("cancelled" ∷ []) p)
is_gated_out _ p = false

-- The reason of an exit: the classification, and why.
abbrev exit_reason : String → Option String → String
exit_reason cls none = cls
exit_reason cls (some why) = concat cls (concat ": " why)

abbrev or_none_text : Option String → String
or_none_text none = "None"
or_none_text (some s) = s

-- The ref, the reason and the count of further refs, by type.
unfoldable pub details : EventType → Payload → Option String × Option String × ℕ
unfolding result_ref first_line concat
details task_reported p = (non_empty (get_text "ref" p), none, 0)
details task_result_posted p = let (ref, extra) = result_ref p in (ref, none, extra)
details task_blocked p = (non_empty (get_text "ref_report" p), non_empty (get_text "reason" p), 0)
details task_escalated p =
    (non_empty (get_text "decision_ref" p), non_empty (get_text "reason" p), 0)
details execution_finished p = (
  none,
  some (
      exit_reason (or_none_text (get_text "classification" p))
        (non_empty (get_text "classification_reason" p))),
  0,
)
details question_asked p = (none, first_line (get_text "text" p), 0)
details task_status_override p = (none, non_empty (get_text "reason" p), 0)
details _ p = (none, none, 0)

abbrev notify : Event → String × String → Option String × Option String × ℕ → Notification
notify ev (label, glyph) (ref, reason, extra) = record {
  label = label;
  glyph = glyph;
  event_type = ev.event_type;
  run_id = ev.run_id;
  task_id = ev.task_id;
  actor_id = ev.actor.id;
  ref = ref;
  reason = reason;
  extra_refs = extra;
  seq = ev.seq;
}

-- `notification_from`
unfoldable pub notification_from : Event → Option Notification
unfolding trigger is_gated_out details
notification_from ev = elim (trigger ev.event_type) [
  | none ↦ none
  | some spec ↦
      if is_gated_out ev.event_type ev.payload
      then none
      else some (notify ev spec (details ev.event_type ev.payload))
]
