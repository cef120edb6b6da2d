-- ===== src/Sim/Review.antt =====
-- src/omegahive/sim/reactors/review.py: the review instrument.
use omegahive.Base.{
  String, Bool, true, ◌&&◌, not, Option, none, some, List, [], ◌∷◌, ◌==◌, if◌then◌else◌, ◌>>=◌,
  is_empty, concat,
}
use omegahive.Events.Envelope.{
  EventType, task_result_posted, review_passed, review_failed, same_type, Uuid, Event,
}
use omegahive.Events.Json.{
  Json, null, text, arr, obj, Items, nil, cons, end, field, Payload, get_field, get_text,
}
use omegahive.Sim.Coordinator.{Emit}
use omegahive.Sim.Engine.{is_nil}

-- `r["quality"]` of each ref; `none` is an exception.
unfoldable pub qualities : Items → Option (List String)
qualities nil = some []
qualities (cons (obj fs) js) = get_text "quality" fs >>= λ q. qualities js >>= λ qs. some (q ∷ qs)
qualities (cons _ js) = none

-- `payload.get("artifact_refs") or []`; anything but a list, which the schema does not let
-- through, reads as an exception, like a ref without a quality.
abbrev pub refs_in : Option Json → Option (List String)
refs_in none = some []
refs_in (some null) = some []
refs_in (some (arr js)) = qualities js
refs_in (some _) = none

-- `all(r["quality"] == "ok" for r in refs)`
unfoldable pub all_ok : List String → Bool
all_ok [] = true
all_ok (q ∷ qs) = q == "ok" && all_ok qs

-- `",".join(r["quality"] for r in refs if r["quality"] != "ok")`
unfoldable pub join_bad : List String → String
unfolding concat
join_bad [] = ""
join_bad (q ∷ qs) =
    let rest = join_bad qs in
    if q == "ok" then rest else if is_empty rest then q else concat q (concat "," rest)

abbrev bad_of : List String → String
bad_of qs = if is_empty (join_bad qs) then "no_artifacts" else join_bad qs

abbrev verdict : Event → EventType → Payload → Emit
verdict ev t p = record {
  event_type = t;
  payload = p;
  task_id = ev.task_id;
  causation_id = some ev.event_id;
  recipient = none;
}

-- The verdict on one result. `show` is Python's text of a UUID.
unfoldable pub verdict_on : (Uuid → String) → Event → List String → Emit
unfolding all_ok join_bad concat
verdict_on show ev qs =
    if not (is_nil qs) && all_ok qs
    then verdict ev review_passed (field "ref_result" (text (show ev.event_id)) end)
    else verdict ev review_failed (
        field "ref_result" (text (show ev.event_id))
          (field "reason" (text (concat "quality=" (bad_of qs))) end))

-- `ReviewInstrument.react`
unfoldable pub review_react : (Uuid → String) → List Event → Option (List Emit)
unfolding qualities verdict_on
review_react show [] = some []
review_react show (ev ∷ evs) =
    if same_type ev.event_type task_result_posted
    then (refs_in (get_field "artifact_refs" ev.payload) >>= λ qs.
        review_react show evs >>= λ es. some (verdict_on show ev qs ∷ es))
    else review_react show evs
