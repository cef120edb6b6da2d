-- ===== src/Events/Types.antt =====
-- src/omegahive/events/types.py: the payload model of each event type.
use Prim.Native.Char.{code}
use omegahive.Base.{
  ℕ, suc, String, Bool, true, false, ◌&&◌, ◌||◌, not, Option, none, some, List, [], ◌∷◌, reverse,
  leb, eqb, if◌then◌else◌, is_some, ◌>>=◌, member, pos,
}
use omegahive.Events.Envelope.{
  EventType, goal_received, task_created, dependency_added, worker_registered, priority_set,
  plan_revised, task_assigned, task_reassigned, task_escalated, task_status_override, task_pruned,
  note_posted, task_accepted, task_rejected, task_progress, task_blocked, task_unblocked,
  task_result_posted, task_failed, question_asked, task_reported, execution_route_approved,
  execution_started, execution_finished, review_passed, review_failed, metric_threshold_crossed,
  promotion_created, promotion_suppressed, gateway_rejected,
}
use omegahive.Events.Json.{
  Json, null, int, real, text, arr, obj, Items, nil, cons, Payload, get_field, get_text, ref_of,
}

-- What a field may hold.
pub data Kind : Type 0 where
  text_kind int_kind positive_kind number_kind texts_kind refs_kind object_kind ref_kind : Kind
  literal : List String → Kind

pub record FieldSpec : Type 0 where
  pub name : String
  pub required : Bool
  pub kind : Kind

abbrev pub need : String → Kind → FieldSpec
need n k = record { name = n; required = true; kind = k }

-- A field with a default.
abbrev may : String → Kind → FieldSpec
may n k = record { name = n; required = false; kind = k }

-- `executed_by` and `decision_ref`.
abbrev traced : List FieldSpec
traced = may "executed_by" text_kind ∷ may "decision_ref" text_kind ∷ []

abbrev decided : List FieldSpec
decided = may "decision_ref" text_kind ∷ []

abbrev review_kinds : Kind
review_kinds = literal ("independent" ∷ "operator_acceptance" ∷ [])

-- The fields of a model class. The nested blocks of the execution models are only asked to be
-- objects here.
unfoldable pub schema : EventType → Option (List FieldSpec)
schema goal_received = some (need "text" text_kind ∷ [])
schema task_created = some (
    need "title" text_kind
    ∷ need "task_type" text_kind
    ∷ may "acceptance" text_kind
    ∷ may "required_artifacts" texts_kind
    ∷ may "ready_when" positive_kind
    ∷ traced)
schema dependency_added = some (need "depends_on" text_kind ∷ [])
schema worker_registered = some (need "worker_id" text_kind ∷ traced)
schema priority_set = some (need "priority" (literal ("low" ∷ "normal" ∷ "high" ∷ [])) ∷ [])
schema plan_revised =
    some
      (need "action" (literal ("cancel" ∷ "re_decompose" ∷ [])) ∷ may "reason" text_kind ∷ decided)
schema task_assigned = some (need "worker" text_kind ∷ traced)
schema task_reassigned =
    some (need "from_" text_kind ∷ need "to" text_kind ∷ may "reason" text_kind ∷ traced)
schema task_escalated = some (need "reason" text_kind ∷ decided)
schema task_status_override = some (need "status" text_kind ∷ may "reason" text_kind ∷ traced)
schema note_posted = some (need "text" text_kind ∷ [])
schema task_pruned = some (may "reason" text_kind ∷ decided)
schema task_accepted = some []
schema task_rejected = some (need "reason" text_kind ∷ [])
schema task_progress = some (may "note" text_kind ∷ may "pct" int_kind ∷ may "cost" int_kind ∷ [])
schema task_blocked =
    some (need "reason" text_kind ∷ may "needs" text_kind ∷ may "ref_report" text_kind ∷ [])
schema task_unblocked = some []
schema task_result_posted = some (need "artifact_refs" refs_kind ∷ may "cost" int_kind ∷ [])
schema task_failed = some (need "reason" text_kind ∷ [])
schema question_asked = some (need "text" text_kind ∷ [])
schema task_reported = some (
    need "ref" ref_kind
    ∷ need "kind"
        (literal ("progress" ∷ "result" ∷ "question" ∷ "finding" ∷ "reflection" ∷ "answer" ∷ []))
    ∷ may "question_seq" int_kind
    ∷ traced)
schema review_passed = some (need "ref_result" text_kind ∷ may "review_kind" review_kinds ∷ traced)
schema review_failed =
    some
      (need "ref_result" text_kind ∷ may "reason" text_kind ∷ may "review_kind" review_kinds ∷ [])
schema metric_threshold_crossed =
    some (need "metric" text_kind ∷ need "value" number_kind ∷ need "threshold" number_kind ∷ [])
schema promotion_created = some (need "ref_event" text_kind ∷ need "rule_id" text_kind ∷ [])
schema promotion_suppressed = some (need "ref_event" text_kind ∷ may "reason" text_kind ∷ [])
schema execution_route_approved = some (
    need "execution_id" text_kind
    ∷ need "purpose" (literal ("work" ∷ "review" ∷ []))
    ∷ need "attempt" positive_kind
    ∷ need "catalog_digest" text_kind
    ∷ need "identity" object_kind
    ∷ may "order_ref" ref_kind
    ∷ may "binding_ref" ref_kind
    ∷ traced)
schema execution_started = some (
    need "execution_id" text_kind
    ∷ need "purpose" (literal ("work" ∷ "review" ∷ []))
    ∷ need "attempt" positive_kind
    ∷ need "identity" object_kind
    ∷ need "harness_version" text_kind
    ∷ need "model_requested" text_kind
    ∷ need "started_at" text_kind
    ∷ [])
schema execution_finished = some (
    need "execution_id" text_kind
    ∷ need "purpose" (literal ("work" ∷ "review" ∷ []))
    ∷ need "attempt" positive_kind
    ∷ need "identity" object_kind
    ∷ need "outcome" (literal ("success" ∷ "failure" ∷ "interrupted" ∷ []))
    ∷ need "outcome_certainty" (literal ("certain" ∷ "uncertain" ∷ []))
    ∷ need "finished_at" text_kind
    ∷ need "usage" object_kind
    ∷ [])
schema gateway_rejected = some (
    need "refused_event_type" text_kind
    ∷ may "refused_task_id" text_kind
    ∷ may "refused_payload" object_kind
    ∷ need "code" text_kind
    ∷ need "reason" text_kind
    ∷ need "original_actor_role" text_kind
    ∷ need "original_actor_id" text_kind
    ∷ may "coalesced_count" int_kind
    ∷ [])
schema (EventType.other s) = none

-- `[0-9a-f]`
unfoldable pub is_hex : ℕ → Bool
is_hex c = leb b'0' c && leb c b'9' || leb b'a' c && leb c b'f'

abbrev pub codes : String → List ℕ
codes String.[] = []
codes (String.◌∷◌ c s) = code c ∷ codes s

-- A path of one character or more, without a newline.
abbrev is_path : List ℕ → Bool
is_path [] = false
is_path (c ∷ cs) = not (eqb c 10) && (elim cs [ [] ↦ true | _ ∷ _ ↦ is_path cs ])

-- Reads the hex digits of a text from its end, `n` of them so far, up to the `@`.
unfoldable pub ends_in_sha : ℕ → List ℕ → Bool
unfolding is_hex
ends_in_sha n [] = false
ends_in_sha n (c ∷ cs) =
    let rest = ends_in_sha (suc n) cs in
    if is_hex c then rest else eqb c b'@' && leb 7 n && leb n 40 && is_path cs

-- `_REF_SHAPE.fullmatch`, for `.+@[0-9a-f]{7,40}`.
unfoldable pub is_ref : String → Bool
unfolding ends_in_sha
is_ref s = ends_in_sha 0 (reverse (codes s))

abbrev pub all_texts : Items → Bool
all_texts nil = true
all_texts (cons (text s) js) = all_texts js
all_texts (cons _ js) = false

abbrev has_quality : Json → Bool
has_quality (obj fs) = elim (get_text "quality" fs) [
  | none ↦ false
  | some q ↦ member q ("ok" ∷ "missing_sources" ∷ "wrong_content" ∷ [])
]
has_quality _ = false

-- A list of `ArtifactRef`.
unfoldable pub all_refs : Items → Bool
all_refs nil = true
all_refs (cons j js) = is_some (ref_of j >>= λ r. r) && has_quality j && all_refs js

unfoldable pub of_kind : Kind → Json → Bool
unfolding all_refs is_ref
of_kind text_kind (text s) = true
of_kind int_kind (int i) = true
of_kind positive_kind (int (pos n)) = leb 1 n
of_kind number_kind (int i) = true
of_kind number_kind (real r) = true
of_kind texts_kind (arr js) = all_texts js
of_kind refs_kind (arr js) = all_refs js
of_kind object_kind (obj fs) = true
of_kind ref_kind (text s) = is_ref s
of_kind (literal ls) (text s) = member s ls
of_kind _ _ = false

abbrev pub field_fits : FieldSpec → Option Json → Bool
field_fits f none = not f.required
field_fits f (some null) = not f.required
field_fits f (some j) = of_kind f.kind j

-- The payload is one that an instance of the model class could hold.
unfoldable pub conforms : List FieldSpec → Payload → Bool
unfolding of_kind
conforms [] p = true
conforms (f ∷ fs) p = field_fits f (get_field f.name p) && conforms fs p
