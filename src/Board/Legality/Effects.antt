-- ===== src/Board/Legality/Effects.antt =====
-- The effects of src/omegahive/board/legality.py: what an event does to the board. `none` is the
-- exception that a missing payload field raises.
use omegahive.Base.{
  String, Bool, true, false, ◌||◌, Option, none, some, [], if◌then◌else◌, ◌>>=◌, add, get, put,
  map_values,
}
use omegahive.Board.Legality.Guards.{one_of, reassignable}
use omegahive.Board.State.{
  Status, created, ready, assigned, in_progress, blocked, in_review, done, cancelled, reopened,
  Review, passed, TaskState, Board, is_status, stamp, change,
}
use omegahive.Events.Envelope.{Event}
use omegahive.Events.Json.{get_text, get_int, first_ref}

abbrev pub Effect : Type 0
Effect = Board → Event → Option Board

-- `payload.get(key, "")`
abbrev pub or_empty : Option String → String
or_empty none = ""
or_empty (some s) = s

abbrev pub put_task : String → TaskState → Board → Board
put_task t ts b = record b { tasks = put t ts b.tasks }

-- An effect that changes the task of the event, if the board has it.
unfoldable pub on_task : (TaskState → Option TaskState) → Effect
on_task f b ev = elim ev.task_id [
  | none ↦ some b
  | some t ↦ elim (get t b.tasks) [
    | none ↦ some b
    | some here ↦ f here >>= λ there. some (put_task t there b)
  ]
]

abbrev pub no_blocker : TaskState → TaskState
no_blocker ts = record ts { blocker_reason = none; blocker_needs = none }

unfoldable pub new_task : String → Event → TaskState
new_task t ev = record {
  task_id = t;
  status = created;
  owner = none;
  depends_on = [];
  latest_review = none;
  last_result_ref = none;
  last_causing_seq = none;
  last_causing_event_id = none;
  last_status_change_ts = 0;
  escalated = false;
  tried_by = [];
  task_type = get_text "task_type" ev.payload;
  ready_when = get_int "ready_when" ev.payload;
  pruned = false;
  join_unsatisfiable = false;
  title = or_empty (get_text "title" ev.payload);
  priority = "normal";
  blocker_reason = none;
  blocker_needs = none;
}

unfoldable pub e_created : Effect
unfolding new_task
e_created b ev = elim ev.task_id [
  | none ↦ some b
  | some t ↦ some (put_task t (change ev (new_task t ev)) b)
]

unfoldable pub e_dependency_added : Effect
e_dependency_added b ev =
    on_task
      (λ here. get_text "depends_on" ev.payload >>= λ d.
        some (stamp ev (record here { depends_on = add d here.depends_on })))
      b ev

unfoldable pub e_priority_set : Effect
e_priority_set b ev =
    on_task
      (λ here.
        get_text "priority" ev.payload >>= λ p. some (stamp ev (record here { priority = p })))
      b ev

unfoldable pub e_worker_registered : Effect
e_worker_registered b ev =
    get_text "worker_id" ev.payload >>= λ w. some (record b { roster = add w b.roster })

-- The body that `_e_assigned` and `_e_reassigned` share.
unfoldable pub give : Event → String → TaskState → TaskState
give ev w here =
    change ev (
      no_blocker
        (record here { status = assigned; owner = some w; tried_by = add w here.tried_by }))

unfoldable pub e_assigned : Effect
e_assigned b ev = on_task (λ here. get_text "worker" ev.payload >>= λ w. some (give ev w here)) b ev

unfoldable pub e_reassigned : Effect
e_reassigned b ev =
    on_task
      (λ here.
        if one_of reassignable here.status
        then (get_text "to" ev.payload >>= λ w. some (give ev w here))
        else some here)
      b ev

-- The effects that guard themselves on one status, change the status and clear the blocker.
unfoldable pub moves : (Status → Bool) → (TaskState → TaskState) → Effect
moves from f b ev =
    on_task (λ here. some (if from here.status then change ev (no_blocker (f here)) else here)) b ev

unfoldable pub e_rejected : Effect
e_rejected =
    moves (λ s. is_status s assigned) (λ here. record here { status = ready; owner = none })

unfoldable pub e_accepted : Effect
e_accepted = moves (λ s. is_status s assigned) (λ here. record here { status = in_progress })

unfoldable pub e_blocked : Effect
e_blocked b ev =
    on_task
      (λ here.
        if is_status here.status in_progress
        then (get_text "reason" ev.payload >>= λ r. some (
            change ev (record here {
              status = blocked;
              blocker_reason = some r;
              blocker_needs = get_text "needs" ev.payload;
            })))
        else some here)
      b ev

unfoldable pub e_unblocked : Effect
e_unblocked = moves (λ s. is_status s blocked) (λ here. record here { status = in_progress })

unfoldable pub e_result_posted : Effect
e_result_posted b ev =
    on_task
      (λ here. first_ref ev.payload >>= λ r. some (
        change ev (
          no_blocker
            (record here { status = in_review; latest_review = none; last_result_ref = r }))))
      b ev

unfoldable pub e_review_passed : Effect
e_review_passed b ev =
    on_task (λ here. some (stamp ev (record here { latest_review = some passed }))) b ev

unfoldable pub e_review_failed : Effect
e_review_failed b ev =
    on_task (λ here. some (stamp ev (record here { latest_review = some Review.failed }))) b ev

unfoldable pub e_done : Effect
e_done = moves (λ s. true) (λ here. record here { status = done })

unfoldable pub e_reopened : Effect
e_reopened =
    moves (λ s. is_status s in_review)
      (λ here. record here { status = reopened; owner = none; latest_review = none })

unfoldable pub e_cancelled : Effect
e_cancelled = moves (λ s. true) (λ here. record here { status = cancelled; owner = none })

unfoldable pub e_failed : Effect
e_failed =
    moves (λ s. is_status s in_progress || is_status s blocked)
      (λ here. record here { status = Status.failed })

unfoldable pub e_escalated : Effect
e_escalated b ev = on_task (λ here. some (stamp ev (record here { escalated = true }))) b ev

unfoldable pub e_pruned : Effect
e_pruned b ev =
    on_task
      (λ here. some (
        if is_status here.status done || is_status here.status cancelled
        then here
        else stamp ev (record here { pruned = true })))
      b ev

unfoldable pub e_plan_cancel : Effect
e_plan_cancel b ev =
    some
      (record b { tasks = map_values (λ ts. change ev (record ts { status = cancelled })) b.tasks })
