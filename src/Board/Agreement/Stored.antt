-- ===== src/Board/Agreement/Stored.antt =====
-- The task of an event on the board before the readiness pass and after it, and what an effect
-- writes on it.
use omegahive.Base.{
  String, ◌≡◌, refl, ap, ◌∙◌, ◌≢◌, ◌⊎◌, inl, inr, true, false, Option, none, some, List, arith,
  if◌then◌else◌, Option-cases, IsDistinct, get, keys, get-put_self, map_option,
}
use omegahive.Board.Legality.{
  on_task, task, g_needs_task, g_assigned, one_of, reassignable, g_reassigned, from_state, g_done,
  g_cancelled, g_prune, is_text,
}
use omegahive.Board.Reducer.{derive_one, derive}
use omegahive.Board.Reducer.Readiness.{Refreshed, derive_one-Refreshed, get-derive}
use omegahive.Board.State.{
  Status, created, ready, assigned, in_progress, blocked, in_review, done, cancelled, reopened,
  TaskState, Board, is_status,
}
use omegahive.Events.Envelope.{
  EventType, task_created, task_assigned, task_reassigned, task_status_override, task_accepted,
  task_rejected, task_blocked, task_unblocked, task_result_posted, task_failed, Event,
}
use omegahive.Events.Json.{Payload}

-- The task of an event on the board as the events left it, and after the readiness pass.
pub record Seen (b : Board) (id : Option String) : Type 0 where
  pub t : String
  pub named : id ≡ some t
  pub before : TaskState
  pub stored : get t b.tasks ≡ some before
  pub after : TaskState
  pub derived : task (derive b) id ≡ some after
  pub refreshed : Refreshed before after

module _ (b : Board) (distinct : IsDistinct (keys b.tasks)) where
  task-derive : (t : String) → get t (derive b).tasks ≡ none ⊎ Seen b (some t)
  unfolding task
  task-derive t = elim (Option-cases (get t b.tasks)) [
    | inl absent ↦ inl (get-derive b t distinct ∙ ap (map_option (derive_one b.tasks)) absent)
    | inr (ts, found) ↦ inr (record {
      t = t;
      named = refl;
      before = ts;
      stored = found;
      after = derive_one b.tasks ts;
      derived = get-derive b t distinct ∙ ap (map_option (derive_one b.tasks)) found;
      refreshed = derive_one-Refreshed b.tasks ts;
    })
  ]

  -- A task that the derived board shows stands on the board before.
  seen : (id : Option String) → task (derive b) id ≢ none → Seen b id
  unfolding task
  seen none h = absurd (h refl)
  seen (some t) h = elim (task-derive t) [ inl e ↦ absurd (h e) | inr s ↦ s ]

-- What an effect that passes has written.
on_task-stored :
    (f : TaskState → Option TaskState) (b : Board) (ev : Event) (b' : Board) (s : Seen b ev.task_id)
    → on_task f b ev ≡ some b'
    → (there : TaskState) × (f s.before ≡ some there) × (get s.t b'.tasks ≡ some there)
unfolding on_task
on_task-stored f b ev b' s e = elim (Option-cases (f s.before)) [
  | inl fails ↦ absurd (ground (arith, s.named, s.stored))
  | inr (there, gives) ↦
      (there, gives, ground (arith, s.named, s.stored, get-put_self s.t there b.tasks))
]

-- The status that an event leaves its task in.
abbrev pub expected : EventType → Payload → Status → Status
expected task_created p s = created
expected task_assigned p s = assigned
expected task_reassigned p s = assigned
expected task_rejected p s = ready
expected task_accepted p s = in_progress
expected task_blocked p s = blocked
expected task_unblocked p s = in_progress
expected task_result_posted p s = in_review
expected task_failed p s = Status.failed
expected task_status_override p s =
    if is_text "status" "done" p
    then done
    else if is_text "status" "reopened" p
    then reopened
    else cancelled
expected _ p s = s

abbrev pub status_before : Board → Option String → Status
status_before b id = elim (task b id) [ none ↦ created | some ts ↦ ts.status ]

-- The event moved its task: it is the task's last cause, and the status is the one expected.
pub record Moved (b : Board) (ev : Event) (b' : Board) : Type 0 where
  pub t : String
  pub named : ev.task_id ≡ some t
  pub after : TaskState
  pub stored : get t b'.tasks ≡ some after
  pub cause : after.last_causing_event_id ≡ some ev.event_id
  pub cause_seq : after.last_causing_seq ≡ ev.seq
  pub status : after.status ≡ expected ev.event_type ev.payload (status_before b ev.task_id)

module _ (b : Board) (distinct : IsDistinct (keys b.tasks)) (ev : Event) where
  pub needs_task-Seen :
      g_needs_task (derive b) ev.actor ev.payload ev.task_id ≡ none → Seen b ev.task_id
  unfolding g_needs_task
  needs_task-Seen h = seen b distinct ev.task_id (λ e. ground arith)

  pub from_state-Seen :
      (allowed : List Status)
      → from_state allowed (derive b) ev.actor ev.payload ev.task_id ≡ none
      → (s : Seen b ev.task_id) × (one_of allowed s.after.status ≡ true)
  unfolding from_state
  from_state-Seen allowed h =
      let s = seen b distinct ev.task_id (λ e. ground arith) in (s, ground (arith, s.derived))

  -- From what the effect wrote on the stored task, the claim.
  pub moved :
      (k : EventType) (is_k : ev.event_type ≡ k) (b' : Board) (f : TaskState → Option TaskState)
      (s : Seen b ev.task_id)
      → ((there : TaskState)
          → f s.before ≡ some there
          → (there.last_causing_event_id ≡ some ev.event_id)
            × (there.last_causing_seq ≡ ev.seq)
            × (there.status ≡ expected k ev.payload s.before.status))
      → on_task f b ev ≡ some b'
      → Moved b ev b'
  unfolding task
  moved k is_k b' f s facts e =
      let (there, gives, kept) = on_task-stored f b ev b' s e in
      let (c, q, st) = facts there gives in
      record {
        t = s.t;
        named = s.named;
        after = there;
        stored = kept;
        cause = c;
        cause_seq = q;
        status = rw is_k (ground (arith, s.named, s.stored));
      }

  pub g_assigned-Seen :
      g_assigned (derive b) ev.actor ev.payload ev.task_id ≡ none → Seen b ev.task_id
  unfolding g_assigned
  g_assigned-Seen h = seen b distinct ev.task_id (λ e. ground arith)

  pub g_reassigned-Seen :
      g_reassigned (derive b) ev.actor ev.payload ev.task_id ≡ none
      → (s : Seen b ev.task_id) × (one_of reassignable s.after.status ≡ true)
  unfolding g_reassigned
  g_reassigned-Seen h =
      let s = seen b distinct ev.task_id (λ e. ground arith) in (s, ground (arith, s.derived))

  pub g_done-Seen : g_done (derive b) ev.actor ev.payload ev.task_id ≡ none → Seen b ev.task_id
  unfolding g_done
  g_done-Seen h = seen b distinct ev.task_id (λ e. ground arith)

  pub g_cancelled-Seen :
      g_cancelled (derive b) ev.actor ev.payload ev.task_id ≡ none → Seen b ev.task_id
  unfolding g_cancelled
  g_cancelled-Seen h = seen b distinct ev.task_id (λ e. ground arith)

  pub g_prune-Seen :
      (id : Option String)
      → g_prune (derive b) ev.actor ev.payload id ≡ none
      → (s : Seen b id) × (is_status s.after.status done ≡ false)
        × (is_status s.after.status cancelled ≡ false)
  unfolding g_prune task
  g_prune-Seen none h = absurd (ground arith)
  g_prune-Seen (some t) h =
      let s = seen b distinct (some t) (λ e. ground arith) in
      (s, ground (arith, s.derived), ground (arith, s.derived))
