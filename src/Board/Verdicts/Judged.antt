-- ===== src/Board/Verdicts/Judged.antt =====
-- The verdict that events give on a task, and the effects that keep the board in step with it.
use omegahive.Base.{
  String, ◌≡◌, refl, sym, ap, ◌∙◌, inl, inr, true, false, Option, none, some, arith, ◌==◌, ==_iff,
  ==_refl, if◌then◌else◌, opt_eq, Option-cases, get, get-put,
}
use omegahive.Board.Legality.{on_task, is_text}
use omegahive.Board.Soundness.{next, History, start}
use omegahive.Board.State.{Review, passed, TaskState, Board}
use omegahive.Events.Envelope.{
  EventType, task_created, task_status_override, task_result_posted, review_passed, review_failed,
  Event,
}
use omegahive.Events.Json.{Payload, get_text}

-- What an event about a task makes of the verdict on its latest result: a result, a creation or a
-- reopening voids it, and a review gives it.
abbrev pub judge : EventType → Payload → Option Review → Option Review
judge task_created p before = none
judge task_result_posted p before = none
judge review_passed p before = some passed
judge review_failed p before = some Review.failed
judge task_status_override p before = if is_text "status" "reopened" p then none else before
judge _ p before = before

abbrev pub judged : String → Event → Option Review → Option Review
judged t ev before =
    if opt_eq ev.task_id (some t) then judge ev.event_type ev.payload before else before

-- The verdict on the latest result of a task, from the events alone.
abbrev pub verdict_since : String → {b : Board} → History b → Option Review
verdict_since t start = none
verdict_since t (next ev b' h v e) = judged t ev (verdict_since t h)

abbrev pub Agrees : String → Board → Option Review → Type 0
Agrees t b o = (ts : TaskState) → get t b.tasks ≡ some ts → ts.latest_review ≡ o

module _ (t : String) (b b' : Board) (ev : Event) (o : Option Review) (agrees : Agrees t b o) where
  -- An effect on the event's task that gives it the review of the event.
  pub on_task-Agrees :
      (f : TaskState → Option TaskState)
      → ((j : String) (a c : TaskState)
          → ev.task_id ≡ some j
          → get j b.tasks ≡ some a
          → f a ≡ some c
          → c.latest_review ≡ judge ev.event_type ev.payload a.latest_review)
      → on_task f b ev ≡ some b'
      → Agrees t b' (judged t ev o)
  unfolding on_task opt_eq
  on_task-Agrees f gives e ts there = elim (Option-cases ev.task_id) [
    | inl no_task ↦ ground (arith, agrees ts)
    | inr (j, named) ↦ elim (Option-cases (get j b.tasks)) [
      | inl absent ↦ ground (arith, agrees ts, ==_iff j t)
      | inr (a, found) ↦ elim (Option-cases (f a)) [
        | inl fails ↦ absurd (ground arith)
        | inr (c, is_c) ↦ ground (
          arith,
          get-put j t c b.tasks,
          ==_iff j t,
          gives j a c named found is_c,
          agrees a,
          agrees ts,
        )
      ]
    ]
  ]

  -- An effect that leaves every review, for an event that is no verdict.
  pub same-Agrees :
      judge ev.event_type ev.payload o ≡ o
      → ((ts' : TaskState)
          → get t b'.tasks ≡ some ts'
          → (ts : TaskState) × (get t b.tasks ≡ some ts) × (ts'.latest_review ≡ ts.latest_review))
      → Agrees t b' (judged t ev o)
  same-Agrees idle same ts' there =
      let (ts, found, kept) = same ts' there in ground (arith, agrees ts found)

-- A status that is "done" is not "reopened".
pub one_text :
    (p : Payload) → is_text "status" "done" p ≡ true → ¬ (is_text "status" "reopened" p ≡ true)
unfolding is_text opt_eq ◌==◌
one_text p closes opens = elim (Option-cases (get_text "status" p)) [
  | inl absent ↦ ground arith
  | inr (s, is) ↦
      let apart : ("done" == "reopened") ≡ false = refl in
      let is_done : s ≡ "done" = ground (arith, ==_iff s "done") in
      let is_open : s ≡ "reopened" = ground (arith, ==_iff s "reopened") in
      let both : ("done" == "reopened") ≡ true =
        ap (λ u. u == "reopened") (sym is_done ∙ is_open) ∙ ==_refl "reopened" in
      cc (apart, both)
]
