-- ===== src/Metrics/Completions.antt =====
-- The rate of false completions, on the boards that accepted events produce.
use omegahive.Base.{
  ◌≤◌, String, ◌≡◌, refl, inl, inr, Bool, true, ◌&&◌, not, some, List, [], ◌∷◌, arith, ==_iff,
  ==_refl, is_some, Option-cases, member-keys, IsDistinct-keys-put, length, count_if, IsDistinct,
  pos, Dict, get, put, values, keys,
}
use omegahive.Board.Reducer.{derive_one, derive_loop, derive}
use omegahive.Board.Reducer.Readiness.{derive_one-Refreshed, get-derive}
use omegahive.Board.Reviewed.{AllReviewed, History-AllReviewed}
use omegahive.Board.Soundness.{History-IsSound, History}
use omegahive.Board.State.{TaskState, Board, is_passed, ids_where}
use omegahive.Events.Envelope.{Event}
use omegahive.Metrics.Core.{is_closed, is_false_completion, compute}

-- The readiness pass keeps each task id once.
IsDistinct-derive_loop :
    (ts : List String) (tasks : Dict TaskState)
    → IsDistinct (keys tasks)
    → IsDistinct (keys (derive_loop ts tasks))
unfolding derive_loop
IsDistinct-derive_loop [] tasks h = h
IsDistinct-derive_loop (t ∷ ts) tasks h = elim (Option-cases (get t tasks)) [
  | inl absent ↦ rw absent (IsDistinct-derive_loop ts tasks h)
  | inr (s, found) ↦ rw found (
      IsDistinct-derive_loop ts (put t (derive_one tasks s) tasks)
        (IsDistinct-keys-put t (derive_one tasks s) tasks h))
]

count_if-values :
    (p q : TaskState → Bool) (d : Dict TaskState)
    → IsDistinct (keys d)
    → ((t : String) (s : TaskState) → get t d ≡ some s → p s ≡ q s)
    → count_if p (values d) ≡ count_if q (values d)
unfolding count_if values keys get
count_if-values p q [] h same = refl
count_if-values p q ((j, v) ∷ d) h same =
    let rest =
      count_if-values p q d h.1 (λ t s e. ground (arith, same t s, member-keys t d, ==_iff j t)) in
    let here = same j v in ground (arith, rest, here, ==_refl j)

-- Tasks that are counted by their ids and their states.
count_if-le :
    (p r : TaskState → Bool) (d : Dict TaskState)
    → ((s : TaskState) → r s ≡ true → p s ≡ true)
    → count_if r (values d) ≤ length (ids_where p d)
unfolding count_if values ids_where
count_if-le p r [] h = omega arith
count_if-le p r ((j, v) ∷ d) h = ground (arith, count_if-le p r d h, h v)

-- A task that is done although its last review failed.
abbrev pub is_failed_completion : TaskState → Bool
is_failed_completion s = is_closed s && (is_some s.latest_review && not (is_passed s.latest_review))

-- On the derived board too a done task is reviewed.
derived-reviewed :
    (b : Board) (t : String) (s : TaskState)
    → AllReviewed b
    → IsDistinct (keys b.tasks)
    → get t (derive b).tasks ≡ some s
    → is_false_completion s ≡ is_failed_completion s
derived-reviewed b t s all once e = elim (Option-cases (get t b.tasks)) [
  | inl absent ↦ absurd (ground (arith, get-derive b t once))
  | inr (a, found) ↦
      let reviewed = all.at t a found in
      let same = derive_one-Refreshed b.tasks a in
      let review = same.latest_review in
      let status = same.status in ground (arith, get-derive b t once, reviewed, review, status)
]

failed-closed : (s : TaskState) → is_failed_completion s ≡ true → is_closed s ≡ true
failed-closed s h = ground arith

-- On a board that accepted events produce, with its readiness pass, the tasks behind the rate of
-- false completions are those that are done and whose last review failed: the rate's numerator
-- counts them, and a task that is done without any review is never among them.
pub compute-false_completions :
    (events : List Event) {b : Board}
    → History b
    → (compute events (derive b)).false_completion_rate.num
      ≡ pos (count_if is_failed_completion (values (derive b).tasks))
unfolding compute derive
compute-false_completions events {b} h =
    let tasks = (derive b).tasks in
    let once = (History-IsSound h).keys_once in
    let all = History-AllReviewed h in
    let same =
      count_if-values is_false_completion is_failed_completion tasks
        (IsDistinct-derive_loop (keys b.tasks) b.tasks once)
        (λ t s e. derived-reviewed b t s all once e) in
    let few = count_if-le is_closed is_failed_completion tasks failed-closed in
    ground (arith, same, few)
