-- ===== src/Board/Reducer/Readiness.antt =====
-- The readiness pass of `fold`: the loop that changes the board in place computes each task from
-- the board as the events left it.
use omegahive.Base.{
  ℕ, ◌≤◌, String, ◌≡◌, refl, ap, ◌∙◌, ◌↔◌, ◌⊎◌, inl, inr, true, ◌&&◌, not, some, List, [], ◌∷◌,
  arith, ◌==◌, ==_iff, if◌then◌else◌, Option-cases, member-keys, count_if, keep-congr,
  count_if-congr, count_if-keep, member, IsDistinct, Dict, get, put, keys, get-put, map_option,
}
use omegahive.Board.Reducer.{
  is_pruned, is_done, has_key, is_waiting, active_deps, settle, derive_join, derive_one,
  derive_loop, derive, derive_at,
}
use omegahive.Board.State.{created, ready, reopened, TaskState, Board, resolve_k}

-- Two boards of tasks that the readiness pass cannot tell apart.
abbrev Similar : Dict TaskState → Dict TaskState → Type 0
Similar a b =
    (d : String)
    → (is_pruned a d ≡ is_pruned b d) × (is_done a d ≡ is_done b d) × (has_key a d ≡ has_key b d)

module _ (a b : Dict TaskState) (h : Similar a b) where
  active_deps-congr : (ts : TaskState) → active_deps a ts ≡ active_deps b ts
  unfolding active_deps
  active_deps-congr ts = keep-congr _ _ ts.depends_on (λ d. ap not (h d).0)

  derive_join-congr :
      (deps : List String) (ts : TaskState) → derive_join deps a ts ≡ derive_join deps b ts
  unfolding derive_join
  derive_join-congr [] ts = refl
  derive_join-congr (d ∷ deps) ts = cc (
    active_deps-congr ts,
    count_if-congr (has_key a) (has_key b) (active_deps b ts) (λ x. (h x).2),
    count_if-congr (is_done a) (is_done b) (active_deps b ts) (λ x. (h x).1),
  )

  derive_one-congr : (ts : TaskState) → derive_one a ts ≡ derive_one b ts
  unfolding derive_one
  derive_one-congr ts = cc (derive_join-congr ts.depends_on ts)

-- What the readiness pass leaves alone, and the one status that it gives.
pub record Refreshed (ts ts' : TaskState) : Type 0 where
  pub owner : ts'.owner ≡ ts.owner
  pub pruned : ts'.pruned ≡ ts.pruned
  pub depends_on : ts'.depends_on ≡ ts.depends_on
  pub latest_review : ts'.latest_review ≡ ts.latest_review
  pub ready_when : ts'.ready_when ≡ ts.ready_when
  pub status :
      (ts'.status ≡ ts.status)
      ⊎ (ts'.status ≡ ready) × ((ts.status ≡ created) ⊎ (ts.status ≡ reopened))

derive_join-Refreshed :
    (deps : List String) (tasks : Dict TaskState) (ts : TaskState)
    → is_waiting ts ≡ true
    → Refreshed ts (derive_join deps tasks ts)
unfolding derive_join settle
derive_join-Refreshed [] tasks ts h = ground arith
derive_join-Refreshed (d ∷ deps) tasks ts h = ground arith

pub derive_one-Refreshed :
    (tasks : Dict TaskState) (ts : TaskState) → Refreshed ts (derive_one tasks ts)
unfolding derive_one
derive_one-Refreshed tasks ts = ground (arith, derive_join-Refreshed ts.depends_on tasks ts)

-- One turn of the loop keeps the board similar.
put-Similar :
    (a cur : Dict TaskState) (t : String) (ts ts' : TaskState)
    → Similar a cur
    → get t cur ≡ some ts
    → Refreshed ts ts'
    → Similar a (put t ts' cur)
unfolding is_pruned is_done
put-Similar a cur t ts ts' h e r d = ground (arith, h d, get-put t d ts' cur, ==_iff t d)

derive_at-Similar :
    (a cur : Dict TaskState) (t : String) → Similar a cur → Similar a (derive_at cur t (get t cur))
derive_at-Similar a cur t h = elim (Option-cases (get t cur)) [
  | inl e ↦ rw e h
  | inr (ts, e) ↦
      rw e (put-Similar a cur t ts (derive_one cur ts) h e (derive_one-Refreshed cur ts))
]

get-derive_at :
    (a cur : Dict TaskState) (t j : String)
    → Similar a cur
    → get t cur ≡ get t a
    → get j (derive_at cur t (get t cur))
      ≡ (if t == j then map_option (derive_one a) (get j a) else get j cur)
get-derive_at a cur t j h e = elim (Option-cases (get t cur)) [
  | inl absent ↦ rw absent (ground (arith, ==_iff t j))
  | inr (ts, found) ↦
      rw found (
        ground
          (arith, ==_iff t j, get-put t j (derive_one cur ts) cur, derive_one-congr a cur h ts))
]

-- The loop over some keys refreshes their tasks and leaves the others.
get-derive_loop :
    (a : Dict TaskState) (ts : List String) (cur : Dict TaskState) (j : String)
    → IsDistinct ts
    → Similar a cur
    → ((i : String) → member i ts ≡ true → get i cur ≡ get i a)
    → get j (derive_loop ts cur)
      ≡ (if member j ts then map_option (derive_one a) (get j a) else get j cur)
unfolding derive_loop member
get-derive_loop a [] cur j distinct h same = refl
get-derive_loop a (t ∷ ts) cur j distinct h same =
    let cur' = derive_at cur t (get t cur) in
    let same_t : get t cur ≡ get t a = same t (ground (arith, ==_iff t t)) in
    get-derive_loop a ts cur' j distinct.1 (derive_at-Similar a cur t h)
      (λ i m. get-derive_at a cur t i h same_t ∙ ground (arith, ==_iff t i, same i, distinct.0))
    ∙ ground (arith, get-derive_at a cur t j h same_t, ==_iff t j, ==_iff j t)

-- The readiness pass gives each task of the board what `derive_one` makes of it on the board as
-- the events left it, so the order of the loop does not matter.
pub get-derive :
    (b : Board) (j : String)
    → IsDistinct (keys b.tasks)
    → get j (derive b).tasks ≡ map_option (derive_one b.tasks) (get j b.tasks)
unfolding derive
get-derive b j distinct =
    get-derive_loop b.tasks (keys b.tasks) b.tasks j distinct (λ d. (refl, refl, refl))
      (λ i m. refl)
    ∙ ground (arith, member-keys j b.tasks)

-- The dependencies that are done and not pruned.
abbrev pub done_deps : Board → TaskState → ℕ
done_deps b ts = count_if (λ d. not (is_pruned b.tasks d) && is_done b.tasks d) ts.depends_on

derive_join-ready :
    (deps : List String) (b : Board) (ts : TaskState)
    → is_waiting ts ≡ true
    → ts.depends_on ≡ deps
    → ((derive_join deps b.tasks ts).status ≡ ready)
      ↔ ((deps ≡ []) ⊎ (resolve_k ts ≤ done_deps b ts))
unfolding derive_join settle active_deps
derive_join-ready [] b ts h e = (λ _. inl refl, λ _. refl)
derive_join-ready (d ∷ deps) b ts h e =
    let n = count_if-keep (is_done b.tasks) (λ x. not (is_pruned b.tasks x)) ts.depends_on in
    ground (arith, n)

-- A task that waits is made ready exactly when it has no dependencies, or at least k of them are
-- done and not pruned.
pub derive-ready_iff :
    (b : Board) (t : String) (ts : TaskState)
    → IsDistinct (keys b.tasks)
    → get t b.tasks ≡ some ts
    → is_waiting ts ≡ true
    → (map_option (λ s. s.status) (get t (derive b).tasks) ≡ some ready)
      ↔ ((ts.depends_on ≡ []) ⊎ (resolve_k ts ≤ done_deps b ts))
unfolding derive_one
derive-ready_iff b t ts distinct found waits =
    let ready_iff = derive_join-ready ts.depends_on b ts waits refl in
    ground (arith, get-derive b t distinct, ready_iff)
