-- ===== src/Sim/Planning/Phases.antt =====
-- The four loops of a plan's emits, each before what follows it.
use omegahive.Base.{
  ℕ, suc, String, ◌≡◌, refl, ap, ◌∙◌, inl, inr, true, false, ◌||◌, none, some, List, [], ◌∷◌, ◌++◌,
  arith, ◌==◌, ==_iff, ==_refl, is_some, Bool-cases, Option-cases, length, member, add, member-add,
  IsDistinct, Dict, get, keys, get-put,
}
use omegahive.Board.Legality.{put_task, new_task, g_created, rules, lookup}
use omegahive.Board.Reducer.{derive}
use omegahive.Board.State.{TaskState, Board, change}
use omegahive.Events.Envelope.{
  planner, Actor, task_created, dependency_added, worker_registered, priority_set, tag, same_type,
  Uuid, Event,
}
use omegahive.Events.Json.{text, end, field, get_field, as_int, get_int}
use omegahive.Events.Types.{schema}
use omegahive.Gateway.Policy.{may_emit}
use omegahive.Sim.Coordinator.{Emit}
use omegahive.Sim.Planning.Payloads.{
  asked_join, task_payload-HasModel, priority-HasModel, worker-HasModel, dependency-HasModel, sets,
  sets_join,
}
use omegahive.Sim.Planning.Single.{
  Made, IsFaithful, AllTaken, gate-planner, apply-rule, register-passes, needs_task-passes,
  registers, creates, changed-taken, prioritized, depending, prioritizes, depends,
}
use omegahive.Sim.Scenario.{
  TaskSpec, Priority, priority_text, task_names, refs_known, all_known, dep_ids, fits_join,
  joins_fit, planned, worker_emits, int_or_null, task_payload, task_emits, dependency_emits,
  priority_emits,
}

-- The board knows each of the ids.
abbrev pub Knows : List String → Board → Type 0
Knows ids b = (t : String) → member t ids ≡ true → is_some (get t b.tasks) ≡ true

-- With the dependencies that are still to come, every join has enough of them.
pub record JoinsFit (deps : List (String × String)) (b : Board) : Type 0 where
  pub at :
      (t : String) (s : TaskState)
      → get t b.tasks ≡ some s
      → fits_join s.ready_when (length (dep_ids deps t s.depends_on)) ≡ true

-- A write of a task that fits keeps the others.
put-JoinsFit :
    (deps deps' : List (String × String)) (b : Board) (t : String) (s : TaskState)
    → JoinsFit deps b
    → ((u : String) (before : List String)
        → (t == u) ≡ false
        → dep_ids deps' u before ≡ dep_ids deps u before)
    → fits_join s.ready_when (length (dep_ids deps' t s.depends_on)) ≡ true
    → JoinsFit deps' (put_task t s b)
put-JoinsFit deps deps' b t s fit same here = record {
  at = λ u v e. elim (Bool-cases (t == u)) [
    | inl is_t ↦ ground (arith, get-put t u s b.tasks, ==_iff t u)
    | inr other ↦ ground (arith, get-put t u s b.tasks, fit.at u v, same u v.depends_on other)
  ];
}

put-Knows :
    (ids : List String) (b : Board) (t : String) (s : TaskState)
    → Knows ids b
    → Knows ids (put_task t s b)
put-Knows ids b t s knows j h = ground (arith, get-put t j s b.tasks, knows j)

created-fits :
    (deps : List (String × String)) (t : TaskSpec) (ev : Event)
    → get_field "ready_when" ev.payload ≡ some (int_or_null t.ready_when)
    → fits_join t.ready_when (length (dep_ids deps t.id [])) ≡ true
    → fits_join
        (new_task t.id ev).ready_when
        (length (dep_ids deps t.id (new_task t.id ev).depends_on))
      ≡ true
unfolding new_task get_int
created-fits deps t ev is_p h =
    let asked = ap as_int is_p ∙ asked_join t in
    ap (λ k. fits_join k (length (dep_ids deps t.id []))) asked ∙ h

module _ (made : Made) (faithful : IsFaithful made) (a : Actor) (plans : a.role ≡ planner)
    (Q : Board → Type 0) where
  pub workers-taken :
      (ws : List String) (goal : Uuid) (n : ℕ) (b : Board) (rest : List Emit)
      → IsDistinct ws
      → ((w : String) → member w ws ≡ true → member w b.roster ≡ false)
      → ((m : ℕ) (c : Board) → c.tasks ≡ b.tasks → AllTaken made a Q m c rest)
      → AllTaken made a Q n b (worker_emits goal ws ++ rest)
  unfolding worker_emits may_emit lookup rules same_type tag member schema ◌==◌
  workers-taken [] goal n b rest once new after = after n b refl
  workers-taken (w ∷ ws) goal n b rest once new after =
      let p = field "worker_id" (text w) end in
      let e = planned worker_registered p none (some goal) in
      let c : Board = record b { roster = add w b.roster } in
      let new_w = new w (ground (arith, ==_refl w)) in
      (
        c,
        worker-HasModel w,
        gate-planner (derive b) a worker_registered p none _ plans refl refl
            (register-passes b a w new_w),
        apply-rule b c (made n e) worker_registered _ (faithful.keeps_type n e) refl (
            registers b (made n e) w (
              faithful.keeps_fields n e "worker_id" (text w) refl (worker-HasModel w) refl
                (sets "worker_id" (text w) end))),
        workers-taken ws goal (suc n) c rest once.1
            (λ v h. ground (arith, new v, member-add v w b.roster, ==_iff v w, once.0)) after,
      )

  pub tasks-taken :
      (deps : List (String × String)) (ts : List TaskSpec) (goal : Uuid) (n : ℕ) (b : Board)
      (rest : List Emit)
      → joins_fit deps ts ≡ true
      → JoinsFit deps b
      → ((m : ℕ) (c : Board)
          → JoinsFit deps c
          → ((t : String)
              → (member t (task_names ts) || is_some (get t b.tasks)) ≡ true
              → is_some (get t c.tasks) ≡ true)
          → AllTaken made a Q m c rest)
      → AllTaken made a Q n b (task_emits goal ts ++ rest)
  unfolding task_emits task_names joins_fit may_emit lookup rules same_type tag member g_created
      schema ◌==◌
  tasks-taken deps [] goal n b rest h fit after = after n b fit (λ t known_t. ground arith)
  tasks-taken deps (t ∷ ts) goal n b rest h fit after =
      let e = planned task_created (task_payload t) (some t.id) (some goal) in
      let ev = made n e in
      let s = change ev (new_task t.id ev) in
      let model = task_payload-HasModel t (length (dep_ids deps t.id [])) (ground arith) in
      (
        put_task t.id s b,
        model,
        gate-planner (derive b) a task_created (task_payload t) (some t.id) _ plans refl refl refl,
        apply-rule b (put_task t.id s b) ev task_created _ (faithful.keeps_type n e) refl
            (creates b ev t.id (faithful.keeps_task n e)),
        tasks-taken deps ts goal (suc n) (put_task t.id s b) rest (ground arith)
            (put-JoinsFit deps deps b t.id s fit (λ u before other. refl)
              (created-fits deps t ev
                (faithful.keeps_fields n e "ready_when" (int_or_null t.ready_when) refl model refl
                  (sets_join t))
                (ground arith)))
            (λ m d fits knows. after m d fits (λ u seen_u.
              ground (arith, knows u, ==_iff u t.id, ==_iff t.id u, get-put t.id u s b.tasks))),
      )

  pub priorities-taken :
      (created_by : Dict Uuid) (prios : Dict Priority) (ids : List String)
      → ((t : String) → member t ids ≡ true → is_some (get t created_by) ≡ true)
      → all_known ids (keys prios) ≡ true
      → (es : List Emit) × (priority_emits created_by prios ≡ some es)
        × ((m : ℕ) (c : Board)
            → Knows ids c
            → JoinsFit [] c
            → ((d : Board) → JoinsFit [] d → Q d)
            → AllTaken made a Q m c es)
  unfolding priority_emits all_known keys may_emit lookup rules same_type tag schema member ◌==◌
  priorities-taken created_by [] ids has h = ([], refl, λ m c knows fit after. after c fit)
  priorities-taken created_by ((t, p) ∷ prios) ids has h =
      let (es, found, taken) = priorities-taken created_by prios ids has (ground arith) in
      elim (Option-cases (get t created_by)) [
        | inl absent ↦ absurd (ground (arith, has t))
        | inr (u, here) ↦
            let body = field "priority" (text (priority_text p)) end in
            let e = planned priority_set body (some t) (some u) in
            (
              e ∷ es,
              ground arith,
              λ m c knows fit after.
                  changed-taken made faithful a plans Q m c e t _
                    (prioritized (made m e) (priority_text p)) es refl refl (priority-HasModel p)
                    refl refl (needs_task-passes c a body t (knows t (ground arith)))
                    (knows t (ground arith))
                    (λ s there.
                      prioritizes c (made m e) t (priority_text p) s (faithful.keeps_task m e)
                        (faithful.keeps_fields m e "priority" (text (priority_text p)) refl
                          (priority-HasModel p) refl (sets "priority" (text (priority_text p)) end))
                        there)
                    (λ s there.
                      let c' = prioritized (made m e) (priority_text p) s in
                      taken (suc m) (put_task t c' c) (put-Knows ids c t c' knows)
                        (put-JoinsFit [] [] c t c' fit (λ v before other. refl) (fit.at t s there))
                        after),
            )
      ]

  pub dependencies-taken :
      (created_by : Dict Uuid) (deps : List (String × String)) (ids : List String)
      → ((t : String) → member t ids ≡ true → is_some (get t created_by) ≡ true)
      → refs_known ids deps ≡ true
      → (es : List Emit) × (dependency_emits created_by deps ≡ some es)
        × ((m : ℕ) (c : Board) (rest : List Emit)
            → Knows ids c
            → JoinsFit deps c
            → ((k : ℕ) (d : Board) → Knows ids d → JoinsFit [] d → AllTaken made a Q k d rest)
            → AllTaken made a Q m c (es ++ rest))
  unfolding dependency_emits refs_known may_emit lookup rules same_type tag dep_ids schema member
      ◌==◌
  dependencies-taken created_by [] ids has h =
      ([], refl, λ m c rest knows fit after. after m c knows fit)
  dependencies-taken created_by ((t, on) ∷ deps) ids has h =
      let (es, found, taken) = dependencies-taken created_by deps ids has (ground arith) in
      elim (Option-cases (get t created_by)) [
        | inl absent ↦ absurd (ground (arith, has t))
        | inr (u, here) ↦
            let body = field "depends_on" (text on) end in
            let e = planned dependency_added body (some t) (some u) in
            (
              e ∷ es,
              ground arith,
              λ m c rest knows fit after.
                  changed-taken made faithful a plans Q m c e t _ (depending (made m e) on)
                    (es ++ rest) refl refl (dependency-HasModel on) refl refl
                    (needs_task-passes c a body t (knows t (ground arith))) (knows t (ground arith))
                    (λ s there.
                      depends c (made m e) t on s (faithful.keeps_task m e)
                        (faithful.keeps_fields m e "depends_on" (text on) refl
                          (dependency-HasModel on) refl (sets "depends_on" (text on) end))
                        there)
                    (λ s there.
                      let s' = depending (made m e) on s in
                      taken (suc m) (put_task t s' c) rest (put-Knows ids c t s' knows)
                        (put-JoinsFit ((t, on) ∷ deps) deps c t s' fit
                          (λ v before other. ground arith)
                          (ground (arith, fit.at t s there, ==_refl t)))
                        after),
            )
      ]
