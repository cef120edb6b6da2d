-- ===== src/Board/Pruning.antt =====
-- `_g_prune` and `_e_pruned`: a prune that the gate lets through takes no join below its k.
mod Counting
use omegahive.Base.{
  suc, ◌≤◌, String, ◌≡◌, refl, inl, inr, true, false, ◌||◌, none, some, [], ◌∷◌, arith, ◌==◌,
  ==_iff, if◌then◌else◌, Bool-cases, Option-cases, length, length-keep, keep-congr, member,
  IsDistinct, Dict, get, values, keys, get-put,
}
use omegahive.Board.Legality.{
  on_task, e_pruned, is_live, live_deps, breaks_join, first_broken_join, g_prune,
}
use omegahive.Board.Pruning.Counting.{count-le_of_absent, count-le_suc}
use omegahive.Board.Reducer.{derive_one, derive}
use omegahive.Board.Reducer.Readiness.{Refreshed, derive_one-Refreshed, get-derive}
use omegahive.Board.State.{done, cancelled, TaskState, Board, is_status, resolve_k, stamp}
use omegahive.Events.Envelope.{Actor, Event}
use omegahive.Events.Json.{Payload}

-- One more look at the loop: with no broken join, no task that is found is one.
none_broken :
    (b : Board) (t u : String) (ts : TaskState) (d : Dict TaskState)
    → first_broken_join b t (values d) ≡ none
    → get u d ≡ some ts
    → breaks_join b t ts ≡ false
unfolding first_broken_join values get
none_broken b t u ts [] h e = absurd (cc)
none_broken b t u ts ((j, v) ∷ d) h e = ground (arith, none_broken b t u ts d)

module _ (b : Board) (distinct : IsDistinct (keys b.tasks)) where
  is_live-derive : (d : String) → is_live (derive b) d ≡ is_live b d
  unfolding is_live
  is_live-derive d = elim (Option-cases (get d b.tasks)) [
    | inl absent ↦ ground (arith, get-derive b d distinct)
    | inr (ts, found) ↦
        ground (arith, get-derive b d distinct, (derive_one-Refreshed b.tasks ts).pruned)
  ]

  live_deps-derive :
      (ts ts' : TaskState) → Refreshed ts ts' → live_deps (derive b) ts' ≡ live_deps b ts
  unfolding live_deps
  live_deps-derive ts ts' r = rw r.depends_on (keep-congr _ _ ts.depends_on is_live-derive)

  resolve_k-derive : (ts ts' : TaskState) → Refreshed ts ts' → resolve_k ts' ≡ resolve_k ts
  unfolding resolve_k
  resolve_k-derive ts ts' r = rw (r.depends_on, r.ready_when) refl

  -- What the guard says of a dependent that can be satisfied.
  prune_room :
      (a : Actor) (p : Payload) (t u : String) (ts : TaskState)
      → g_prune (derive b) a p (some t) ≡ none
      → get u b.tasks ≡ some ts
      → ts.pruned ≡ false
      → member t ts.depends_on ≡ true
      → resolve_k ts ≤ length (live_deps b ts)
      → suc (resolve_k ts) ≤ length (live_deps b ts)
  unfolding g_prune breaks_join
  prune_room a p t u ts g e unpruned has k =
      let r = derive_one-Refreshed b.tasks ts in
      let ts' = derive_one b.tasks ts in
      let shown : get u (derive b).tasks ≡ some ts' = rw (get-derive b u distinct, e) refl in
      let loop : first_broken_join (derive b) t (values (derive b).tasks) ≡ none = ground arith in
      let safe = none_broken (derive b) t u ts' (derive b).tasks loop shown in
      ground
        (arith, safe, r.depends_on, r.pruned, live_deps-derive ts ts' r, resolve_k-derive ts ts' r)

-- A live dependency other than the pruned task stays live.
is_live-pruned :
    (b b' : Board) (ev : Event) (t d : String)
    → ev.task_id ≡ some t
    → e_pruned b ev ≡ some b'
    → is_live b d ≡ true
    → (d == t) ≡ false
    → is_live b' d ≡ true
unfolding e_pruned on_task is_live
is_live-pruned b b' ev t d named x live ne = elim (Option-cases (get t b.tasks)) [
  | inl absent ↦ ground arith
  | inr (ts, found) ↦
      let there =
        if is_status ts.status done || is_status ts.status cancelled
        then ts
        else stamp ev (record ts { pruned = true }) in
      ground (arith, get-put t d there b.tasks, ==_iff t d, ==_iff d t)
]

-- A prune that the gate lets through leaves every join that could be satisfied so: a task that is
-- not pruned, whose live dependencies numbered its k or more, keeps k of them or more.
pub prune_keeps_joins :
    (b b' : Board) (ev : Event) (t u : String) (ts : TaskState)
    → IsDistinct (keys b.tasks)
    → IsDistinct ts.depends_on
    → ev.task_id ≡ some t
    → g_prune (derive b) ev.actor ev.payload (some t) ≡ none
    → e_pruned b ev ≡ some b'
    → get u b.tasks ≡ some ts
    → ts.pruned ≡ false
    → resolve_k ts ≤ length (live_deps b ts)
    → resolve_k ts ≤ length (live_deps b' ts)
unfolding live_deps
prune_keeps_joins b b' ev t u ts distinct once named g x found unpruned k =
    let deps = ts.depends_on in
    let before = length-keep (is_live b) deps in
    let after = length-keep (is_live b') deps in
    let kept : (d : String) → is_live b d ≡ true → (d == t) ≡ false → is_live b' d ≡ true =
      λ d. is_live-pruned b b' ev t d named x in
    elim (Bool-cases (member t deps)) [
      | inl has ↦ omega (
        arith,
        before,
        after,
        count-le_suc (is_live b) (is_live b') t kept deps once,
        prune_room b distinct ev.actor ev.payload t u ts g found unpruned has k,
      )
      | inr lacks ↦
          omega
            (arith, before, after, count-le_of_absent (is_live b) (is_live b') t kept deps lacks)
    ]
