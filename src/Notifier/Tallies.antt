-- ===== src/Notifier/Tallies.antt =====
-- The tallies of the heartbeat: each event is counted once, however the cursor gets past it.
use omegahive.Base.{
  ℕ, ◌≤◌, ◌<◌, String, ◌≡◌, refl, ap, ◌∙◌, subst, ◌⊎◌, inl, inr, false, Option, none, some, List,
  [], ◌∷◌, arith, ◌==◌, if◌then◌else◌, Bool-cases, Dict, get, put, get-put_self, put-put,
}
use omegahive.Events.Envelope.{Event}
use omegahive.Events.Json.{Json, obj, field, get_field}
use omegahive.Notifier.Cursor.{RunCursor, File, blob, cursors_json, keep_threads, save}
use omegahive.Notifier.Heartbeat.{
  RunHeartbeat, observe, PortfolioHeartbeat, or_new, on_run, to_dict,
}
use omegahive.Notifier.Service.{
  Service, crosses, observe_crossed, cursor_of, is_behind, commit_at, commit,
}
use omegahive.Port.Session.{PortView}

-- Events in the order of the log.
abbrev pub InOrder : ℕ → List Event → Type 0
InOrder low [] = Unit {0}
InOrder low (ev ∷ evs) = (k : ℕ) × (ev.seq ≡ some k) × (low ≤ k) × InOrder k evs

crosses_after :
    (old : Option ℕ) (a k : ℕ) (ev : Event) → ev.seq ≡ some k → a < k → crosses old a ev ≡ false
unfolding crosses
crosses_after none a k ev has lt = ground arith
crosses_after (some o) a k ev has lt = ground arith

-- Events after the cursor are not crossed by it.
none_crossed :
    (old : Option ℕ) (a low : ℕ) (evs : List Event) (hb : RunHeartbeat)
    → a < low
    → InOrder low evs
    → observe_crossed old a evs hb ≡ hb
unfolding observe_crossed
none_crossed old a low [] hb lt asc = refl
none_crossed old a low (ev ∷ evs) hb lt (k, has, le, asc) =
    rw (crosses_after old a k ev has (omega arith)) (none_crossed old a k evs hb (omega arith) asc)

-- An event beyond `a` is crossed from `a` as it is from before `a`.
crosses_from :
    (old : Option ℕ) (a b k : ℕ) (ev : Event)
    → ev.seq ≡ some k
    → is_behind a old ≡ false
    → a < k
    → crosses (some a) b ev ≡ crosses old b ev
unfolding crosses
crosses_from none a b k ev has newer lt = ground arith
crosses_from (some o) a b k ev has newer lt = ground arith

-- Beyond `a` the two bounds cross the same events.
same_crossed :
    (old : Option ℕ) (a b low : ℕ) (evs : List Event) (hb : RunHeartbeat)
    → is_behind a old ≡ false
    → a < low
    → InOrder low evs
    → observe_crossed (some a) b evs hb ≡ observe_crossed old b evs hb
unfolding observe_crossed
same_crossed old a b low [] hb newer lt asc = refl
same_crossed old a b low (ev ∷ evs) hb newer lt (k, has, le, asc) =
    rw (crosses_from old a b k ev has newer (omega arith)) (
      same_crossed old a b k evs (if crosses old b ev then observe ev hb else hb) newer
        (omega arith) asc)

-- An event up to `a` is not crossed from `a`.
crosses_before : (a b k : ℕ) (ev : Event) → ev.seq ≡ some k → k ≤ a → crosses (some a) b ev ≡ false
unfolding crosses
crosses_before a b k ev has le = ground arith

-- An event up to `a` is crossed to `a` as it is to a later bound.
crosses_to :
    (old : Option ℕ) (a b k : ℕ) (ev : Event)
    → ev.seq ≡ some k
    → k ≤ a
    → a ≤ b
    → crosses old a ev ≡ crosses old b ev
unfolding crosses
crosses_to none a b k ev has le lt = ground arith
crosses_to (some o) a b k ev has le lt = ground arith

le_or_lt : (k a : ℕ) → (k ≤ a) ⊎ (a < k)
le_or_lt k a = omega arith

-- Crossing up to `a` and then up to `b` counts what crossing up to `b` at once counts.
pub crossed-twice :
    (old : Option ℕ) (a b low : ℕ) (evs : List Event) (hb : RunHeartbeat)
    → is_behind a old ≡ false
    → a ≤ b
    → InOrder low evs
    → observe_crossed (some a) b evs (observe_crossed old a evs hb) ≡ observe_crossed old b evs hb
unfolding observe_crossed
crossed-twice old a b low [] hb newer le asc = refl
crossed-twice old a b low (ev ∷ evs) hb newer le (k, has, lk, asc) = elim (le_or_lt k a) [
  | inl before ↦ rw (crosses_before a b k ev has before) (
      rw (crosses_to old a b k ev has before le)
        (crossed-twice old a b k evs (if crosses old b ev then observe ev hb else hb) newer le asc))
  | inr after ↦ rw (crosses_after old a k ev has after) (
      rw (none_crossed old a k evs hb after asc) (
        rw (crosses_from old a b k ev has newer after) (
          same_crossed old a b k evs (if crosses old b ev then observe ev hb else hb) newer after
            asc)))
]

keep-keep : (j : Option Json) → keep_threads (get_field "threads" (keep_threads j)) ≡ keep_threads j
unfolding get_field ◌==◌
keep-keep none = refl
keep-keep (some (obj fs)) = refl
keep-keep (some _) = refl

-- A second write of the state file stands for both.
save-save :
    (d d' : Dict RunCursor) (hb hb' : PortfolioHeartbeat) (file : File)
    → save d (some hb) (save d' (some hb') file) ≡ save d (some hb) file
unfolding save get_field ◌==◌
save-save d d' hb hb' file =
    ap
      (λ fs.
        some (obj (field "runs" (obj (cursors_json d)) (field "heartbeat" (obj (to_dict hb)) fs))))
      (keep-keep (get_field "threads" (blob file)))

on_run-on_run :
    (run : String) (f g : RunHeartbeat → RunHeartbeat) (hb : PortfolioHeartbeat)
    → on_run run g (on_run run f hb) ≡ on_run run (λ x. g (f x)) hb
unfolding on_run
on_run-on_run run f g hb = λ i. record hb { runs = twice i }
  where
    twice :
        put run
          (g (or_new (get run (put run (f (or_new (get run hb.runs))) hb.runs))))
          (put run (f (or_new (get run hb.runs))) hb.runs)
        ≡ put run (g (f (or_new (get run hb.runs)))) hb.runs
    twice =
        rw (get-put_self run (f (or_new (get run hb.runs))) hb.runs)
          (put-put run (f (or_new (get run hb.runs))) (g (f (or_new (get run hb.runs)))) hb.runs)

module _ (run : String) (a b : ℕ) (v : PortView) (old : Option ℕ) (s : Service) where
  written-twice :
      is_behind a old ≡ false
      → a ≤ b
      → InOrder 0 v.events
      → commit_at run b v (some a) (commit_at run a v old s) ≡ commit_at run b v old s
  written-twice newer le asc =
      let crossed : (λ hb. observe_crossed (some a) b v.events (observe_crossed old a v.events hb))
          ≡ observe_crossed old b v.events =
        λ i hb. crossed-twice old a b 0 v.events hb newer le asc i in
      let tallied =
        on_run-on_run run (observe_crossed old a v.events) (observe_crossed (some a) b v.events)
          s.tallies
        ∙ ap (λ f. on_run run f s.tallies) crossed in
      let at : ℕ → RunCursor = λ k. record { cursor = some k; generation = v.generation } in
      let put_twice = put-put run (at a) (at b) s.cursors in
      λ i. record s {
        cursors = put_twice i;
        tallies = tallied i;
        file =
            (save-save (put run (at b) (put run (at a) s.cursors)) (put run (at a) s.cursors)
                  (on_run run (observe_crossed (some a) b v.events)
                    (on_run run (observe_crossed old a v.events) s.tallies))
                  (on_run run (observe_crossed old a v.events) s.tallies) s.file
                ∙ (λ j. save (put_twice j) (some (tallied j)) s.file))
              i;
      }

abbrev cursor_in : Option RunCursor → Option ℕ
cursor_in rc = elim rc [ none ↦ none | some c ↦ c.cursor ]

moved-to :
    (run : String) (a : ℕ) (v : PortView) (s : Service)
    → cursor_of run (commit_at run a v (cursor_of run s) s) ≡ some a
moved-to run a v s =
    ap cursor_in
      (get-put_self run (record { cursor = some a; generation = v.generation }) s.cursors)

still_newer : (a b : ℕ) (old : Option ℕ) → is_behind a old ≡ false → a ≤ b → is_behind b old ≡ false
still_newer a b none newer le = refl
still_newer a b (some o) newer le = ground arith

not_behind : (a b : ℕ) → a < b → is_behind b (some a) ≡ false
not_behind a b lt = ground arith

-- A cursor that is moved to `a` and then, with the same view, to `b` is the cursor moved to `b` at
-- once, in the whole state of the service: the cursors, the tallies and the file. The events of
-- the view are in the order of the log, and `a` is not beyond `b`.
pub commit-commit :
    (run : String) (a b : ℕ) (v : PortView) (s : Service)
    → a ≤ b
    → InOrder 0 v.events
    → commit run (some b) v (commit run (some a) v s) ≡ commit run (some b) v s
unfolding commit
commit-commit run a b v s le asc = elim (Bool-cases (is_behind a (cursor_of run s))) [
  | inl old ↦ rw old refl
  | inr newer ↦ elim (le_or_lt b a) [
    | inl back ↦
        let same : a ≡ b = omega arith in
        subst (λ k. commit run (some k) v (commit run (some a) v s) ≡ commit run (some k) v s) same
          (rw newer (rw (moved-to run a v s) (ground arith)))
    | inr further ↦ rw newer (
        rw (moved-to run a v s) (
          rw (still_newer a b (cursor_of run s) newer le) (
            rw (not_behind a b further)
              (written-twice run a b v (cursor_of run s) s newer le asc))))
  ]
]
