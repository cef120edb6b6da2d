-- ===== src/Notifier/Service.antt =====
-- src/omegahive/notifier/service.py: one tick of the notifier.
use omegahive.Base.{
  ℕ, String, Bool, true, false, ◌&&◌, Option, none, some, List, [], ◌∷◌, ◌++◌, ltb, leb,
  if◌then◌else◌, ◌>>=◌, length, sort_by, Dict, get, put,
}
use omegahive.Events.Envelope.{Event}
use omegahive.Notifier.Cursor.{RunCursor, File, save}
use omegahive.Notifier.Heartbeat.{RunHeartbeat, observe, PortfolioHeartbeat, on_run, RunDelta}
use omegahive.Notifier.Triggers.{Notification, notification_from}
use omegahive.Port.Session.{PortView}

-- `NotifierService`: what is kept in memory, and the state file.
pub record Service : Type 0 where
  pub cursors : Dict RunCursor
  pub tallies : PortfolioHeartbeat
  pub heads : Dict (Option ℕ)
  pub followed : List String
  pub file : File

pub record Config : Type 0 where
  pub batch_threshold : ℕ
  pub heartbeat_hour : ℕ
  -- whether the transport sends bursts as one summary
  pub summarises : Bool

-- The spine reader in one tick; `none` is an exception of the database.
pub record Reader : Type 0 where
  pub run_ids : Option (List String)
  pub read : String → Option ℕ → Option ℕ → Option PortView

-- What happens to a message: `refused` is a permanent failure, `failed` a transient one, which
-- raises.
pub data Outcome : Type 0 where
  delivered refused failed : Outcome

-- The transport in one tick.
pub record Transport : Type 0 where
  pub event : Notification → Outcome
  pub summary : List Notification → Outcome
  pub heartbeat : String → List RunDelta → List (String × String × ℕ) → Outcome

-- Every save writes the cursors and the tallies together.
abbrev pub saved : Service → Service
saved s = record s { file = save s.cursors (some s.tallies) s.file }

abbrev pub set_head : ℕ → RunHeartbeat → RunHeartbeat
set_head n hb = record hb { head = some n }

abbrev pub seed_head : ℕ → RunHeartbeat → RunHeartbeat
seed_head n hb = elim hb.head [ none ↦ set_head n hb | some m ↦ hb ]

-- The cursor and the head of a run are set to those of a full read.
abbrev pub at_view : String → PortView → (RunHeartbeat → RunHeartbeat) → Service → Service
at_view run v f s = saved (record s {
  cursors = put run (record { cursor = some v.cursor; generation = v.generation }) s.cursors;
  heads = put run (some v.cursor) s.heads;
  tallies = on_run run f s.tallies;
})

-- `_arm`
unfoldable pub arm : Reader → String → Service → Option Service
arm r run s = r.read run none none >>= λ v. some (at_view run v (seed_head v.cursor) s)

-- `_rebaseline`
unfoldable pub rebaseline : Reader → String → Service → Option Service
rebaseline r run s = r.read run none none >>= λ v. some (at_view run v (set_head v.cursor) s)

-- A clean read: its generation is adopted and its head noted.
abbrev pub clean : String → RunCursor → PortView → Service → Service
clean run rc v s = record s {
  cursors = put run (record { cursor = rc.cursor; generation = v.generation }) s.cursors;
  heads = put run (some v.cursor) s.heads;
}

abbrev pub silent : Service → Service × Option PortView
silent s = (s, none)

-- One turn of the loop over the runs: the view that is pending, if its read shows a change.
unfoldable pub visit : Reader → String → Service → Option (Service × Option PortView)
unfolding arm rebaseline
visit r run s = elim (get run s.cursors) [
  | none ↦ arm r run s >>= λ s'. some (silent s')
  | some rc ↦ r.read run rc.cursor rc.generation >>= λ v.
      if v.generation_mismatch
      then (rebaseline r run s >>= λ s'. some (silent s'))
      else some (clean run rc v s, if v.changed then some v else none)
]

pub record Scan : Type 0 where
  pub raised : Bool
  pub service : Service
  pub pending : List (String × PortView)

abbrev add_pending : String → Option PortView → List (String × PortView) → List (String × PortView)
add_pending run none ps = ps
add_pending run (some v) ps = (run, v) ∷ ps

-- The rest of the loop, after one turn.
abbrev pub after_visit :
    String → (Service → Scan) → Service → Option (Service × Option PortView) → Scan
after_visit run go s none = record { raised = true; service = s; pending = [] }
after_visit run go s (some (s', v)) =
    let rest = go s' in record rest { pending = add_pending run v rest.pending }

-- The loop over the runs.
unfoldable pub scan : Reader → List String → Service → Scan
unfolding visit
scan r [] s = record { raised = false; service = s; pending = [] }
scan r (run ∷ runs) s = after_visit run (scan r runs) s (visit r run s)

unfoldable pub notes : List Event → List Notification
unfolding notification_from
notes [] = []
notes (ev ∷ evs) = elim (notification_from ev) [ none ↦ notes evs | some n ↦ n ∷ notes evs ]

abbrev all_notes : List (String × PortView) → List Notification
all_notes [] = []
all_notes ((run, v) ∷ ps) = notes v.events ++ all_notes ps

abbrev pub seq_of : Notification → ℕ
seq_of n = elim n.seq [ none ↦ 0 | some k ↦ k ]

-- `triggers`, in the order of the log.
unfoldable pub triggers_of : List (String × PortView) → List Notification
unfolding notes
triggers_of ps = sort_by seq_of (all_notes ps)

-- `(old is None or s > old) and s <= seq`
unfoldable pub crosses : Option ℕ → ℕ → Event → Bool
crosses old seq ev =
    let s : ℕ = elim ev.seq [ none ↦ 0 | some k ↦ k ] in
    (elim old [ none ↦ true | some o ↦ ltb o s ]) && leb s seq

-- The tally of the events that a cursor crosses.
unfoldable pub observe_crossed : Option ℕ → ℕ → List Event → RunHeartbeat → RunHeartbeat
unfolding crosses
observe_crossed old seq [] hb = hb
observe_crossed old seq (ev ∷ evs) hb =
    observe_crossed old seq evs (if crosses old seq ev then observe ev hb else hb)

abbrev pub cursor_of : String → Service → Option ℕ
cursor_of run s = elim (get run s.cursors) [ none ↦ none | some rc ↦ rc.cursor ]

abbrev pub is_behind : ℕ → Option ℕ → Bool
is_behind seq none = false
is_behind seq (some old) = leb seq old

-- The write of `_commit`.
abbrev pub commit_at : String → ℕ → PortView → Option ℕ → Service → Service
commit_at run seq v old s = saved (record s {
  cursors = put run (record { cursor = some seq; generation = v.generation }) s.cursors;
  tallies = on_run run (observe_crossed old seq v.events) s.tallies;
})

-- `_commit`
unfoldable pub commit : String → Option ℕ → PortView → Service → Service
unfolding observe_crossed
commit run none v s = s
commit run (some seq) v s =
    if is_behind seq (cursor_of run s) then s else commit_at run seq v (cursor_of run s) s

-- `_commit_all`
unfoldable pub commit_all : List (String × PortView) → Service → Service
unfolding commit
commit_all [] s = s
commit_all ((run, v) ∷ ps) s = commit_all ps (commit run (some v.cursor) v s)

-- The end of a poll: the state, whether it raised, and the messages that were tried, with what
-- happened to each.
pub record Polled : Type 0 where
  pub raised : Bool
  pub service : Service
  pub tried : List (Notification × Outcome)
  pub surfaced : ℕ

abbrev pub raise_with : Service → Polled
raise_with s = record { raised = true; service = s; tried = []; surfaced = 0 }

abbrev pub end_with : List (String × PortView) → Service → Polled
end_with ps s = record { raised = false; service = commit_all ps s; tried = []; surfaced = 0 }

-- The messages of a tick one by one, each cursor advancing with them. A run without a pending view
-- is the KeyError of `views[n.run_id]`.
unfoldable pub send_each :
    Transport → List (String × PortView) → List Notification → Service → Polled
unfolding commit commit_all
send_each out ps [] s = end_with ps s
send_each out ps (n ∷ ns) s = elim (out.event n) [
  | failed ↦ record (raise_with s) { tried = (n, failed) ∷ [] }
  | o ↦ (elim (get n.run_id ps) [
    | none ↦ record (raise_with s) { tried = (n, o) ∷ [] }
    | some v ↦
        let rest = send_each out ps ns (commit n.run_id n.seq v s) in
        record rest { tried = (n, o) ∷ rest.tried }
  ])
]

abbrev each_as : Outcome → List Notification → List (Notification × Outcome)
each_as o [] = []
each_as o (n ∷ ns) = (n, o) ∷ each_as o ns

-- A burst as one summary.
unfoldable pub send_summary :
    Transport → List (String × PortView) → List Notification → Service → Polled
unfolding commit_all
send_summary out ps ns s = elim (out.summary ns) [
  | failed ↦ record (raise_with s) { tried = each_as failed ns }
  | o ↦ record (end_with ps s) { tried = each_as o ns }
]

unfoldable pub send_all :
    Config → Transport → List (String × PortView) → List Notification → Service → Polled
unfolding send_summary send_each
send_all c out ps [] s = end_with ps s
send_all c out ps (n ∷ ns) s =
    let p : Polled =
      if c.summarises && leb c.batch_threshold (length (n ∷ ns))
      then send_summary out ps (n ∷ ns) s
      else send_each out ps (n ∷ ns) s in
    record p { surfaced = length (n ∷ ns) }

-- `poll_once`
unfoldable pub poll_once : Config → Reader → Transport → Service → Polled
unfolding scan triggers_of send_all
poll_once c r out s = elim r.run_ids [
  | none ↦ raise_with s
  | some runs ↦
      let sc = scan r runs (record s { followed = runs }) in
      elim sc.raised [
        | true ↦ raise_with sc.service
        | false ↦ send_all c out sc.pending (triggers_of sc.pending) sc.service
      ]
]
