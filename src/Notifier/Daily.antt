-- ===== src/Notifier/Daily.antt =====
-- The daily heartbeat over the turns of the notifier's loop.
use omegahive.Base.{
  ℕ, suc, ◌≤◌, String, ◌≡◌, Bool, refl, sym, ap, ◌∙◌, ◌⊎◌, inl, inr, true, false, ◌||◌, Option,
  none, some, List, [], ◌∷◌, arith, ltb, if◌then◌else◌, opt_eq, opt_eq_iff, Bool-cases,
  Option-cases, Dict, get,
}
use omegahive.Notifier.Beat.{
  Now, deltas_over, open_blocks, Beaten, no_beat, beat_with, send_rows, send_beat, maybe_heartbeat,
  tick, Turn, run_turns,
}
use omegahive.Notifier.Heartbeat.{
  RunHeartbeat, roll_run, PortfolioHeartbeat, on_run, roll_runs, roll, RunDelta,
}
use omegahive.Notifier.Service.{
  Service, Config, Reader, Outcome, delivered, refused, Transport, arm, rebaseline, visit, Scan,
  after_visit, scan, triggers_of, cursor_of, is_behind, commit, commit_all, send_each, send_summary,
  send_all, poll_once,
}
use omegahive.Notifier.Triggers.{Notification}
use omegahive.Port.Session.{PortView}

abbrev pub day_of : Service → Option String
day_of s = s.tallies.last_date

on_run_day :
    (run : String) (f : RunHeartbeat → RunHeartbeat) (hb : PortfolioHeartbeat)
    → (on_run run f hb).last_date ≡ hb.last_date
unfolding on_run
on_run_day run f hb = refl

roll_runs_day :
    (heads : Dict (Option ℕ)) (hb : PortfolioHeartbeat)
    → (roll_runs heads hb).last_date ≡ hb.last_date
unfolding roll_runs
roll_runs_day [] hb = refl
roll_runs_day ((run, head) ∷ heads) hb =
    roll_runs_day heads (on_run run (roll_run head) hb) ∙ on_run_day run (roll_run head) hb

commit_day :
    (run : String) (seq : Option ℕ) (v : PortView) (s : Service)
    → day_of (commit run seq v s) ≡ day_of s
unfolding commit on_run
commit_day run none v s = refl
commit_day run (some seq) v s = elim (Bool-cases (is_behind seq (cursor_of run s))) [
  | inl old ↦ rw old refl
  | inr newer ↦ rw newer refl
]

commit_all_day : (ps : List (String × PortView)) (s : Service) → day_of (commit_all ps s) ≡ day_of s
unfolding commit_all
commit_all_day [] s = refl
commit_all_day ((run, v) ∷ ps) s =
    commit_all_day ps (commit run (some v.cursor) v s) ∙ commit_day run (some v.cursor) v s

abbrev KeepsDay : Service → Option (Service × Option PortView) → Type 0
KeepsDay s none = Unit {0}
KeepsDay s (some (s', v)) = day_of s' ≡ day_of s

visit_day : (r : Reader) (run : String) (s : Service) → KeepsDay s (visit r run s)
unfolding visit arm rebaseline on_run
visit_day r run s = ground arith

after_visit_day :
    (run : String) (go : Service → Scan)
    → ((s : Service) → day_of (go s).service ≡ day_of s)
    → (s : Service) (o : Option (Service × Option PortView)) → KeepsDay s o
    → day_of (after_visit run go s o).service ≡ day_of s
after_visit_day run go h s none kept = refl
after_visit_day run go h s (some (s', v)) kept = h s' ∙ kept

scan_day :
    (r : Reader) (runs : List String) (s : Service) → day_of (scan r runs s).service ≡ day_of s
unfolding scan
scan_day r [] s = refl
scan_day r (run ∷ runs) s =
    after_visit_day run (scan r runs) (scan_day r runs) s (visit r run s) (visit_day r run s)

send_each_day :
    (out : Transport) (ps : List (String × PortView)) (ns : List Notification) (s : Service)
    → day_of (send_each out ps ns s).service ≡ day_of s
unfolding send_each
send_each_day out ps [] s = commit_all_day ps s
send_each_day out ps (n ∷ ns) s = elim (Option-cases (get n.run_id ps)) [
  | inl e ↦ ground arith
  | inr (v, e) ↦
      ground
        (arith, commit_day n.run_id n.seq v s, send_each_day out ps ns (commit n.run_id n.seq v s))
]

send_summary_day :
    (out : Transport) (ps : List (String × PortView)) (ns : List Notification) (s : Service)
    → day_of (send_summary out ps ns s).service ≡ day_of s
unfolding send_summary
send_summary_day out ps ns s = ground (arith, commit_all_day ps s)

send_all_day :
    (c : Config) (out : Transport) (ps : List (String × PortView)) (ns : List Notification)
    (s : Service)
    → day_of (send_all c out ps ns s).service ≡ day_of s
unfolding send_all
send_all_day c out ps [] s = commit_all_day ps s
send_all_day c out ps (n ∷ ns) s =
    ground (arith, send_each_day out ps (n ∷ ns) s, send_summary_day out ps (n ∷ ns) s)

poll_day :
    (c : Config) (r : Reader) (out : Transport) (s : Service)
    → day_of (poll_once c r out s).service ≡ day_of s
unfolding poll_once
poll_day c r out s = elim (Option-cases r.run_ids) [
  | inl e ↦ ground arith
  | inr (runs, e) ↦
      let s' : Service = record s { followed = runs } in
      let sc = scan r runs s' in
      ground (
        arith,
        scan_day r runs s',
        send_all_day c out sc.pending (triggers_of sc.pending) sc.service,
      )
]

-- The message went out, or was refused and dropped for good.
abbrev pub is_settled : Option Outcome → Bool
is_settled none = false
is_settled (some Outcome.failed) = false
is_settled (some delivered) = true
is_settled (some refused) = true

-- A call whose message is out or dropped has set the day; any other has left it.
abbrev SetsDay : Now → Service → Beaten → Type 0
SetsDay now s b =
    ((is_settled b.outcome ≡ true) × (day_of b.service ≡ some now.date))
    ⊎ ((is_settled b.outcome ≡ false) × (day_of b.service ≡ day_of s))

beat_with-SetsDay :
    (c : Config) (now : Now) (s : Service) (o : Outcome) → SetsDay now s (beat_with c now s o)
unfolding roll
beat_with-SetsDay c now s Outcome.failed = inr (refl, refl)
beat_with-SetsDay c now s delivered = inl (refl, roll_runs_day s.heads _)
beat_with-SetsDay c now s refused = inl (refl, roll_runs_day s.heads _)

send_rows-SetsDay :
    (c : Config) (now : Now) (out : Transport) (s : Service) (ds : List RunDelta)
    (rows : Option (List (String × String × ℕ)))
    → SetsDay now s (send_rows c now out s ds rows)
send_rows-SetsDay c now out s ds none = inr (refl, refl)
send_rows-SetsDay c now out s ds (some rows) =
    beat_with-SetsDay c now s (out.heartbeat now.date ds rows)

send_beat-SetsDay :
    (c : Config) (now : Now) (r : Reader) (out : Transport) (s : Service) (ds : List RunDelta)
    → SetsDay now s (send_beat c now r out s ds)
send_beat-SetsDay c now r out s [] = inr (refl, refl)
send_beat-SetsDay c now r out s (d ∷ ds) =
    send_rows-SetsDay c now out s (d ∷ ds) (open_blocks r now.seconds s.followed)

maybe_heartbeat-SetsDay :
    (c : Config) (now : Now) (r : Reader) (out : Transport) (s : Service)
    → SetsDay now s (maybe_heartbeat c now r out s)
unfolding maybe_heartbeat
maybe_heartbeat-SetsDay c now r out s =
    elim (Bool-cases (ltb now.hour c.heartbeat_hour || opt_eq (day_of s) (some now.date))) [
      | inl e ↦ rw e (inr (refl, refl))
      | inr e ↦ rw e (send_beat-SetsDay c now r out s (deltas_over s s.followed))
    ]

quiet_day :
    (c : Config) (now : Now) (r : Reader) (out : Transport) (s : Service)
    → day_of s ≡ some now.date
    → maybe_heartbeat c now r out s ≡ no_beat s
unfolding maybe_heartbeat
quiet_day c now r out s e = ground (arith, opt_eq_iff (day_of s) (some now.date))

-- The turns whose heartbeat went out or was dropped, by what the transport answered.
abbrev pub beats : List Beaten → ℕ
beats [] = 0
beats (b ∷ bs) = if is_settled b.outcome then suc (beats bs) else beats bs

-- Every turn is on the date.
abbrev pub AreOn : String → List Turn → Type 0
AreOn date [] = Unit {0}
AreOn date (t ∷ ts) = (t.now.date ≡ date) × AreOn date ts

no_beats :
    (c : Config) (date : String) (ts : List Turn) (s : Service)
    → AreOn date ts
    → day_of s ≡ some date
    → beats (run_turns c ts s) ≡ 0
unfolding run_turns tick
no_beats c date [] s on e = refl
no_beats c date (t ∷ ts) s (here, on) e =
    let s' = (poll_once c t.reader t.out s).service in
    let e' : day_of s' ≡ some t.now.date = poll_day c t.reader t.out s ∙ e ∙ ap some (sym here) in
    rw (quiet_day c t.now t.reader t.out s' e') (no_beats c date ts s' on (e' ∙ ap some here))

-- However many turns the loop takes on one date, whatever raises in them, at most one heartbeat
-- of that date goes out or is dropped.
pub run_turns-beats_le :
    (c : Config) (date : String) (ts : List Turn) (s : Service)
    → AreOn date ts
    → beats (run_turns c ts s) ≤ 1
unfolding run_turns tick
run_turns-beats_le c date [] s on = omega arith
run_turns-beats_le c date (t ∷ ts) s (here, on) =
    let s' = (poll_once c t.reader t.out s).service in
    let b = maybe_heartbeat c t.now t.reader t.out s' in
    elim (maybe_heartbeat-SetsDay c t.now t.reader t.out s') [
      | inl (said, e) ↦
          rw said (rw (no_beats c date ts b.service on (e ∙ ap some here)) (omega arith))
      | inr (held, e) ↦ rw held (run_turns-beats_le c date ts b.service on)
    ]
