-- ===== src/Notifier/Delivery.antt =====
-- What a tick that pages one by one has delivered, when it raises half-way and when it does not.
use omegahive.Base.{
  ℕ, ◌≤◌, ◌<◌, String, ◌≡◌, refl, sym, ap, subst, ◌≢◌, ◌⊎◌, inl, inr, true, false, Option, none,
  some, List, [], ◌∷◌, ◌++◌, arith, ◌==◌, ==_iff, ==_refl, if◌then◌else◌, Bool-cases, get, get-put,
}
use omegahive.Notifier.Service.{
  Service, Outcome, delivered, refused, Transport, seq_of, cursor_of, is_behind, commit_at, commit,
  commit_all, Polled, send_each,
}
use omegahive.Notifier.Triggers.{Notification}
use omegahive.Port.Session.{PortView}

-- Pages in the order of the log, each with its own `seq`, all beyond a bound.
abbrev pub Rising : ℕ → List Notification → Type 0
Rising low [] = Unit {0}
Rising low (n ∷ ns) = (n.seq ≡ some (seq_of n)) × (low < seq_of n) × Rising (seq_of n) ns

-- Each page is beyond the cursor of its run.
abbrev pub Ahead : Service → List Notification → Type 0
Ahead s [] = Unit {0}
Ahead s (n ∷ ns) = (is_behind (seq_of n) (cursor_of n.run_id s) ≡ false) × Ahead s ns

-- Each page is at or before the cursor of its run.
abbrev pub Passed : Service → List Notification → Type 0
Passed s [] = Unit {0}
Passed s (n ∷ ns) = (is_behind (seq_of n) (cursor_of n.run_id s) ≡ true) × Passed s ns

-- Each page's run has a pending view.
abbrev pub Viewed : List (String × PortView) → List Notification → Type 0
Viewed ps [] = Unit {0}
Viewed ps (n ∷ ns) = ((v : PortView) × (get n.run_id ps ≡ some v)) × Viewed ps ns

-- No page of the list meets a transient failure.
abbrev pub NoneFailed : Transport → List Notification → Type 0
NoneFailed out [] = Unit {0}
NoneFailed out (n ∷ ns) = (out.event n ≢ Outcome.failed) × NoneFailed out ns

cursor-commit_at :
    (run j : String) (seq : ℕ) (v : PortView) (old : Option ℕ) (s : Service)
    → cursor_of j (commit_at run seq v old s) ≡ (if run == j then some seq else cursor_of j s)
cursor-commit_at run j seq v old s =
    ground
      (arith, get-put run j (record { cursor = some seq; generation = v.generation }) s.cursors)

cursor-commit :
    (run j : String) (seq : ℕ) (v : PortView) (s : Service)
    → is_behind seq (cursor_of run s) ≡ false
    → cursor_of j (commit run (some seq) v s) ≡ (if run == j then some seq else cursor_of j s)
unfolding commit
cursor-commit run j seq v s h = rw h (cursor-commit_at run j seq v (cursor_of run s) s)

Ahead-commit :
    (run : String) (k low : ℕ) (v : PortView) (s : Service) (ns : List Notification)
    → is_behind k (cursor_of run s) ≡ false
    → k ≤ low
    → Rising low ns
    → Ahead s ns
    → Ahead (commit run (some k) v s) ns
Ahead-commit run k low v s [] newer le rising ahead = tt
Ahead-commit run k low v s (n ∷ ns) newer le (has, lt, rising) (a, ahead) = (
  ground (arith, cursor-commit run n.run_id k v s newer),
  Ahead-commit run k (seq_of n) v s ns newer (omega arith) rising ahead,
)

behind_trans :
    (k seq : ℕ) (c : Option ℕ)
    → is_behind seq c ≡ false
    → is_behind k c ≡ true
    → is_behind k (some seq) ≡ true
behind_trans k seq none fresh_c h = absurd (ground arith)
behind_trans k seq (some old) fresh_c h = ground arith

-- A cursor never goes back.
commit_keeps :
    (run j : String) (seq : Option ℕ) (k : ℕ) (v : PortView) (s : Service)
    → is_behind k (cursor_of j s) ≡ true
    → is_behind k (cursor_of j (commit run seq v s)) ≡ true
unfolding commit
commit_keeps run j none k v s h = h
commit_keeps run j (some seq) k v s h = elim (Bool-cases (is_behind seq (cursor_of run s))) [
  | inl old ↦ rw old h
  | inr newer ↦
      let moved = cursor-commit_at run j seq v (cursor_of run s) s in
      rw newer (
        subst (λ c. is_behind k c ≡ true) (sym moved)
          (elim (Bool-cases (run == j)) [
            | inl same ↦ rw same (
                behind_trans k seq (cursor_of j s)
                  (subst (λ r. is_behind seq (cursor_of r s) ≡ false) ((==_iff run j).0 same) newer)
                  h)
            | inr differs ↦ rw differs h
          ]))
]

commit_all_keeps :
    (j : String) (k : ℕ) (ps : List (String × PortView)) (s : Service)
    → is_behind k (cursor_of j s) ≡ true
    → is_behind k (cursor_of j (commit_all ps s)) ≡ true
unfolding commit_all
commit_all_keeps j k [] s h = h
commit_all_keeps j k ((run, v) ∷ ps) s h =
    commit_all_keeps j k ps (commit run (some v.cursor) v s)
      (commit_keeps run j (some v.cursor) k v s h)

outcome-cases : (o : Outcome) → (o ≡ Outcome.failed) ⊎ (o ≢ Outcome.failed)
outcome-cases delivered = inr (λ e. cc)
outcome-cases refused = inr (λ e. cc)
outcome-cases Outcome.failed = inl refl

module _ (out : Transport) (ps : List (String × PortView)) where
  -- A page that is delivered or refused, and the run of whose view is pending.
  went_on :
      (n : Notification) (ns : List Notification) (s : Service) (v : PortView) (o : Outcome)
      → out.event n ≡ o
      → o ≢ Outcome.failed
      → get n.run_id ps ≡ some v
      → ((send_each out ps (n ∷ ns) s).service
          ≡ (send_each out ps ns (commit n.run_id n.seq v s)).service)
        × ((send_each out ps (n ∷ ns) s).raised
            ≡ (send_each out ps ns (commit n.run_id n.seq v s)).raised)
  unfolding send_each
  went_on n ns s v delivered e ne is_v = ground arith
  went_on n ns s v refused e ne is_v = ground arith
  went_on n ns s v Outcome.failed e ne is_v = absurd (ne refl)

  stops :
      (n : Notification) (ns : List Notification) (s : Service)
      → out.event n ≡ Outcome.failed
      → ((send_each out ps (n ∷ ns) s).service ≡ s) × ((send_each out ps (n ∷ ns) s).raised ≡ true)
  unfolding send_each
  stops n ns s e = ground arith

  send_each_keeps :
      (j : String) (k : ℕ) (ns : List Notification) (s : Service)
      → Viewed ps ns
      → is_behind k (cursor_of j s) ≡ true
      → is_behind k (cursor_of j (send_each out ps ns s).service) ≡ true
  unfolding send_each
  send_each_keeps j k [] s viewed h = commit_all_keeps j k ps s h
  send_each_keeps j k (n ∷ ns) s ((v, is_v), viewed) h = elim (outcome-cases (out.event n)) [
    | inl e ↦ subst (λ t. is_behind k (cursor_of j t) ≡ true) (sym (stops n ns s e).0) h
    | inr ne ↦
        subst (λ t. is_behind k (cursor_of j t) ≡ true)
          (sym (went_on n ns s v (out.event n) refl ne is_v).0)
          (send_each_keeps j k ns (commit n.run_id n.seq v s) viewed
            (commit_keeps n.run_id j n.seq k v s h))
  ]

-- What a run of single pages leaves: the pages that it handled, and those that are still to send.
pub record Split (out : Transport) (ns : List Notification) (p : Polled) : Type 0 where
  pub handled : List Notification
  pub rest : List Notification
  pub all : ns ≡ handled ++ rest
  pub went : NoneFailed out handled
  pub passed : Passed p.service handled
  pub ahead : Ahead p.service rest
  pub stopped :
      ((p.raised ≡ false) × (rest ≡ []))
      ⊎ (p.raised ≡ true)
        × ((n : Notification) × (ns' : List Notification) × (rest ≡ n ∷ ns')
            × (out.event n ≡ Outcome.failed))

-- The pages of a tick, sent one by one, split into those handled, none of which failed
-- transiently and each of which its run's cursor has now passed, and the rest, each still beyond
-- its run's cursor. The rest is empty unless the tick raised; if it raised, the first of the rest
-- met the transient failure. The pages rise in `seq`, are beyond their runs' cursors, and belong
-- to runs with a pending view.
pub send_each-Split :
    (out : Transport) (ps : List (String × PortView)) (low : ℕ) (ns : List Notification)
    (s : Service)
    → Rising low ns
    → Viewed ps ns
    → Ahead s ns
    → Split out ns (send_each out ps ns s)
unfolding send_each
send_each-Split out ps low [] s rising viewed ahead = record {
  handled = [];
  rest = [];
  all = refl;
  went = tt;
  passed = tt;
  ahead = tt;
  stopped = inl (refl, refl);
}
send_each-Split out ps low (n ∷ ns) s (has, lt, rising) ((v, is_v), viewed) (a, ahead) =
    elim (outcome-cases (out.event n)) [
      | inl e ↦
          let (same, raises) = stops out ps n ns s e in
          record {
            handled = [];
            rest = n ∷ ns;
            all = refl;
            went = tt;
            passed = tt;
            ahead = subst (λ t. Ahead t (n ∷ ns)) (sym same) (a, ahead);
            stopped = inr (raises, (n, ns, refl, e));
          }
      | inr ne ↦
          let next = commit n.run_id n.seq v s in
          let (same, raises) = went_on out ps n ns s v (out.event n) refl ne is_v in
          let later = send_each-Split out ps (seq_of n) ns next rising viewed (
            subst (λ q. Ahead (commit n.run_id q v s) ns) (sym has)
              (Ahead-commit n.run_id (seq_of n) (seq_of n) v s ns a (omega arith) rising ahead)) in
          let here : is_behind (seq_of n) (cursor_of n.run_id next) ≡ true =
            subst (λ q. is_behind (seq_of n) (cursor_of n.run_id (commit n.run_id q v s)) ≡ true)
              (sym has)
              (ground
                (arith, cursor-commit n.run_id n.run_id (seq_of n) v s a, ==_refl n.run_id)) in
          record {
            handled = n ∷ later.handled;
            rest = later.rest;
            all = ap (◌∷◌ n) later.all;
            went = (ne, later.went);
            passed =
                subst (λ t. Passed t (n ∷ later.handled)) (sym same)
                  (send_each_keeps out ps n.run_id (seq_of n) ns next viewed here, later.passed);
            ahead = subst (λ t. Ahead t later.rest) (sym same) later.ahead;
            stopped =
                subst
                  (λ b.
                    ((b ≡ false) × (later.rest ≡ []))
                    ⊎ (b ≡ true)
                      × ((m : Notification) × (ns' : List Notification) × (later.rest ≡ m ∷ ns')
                          × (out.event m ≡ Outcome.failed)))
                  (sym raises) later.stopped;
          }
    ]
