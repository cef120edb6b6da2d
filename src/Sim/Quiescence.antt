-- ===== src/Sim/Quiescence.antt =====
-- What a turn without output leaves: a reactor that has nothing to do at this time.
use omegahive.Base.{
  ℕ, ◌≤◌, String, ◌≡◌, refl, sym, ap, ◌∙◌, subst, inl, inr, Bool, true, false, Option, none, some,
  List, [], ◌∷◌, arith, leb, ==_iff, Bool-cases, Option-cases, keep, Dict, get, put, get-put,
  get-put_self,
}
use omegahive.Board.Reducer.{fold}
use omegahive.Board.State.{Board}
use omegahive.Events.Envelope.{Event}
use omegahive.Events.Log.{read_run, max_seq}
use omegahive.Gateway.Emit.{project}
use omegahive.Gateway.Policy.{visible}
use omegahive.Sim.Coordinator.{ReactResult}
use omegahive.Sim.Engine.{
  Member, Setup, State, Step, went, stopped, and_then, actor_of, emit_all, push_all, push_wakes,
  is_after, or_0, unseen, ran_at, is_nil, cursor_to, has_output, mark, route, Turned, finish_turn,
  is_idle, turn_on, turn,
}
use omegahive.Sim.Heap.{Holds, AnyStop}

-- No `seq` of the list is beyond the bound.
abbrev is_up_to : ℕ → Option ℕ → Bool
is_up_to k none = true
is_up_to k (some m) = leb m k

-- Beyond the last of the visible new events there is no visible event.
caught_up :
    (p : Event → Bool) (c k : ℕ) (evs : List Event)
    → c ≤ k
    → is_up_to k (max_seq (keep p (keep (is_after c) evs))) ≡ true
    → keep p (keep (is_after k) evs) ≡ []
unfolding keep max_seq
caught_up p c k [] le h = refl
caught_up p c k (e ∷ es) le h =
    ground (arith, caught_up p c k es le, Option-cases (max_seq (keep p (keep (is_after c) es))))

after_cursor :
    (p : Event → Bool) (c : ℕ) (evs : List Event) (k : ℕ)
    → max_seq (keep p (keep (is_after c) evs)) ≡ some k
    → c ≤ k
unfolding keep max_seq
after_cursor p c [] k h = absurd (ground arith)
after_cursor p c (e ∷ es) k h = elim (Option-cases (max_seq (keep p (keep (is_after c) es)))) [
  | inl none_after ↦ ground (arith)
  | inr (m, is_m) ↦ ground (arith, after_cursor p c es m is_m)
]

module _ {M : Type 0} (c : Setup M) (now : ℕ) where
  -- Nothing is appended, no cursor goes back, and who has run at this time has run.
  pub record Later (s s' : State) : Type 0 where
    pub same_db : s'.db ≡ s.db
    pub cursors_on : (id : String) → or_0 (get id s.cursors) ≤ or_0 (get id s'.cursors)
    pub still_ran :
        (id : String)
        → ran_at now (get id s.last_now) ≡ true
        → ran_at now (get id s'.last_now) ≡ true

  pub Later-refl : (s : State) → Later s s
  Later-refl s = record { same_db = refl; cursors_on = λ id. omega arith; still_ran = λ id h. h }

  pub Later-trans : (s t u : State) → Later s t → Later t u → Later s u
  Later-trans s t u a b = record {
    same_db = b.same_db ∙ a.same_db;
    cursors_on = λ id. omega (arith, a.cursors_on id, b.cursors_on id);
    still_ran = λ id h. b.still_ran id (a.still_ran id h);
  }

  abbrev seen_by : Member M → Board → Event → Bool
  seen_by m b e = visible m.role m.agent_id e b

  abbrev pub log_of : State → List Event
  log_of s = read_run c.gateway.store.run_id s.db

  -- The reactor has nothing to do.
  pub record IsDone (b : Board) (s : State) (m : Member M) : Type 0 where
    pub none_new : unseen c m b s ≡ []
    pub has_run : ran_at now (get m.agent_id s.last_now) ≡ true

  pub IsDone-Later :
      (b : Board) (s s' : State) (m : Member M) → Later s s' → IsDone b s m → IsDone b s' m
  unfolding unseen project max_seq
  IsDone-Later b s s' m on h = record {
    none_new =
        subst
          (λ db.
            keep (seen_by m b) (
              keep (is_after (or_0 (get m.agent_id s'.cursors)))
                (read_run c.gateway.store.run_id db))
            ≡ [])
          (sym on.same_db)
          (caught_up (seen_by m b) (or_0 (get m.agent_id s.cursors))
            (or_0 (get m.agent_id s'.cursors)) (log_of s) (on.cursors_on m.agent_id)
            (ap (λ evs. is_up_to (or_0 (get m.agent_id s'.cursors)) (max_seq evs)) h.none_new));
    has_run = on.still_ran m.agent_id h.has_run;
  }

  get-put_on :
      (id j : String) (k : ℕ) (d : Dict ℕ)
      → or_0 (get id d) ≤ k
      → or_0 (get j d) ≤ or_0 (get j (put id k d))
  get-put_on id j k d le = ground (arith, get-put id j k d, ==_iff id j)

  ran-put :
      (id j : String) (d : Dict ℕ)
      → ran_at now (get j d) ≡ true
      → ran_at now (get j (put id now d)) ≡ true
  unfolding ran_at
  ran-put id j d h = ground (arith, get-put id j now d)

  ran-put_self : (id : String) (d : Dict ℕ) → ran_at now (get id (put id now d)) ≡ true
  unfolding ran_at
  ran-put_self id d = ground (arith, get-put_self id now d)

  moved_to-Later :
      (m : Member M) (b : Board) (s : State) (k : Option ℕ)
      → max_seq (unseen c m b s) ≡ k
      → Later s (cursor_to m.agent_id k (mark m.agent_id now s))
  unfolding unseen project
  moved_to-Later m b s none e = record {
    same_db = refl;
    cursors_on = λ j. omega arith;
    still_ran = λ j h. ran-put m.agent_id j s.last_now h;
  }
  moved_to-Later m b s (some k) e = record {
    same_db = refl;
    cursors_on = λ j.
        get-put_on m.agent_id j k s.cursors
          (after_cursor (seen_by m b) (or_0 (get m.agent_id s.cursors)) (log_of s) k e);
    still_ran = λ j h. ran-put m.agent_id j s.last_now h;
  }

  moved_to-IsDone :
      (m : Member M) (b : Board) (s : State) (k : Option ℕ)
      → max_seq (unseen c m b s) ≡ k
      → IsDone b (cursor_to m.agent_id k (mark m.agent_id now s)) m
  unfolding unseen project
  moved_to-IsDone m b s none e = record {
    none_new =
        caught_up (seen_by m b) (or_0 (get m.agent_id s.cursors)) (or_0 (get m.agent_id s.cursors))
          (log_of s) (omega arith) (ap (is_up_to (or_0 (get m.agent_id s.cursors))) e);
    has_run = ran-put_self m.agent_id s.last_now;
  }
  moved_to-IsDone m b s (some k) e = record {
    none_new =
        subst (λ q. keep (seen_by m b) (keep (is_after (or_0 q)) (log_of s)) ≡ [])
          (sym (get-put_self m.agent_id k s.cursors))
          (caught_up (seen_by m b) (or_0 (get m.agent_id s.cursors)) k (log_of s)
            (after_cursor (seen_by m b) (or_0 (get m.agent_id s.cursors)) (log_of s) k e)
            (ap (is_up_to k) e ∙ ground arith));
    has_run = ran-put_self m.agent_id s.last_now;
  }

  -- A turn without output leaves the reactor done, and those done before it.
  abbrev pub Quiet : State → Board → Turned M → Type 0
  Quiet s b (m', s', p) = p ≡ false → Later s s' × IsDone b s' m'

  nil_of : {A : Type 0} (xs : List A) → is_nil xs ≡ true → xs ≡ []
  nil_of [] h = refl
  nil_of (x ∷ xs) h = absurd (ground arith)

  route-quiet :
      (m : Member M) (new : List Event) (res : ReactResult) (s : State)
      → has_output res ≡ false
      → route c m now new res s ≡ went (cursor_to m.agent_id (max_seq new) s)
  unfolding route
  route-quiet m new res s h =
      let no_emits = nil_of res.immediate (ground arith) in
      let no_scheduled = nil_of res.scheduled (ground arith) in
      let no_wakes = nil_of res.wakes (ground arith) in
      λ i. and_then (emit_all c (actor_of m) now (no_emits i) s) (λ s'. went (
        cursor_to m.agent_id (max_seq new)
          (push_wakes now (no_wakes i) (push_all (actor_of m) now (no_scheduled i) s'))))

  Holds-output :
      (s : State) (b : Board) (m : Member M) (r : Step State)
      → Holds AnyStop (Quiet s b) (and_then r (λ s'. went (m, s', true)))
  Holds-output s b m (went s') = λ h. absurd (ground arith)
  Holds-output s b m (stopped e) = tt

  finish_turn-Quiet :
      (m : Member M) (b : Board) (s : State) (o : Option (ReactResult × M))
      → Holds AnyStop (Quiet s b) (finish_turn c m now (unseen c m b s) s o)
  unfolding unseen
  finish_turn-Quiet m b s none = tt
  finish_turn-Quiet m b s (some (res, memory)) =
      let new = unseen c m b s in
      let m' : Member M = record m { memory = memory } in
      elim (Bool-cases (has_output res)) [
        | inl output ↦
            subst
              (λ p.
                Holds AnyStop (Quiet s b) (
                  and_then (route c m now new res (mark m.agent_id now s))
                    (λ s'. went (m', s', p))))
              (sym output) (Holds-output s b m' (route c m now new res (mark m.agent_id now s)))
        | inr silent ↦
            subst
              (λ r. Holds AnyStop (Quiet s b) (and_then r (λ s'. went (m', s', has_output res))))
              (sym (route-quiet m new res (mark m.agent_id now s) silent))
              (λ h.
                let d = moved_to-IsDone m b s (max_seq new) refl in
                (
                  moved_to-Later m b s (max_seq new) refl,
                  record { none_new = d.none_new; has_run = d.has_run },
                ))
      ]

  turn_on-Quiet :
      (m : Member M) (b : Board) (s : State)
      → Holds AnyStop (Quiet s b) (turn_on c m now s (some b))
  turn_on-Quiet m b s = elim (Bool-cases (is_idle c m now b s)) [
    | inl idle ↦ rw idle (λ h. (
      Later-refl s,
      record { none_new = nil_of (unseen c m b s) (ground arith); has_run = ground arith },
    ))
    | inr busy ↦ rw busy (finish_turn-Quiet m b s (c.react m.memory (unseen c m b s) b now))
  ]

  pub turn-Quiet :
      (m : Member M) (b : Board) (s : State)
      → fold (log_of s) ≡ some b
      → Holds AnyStop (Quiet s b) (turn c m now s)
  unfolding turn
  turn-Quiet m b s folds =
      subst (λ o. Holds AnyStop (Quiet s b) (turn_on c m now s o)) (sym folds) (turn_on-Quiet m b s)
