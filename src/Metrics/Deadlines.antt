-- ===== src/Metrics/Deadlines.antt =====
-- The wakes for the detectors that wait for a deadline.
use omegahive.Base.{
  ℕ, ◌+◌, ◌≤◌, String, ◌≡◌, refl, sym, ap, ◌∙◌, Bool, true, ◌&&◌, ◌||◌, Option, List, [], ◌∷◌,
  arith, is_met, ltb, leb, eqb, insert, sort, text_le, sort_by,
}
use omegahive.Board.State.{Board}
use omegahive.Events.Envelope.{Event}
use omegahive.Metrics.Clocked.{
  non_terminal, stall_on, stall, or_default, aging_at, aging, age_deadlines, deadlines_of, distinct,
  time_based_deadlines,
}
use omegahive.Metrics.Detectors.{DetectorFiring, first_seen}
use omegahive.Promotion.Rules.{DetectorConfig}

-- Whom a firing is about, and what it says.
abbrev pub situations : List DetectorFiring → List (String × Option String)
situations [] = []
situations (f ∷ fs) = (f.metric, f.task_id) ∷ situations fs

-- Every number of a list passes a test.
abbrev pub all_pass : (ℕ → Bool) → List ℕ → Bool
all_pass p [] = true
all_pass p (d ∷ ds) = p d && all_pass p ds

-- A deadline that does not come up between the two ticks.
abbrev pub is_outside : ℕ → ℕ → ℕ → Bool
is_outside now later d = leb d now || ltb later d

all_pass-insert :
    (p : ℕ → Bool) (le : ℕ → ℕ → Bool) (d : ℕ) (ds : List ℕ)
    → all_pass p (insert le d ds) ≡ (p d && all_pass p ds)
unfolding insert
all_pass-insert p le d [] = refl
all_pass-insert p le d (x ∷ ds) = ground (arith, all_pass-insert p le d ds)

all_pass-sort :
    (p : ℕ → Bool) (le : ℕ → ℕ → Bool) (ds : List ℕ) → all_pass p (sort le ds) ≡ all_pass p ds
unfolding sort
all_pass-sort p le [] = refl
all_pass-sort p le (d ∷ ds) =
    all_pass-insert p le d (sort le ds) ∙ ap (λ b. p d && b) (all_pass-sort p le ds)

pub pass-is_met :
    (p : ℕ → Bool) (d : ℕ) (ds : List ℕ)
    → all_pass p ds ≡ true
    → is_met eqb d ds ≡ true
    → p d ≡ true
unfolding is_met
pass-is_met p d [] h found = absurd (ground arith)
pass-is_met p d (x ∷ ds) h found = ground (arith, pass-is_met p d ds)

all_pass-distinct :
    (p : ℕ → Bool) (ds : List ℕ) → all_pass p (distinct ds) ≡ true → all_pass p ds ≡ true
unfolding distinct
all_pass-distinct p [] h = refl
all_pass-distinct p (d ∷ ds) h =
    ground (arith, all_pass-distinct p ds, pass-is_met p d (distinct ds))

age_deadlines-insert :
    (p : ℕ → Bool) (c : DetectorConfig) (events : List Event) (t : String) (ts : List String)
    → all_pass p (age_deadlines c events (insert text_le t ts))
      ≡ all_pass p (age_deadlines c events (t ∷ ts))
unfolding insert age_deadlines
age_deadlines-insert p c events t [] = refl
age_deadlines-insert p c events t (x ∷ ts) = ground (arith, age_deadlines-insert p c events t ts)

-- The order of the tasks does not matter.
age_deadlines-sort :
    (p : ℕ → Bool) (c : DetectorConfig) (events : List Event) (ts : List String)
    → all_pass p (age_deadlines c events (sort text_le ts)) ≡ all_pass p (age_deadlines c events ts)
unfolding sort age_deadlines
age_deadlines-sort p c events [] = refl
age_deadlines-sort p c events (t ∷ ts) =
    age_deadlines-insert p c events t (sort text_le ts)
    ∙ ap (λ b. p (or_default 0 (first_seen events t) + c.t_age) && b)
        (age_deadlines-sort p c events ts)

module _ (c : DetectorConfig) (b : Board) (events : List Event) (now later : ℕ)
    (le : now ≤ later) where
  aging_at-same :
      (ts : List String)
      → all_pass (is_outside now later) (age_deadlines c events ts) ≡ true
      → situations (aging_at c events later ts) ≡ situations (aging_at c events now ts)
  unfolding aging_at age_deadlines
  aging_at-same [] h = refl
  aging_at-same (t ∷ ts) h = ground (arith, aging_at-same ts)

  stall_on-same :
      (ts : List String)
      → all_pass (is_outside now later) (deadlines_of c events b ts) ≡ true
      → situations (stall_on c b later ts) ≡ situations (stall_on c b now ts)
  stall_on-same [] h = refl
  stall_on-same (t ∷ ts) h = ground arith

  aging-same :
      (ts : List String)
      → all_pass (is_outside now later) (deadlines_of c events b ts) ≡ true
      → situations (aging_at c events later (sort text_le ts))
        ≡ situations (aging_at c events now (sort text_le ts))
  unfolding aging_at sort
  aging-same [] h = refl
  aging-same (t ∷ ts) h =
      let sorted = age_deadlines-sort (is_outside now later) c events (t ∷ ts) in
      aging_at-same (sort text_le (t ∷ ts)) (ground (arith, sorted))

  -- The ones of the open tasks.
  deadlines-outside :
      all_pass (is_outside now later) (time_based_deadlines c events b) ≡ true
      → all_pass (is_outside now later) (deadlines_of c events b (non_terminal b)) ≡ true
  unfolding time_based_deadlines sort_by
  deadlines-outside h =
      let ds = deadlines_of c events b (non_terminal b) in
      all_pass-distinct (is_outside now later) ds
        (sym (all_pass-sort (is_outside now later) leb (distinct ds)) ∙ h)

-- Between its deadlines a time-based detector keeps silent or goes on about the same tasks: if no
-- deadline of `time_based_deadlines` is after the tick `now` and up to `later`, then `stall` and
-- `aging` fire about the same at `later` as at `now`, on the same events and board.
pub time_based_deadlines_complete :
    (c : DetectorConfig) (b : Board) (events : List Event) (now later : ℕ)
    → now ≤ later
    → all_pass (is_outside now later) (time_based_deadlines c events b) ≡ true
    → (situations (stall c b later) ≡ situations (stall c b now))
      × (situations (aging c events b later) ≡ situations (aging c events b now))
unfolding stall aging
time_based_deadlines_complete c b events now later le h =
    let open_ones = deadlines-outside c b events now later le h in
    (
      stall_on-same c b events now later le (non_terminal b) open_ones,
      aging-same c b events now later le (non_terminal b) open_ones,
    )
