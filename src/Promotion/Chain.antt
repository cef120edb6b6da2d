-- ===== src/Promotion/Chain.antt =====
-- The chain of causes of a promoted event.
use omegahive.Base.{
  ℕ, zero, suc, ◌≤◌, ◌<◌, ◌≡◌, refl, sym, ap, ◌∙◌, subst, inl, inr, Bool, true, false, ◌||◌, not,
  Option, none, some, List, [], ◌∷◌, arith, is_met, Bool-cases, Option-cases, ◌>>=◌, length,
  count_if,
}
use omegahive.Events.Envelope.{Uuid, Event}
use omegahive.Promotion.View.{by_id, id_in, cause_of, causes, seqs_of, caused_by_chain}

-- How many events of the log have not been met.
abbrev unmet : List Uuid → List Event → ℕ
unmet seen events = count_if (λ e. not (id_in e.event_id seen)) events

unmet-le : (u : Uuid) (seen : List Uuid) (es : List Event) → unmet (u ∷ seen) es ≤ unmet seen es
unfolding count_if is_met
unmet-le u seen [] = omega arith
unmet-le u seen (e ∷ es) = ground (arith, unmet-le u seen es)

unmet-le-length : (seen : List Uuid) (es : List Event) → unmet seen es ≤ length es
unfolding count_if
unmet-le-length seen [] = omega arith
unmet-le-length seen (e ∷ es) = ground (arith, unmet-le-length seen es)

-- What is found under an id has that id.
by_id-id : (es : List Event) (u : Uuid) (e : Event) → by_id es u ≡ some e → e.event_id ≡ u
unfolding by_id
by_id-id [] u e h = absurd (ground arith)
by_id-id (x ∷ es) u e h = ground (arith, by_id-id es u e)

-- Meeting an event of the log leaves fewer.
unmet-lt :
    (es : List Event) (u : Uuid) (e : Event) (seen : List Uuid)
    → by_id es u ≡ some e
    → id_in u seen ≡ false
    → suc (unmet (u ∷ seen) es) ≤ unmet seen es
unfolding by_id count_if is_met
unmet-lt [] u e seen h new = absurd (ground arith)
unmet-lt (x ∷ es) u e seen h new = ground (arith, unmet-lt es u e seen, unmet-le u seen es)

-- Each event is the cause of the one before it.
abbrev pub Linked : List Event → Event → List Event → Type 0
Linked events e [] = Unit {0}
Linked events e (f ∷ fs) = (cause_of events e ≡ some f) × Linked events f fs

abbrev pub ids_of : List Event → List Uuid
ids_of [] = []
ids_of (e ∷ es) = e.event_id ∷ ids_of es

-- No event stands twice.
abbrev pub NoRepeat : List Event → Type 0
NoRepeat [] = Unit {0}
NoRepeat (e ∷ es) = (id_in e.event_id (ids_of es) ≡ false) × NoRepeat es

abbrev pub last_event : Event → List Event → Event
last_event e [] = e
last_event e (f ∷ fs) = last_event f fs

-- None of the events has been met.
abbrev AreNew : List Uuid → List Event → Type 0
AreNew seen [] = Unit {0}
AreNew seen (e ∷ es) = (id_in e.event_id seen ≡ false) × AreNew seen es

AreNew-cons :
    (u : Uuid) (seen : List Uuid) (es : List Event)
    → AreNew (u ∷ seen) es
    → AreNew seen es × (id_in u (ids_of es) ≡ false)
unfolding is_met
AreNew-cons u seen [] h = (tt, refl)
AreNew-cons u seen (e ∷ es) (new, h) =
    let (older, apart) = AreNew-cons u seen es h in ((ground arith, older), ground arith)

-- There is no cause, or it is one of these.
abbrev pub met_in : Option Event → List Uuid → Bool
met_in none ids = true
met_in (some f) ids = id_in f.event_id ids

found_cause :
    (events : List Event) (e f : Event)
    → cause_of events e ≡ some f
    → (u : Uuid) × (by_id events u ≡ some f)
found_cause events e f h = elim (Option-cases e.causation_id) [
  | inl none_named ↦ absurd (ground arith)
  | inr (u, named) ↦ (u, ground arith)
]

causes-step :
    (n : ℕ) (events : List Event) (e : Event) (seen : List Uuid)
    → id_in e.event_id seen ≡ false
    → causes (suc n) events (some e) seen
      ≡ (causes n events (cause_of events e) (e.event_id ∷ seen) >>= λ es. some (e ∷ es))
unfolding causes
causes-step n events e seen new =
    ap
      (λ b. elim b [
        | true ↦ some []
        | false ↦ causes n events (cause_of events e) (e.event_id ∷ seen) >>= λ es. some (e ∷ es)
      ])
      new

causes-stop :
    (m : ℕ) (events : List Event) (cur : Option Event) (seen : List Uuid)
    → met_in cur seen ≡ true
    → causes (suc m) events cur seen ≡ some []
unfolding causes
causes-stop m events none seen met = refl
causes-stop m events (some f) seen met =
    ap
      (λ b. elim b [
        | true ↦ some []
        | false ↦ causes m events (cause_of events f) (f.event_id ∷ seen) >>= λ es. some (f ∷ es)
      ])
      met

met_in-cons :
    (cur : Option Event) (u : Uuid) (seen : List Uuid)
    → met_in cur (u ∷ seen) ≡ true
    → (met_in cur (u ∷ []) || met_in cur seen) ≡ true
unfolding is_met
met_in-cons none u seen h = refl
met_in-cons (some f) u seen h = ground arith

met_in-shift :
    (cur : Option Event) (u : Uuid) (ids seen : List Uuid)
    → (met_in cur ids || met_in cur (u ∷ seen)) ≡ true
    → (met_in cur (u ∷ ids) || met_in cur seen) ≡ true
unfolding is_met
met_in-shift none u ids seen h = refl
met_in-shift (some f) u ids seen h = ground arith

-- What a walk from an event finds.
record Walk (n : ℕ) (events : List Event) (e : Event) (seen : List Uuid) : Type 0 where
  pub rest : List Event
  pub found : causes (suc n) events (some e) seen ≡ some (e ∷ rest)
  pub linked : Linked events e rest
  pub fresh_ids : AreNew seen (e ∷ rest)
  pub no_repeat : NoRepeat (e ∷ rest)
  pub stops :
      (met_in (cause_of events (last_event e rest)) (ids_of (e ∷ rest))
        || met_in (cause_of events (last_event e rest)) seen)
      ≡ true

-- A walk that ends at its first event.
ends_here :
    (m : ℕ) (events : List Event) (e : Event) (seen : List Uuid)
    → id_in e.event_id seen ≡ false
    → met_in (cause_of events e) (e.event_id ∷ seen) ≡ true
    → Walk (suc m) events e seen
unfolding is_met
ends_here m events e seen new met = record {
  rest = [];
  found =
      causes-step (suc m) events e seen new
      ∙ ap (λ o. o >>= λ es. some (e ∷ es))
          (causes-stop m events (cause_of events e) (e.event_id ∷ seen) met);
  linked = tt;
  fresh_ids = (new, tt);
  no_repeat = (refl, tt);
  stops = met_in-cons (cause_of events e) e.event_id seen met;
}

-- A walk that goes on to a cause.
goes_on :
    (m : ℕ) (events : List Event) (e f : Event) (seen : List Uuid)
    → id_in e.event_id seen ≡ false
    → cause_of events e ≡ some f
    → Walk m events f (e.event_id ∷ seen)
    → Walk (suc m) events e seen
goes_on m events e f seen new is_f w =
    let (older, apart) = AreNew-cons e.event_id seen (f ∷ w.rest) w.fresh_ids in
    record {
      rest = f ∷ w.rest;
      found =
          causes-step (suc m) events e seen new
          ∙ ap (λ cur. causes (suc m) events cur (e.event_id ∷ seen) >>= λ es. some (e ∷ es)) is_f
          ∙ ap (λ o. o >>= λ es. some (e ∷ es)) w.found;
      linked = (is_f, w.linked);
      fresh_ids = (new, older);
      no_repeat = (apart, w.no_repeat);
      stops =
          met_in-shift (cause_of events (last_event f w.rest)) e.event_id (ids_of (f ∷ w.rest)) seen
            w.stops;
    }

walk :
    (n : ℕ) (events : List Event) (e : Event) (seen : List Uuid)
    → id_in e.event_id seen ≡ false
    → unmet (e.event_id ∷ seen) events < n
    → Walk n events e seen
walk zero events e seen new lt = absurd (omega arith)
walk (suc m) events e seen new lt = elim (Option-cases (cause_of events e)) [
  | inl none_left ↦
      ends_here m events e seen new (ap (λ cur. met_in cur (e.event_id ∷ seen)) none_left)
  | inr (f, is_f) ↦ elim (Bool-cases (id_in f.event_id (e.event_id ∷ seen))) [
    | inl met ↦
        ends_here m events e seen new (ap (λ cur. met_in cur (e.event_id ∷ seen)) is_f ∙ met)
    | inr unmet_f ↦
        let (u, under_u) = found_cause events e f is_f in
        let same = by_id-id events u f under_u in
        let fewer =
          unmet-lt events f.event_id f (e.event_id ∷ seen)
            (subst (λ v. by_id events v ≡ some f) (sym same) under_u) unmet_f in
        goes_on m events e f seen new is_f
          (walk m events f (e.event_id ∷ seen) unmet_f (omega arith))
  ]
]

met_in-nil :
    (cur : Option Event) (ids : List Uuid)
    → (met_in cur ids || met_in cur []) ≡ true
    → met_in cur ids ≡ true
unfolding is_met
met_in-nil none ids h = refl
met_in-nil (some f) ids h = ground arith

-- The chain of an event is always found, also where the causes run in a circle. It starts with the
-- event; each further event is the cause of the one before; no event stands twice; and it stops
-- only where the cause is not in the log, or is in the chain already.
pub caused_by_chain-Linked :
    (src : Event) (events : List Event)
    → (es : List Event) × (caused_by_chain src events ≡ some (seqs_of (src ∷ es)))
      × Linked events src es
      × NoRepeat (src ∷ es)
      × (met_in (cause_of events (last_event src es)) (ids_of (src ∷ es)) ≡ true)
unfolding caused_by_chain
caused_by_chain-Linked src events =
    let few = unmet-le-length (src.event_id ∷ []) events in
    let w = walk (suc (length events)) events src [] refl (omega arith) in
    (
      w.rest,
      ap (λ o. o >>= λ es. some (seqs_of es)) w.found,
      w.linked,
      w.no_repeat,
      met_in-nil (cause_of events (last_event src w.rest)) (ids_of (src ∷ w.rest)) w.stops,
    )
