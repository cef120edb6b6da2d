-- ===== src/Harness/Evidence.antt =====
-- What a turn's classification rests on.
use omegahive.Base.{
  ℕ, ◌≡◌, refl, ap, ◌∙◌, inl, inr, Bool, true, false, Option, some, List, [], ◌∷◌, arith, ltb,
  if◌then◌else◌, is_some, Bool-cases, length, keep, ℤ,
}
use omegahive.Events.Envelope.{EventType, task_blocked, task_result_posted, task_failed, same_type}
use omegahive.Harness.Turns.{
  seq_or_zero, Classification, posted, unclassified, HarnessKind, SpineEvent, Terminal, Scope,
  in_scope, classification_of, is_disposition, has_type, kinds_of, newest, by_harness, by_spine,
  decide_scoped, classify,
}

-- The events that count: those in the scope, after the cursor.
abbrev scoped : Scope → ℕ → List SpineEvent → List SpineEvent
scoped s c evs = keep (in_scope s c) evs

keep-keep : (p : SpineEvent → Bool) (evs : List SpineEvent) → keep p (keep p evs) ≡ keep p evs
unfolding keep
keep-keep p [] = refl
keep-keep p (ev ∷ evs) = ground (arith, keep-keep p evs)

-- Events of another run, task or worker, or up to the cursor, change nothing in the record.
pub classify-scoped :
    (s : Scope) (evs : List SpineEvent) (t : Terminal) (code : Option ℤ) (c : ℕ)
    → classify s evs t code (some c) true
      ≡ classify s (keep (in_scope s c) evs) t code (some c) true
unfolding classify
classify-scoped s evs t code c = rw (keep-keep (in_scope s c) evs) refl

-- The types that `classification_of` maps to each class.
posted-disposition :
    (t : EventType) → same_type t task_result_posted ≡ true → is_some (classification_of t) ≡ true
unfolding same_type classification_of
posted-disposition task_result_posted h = refl
posted-disposition _ h = absurd (ground arith)

blocked-disposition :
    (t : EventType) → same_type t task_blocked ≡ true → is_some (classification_of t) ≡ true
unfolding same_type classification_of
blocked-disposition task_blocked h = refl
blocked-disposition _ h = absurd (ground arith)

failed-disposition :
    (t : EventType) → same_type t task_failed ≡ true → is_some (classification_of t) ≡ true
unfolding same_type classification_of
failed-disposition task_failed h = refl
failed-disposition _ h = absurd (ground arith)

has_type-dispositions :
    (t : EventType) (evs : List SpineEvent)
    → ((a : EventType) → same_type a t ≡ true → is_some (classification_of a) ≡ true)
    → has_type t (keep is_disposition evs) ≡ has_type t evs
unfolding keep
has_type-dispositions t [] h = refl
has_type-dispositions t (ev ∷ evs) h =
    ground (arith, has_type-dispositions t evs h, h ev.event_type)

-- Every event of the list has this class.
abbrev AllOf : Classification → List SpineEvent → Type 0
AllOf c [] = Unit {0}
AllOf c (ev ∷ evs) = (classification_of ev.event_type ≡ some c) × AllOf c evs

pick-Of :
    (later : Bool) (c : Classification) (ev best : SpineEvent)
    → classification_of ev.event_type ≡ some c
    → classification_of best.event_type ≡ some c
    → classification_of (if later then ev else best).event_type ≡ some c
pick-Of true c ev best l h = l
pick-Of false c ev best l h = h

newest-Of :
    (c : Classification) (best : SpineEvent) (evs : List SpineEvent)
    → AllOf c (best ∷ evs)
    → classification_of (newest best evs).event_type ≡ some c
unfolding newest
newest-Of c best [] (h, hs) = h
newest-Of c best (ev ∷ evs) (h, (l, hs)) =
    newest-Of c (if ltb (seq_or_zero best) (seq_or_zero ev) then ev else best) evs
      (pick-Of (ltb (seq_or_zero best) (seq_or_zero ev)) c ev best l h, hs)

-- The other two types are absent, so each disposition is of the third.
Third : EventType → EventType → Classification → Type 0
Third a b c =
    (t : EventType)
    → is_some (classification_of t) ≡ true
    → same_type t a ≡ false
    → same_type t b ≡ false
    → classification_of t ≡ some c

dispositions-Of :
    (a b : EventType) (c : Classification) (evs : List SpineEvent)
    → Third a b c
    → has_type a (keep is_disposition evs) ≡ false
    → has_type b (keep is_disposition evs) ≡ false
    → AllOf c (keep is_disposition evs)
unfolding keep Third
dispositions-Of a b c [] third no_a no_b = tt
dispositions-Of a b c (ev ∷ evs) third no_a no_b = elim (Bool-cases (is_disposition ev)) [
  | inl kept ↦ rw kept (
    third ev.event_type kept (ground arith) (ground arith),
    dispositions-Of a b c evs third (ground arith) (ground arith),
  )
  | inr other ↦ rw other (dispositions-Of a b c evs third (ground arith) (ground arith))
]

Third-posted : Third task_blocked task_failed posted
unfolding Third same_type classification_of
Third-posted task_result_posted d no_b no_f = refl
Third-posted _ d no_b no_f = absurd (ground arith)

Third-blocked : Third task_failed task_result_posted Classification.blocked
unfolding Third same_type classification_of
Third-blocked task_blocked d no_f no_p = refl
Third-blocked _ d no_f no_p = absurd (ground arith)

Third-failed : Third task_blocked task_result_posted Classification.failed
unfolding Third same_type classification_of
Third-failed task_failed d no_b no_p = refl
Third-failed _ d no_b no_p = absurd (ground arith)

-- The class by what the log says of blocked, failed and posted, and by the harness where the log
-- says nothing.
unfoldable pub turn_class : (is_blocked is_failed is_posted : Bool) → HarnessKind → Classification
turn_class true false false k = Classification.blocked
turn_class false true false k = Classification.failed
turn_class false false true k = posted
turn_class false false false HarnessKind.budget = Classification.budget
turn_class false false false HarnessKind.error = Classification.failed
turn_class _ _ _ k = unclassified

decided :
    (c : Classification) (t : Terminal) (code : Option ℤ) (cursor n : ℕ) (k : EventType)
    (ds : List SpineEvent)
    → has_type k ds ≡ true
    → AllOf c ds
    → (decide_scoped t code cursor n (k ∷ []) ds).classification ≡ c
unfolding decide_scoped by_spine
decided c t code cursor n k [] h hs = absurd (ground arith)
decided c t code cursor n k (ev ∷ evs) h hs = rw (newest-Of c ev evs hs) refl

by_harness-turn_class :
    (t : Terminal) (code : Option ℤ) (cursor n : ℕ) (k : HarnessKind)
    → (by_harness t code cursor n k).classification ≡ turn_class false false false k
unfolding by_harness turn_class
by_harness-turn_class t code cursor n HarnessKind.budget = refl
by_harness-turn_class t code cursor n HarnessKind.error = refl
by_harness-turn_class t code cursor n _ = refl

module _ (t : Terminal) (code : Option ℤ) (c n : ℕ) (sc : List SpineEvent) where
  abbrev ds : List SpineEvent
  ds = keep is_disposition sc

  decide-turn_class :
      (b f p : Bool)
      → has_type task_blocked ds ≡ b
      → has_type task_failed ds ≡ f
      → has_type task_result_posted ds ≡ p
      → (decide_scoped t code c n (kinds_of ds) ds).classification ≡ turn_class b f p t.kind
  unfolding kinds_of decide_scoped turn_class
  decide-turn_class false false false hb hf hp =
      let kinds : kinds_of ds ≡ [] = ground arith in
      ap (λ ks. (decide_scoped t code c n ks ds).classification) kinds
      ∙ by_harness-turn_class t code c n t.kind
  decide-turn_class false false true hb hf hp =
      let kinds : kinds_of ds ≡ task_result_posted ∷ [] = ground arith in
      ap (λ ks. (decide_scoped t code c n ks ds).classification) kinds
      ∙ decided posted t code c n task_result_posted ds hp
          (dispositions-Of task_blocked task_failed posted sc Third-posted hb hf)
  decide-turn_class false true false hb hf hp =
      let kinds : kinds_of ds ≡ task_failed ∷ [] = ground arith in
      ap (λ ks. (decide_scoped t code c n ks ds).classification) kinds
      ∙ decided Classification.failed t code c n task_failed ds hf (
          dispositions-Of task_blocked task_result_posted Classification.failed sc Third-failed hb
            hp)
  decide-turn_class false true true hb hf hp =
      let kinds : kinds_of ds ≡ task_failed ∷ task_result_posted ∷ [] = ground arith in
      ap (λ ks. (decide_scoped t code c n ks ds).classification) kinds
  decide-turn_class true false false hb hf hp =
      let kinds : kinds_of ds ≡ task_blocked ∷ [] = ground arith in
      ap (λ ks. (decide_scoped t code c n ks ds).classification) kinds
      ∙ decided Classification.blocked t code c n task_blocked ds hb (
          dispositions-Of task_failed task_result_posted Classification.blocked sc Third-blocked hf
            hp)
  decide-turn_class true false true hb hf hp =
      let kinds : kinds_of ds ≡ task_blocked ∷ task_result_posted ∷ [] = ground arith in
      ap (λ ks. (decide_scoped t code c n ks ds).classification) kinds
  decide-turn_class true true false hb hf hp =
      let kinds : kinds_of ds ≡ task_blocked ∷ task_failed ∷ [] = ground arith in
      ap (λ ks. (decide_scoped t code c n ks ds).classification) kinds
  decide-turn_class true true true hb hf hp =
      let kinds : kinds_of ds ≡ task_blocked ∷ task_failed ∷ task_result_posted ∷ [] =
        ground arith in
      ap (λ ks. (decide_scoped t code c n ks ds).classification) kinds

-- The class of a turn is the one that `turn_class` gives for three facts of the log, whether a block, a failure or a
-- result is among the events in scope, and, where none of them is, on the harness's word.
pub classify-turn_class :
    (s : Scope) (evs : List SpineEvent) (t : Terminal) (code : Option ℤ) (c : ℕ)
    → (classify s evs t code (some c) true).classification
      ≡ turn_class
          (has_type task_blocked (keep (in_scope s c) evs))
          (has_type task_failed (keep (in_scope s c) evs))
          (has_type task_result_posted (keep (in_scope s c) evs))
          t.kind
unfolding classify
classify-turn_class s evs t code c =
    let sc = keep (in_scope s c) evs in
    decide-turn_class t code c (length sc) sc (has_type task_blocked sc) (has_type task_failed sc)
      (has_type task_result_posted sc) (has_type-dispositions task_blocked sc blocked-disposition)
      (has_type-dispositions task_failed sc failed-disposition)
      (has_type-dispositions task_result_posted sc posted-disposition)
