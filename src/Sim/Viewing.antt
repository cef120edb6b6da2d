-- ===== src/Sim/Viewing.antt =====
-- The evaluator's promotions in the human view.
use omegahive.Base.{
  ℕ, String, ◌≡◌, refl, ap, ◌∙◌, inl, inr, Bool, true, Option, none, some, List, [], ◌∷◌, map,
  arith, ◌==◌, is_some, Bool-cases, Option-cases, ◌>>=◌, keep,
}
use omegahive.Events.Envelope.{EventType, promotion_created, same_type, Uuid, Event}
use omegahive.Events.Json.{get_field, get_text}
use omegahive.Promotion.Chain.{caused_by_chain-Linked}
use omegahive.Promotion.View.{
  by_id, HumanItem, ParseUuid, chain_of, the_item, item_of, items_over, promoted, human_view,
}
use omegahive.Sim.Promoter.{promotion}

-- What a promotion is about: its source event and its rule.
abbrev pub Pick : Type 0
Pick = Uuid × String

abbrev pub is_promotion : Event → Bool
is_promotion p = same_type p.event_type promotion_created

-- Each promotion of the log has the payload that the evaluator writes for its pick.
abbrev pub AreWritten : (Uuid → String) → (Event → Pick) → List Event → Type 0
AreWritten show pick [] = Unit {0}
AreWritten show pick (p ∷ ps) =
    (is_promotion p ≡ true → p.payload ≡ (promotion show (pick p).0 (pick p).1 p.task_id).payload)
    × AreWritten show pick ps

-- What the view says of a promotion: its place, its rule, and the place and type of its source.
abbrev pub Line : Type 0
Line = Option ℕ × String × Option ℕ × Option EventType

abbrev pub line_of : HumanItem → Line
line_of i = (i.promotion_seq, i.rule_id, i.ref_event_seq, i.ref_event_type)

abbrev pub picked_line : (Event → Pick) → List Event → Event → Line
picked_line pick events p =
    let src = by_id events (pick p).0 in
    (p.seq, (pick p).1, src >>= λ e. e.seq, src >>= λ e. some e.event_type)

chain_of-some : (events : List Event) (src : Option Event) → is_some (chain_of events src) ≡ true
chain_of-some events none = refl
chain_of-some events (some src) =
    let (es, found, linked, unique, stops) = caused_by_chain-Linked src events in
    ground (arith, found)

module _ (show : Uuid → String) (parse : ParseUuid) (parses : (u : Uuid) → parse (show u) ≡ some u)
    (pick : Event → Pick) (events : List Event) where
  rule_of-written :
      (p : Event)
      → p.payload ≡ (promotion show (pick p).0 (pick p).1 p.task_id).payload
      → get_text "rule_id" p.payload ≡ some (pick p).1
  unfolding get_text get_field ◌==◌
  rule_of-written p written = ap (get_text "rule_id") written

  ref_of-written :
      (p : Event)
      → p.payload ≡ (promotion show (pick p).0 (pick p).1 p.task_id).payload
      → get_text "ref_event" p.payload ≡ some (show (pick p).0)
  unfolding get_text get_field ◌==◌
  ref_of-written p written = ap (get_text "ref_event") written

  item_of-line :
      (p : Event)
      → p.payload ≡ (promotion show (pick p).0 (pick p).1 p.task_id).payload
      → (i : HumanItem) × (item_of parse events p ≡ some i)
        × (line_of i ≡ picked_line pick events p)
  unfolding item_of
  item_of-line p written = elim (Option-cases (chain_of events (by_id events (pick p).0))) [
    | inl no_chain ↦ absurd (ground (arith, chain_of-some events (by_id events (pick p).0)))
    | inr (chain, found) ↦ (
      the_item events p (pick p).1 (pick p).0 chain,
      rw (rule_of-written p written, ref_of-written p written, parses (pick p).0, found) refl,
      refl,
    )
  ]

  items_over-lines :
      (ps : List Event)
      → AreWritten show pick ps
      → (is : List HumanItem) × (items_over parse events ps ≡ some is)
        × (map line_of is ≡ map (picked_line pick events) (keep is_promotion ps))
  unfolding items_over keep
  items_over-lines [] h = ([], refl, refl)
  items_over-lines (p ∷ ps) (here, h) =
      let (is, found, lines) = items_over-lines ps h in
      elim (Bool-cases (is_promotion p)) [
        | inl promoted_one ↦
            let (i, item, line) = item_of-line p (here promoted_one) in
            (
              i ∷ is,
              rw (promoted_one, item, found) refl,
              rw promoted_one (
                  ap (λ l. l ∷ map line_of is) line
                  ∙ ap (λ ls. picked_line pick events p ∷ ls) lines),
            )
        | inr another ↦ (is, rw another found, rw another lines)
      ]

-- What the evaluator promotes the human reads back: on a log whose promotions carry the payloads
-- that the evaluator writes, the view at two tiers is returned and has one item for each promotion,
-- in order, with its place, its rule and the place and type of its source, where the source is in
-- the log. The text of a UUID parses to that UUID.
pub human_view-lines :
    (show : Uuid → String) (parse : ParseUuid)
    → ((u : Uuid) → parse (show u) ≡ some u)
    → (pick : Event → Pick) (events : List Event) → AreWritten show pick events
    → (is : List HumanItem) × (human_view parse events 2 ≡ some (promoted is))
      × (map line_of is ≡ map (picked_line pick events) (keep is_promotion events))
unfolding human_view
human_view-lines show parse parses pick events h =
    let (is, found, lines) = items_over-lines show parse parses pick events events h in
    (is, ap (λ o. o >>= λ items. some (promoted items)) found, lines)
