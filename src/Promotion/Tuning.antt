-- ===== src/Promotion/Tuning.antt =====
-- src/omegahive/promotion/tuning.py: the rules applied anew to a log.
use omegahive.Base.{
  ℕ, max, String, Bool, not, Option, none, some, List, [], ◌∷◌, taken_once, met_after, items_of,
  ◌>>=◌, keep, add, sort_by,
}
use omegahive.Board.Reducer.{fold}
use omegahive.Events.Envelope.{promotion_created, same_type, Uuid, Event}
use omegahive.Promotion.Rules.{PromotionConfig, evaluate, board_rules}
use omegahive.Sim.Promoter.{PromotionKey, same_promotion, key_of}

-- `e.seq if e.seq is not None else 0`
abbrev seq_of : Event → ℕ
seq_of e = elim e.seq [ none ↦ 0 | some n ↦ n ]

abbrev not_promotion : Event → Bool
not_promotion e = not (same_type e.event_type promotion_created)

-- `max((e.logical_ts for e in base), default=0)`
unfoldable pub latest_ts : List Event → ℕ
latest_ts [] = 0
latest_ts (e ∷ es) = max e.logical_ts (latest_ts es)

-- The events that a rule picks, each with the text of its id; the counts are of the whole log.
unfoldable pub replayed_events :
    (Uuid → String) → PromotionConfig → List Event → List Event → List (PromotionKey × String)
unfolding evaluate
replayed_events show c base [] = []
replayed_events show c base (ev ∷ evs) =
    let rest = replayed_events show c base evs in
    elim (evaluate c base ev) [
      | none ↦ rest
      | some rule ↦ (key_of show ev rule, show ev.event_id) ∷ rest
    ]

unfoldable pub replayed_tasks :
    (Uuid → String) → List (String × String × Option Uuid) → List (PromotionKey × String)
replayed_tasks show [] = []
replayed_tasks show ((t, rule, none) ∷ rows) = replayed_tasks show rows
replayed_tasks show ((t, rule, some ref) ∷ rows) =
    ((some t, rule), show ref) ∷ replayed_tasks show rows

abbrev add_refs : List String → List String → List String
add_refs refs [] = refs
add_refs refs (r ∷ rs) = add_refs (add r refs) rs

-- The texts of the ids that are promoted, as a set.
abbrev refs_of : List (PromotionKey × String) → List (PromotionKey × String) → List String
refs_of events tasks =
    let met = met_after same_promotion [] events in
    add_refs (add_refs [] (items_of (taken_once same_promotion [] events)))
      (items_of (taken_once same_promotion met tasks))

-- `replay_promotions`; `none` is an exception of the fold.
unfoldable pub replay_promotions :
    (Uuid → String) → PromotionConfig → List Event → Option (List String)
unfolding replayed_events replayed_tasks latest_ts fold board_rules taken_once met_after
replay_promotions show c events =
    let base = sort_by seq_of (keep not_promotion events) in
    fold base >>= λ b. some (
      refs_of (replayed_events show c base base)
        (replayed_tasks show (board_rules c (latest_ts base) b)))
