-- ===== src/Board/Reducer/Neutral.antt =====
-- src/omegahive/board/reducer.py: the events that the fold skips (`rule is None`).
use omegahive.Base.{
  ◌≡◌, refl, inl, inr, Bool, true, false, not, some, List, [], ◌∷◌, arith, is_some, Bool-cases,
  Option-cases, keep, sort_by, keep-sort_by,
}
use omegahive.Board.Legality.{lookup}
use omegahive.Board.Reducer.{apply, replay, seq_or_zero, fold}
use omegahive.Board.State.{Board, empty}
use omegahive.Events.Envelope.{Event}

-- An event without a rule.
unfoldable pub is_neutral : Event → Bool
is_neutral ev = not (is_some (lookup ev.event_type ev.payload))

module _ (p : Event → Bool) (skips : (ev : Event) → p ev ≡ false → is_neutral ev ≡ true) where
  apply-neutral : (b : Board) (ev : Event) → p ev ≡ false → apply b ev ≡ some b
  unfolding apply is_neutral
  apply-neutral b ev h = ground (arith, skips ev h)

  replay-keep : (b : Board) (evs : List Event) → replay b evs ≡ replay b (keep p evs)
  unfolding replay keep
  replay-keep b [] = refl
  replay-keep b (ev ∷ evs) = elim (Bool-cases (p ev)) [
    | inl kept ↦ rw kept (elim (Option-cases (apply b ev)) [
      | inl stuck ↦ rw stuck refl
      | inr (b', moved) ↦ rw moved (replay-keep b' evs)
    ])
    | inr dropped ↦ rw dropped (rw (apply-neutral b ev dropped) (replay-keep b evs))
  ]

  -- The board of a log is the board of its events that the filter keeps, if it drops neutral ones
  -- only.
  pub fold-keep : (evs : List Event) → fold evs ≡ fold (keep p evs)
  unfolding fold
  fold-keep evs =
      rw (replay-keep empty (sort_by seq_or_zero evs)) (rw (keep-sort_by seq_or_zero p evs) refl)
