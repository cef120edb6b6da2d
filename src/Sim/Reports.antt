-- ===== src/Sim/Reports.antt =====
-- The instruments over the turns of a run: each situation is reported once.
use omegahive.Base.{
  ℕ, String, ◌≡◌, refl, sym, ap, ◌∙◌, ◌↔◌, Bool, true, false, List, [], ◌∷◌, ◌++◌, arith, is_met,
  once_if, taken_once, times_of, met_after-append, times_of-taken_once, find_in, find_in-taken_once,
  items_of, items_of-taken_once, ==_iff, opt_eq_iff,
}
use omegahive.Board.State.{Board}
use omegahive.Events.Envelope.{Uuid, Event}
use omegahive.Metrics.Clocked.{run_detectors}
use omegahive.Promotion.Rules.{PromotionConfig, board_rules}
use omegahive.Sim.Coordinator.{Emit}
use omegahive.Sim.Firing.{
  FiringKey, same_firing, keyed_firings, Fired, nothing_fired, DetectorsRunner, detectors_react,
}
use omegahive.Sim.Promoter.{
  PromotionKey, same_promotion, picked_events, picked_tasks, Promoted, nothing_promoted,
  promotion_react,
}

-- One turn of a reactor: the new events, the board and the clock.
pub record Turn : Type 0 where
  pub new : List Event
  pub board : Board
  pub now : ℕ

-- What the loop may take of the items: of each key its first item, and no other.
pub record AreFirsts {ℓ κ} {K : Type ℓ} {A : Type κ} (same : K → K → Bool)
    (taken items : List (K × A)) : Type (ℓ ⊔ κ) where
  pub once : (k : K) → times_of same k taken ≡ once_if false (times_of same k items)
  pub first_one : (k : K) → find_in same k taken ≡ find_in same k items

taken_once-AreFirsts {ℓ κ} :
    {K : Type ℓ} {A : Type κ} (same : K → K → Bool)
    → ((a b : K) → (same a b ≡ true) ↔ (a ≡ b))
    → (items : List (K × A)) → AreFirsts same (taken_once same [] items) items
unfolding is_met
taken_once-AreFirsts same eq items = record {
  once = λ k. times_of-taken_once same eq k [] items;
  first_one = λ k. find_in-taken_once same eq k [] items refl;
}

same_promotion_iff : (a b : PromotionKey) → (same_promotion a b ≡ true) ↔ (a ≡ b)
same_promotion_iff (a, r) (b, s) = ground (arith, opt_eq_iff a b, ==_iff r s)

same_firing_iff : (a b : FiringKey) → (same_firing a b ≡ true) ↔ (a ≡ b)
same_firing_iff (m, a) (n, b) = ground (arith, opt_eq_iff a b, ==_iff m n)

module _ (show : Uuid → String) (c : PromotionConfig) where
  -- What the evaluator emits over the turns of a run.
  unfoldable pub promotions : Promoted → List Turn → List Emit
  promotions memory [] = []
  promotions memory (t ∷ ts) =
      let (res, after) = promotion_react show c memory t.new t.board t.now in
      res.immediate ++ promotions after ts

  -- All that its rules pick, over the events seen up to each turn.
  unfoldable pub picked : List Event → List Turn → List (PromotionKey × Emit)
  picked seen [] = []
  picked seen (t ∷ ts) =
      (picked_events show c (seen ++ t.new) t.new
        ++ picked_tasks show (board_rules c t.now t.board))
      ++ picked (seen ++ t.new) ts

  promotions_lem :
      (memory : Promoted) (ts : List Turn)
      → promotions memory ts
        ≡ items_of (taken_once same_promotion memory.promoted (picked memory.seen ts))
  unfolding promotions picked promotion_react
  promotions_lem memory [] = refl
  promotions_lem memory (t ∷ ts) =
      let seen = memory.seen ++ t.new in
      let es = picked_events show c seen t.new in
      let bs = picked_tasks show (board_rules c t.now t.board) in
      let (res, after) = promotion_react show c memory t.new t.board t.now in
      let here = items_of-taken_once same_promotion memory.promoted es bs in
      let met = met_after-append same_promotion memory.promoted es bs in
      ap (λ rest. res.immediate ++ rest) (promotions_lem after ts)
      ∙ sym (
          items_of-taken_once same_promotion memory.promoted (es ++ bs) (picked seen ts)
          ∙ rw here (rw met refl))

-- Each situation is promoted once in a run: what the evaluator emits over any turns are the first
-- pick of each key, task or thread with rule, among all that the rules pick over those turns, and
-- nothing else.
pub promotions-AreFirsts :
    (show : Uuid → String) (c : PromotionConfig) (ts : List Turn)
    → (taken : List (PromotionKey × Emit)) × (promotions show c nothing_promoted ts
        ≡ items_of taken)
      × AreFirsts same_promotion taken (picked show c [] ts)
promotions-AreFirsts show c ts = (
  taken_once same_promotion [] (picked show c [] ts),
  promotions_lem show c nothing_promoted ts,
  taken_once-AreFirsts same_promotion same_promotion_iff (picked show c [] ts),
)

module _ (r : DetectorsRunner) where
  -- What the runner emits over the turns of a run.
  unfoldable pub crossings : Fired → List Turn → List Emit
  unfolding detectors_react
  crossings memory [] = []
  crossings memory (t ∷ ts) =
      let (res, after) = detectors_react r memory t.new t.board t.now in
      res.immediate ++ crossings after ts

  -- All that its detectors fire, over the events seen up to each turn.
  unfoldable pub all_firings : List Event → List Turn → List (FiringKey × Emit)
  unfolding keyed_firings run_detectors
  all_firings seen [] = []
  all_firings seen (t ∷ ts) =
      keyed_firings r.show_amount (run_detectors r.config r.enabled (seen ++ t.new) t.board t.now)
      ++ all_firings (seen ++ t.new) ts

  crossings_lem :
      (memory : Fired) (ts : List Turn)
      → crossings memory ts
        ≡ items_of (taken_once same_firing memory.fired (all_firings memory.seen ts))
  unfolding crossings all_firings detectors_react
  crossings_lem memory [] = refl
  crossings_lem memory (t ∷ ts) =
      let seen = memory.seen ++ t.new in
      let fs = keyed_firings r.show_amount (run_detectors r.config r.enabled seen t.board t.now) in
      let (res, after) = detectors_react r memory t.new t.board t.now in
      ap (λ rest. res.immediate ++ rest) (crossings_lem after ts)
      ∙ sym (items_of-taken_once same_firing memory.fired fs (all_firings seen ts))

-- Each situation is reported once in a run: what the detectors' runner emits over any turns are the
-- first firing of each key, metric with task, among all that its detectors fire over those turns,
-- and nothing else.
pub crossings-AreFirsts :
    (r : DetectorsRunner) (ts : List Turn)
    → (taken : List (FiringKey × Emit)) × (crossings r nothing_fired ts ≡ items_of taken)
      × AreFirsts same_firing taken (all_firings r [] ts)
crossings-AreFirsts r ts = (
  taken_once same_firing [] (all_firings r [] ts),
  crossings_lem r nothing_fired ts,
  taken_once-AreFirsts same_firing same_firing_iff (all_firings r [] ts),
)
