-- ===== src/Notifier/Draining.antt =====
-- A tick through a transport that is up.
use omegahive.Base.{
  ℕ, String, ◌≡◌, refl, sym, ap, ◌∙◌, subst, ◌≢◌, inl, inr, false, List, [], ◌∷◌, ◌++◌,
}
use omegahive.Notifier.Delivery.{Passed, Rising, Ahead, Viewed, NoneFailed, send_each-Split}
use omegahive.Notifier.Service.{Service, Outcome, Transport, send_each}
use omegahive.Notifier.Triggers.{Notification}
use omegahive.Port.Session.{PortView}

NoneFailed-here :
    (out : Transport) (ns : List Notification) (n : Notification) (ns' : List Notification)
    → NoneFailed out (ns ++ (n ∷ ns'))
    → out.event n ≢ Outcome.failed
NoneFailed-here out [] n ns' (ne, h) = ne
NoneFailed-here out (m ∷ ns) n ns' (ne, h) = NoneFailed-here out ns n ns' h

append_nil : {A : Type 0} (xs : List A) → xs ++ [] ≡ xs
append_nil [] = refl
append_nil (x ∷ xs) = ap (◌∷◌ x) (append_nil xs)

-- A tick that pages one by one through a transport that is up, so that no page meets a transient
-- failure, does not raise, and leaves every page at or before its run's cursor. The pages rise in
-- `seq`, are beyond their runs' cursors, and belong to runs with a pending view.
pub send_each-Passed :
    (out : Transport) (ps : List (String × PortView)) (low : ℕ) (ns : List Notification)
    (s : Service)
    → Rising low ns
    → Viewed ps ns
    → Ahead s ns
    → NoneFailed out ns
    → ((send_each out ps ns s).raised ≡ false) × Passed (send_each out ps ns s).service ns
send_each-Passed out ps low ns s rising viewed ahead up =
    let split = send_each-Split out ps low ns s rising viewed ahead in
    let p = send_each out ps ns s in
    elim split.stopped [
      | inl (quiet, none_left) ↦
          let all : ns ≡ split.handled =
            split.all ∙ ap (λ rest. split.handled ++ rest) none_left ∙ append_nil split.handled in
          (quiet, subst (Passed p.service) (sym all) split.passed)
      | inr (raises, (n, ns', starts, fails)) ↦
          let all : ns ≡ split.handled ++ (n ∷ ns') =
            split.all ∙ ap (λ rest. split.handled ++ rest) starts in
          absurd (NoneFailed-here out split.handled n ns' (subst (NoneFailed out) all up) fails)
    ]
