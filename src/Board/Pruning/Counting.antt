-- ===== src/Board/Pruning/Counting.antt =====
-- Taking one text away from a list with no repetition lowers a count by one at most.
use omegahive.Base.{
  suc, ◌≤◌, String, ◌≡◌, inl, inr, Bool, true, false, List, [], ◌∷◌, arith, ◌==◌, ==_iff,
  Bool-cases, count_if, member, IsDistinct,
}

module _ (p q : String → Bool) (t : String)
    (kept : (x : String) → p x ≡ true → (x == t) ≡ false → q x ≡ true) where
  pub count-le_of_absent : (xs : List String) → member t xs ≡ false → count_if p xs ≤ count_if q xs
  unfolding member count_if
  count-le_of_absent [] h = omega arith
  count-le_of_absent (x ∷ xs) h =
      ground (arith, count-le_of_absent xs, kept x, ==_iff t x, ==_iff x t)

  pub count-le_suc : (xs : List String) → IsDistinct xs → count_if p xs ≤ suc (count_if q xs)
  unfolding member count_if
  count-le_suc [] h = omega arith
  count-le_suc (x ∷ xs) h = elim (Bool-cases (x == t)) [
    | inl here ↦
        let gone : member t xs ≡ false = rw ((==_iff x t).0 here) at (h.0) in
        ground (arith, count-le_of_absent xs gone)
    | inr other ↦ ground (arith, count-le_suc xs h.1, kept x)
  ]
