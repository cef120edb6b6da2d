-- ===== src/Base/SortKeep.antt =====
-- A stable sort and a filter commute.
use Prim.Native.Nat.{ℕ, ◌≤◌}
use mathlib.Core.Path.{◌≡◌, refl, ap, ◌∙◌}
use mathlib.Core.Bool.{Bool, true, false}
use mathlib.Core.List.{List, [], ◌∷◌}
use mathlib.Core.Logic.{inl, inr}
use native.Mathlib.Omega.{arith}
use omegahive.Base.Sets.{keep}
use omegahive.Base.Sort.{insert, sort, sort_by, Ascends}
use omegahive.Base.Tests.{leb, Bool-cases}

module _ {ℓ} {A : Type ℓ} (key : A → ℕ) where
  abbrev le : A → A → Bool
  le a b = leb (key a) (key b)

  Ascends-weaken :
      (low low' : ℕ) (xs : List A) → low' ≤ low → Ascends key low xs → Ascends key low' xs
  Ascends-weaken low low' [] h asc = tt
  Ascends-weaken low low' (x ∷ xs) h asc = (omega (arith, asc.0), asc.1)

  insert-Ascends :
      (low : ℕ) (a : A) (xs : List A)
      → low ≤ key a
      → Ascends key low xs
      → Ascends key low (insert le a xs)
  unfolding insert
  insert-Ascends low a [] h asc = (h, tt)
  insert-Ascends low a (x ∷ xs) h (l, asc) = elim (Bool-cases (le a x)) [
    | inl before ↦ let lt : key a ≤ key x = ground arith in rw before (h, (lt, asc))
    | inr after ↦
        let gt : key x ≤ key a = ground arith in rw after (l, insert-Ascends (key x) a xs gt asc)
  ]

  sort_by-Ascends : (xs : List A) → Ascends key 0 (sort_by key xs)
  unfolding sort_by sort
  sort_by-Ascends [] = tt
  sort_by-Ascends (x ∷ xs) = insert-Ascends 0 x (sort_by key xs) (omega arith) (sort_by-Ascends xs)

  insert-least : (a : A) (xs : List A) → Ascends key (key a) xs → insert le a xs ≡ a ∷ xs
  unfolding insert
  insert-least a [] asc = refl
  insert-least a (x ∷ xs) asc = ground (arith, asc.0)

  keep-Ascends :
      (p : A → Bool) (low : ℕ) (xs : List A) → Ascends key low xs → Ascends key low (keep p xs)
  unfolding keep
  keep-Ascends p low [] asc = tt
  keep-Ascends p low (x ∷ xs) (l, asc) = elim (Bool-cases (p x)) [
    | inl kept ↦ rw kept (l, keep-Ascends p (key x) xs asc)
    | inr dropped ↦
        rw dropped (Ascends-weaken (key x) low (keep p xs) l (keep-Ascends p (key x) xs asc))
  ]

  keep-insert-kept :
      (p : A → Bool) (low : ℕ) (a : A) (xs : List A)
      → p a ≡ true
      → Ascends key low xs
      → keep p (insert le a xs) ≡ insert le a (keep p xs)
  unfolding keep insert
  keep-insert-kept p low a [] h asc = ground arith
  keep-insert-kept p low a (x ∷ xs) h (l, asc) = elim (Bool-cases (le a x)) [
    | inl before ↦
        let lt : key a ≤ key x = ground arith in
        let least = insert-least a (keep p (x ∷ xs)) (keep-Ascends p (key a) (x ∷ xs) (lt, asc)) in
        ground (arith, least)
    | inr after ↦ ground (arith, keep-insert-kept p (key x) a xs h asc)
  ]

  keep-insert-dropped :
      (p : A → Bool) (a : A) (xs : List A) → p a ≡ false → keep p (insert le a xs) ≡ keep p xs
  unfolding keep insert
  keep-insert-dropped p a [] h = ground arith
  keep-insert-dropped p a (x ∷ xs) h = ground (arith, keep-insert-dropped p a xs h)

  pub keep-sort_by :
      (p : A → Bool) (xs : List A) → keep p (sort_by key xs) ≡ sort_by key (keep p xs)
  unfolding sort_by sort keep
  keep-sort_by p [] = refl
  keep-sort_by p (x ∷ xs) = elim (Bool-cases (p x)) [
    | inl kept ↦
        keep-insert-kept p 0 x (sort_by key xs) kept (sort_by-Ascends xs)
        ∙ ap (insert le x) (keep-sort_by p xs)
        ∙ rw kept refl
    | inr dropped ↦
        keep-insert-dropped p x (sort_by key xs) dropped ∙ keep-sort_by p xs ∙ rw dropped refl
  ]
