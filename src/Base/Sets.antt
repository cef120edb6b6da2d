-- ===== src/Base/Sets.antt =====
-- A Python set of texts: a list with no repetition, in the order of insertion.
use Prim.Native.Nat.{ℕ, suc}
use Prim.Native.String.{String}
use mathlib.Core.Path.{◌≡◌, refl}
use mathlib.Core.Bool.{Bool, false, ◌||◌, ◌&&◌}
use mathlib.Core.Logic.{inl, inr}
use mathlib.Core.List.{List, [], ◌∷◌, ◌++◌}
use native.Mathlib.Omega.{arith}
use omegahive.Base.Tests.{◌==◌, ==_iff, Bool-cases, if◌then◌else◌}

module _ {ℓ} {A : Type ℓ} where
  abbrev pub length : List A → ℕ
  length [] = 0
  length (x ∷ xs) = suc (length xs)

  -- A comprehension `[x for x in xs if p(x)]`.
  unfoldable pub keep : (A → Bool) → List A → List A
  keep p [] = []
  keep p (x ∷ xs) = let rest = keep p xs in if p x then x ∷ rest else rest

  -- `sum(1 for x in xs if p(x))`
  unfoldable pub count_if : (A → Bool) → List A → ℕ
  count_if p [] = 0
  count_if p (x ∷ xs) = let rest = count_if p xs in if p x then suc rest else rest

  pub length-keep : (p : A → Bool) (xs : List A) → length (keep p xs) ≡ count_if p xs
  unfolding keep count_if
  length-keep p [] = refl
  length-keep p (x ∷ xs) = ground (arith, length-keep p xs)

  pub keep-append : (p : A → Bool) (xs ys : List A) → keep p (xs ++ ys) ≡ keep p xs ++ keep p ys
  unfolding keep
  keep-append p [] ys = refl
  keep-append p (x ∷ xs) ys = ground (arith, keep-append p xs ys)

  pub keep-congr : (p q : A → Bool) (xs : List A) → ((x : A) → p x ≡ q x) → keep p xs ≡ keep q xs
  unfolding keep
  keep-congr p q [] h = refl
  keep-congr p q (x ∷ xs) h = ground (arith, keep-congr p q xs h, h x)

  pub count_if-congr :
      (p q : A → Bool) (xs : List A) → ((x : A) → p x ≡ q x) → count_if p xs ≡ count_if q xs
  unfolding count_if
  count_if-congr p q [] h = refl
  count_if-congr p q (x ∷ xs) h = ground (arith, count_if-congr p q xs h, h x)

  pub count_if-keep :
      (p q : A → Bool) (xs : List A) → count_if p (keep q xs) ≡ count_if (λ x. q x && p x) xs
  unfolding keep count_if
  count_if-keep p q [] = refl
  count_if-keep p q (x ∷ xs) = ground (arith, count_if-keep p q xs)

-- `x in s`
unfoldable pub member : String → List String → Bool
member x [] = false
member x (y ∷ ys) = x == y || member x ys

-- `s.add(x)`
unfoldable pub add : String → List String → List String
add x s = if member x s then s else s ++ x ∷ []

member-snoc : (x y : String) (s : List String) → member x (s ++ y ∷ []) ≡ (x == y || member x s)
unfolding member
member-snoc x y [] = refl
member-snoc x y (z ∷ s) = ground (arith, member-snoc x y s)

pub member-add : (x y : String) (s : List String) → member x (add y s) ≡ (x == y || member x s)
unfolding add
member-add x y s = ground (arith, member-snoc x y s, ==_iff x y)

-- No text stands twice.
abbrev pub IsDistinct : List String → Type 0
IsDistinct [] = Unit
IsDistinct (x ∷ xs) = (member x xs ≡ false) × IsDistinct xs

IsDistinct-snoc :
    (x : String) (s : List String) → member x s ≡ false → IsDistinct s → IsDistinct (s ++ x ∷ [])
unfolding member
IsDistinct-snoc x [] h d = (refl, tt)
IsDistinct-snoc x (y ∷ s) h d =
    ground (arith, IsDistinct-snoc x s, member-snoc y x s, ==_iff x y, ==_iff y x)

-- `s.add(x)` keeps a set a set.
pub IsDistinct-add : (x : String) (s : List String) → IsDistinct s → IsDistinct (add x s)
unfolding add
IsDistinct-add x s d = elim (Bool-cases (member x s)) [
  | inl old ↦ rw old d
  | inr new ↦ rw new (IsDistinct-snoc x s new d)
]
