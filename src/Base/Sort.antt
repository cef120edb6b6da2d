-- ===== src/Base/Sort.antt =====
-- Python's `sorted`: a stable sort. On texts the order is by code points.
use Prim.Native.Nat.{ℕ, ◌≤◌}
use Prim.Native.String.{String, compare}
use mathlib.Core.Path.{◌≡◌, refl}
use mathlib.Core.Bool.{Bool}
use mathlib.Core.List.{List, [], ◌∷◌}
use native.Mathlib.Omega.{arith}
use text.Mathlib.Text.{is_le}
use omegahive.Base.Tests.{leb, if◌then◌else◌}

module _ {ℓ} {A : Type ℓ} (le : A → A → Bool) where
  unfoldable pub insert : A → List A → List A
  insert a [] = a ∷ []
  insert a (x ∷ xs) = if le a x then a ∷ x ∷ xs else x ∷ insert a xs

  unfoldable pub sort : List A → List A
  unfolding insert
  sort [] = []
  sort (x ∷ xs) = insert x (sort xs)

unfoldable pub text_le : String → String → Bool
text_le s t = is_le (compare s t)

-- `sorted(xs, key=key)` for a key into the natural numbers.
unfoldable pub sort_by {ℓ} : {A : Type ℓ} → (A → ℕ) → List A → List A
unfolding sort
sort_by key = sort (λ a b. leb (key a) (key b))

-- Each key is at least the bound and at most the next key.
abbrev pub Ascends {ℓ} : {A : Type ℓ} → (A → ℕ) → ℕ → List A → Type 0
Ascends key low [] = Unit {0}
Ascends key low (x ∷ xs) = (low ≤ key x) × Ascends key (key x) xs

-- A list whose keys ascend is left as it is.
pub sort_by-eq_self {ℓ} :
    {A : Type ℓ} (key : A → ℕ) (low : ℕ) (xs : List A) → Ascends key low xs → sort_by key xs ≡ xs
unfolding sort_by
sort_by-eq_self key low [] h = refl
sort_by-eq_self key low (x ∷ []) h = refl
sort_by-eq_self key low (x ∷ y ∷ ys) h =
    rw (sort_by-eq_self key (key x) (y ∷ ys) h.1) (ground arith)
