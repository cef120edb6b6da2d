-- ===== src/Base/Once.antt =====
-- A loop that takes each key once, with a set of the keys that it has met; and dicts and counters
-- whose keys are not texts.
use Prim.Native.Nat.{ℕ, zero, suc}
use mathlib.Core.Path.{◌≡◌, refl, sym, ap, ◌∙◌}
use mathlib.Core.Logic.{◌↔◌}
use mathlib.Core.Bool.{Bool, true, false, ◌||◌}
use mathlib.Core.Option.{Option, none, some}
use mathlib.Core.List.{List, [], ◌∷◌, ◌++◌}
use native.Mathlib.Omega.{arith}
use omegahive.Base.Tests.{if◌then◌else◌}

-- `k in keys`
unfoldable pub is_met {ℓ} : {K : Type ℓ} → (K → K → Bool) → K → List K → Bool
is_met same k [] = false
is_met same k (j ∷ js) = same j k || is_met same k js

abbrev pub once_if : Bool → ℕ → ℕ
once_if true n = 0
once_if false zero = 0
once_if false (suc n) = 1

module _ {ℓ κ} {K : Type ℓ} {A : Type κ} (same : K → K → Bool) where
  -- The items whose key has not been met before.
  unfoldable pub taken_once : List K → List (K × A) → List (K × A)
  taken_once met [] = []
  taken_once met ((k, a) ∷ cs) = elim (is_met same k met) [
    | true ↦ taken_once met cs
    | false ↦ (k, a) ∷ taken_once (k ∷ met) cs
  ]

  -- The keys met afterwards.
  unfoldable pub met_after : List K → List (K × A) → List K
  met_after met [] = met
  met_after met ((k, a) ∷ cs) = elim (is_met same k met) [
    | true ↦ met_after met cs
    | false ↦ met_after (k ∷ met) cs
  ]

  -- How many items have the key.
  unfoldable pub times_of : K → List (K × A) → ℕ
  times_of k [] = 0
  times_of k ((j, a) ∷ cs) = let rest = times_of k cs in if same j k then suc rest else rest

  pub taken_once-append :
      (met : List K) (xs ys : List (K × A))
      → taken_once met (xs ++ ys) ≡ taken_once met xs ++ taken_once (met_after met xs) ys
  unfolding taken_once met_after
  taken_once-append met [] ys = refl
  taken_once-append met ((k, a) ∷ xs) ys =
      ground (arith, taken_once-append met xs ys, taken_once-append (k ∷ met) xs ys)

  pub met_after-append :
      (met : List K) (xs ys : List (K × A))
      → met_after met (xs ++ ys) ≡ met_after (met_after met xs) ys
  unfolding met_after
  met_after-append met [] ys = refl
  met_after-append met ((k, a) ∷ xs) ys =
      ground (arith, met_after-append met xs ys, met_after-append (k ∷ met) xs ys)

  -- A key that has been met is taken no more; another is taken once, if it comes at all.
  pub times_of-taken_once :
      ((a b : K) → (same a b ≡ true) ↔ (a ≡ b))
      → (k : K) (met : List K) (cs : List (K × A))
      → times_of k (taken_once met cs) ≡ once_if (is_met same k met) (times_of k cs)
  unfolding is_met taken_once times_of
  times_of-taken_once eq k met [] = ground arith
  times_of-taken_once eq k met ((j, a) ∷ cs) =
      ground (arith, times_of-taken_once eq k met cs, times_of-taken_once eq k (j ∷ met) cs, eq j k)

  -- `d.get(k)`
  unfoldable pub find_in : K → List (K × A) → Option A
  find_in k [] = none
  find_in k ((j, a) ∷ d) = if same j k then some a else find_in k d

  -- `d[k] = f(d.get(k))`
  unfoldable pub change_in : K → (Option A → A) → List (K × A) → List (K × A)
  change_in k f [] = (k, f none) ∷ []
  change_in k f ((j, a) ∷ d) = if same j k then (j, f (some a)) ∷ d else (j, a) ∷ change_in k f d

  -- What stands under a key that has not been met is its first item.
  pub find_in-taken_once :
      ((a b : K) → (same a b ≡ true) ↔ (a ≡ b))
      → (k : K) (met : List K) (cs : List (K × A)) → is_met same k met ≡ false
      → find_in k (taken_once met cs) ≡ find_in k cs
  unfolding is_met taken_once find_in
  find_in-taken_once eq k met [] new = refl
  find_in-taken_once eq k met ((j, a) ∷ cs) new =
      ground (arith, find_in-taken_once eq k met cs, find_in-taken_once eq k (j ∷ met) cs, eq j k)

  -- Several rounds of the loop, with one set of keys.
  unfoldable pub taken_rounds : List K → List (List (K × A)) → List (List (K × A))
  taken_rounds met [] = []
  taken_rounds met (cs ∷ rounds) = taken_once met cs ∷ taken_rounds (met_after met cs) rounds

  abbrev pub all_of : List (List (K × A)) → List (K × A)
  all_of [] = []
  all_of (cs ∷ rounds) = cs ++ all_of rounds

  -- Together they take what one round over all the items takes.
  pub all_of-taken_rounds :
      (met : List K) (rounds : List (List (K × A)))
      → all_of (taken_rounds met rounds) ≡ taken_once met (all_of rounds)
  unfolding taken_rounds taken_once
  all_of-taken_rounds met [] = refl
  all_of-taken_rounds met (cs ∷ rounds) =
      ap (λ rest. taken_once met cs ++ rest) (all_of-taken_rounds (met_after met cs) rounds)
      ∙ sym (taken_once-append met cs (all_of rounds))

-- The items without their keys.
abbrev pub items_of {ℓ κ} : {K : Type ℓ} {A : Type κ} → List (K × A) → List A
items_of [] = []
items_of ((k, a) ∷ cs) = a ∷ items_of cs

pub items_of-append {ℓ κ} :
    {K : Type ℓ} {A : Type κ} (xs ys : List (K × A))
    → items_of (xs ++ ys) ≡ items_of xs ++ items_of ys
items_of-append [] ys = refl
items_of-append ((k, a) ∷ xs) ys = ap (λ rest. a ∷ rest) (items_of-append xs ys)

-- A round and the rounds after it.
pub items_of-taken_once {ℓ κ} :
    {K : Type ℓ} {A : Type κ} (same : K → K → Bool) (met : List K) (xs ys : List (K × A))
    → items_of (taken_once same met (xs ++ ys))
      ≡ items_of (taken_once same met xs) ++ items_of (taken_once same (met_after same met xs) ys)
items_of-taken_once same met xs ys =
    ap items_of (taken_once-append same met xs ys)
    ∙ items_of-append (taken_once same met xs) (taken_once same (met_after same met xs) ys)
