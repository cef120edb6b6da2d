-- ===== src/Base/MapKeys.antt =====
-- The keys of a dict: each stands once, whatever is written.
use mathlib.Core.Path.{◌≡◌, refl}
use Prim.Native.String.{String}
use mathlib.Core.Bool.{◌||◌}
use mathlib.Core.List.{[], ◌∷◌}
use native.Mathlib.Omega.{arith}
use omegahive.Base.Tests.{◌==◌, ==_iff, is_some}
use omegahive.Base.Maps.{Dict, get, put, keys, map_values}
use omegahive.Base.Sets.{member, IsDistinct}

module _ {ℓ} {V : Type ℓ} where
  pub member-keys : (j : String) (d : Dict V) → member j (keys d) ≡ is_some (get j d)
  unfolding member keys get
  member-keys j [] = refl
  member-keys j ((i, v) ∷ d) = ground (arith, member-keys j d, ==_iff i j, ==_iff j i)

  pub member-keys-put :
      (j k : String) (v : V) (d : Dict V)
      → member j (keys (put k v d)) ≡ (j == k || member j (keys d))
  unfolding member keys put
  member-keys-put j k v [] = refl
  member-keys-put j k v ((i, w) ∷ d) =
      ground (arith, member-keys-put j k v d, ==_iff i k, ==_iff j k, ==_iff j i)

  pub IsDistinct-keys-put :
      (k : String) (v : V) (d : Dict V) → IsDistinct (keys d) → IsDistinct (keys (put k v d))
  unfolding keys put member
  IsDistinct-keys-put k v [] h = (refl, tt)
  IsDistinct-keys-put k v ((i, w) ∷ d) h =
      ground (arith, IsDistinct-keys-put k v d h.1, member-keys-put i k v d, ==_iff i k, ==_iff k i)

pub keys-map_values {ℓ κ} :
    {V : Type ℓ} {W : Type κ} (f : V → W) (d : Dict V) → keys (map_values f d) ≡ keys d
unfolding keys map_values
keys-map_values f [] = refl
keys-map_values f ((j, v) ∷ d) = ground (arith, keys-map_values f d)
