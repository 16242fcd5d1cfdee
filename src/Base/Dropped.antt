-- ===== src/Base/Dropped.antt =====
-- The keys that a loop over a Go map drops, by a test of their values.
use Prim.Native.String.{String}
use mathlib.Core.Path.{◌≡◌, refl}
use mathlib.Core.Bool.{Bool, false, not, ◌||◌}
use mathlib.Core.Option.{Option, none, some}
use mathlib.Core.List.{List, [], ◌∷◌}
use native.Mathlib.Omega.{arith}
use text.Mathlib.TextEquality.{eq_iff}
use worklease.Base.Tests.{str_eq, if◌then◌else◌}
use worklease.Base.Dict.{Dict, lookup, IsUnique}

abbrev pub is_among : String → List String → Bool
is_among w [] = false
is_among w (v ∷ vs) = str_eq v w || is_among w vs

abbrev pub AreDistinct : List String → Type 0
AreDistinct [] = Unit {0}
AreDistinct (v ∷ vs) = (is_among v vs ≡ false) × AreDistinct vs

module _ {ℓ} {V : Type ℓ} (p : V → Bool) where
  abbrev pub dropped : Dict V → List String
  dropped [] = []
  dropped ((k, v) ∷ d) = if p v then dropped d else k ∷ dropped d

  abbrev pub is_dropped : Option V → Bool
  is_dropped none = false
  is_dropped (some v) = not (p v)

  pub is_among-dropped :
      (k : String) (d : Dict V) → IsUnique d → is_among k (dropped d) ≡ is_dropped (lookup k d)
  unfolding lookup
  is_among-dropped k [] u = refl
  is_among-dropped k ((j, v) ∷ d) u =
      ground (arith, eq_iff j k, is_among-dropped k d u.1, is_among-dropped j d u.1)

  pub dropped-AreDistinct : (d : Dict V) → IsUnique d → AreDistinct (dropped d)
  unfolding lookup
  dropped-AreDistinct [] u = tt
  dropped-AreDistinct ((j, v) ∷ d) u =
      ground (arith, is_among-dropped j d u.1, dropped-AreDistinct d u.1)
