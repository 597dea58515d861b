-- ===== src/Base/MapLaws.antt =====
-- What a look-up finds after a change of the map.
use embewi_core.Base.Tests.{if◌then◌else◌}
use embewi_core.Base.Maps.{Assoc, lookup, insert, erase}
use Prim.Native.String.{String}
use mathlib.Core.Option.{none, some}
use mathlib.Core.List.{[], ◌∷◌}
use mathlib.Core.Path.{◌≡◌, refl}
use native.Mathlib.Omega.{arith}
use text.Mathlib.Text.{◌==◌}
use text.Mathlib.TextEquality.{eq_iff}

module _ {ℓ} {V : Type ℓ} (key other : String) where
  pub lookup-insert :
      (value : V) (entries : Assoc V)
      → lookup other (insert key value entries)
        ≡ (if key == other then some value else lookup other entries)
  unfolding insert lookup
  lookup-insert value [] = refl
  lookup-insert value ((name, old) ∷ rest) =
      ground (arith, lookup-insert value rest, eq_iff name key, eq_iff name other, eq_iff key other)

  pub lookup-erase :
      (entries : Assoc V)
      → lookup other (erase key entries) ≡ (if key == other then none else lookup other entries)
  unfolding erase lookup
  lookup-erase [] = ground arith
  lookup-erase ((name, old) ∷ rest) =
      ground (arith, lookup-erase rest, eq_iff name key, eq_iff name other, eq_iff key other)
