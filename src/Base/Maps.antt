-- ===== src/Base/Maps.antt =====
-- Go maps as association lists. The order of the entries stands for the order in which `range`
-- visits them, which Go leaves open; a look-up takes the first entry of its key.
use Prim.Native.String.{String}
use mathlib.Core.Option.{Option, none, some}
use mathlib.Core.List.{List, [], ◌∷◌}
use text.Mathlib.Text.{◌==◌}
use embewi_core.Base.Tests.{if◌then◌else◌}

abbrev pub Assoc {ℓ} : Type ℓ → Type ℓ
Assoc V = List (String × V)

module _ {ℓ} {V : Type ℓ} where
  -- value, ok := m[key]
  unfoldable pub lookup : String → Assoc V → Option V
  lookup key [] = none
  lookup key ((name, value) ∷ rest) = if name == key then some value else lookup key rest

  -- m[key] = value
  unfoldable pub insert : String → V → Assoc V → Assoc V
  insert key value [] = (key, value) ∷ []
  insert key value ((name, old) ∷ rest) =
      let others = insert key value rest in
      if name == key then (name, value) ∷ rest else (name, old) ∷ others

  -- delete(m, key); a Go map has one entry of a key, so all of that key go
  unfoldable pub erase : String → Assoc V → Assoc V
  erase key [] = []
  erase key ((name, value) ∷ rest) =
      let others = erase key rest in if name == key then others else (name, value) ∷ others

-- m[k] of a map of strings: "" where the key is missing
abbrev pub or_empty : Option String → String
or_empty none = ""
or_empty (some s) = s
