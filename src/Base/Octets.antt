-- ===== src/Base/Octets.antt =====
-- Go strings and byte slices that the code walks, as lists of octets.
use Prim.Native.Nat.{ℕ}
use Prim.Native.Char.{code}
use Prim.Native.String.{String}
use mathlib.Core.Path.{◌≡◌, refl}
use native.Mathlib.Omega.{arith}
use mathlib.Core.Bool.{Bool, true, false, ◌||◌, ◌&&◌}
use mathlib.Core.Option.{Option, none, some}
use mathlib.Core.List.{List, [], ◌∷◌}
use embewi_core.Base.Tests.{eqb, leb, if◌then◌else◌}

-- the octets of an ASCII text
abbrev pub codes : String → List ℕ
codes String.[] = []
codes (String.◌∷◌ c s) = code c ∷ codes s

-- ASCII white space: \t \n \v \f \r and the blank
is_space : ℕ → Bool
is_space c = eqb c 32 || (leb 9 c && leb c 13)

trim_left : List ℕ → List ℕ
unfolding is_space
trim_left [] = []
trim_left (c ∷ s) = if is_space c then trim_left s else c ∷ s

keep_after : ℕ → List ℕ → List ℕ
unfolding is_space
keep_after c [] = if is_space c then [] else c ∷ []
keep_after c (d ∷ s) = c ∷ d ∷ s

trim_right : List ℕ → List ℕ
unfolding keep_after
trim_right [] = []
trim_right (c ∷ s) = keep_after c (trim_right s)

-- strings.TrimSpace; the Unicode spaces outside ASCII are not trimmed
unfoldable pub trim_space : List ℕ → List ℕ
unfolding trim_left trim_right
trim_space s = trim_left (trim_right s)

abbrev cons_first : ℕ → Option (List ℕ × List ℕ) → Option (List ℕ × List ℕ)
cons_first c none = none
cons_first c (some (a, b)) = some (c ∷ a, b)

-- what stands before and after the first occurrence of `sep`
unfoldable pub split_first : ℕ → List ℕ → Option (List ℕ × List ℕ)
split_first sep [] = none
split_first sep (c ∷ s) = if eqb c sep then some ([], s) else cons_first c (split_first sep s)

abbrev or_here : ℕ → ℕ → List ℕ → Option (List ℕ × List ℕ) → Option (List ℕ × List ℕ)
or_here sep c s (some (a, b)) = some (c ∷ a, b)
or_here sep c s none = if eqb c sep then some ([], s) else none

-- what stands before and after the last occurrence of `sep`
unfoldable pub split_last : ℕ → List ℕ → Option (List ℕ × List ℕ)
split_last sep [] = none
split_last sep (c ∷ s) = or_here sep c s (split_last sep s)

-- bytes.Equal, and `==` on Go strings
-- strings.HasPrefix
unfoldable pub has_prefix : List ℕ → List ℕ → Bool
has_prefix s [] = true
has_prefix [] (c ∷ p) = false
has_prefix (d ∷ s) (c ∷ p) = eqb d c && has_prefix s p

unfoldable pub same_octets : List ℕ → List ℕ → Bool
same_octets [] [] = true
same_octets (c ∷ s) (d ∷ t) = eqb c d && same_octets s t
same_octets _ _ = false

pub same_octets-eq : (s t : List ℕ) → same_octets s t ≡ true → s ≡ t
unfolding same_octets
same_octets-eq [] [] h = refl
same_octets-eq [] (d ∷ t) h = absurd (cc)
same_octets-eq (c ∷ s) [] h = absurd (cc)
same_octets-eq (c ∷ s) (d ∷ t) h = grind (arith, same_octets-eq s t)
