-- ===== src/Oci/References.antt =====
-- References with a tag are read back.
use embewi_core.Base.{
  ◌≡◌, refl, ℕ, Bool, true, false, ◌||◌, none, some, [], ◌∷◌, ◌++◌, ok, eqb, split_first,
  split_last, arith,
}
use embewi_core.Api.Meta.{Bytes}
use embewi_core.Oci.Types.{Ref}
use embewi_core.Oci.Reference.{with_tag, parse_ref, contains}

or_false : (a b : Bool) → (a || b) ≡ false → (a ≡ false) × (b ≡ false)
or_false true b h = absurd (cc)
or_false false b h = (refl, h)

split_first-append :
    (sep : ℕ) (a b : Bytes)
    → contains sep a ≡ false
    → split_first sep (a ++ (sep ∷ b)) ≡ some (a, b)
unfolding split_first contains
split_first-append sep [] b h = ground arith
split_first-append sep (c ∷ a) b h =
    let (other, rest) = or_false (eqb c sep) _ h in rw (other, split_first-append sep a b rest) refl

split_last-none : (sep : ℕ) (a : Bytes) → contains sep a ≡ false → split_last sep a ≡ none
unfolding split_last contains
split_last-none sep [] h = refl
split_last-none sep (c ∷ a) h =
    let (other, rest) = or_false (eqb c sep) _ h in rw (split_last-none sep a rest, other) refl

split_last-append :
    (sep : ℕ) (a b : Bytes) → contains sep b ≡ false → split_last sep (a ++ (sep ∷ b)) ≡ some (a, b)
unfolding split_last
split_last-append sep [] b h = rw (split_last-none sep b h) (ground arith)
split_last-append sep (c ∷ a) b h = rw (split_last-append sep a b h) refl

-- the text of a reference with its tag
abbrev pub print_ref : Ref → Bytes
print_ref r = r.registry ++ (b'/' ∷ (r.repo ++ (b':' ∷ r.tag)))

-- A reference whose registry has no `/` and whose tag has no `:` is read back from its text
-- `registry/repo:tag`, also where the registry has a port or the repository has slashes or colons.
pub parse-print :
    (r : Ref)
    → contains b'/' r.registry ≡ false
    → contains b':' r.tag ≡ false
    → parse_ref (print_ref r) ≡ ok r
unfolding parse_ref with_tag
parse-print r h t =
    rw
      (
        parse_ref,
        split_first-append b'/' r.registry (r.repo ++ (b':' ∷ r.tag)) h,
        split_last-append b':' r.repo r.tag t,
      )
      refl
