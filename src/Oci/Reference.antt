-- ===== src/Oci/Reference.antt =====
-- internal/oci/client.go, parseRef and scheme.
use embewi_core.Base.{
  has_prefix, same_octets, ℕ, String, Bool, false, ◌||◌, not, Option, none, some, [], ◌∷◌, Result,
  ok, err, plain, str, bytes, ◌<>◌, eqb, if◌then◌else◌, split_first, split_last, codes,
}
use embewi_core.Api.Meta.{Bytes}
use embewi_core.Oci.Types.{Ref}

abbrev latest : Bytes
latest = codes "latest"

-- the tag is what follows the last colon after the registry
unfoldable pub with_tag : Bytes → Bytes → Option (Bytes × Bytes) → Ref
with_tag registry rest none = record { registry = registry; repo = rest; tag = latest }
with_tag registry rest (some (repo, tag)) = record { registry = registry; repo = repo; tag = tag }

unfoldable pub parse_ref : Bytes → Result Ref
unfolding with_tag split_first split_last
parse_ref image = elim (split_first b'/' image) [
  | none ↦ err (plain (str "référence OCI invalide : " <> bytes image))
  | some (registry, rest) ↦ ok (with_tag registry rest (split_last b':' rest))
]

unfoldable pub contains : ℕ → Bytes → Bool
contains c [] = false
contains c (d ∷ s) = eqb d c || contains c s

-- net.SplitHostPort of a text with no bracket in front: the host before the only colon
unfoldable pub plain_host : Option (Bytes × Bytes) → Option Bytes
unfolding contains
plain_host none = none
plain_host (some (host, port)) =
    if contains b':' host
      || contains b'[' host
      || contains b']' host
      || contains b'[' port
      || contains b']' port
    then none
    else some host

-- net.SplitHostPort of "[host]:port", read from behind the first bracket
unfoldable pub bracket_host : Option (Bytes × Bytes) → Option Bytes
unfolding contains
bracket_host none = none
bracket_host (some (host, [])) = none
bracket_host (some (host, c ∷ port)) =
    if not (eqb c b':')
      || contains b':' port
      || contains b'[' host
      || contains b'[' port
      || contains b']' port
    then none
    else some host

-- the host of net.SplitHostPort, `none` on an error
unfoldable pub split_host_port : Bytes → Option Bytes
unfolding plain_host bracket_host split_first split_last
split_host_port [] = none
split_host_port (c ∷ s) =
    if eqb c b'[' then bracket_host (split_first b']' s) else plain_host (split_last b':' (c ∷ s))

abbrev host_of : Bytes → Option Bytes → Bytes
host_of registry none = registry
host_of registry (some h) = h

unfoldable pub scheme : Bytes → String
unfolding split_host_port same_octets has_prefix
scheme registry =
    let host = host_of registry (split_host_port registry) in
    if same_octets host (codes "localhost") || has_prefix host (codes "127.")
    then "http"
    else "https"
