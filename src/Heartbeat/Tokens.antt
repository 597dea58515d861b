-- ===== src/Heartbeat/Tokens.antt =====
-- internal/heartbeat/server.go: resolveTokenSecret, validateToken and clearPreviousToken.
use embewi_core.Base.{
  String, Bool, true, false, ◌&&◌, not, Option, none, some, [], ◌∷◌, Result, ok, err, ◌==◌,
  if◌then◌else◌, lookup, erase, trim_space, has_prefix, same_octets, codes, drop, length,
}
use embewi_core.Api.Meta.{ObjectKey, Secret, Bytes}
use embewi_core.Api.Node.{McuNode}
use embewi_core.Heartbeat.Nodes.{Server}
use embewi_core.World.Env.{Env}
use embewi_core.World.Action.{M, pure, ◌>>=◌, ◌>>◌, get_secret, patch_secret}

-- tokenMatch, with the Secret that validateToken returns beside it
pub data TokenMatch : Type 0 where
  no_match : TokenMatch
  current previous : Secret → TokenMatch

unfoldable pub resolve_token_secret : Server → McuNode → ObjectKey × String
resolve_token_secret s node =
    let secret_ns =
      if node.spec.token_ref.namespace == ""
      then node.namespace
      else node.spec.token_ref.namespace in
    if node.spec.token_ref.name == ""
    then (
      record {
        name = if s.token_secret == "" then "embewi-tokens" else s.token_secret;
        namespace = node.namespace;
      },
      node.spec.node_id,
    )
    else (record { name = node.spec.token_ref.name; namespace = secret_ns }, "token")

abbrev pub is_empty_octets : Bytes → Bool
is_empty_octets [] = true
is_empty_octets (c ∷ s) = false

unfoldable pub token_is : Option Bytes → Bytes → Bool
unfolding trim_space same_octets
token_is none provided = false
token_is (some expected) provided = same_octets (trim_space expected) provided

-- a previous token that is empty matches nothing
unfoldable pub previous_is : Option Bytes → Bytes → Bool
unfolding trim_space same_octets
previous_is none provided = false
previous_is (some prev) provided =
    not (is_empty_octets prev) && same_octets (trim_space prev) provided

unfoldable pub match_in : String → Bytes → Result Secret → TokenMatch
unfolding lookup token_is previous_is
match_in data_key provided (err e) = no_match
match_in data_key provided (ok secret) =
    if token_is (lookup data_key secret.secret_data) provided
    then current secret
    else if data_key == "token" && previous_is (lookup "previousToken" secret.secret_data) provided
    then previous secret
    else no_match

-- the token of an Authorization header
abbrev pub provided_by : Bytes → Bytes
provided_by auth = drop (length (codes "Bearer ")) auth

-- len(secret.Data["previousToken"]) > 0
unfoldable pub has_previous : Secret → Bool
unfolding lookup
has_previous secret = elim (lookup "previousToken" secret.secret_data) [
  | none ↦ false
  | some prev ↦ not (is_empty_octets prev)
]

unfoldable pub without_previous : Secret → Secret
unfolding erase
without_previous secret = record secret { secret_data = erase "previousToken" secret.secret_data }

module _ ⦃env : Env⦄ where
  unfoldable pub read_and_match : Server → Bytes → McuNode → M TokenMatch
  unfolding resolve_token_secret match_in
  read_and_match s auth node = do
    let (key, data_key) = resolve_token_secret s node
    secret ← get_secret key
    pure (match_in data_key (provided_by auth) secret)

  unfoldable pub validate_token : Server → Bytes → McuNode → M TokenMatch
  unfolding read_and_match has_prefix
  validate_token s auth node =
      if not (has_prefix auth (codes "Bearer ")) then pure no_match else read_and_match s auth node

  -- a failure is logged
  unfoldable pub clear_previous_token : Secret → M (Unit {0})
  unfolding without_previous
  clear_previous_token secret = do patch_secret secret (without_previous secret); pure tt
