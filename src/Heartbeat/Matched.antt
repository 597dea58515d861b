-- ===== src/Heartbeat/Matched.antt =====
-- Which tokens validateToken accepts.
use embewi_core.Base.{
  ◌≡◌, ◌≢◌, refl, String, Bool, true, false, not, ◌&&◌, Option, none, some, [], ◌∷◌, ok, ◌==◌,
  eq_iff, lookup, trim_space, has_prefix, same_octets, same_octets-eq, codes, arith, and_left,
  if◌then◌else◌, and_right,
}
use embewi_core.Api.Meta.{Secret, Bytes}
use embewi_core.Api.Node.{McuNode}
use embewi_core.Heartbeat.Nodes.{Server}
use embewi_core.Heartbeat.Tokens.{
  TokenMatch, no_match, current, previous, resolve_token_secret, is_empty_octets, token_is,
  previous_is, match_in, provided_by, read_and_match, validate_token,
}
use embewi_core.Heartbeat.Authentic.{HasToken, token_is-HasToken}
use embewi_core.World.Env.{Env}
use embewi_core.World.Action.{World}

-- the previous token of the Secret, which is not empty, is the one provided
abbrev pub HasPrevious : Bytes → Secret → Type 0
HasPrevious provided secret =
    (prev : Bytes) × ((lookup "previousToken" secret.secret_data ≡ some prev)
      × ((prev ≢ []) × (trim_space prev ≡ provided)))

same_octets_refl : (s : Bytes) → same_octets s s ≡ true
unfolding same_octets
same_octets_refl [] = refl
same_octets_refl (c ∷ s) = ground (arith, same_octets_refl s)

token_is_if :
    (key : String) (provided : Bytes) (secret : Secret)
    → HasToken key provided secret
    → token_is (lookup key secret.secret_data) provided ≡ true
unfolding token_is
token_is_if key provided secret (token, (is, e)) = rw (is, e) (same_octets_refl provided)

not_empty : (s : Bytes) → s ≢ [] → not (is_empty_octets s) ≡ true
not_empty [] h = absurd (h refl)
not_empty (c ∷ s) h = refl

previous_is_if :
    (provided : Bytes) (secret : Secret)
    → HasPrevious provided secret
    → previous_is (lookup "previousToken" secret.secret_data) provided ≡ true
unfolding previous_is
previous_is_if provided secret (prev, (is, (some_octets, e))) =
    rw (is, not_empty prev some_octets, e) (same_octets_refl provided)

previous_is-HasPrevious :
    (provided : Bytes) (secret : Secret) (o : Option Bytes)
    → lookup "previousToken" secret.secret_data ≡ o
    → previous_is o provided ≡ true
    → HasPrevious provided secret
unfolding previous_is
previous_is-HasPrevious provided secret none is h = absurd (cc)
previous_is-HasPrevious provided secret (some []) is h = absurd (cc)
previous_is-HasPrevious provided secret (some (c ∷ prev)) is h =
    (c ∷ prev, (is, ((λ e. cc), same_octets-eq (trim_space (c ∷ prev)) provided h)))

-- which token of the Secret lets a request in: the current one under the node's key; the previous one
-- where that key is `token`; none
pub data Found (key : String) (provided : Bytes) (secret : Secret) : TokenMatch → Type 0 where
  by_current : HasToken key provided secret → Found key provided secret (current secret)
  by_previous :
      ¬ HasToken key provided secret
      → key ≡ "token"
      → HasPrevious provided secret
      → Found key provided secret (previous secret)
  by_none :
      ¬ HasToken key provided secret
      → ¬ ((key ≡ "token") × HasPrevious provided secret)
      → Found key provided secret no_match

both : {a b : Bool} → a ≡ true → b ≡ true → (a && b) ≡ false → ⊥
both p q e = absurd (cc)

module _ (key : String) (provided : Bytes) (secret : Secret) where
  lacks : token_is (lookup key secret.secret_data) provided ≡ false → ¬ HasToken key provided secret
  lacks e has = let found = token_is_if key provided secret has in absurd (cc)

  pick-Found :
      (has prev : Bool)
      → token_is (lookup key secret.secret_data) provided ≡ has
      → (key == "token" && previous_is (lookup "previousToken" secret.secret_data) provided) ≡ prev
      → Found key provided secret
          (if has then current secret else if prev then previous secret else no_match)
  pick-Found true prev e p = by_current (token_is-HasToken key provided secret _ refl e)
  pick-Found false true e p =
      by_previous (lacks e) ((eq_iff key "token").0 (and_left _ _ p))
        (previous_is-HasPrevious provided secret _ refl (and_right _ _ p))
  pick-Found false false e p =
      by_none (lacks e)
        (λ (own, has). both ((eq_iff key "token").1 own) (previous_is_if provided secret has) p)

  match_in-Found : Found key provided secret (match_in key provided (ok secret))
  unfolding match_in
  match_in-Found = pick-Found _ _ refl refl

module _ ⦃env : Env⦄ where
  -- Take a request with a Bearer token, and a node whose Secret can be read. validateToken finds the
  -- current token if the Secret has it under the node's key, but for white space around it; otherwise
  -- the previous token if the node's key is `token`, and the Secret's previousToken is not empty and is
  -- the token provided, but for white space around it; otherwise none. That key is the one of every
  -- node with a Secret of its own, and of a node without one whose node id is `token`. So while a
  -- rotation is not confirmed the device is let in with either token.
  pub validate_token-Found :
      (s : Server) (auth : Bytes) (node : McuNode) (w : World) (secret : Secret)
      → has_prefix auth (codes "Bearer ") ≡ true
      → env.get_secret w.history (resolve_token_secret s node).0 ≡ ok secret
      → Found
          (resolve_token_secret s node).1
          (provided_by auth)
          secret
          (validate_token s auth node w).0
  unfolding validate_token read_and_match
  validate_token-Found s auth node w secret bearer is =
      rw (bearer, is) (match_in-Found (resolve_token_secret s node).1 (provided_by auth) secret)
