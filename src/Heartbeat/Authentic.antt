-- ===== src/Heartbeat/Authentic.antt =====
-- When the server takes a request to come from the device that it names, and validateToken.
use mathlib.Core.Path.{subst}
use embewi_core.Base.{
  and_left, and_right, ◌≡◌, refl, String, Bool, true, false, not, Option, none, some, List, [], ◌∷◌,
  Result, ok, err, eq_iff, if◌then◌else◌, ◌⊎◌, inl, inr, lookup, trim_space, has_prefix,
  same_octets-eq, codes, arith, Assoc,
}
use embewi_core.Api.Meta.{Secret, Bytes}
use embewi_core.Api.Node.{McuNode}
use embewi_core.Heartbeat.Nodes.{Server, matches}
use embewi_core.Heartbeat.Tokens.{
  TokenMatch, no_match, current, previous, resolve_token_secret, token_is, previous_is, match_in,
  provided_by, read_and_match, validate_token,
}
use embewi_core.World.Call.{History, Labels, nodes_listed}
use embewi_core.World.Env.{Env}
use embewi_core.World.Action.{World, pure}

-- a token of the Secret is the one provided
abbrev pub HasToken : String → Bytes → Secret → Type 0
HasToken key provided secret =
    (token : Bytes) × ((lookup key secret.secret_data ≡ some token) × (trim_space token ≡ provided))

abbrev pub IsToken : String → Bytes → Secret → Type 0
IsToken data_key provided secret =
    HasToken data_key provided secret
    ⊎ ((data_key ≡ "token") × HasToken "previousToken" provided secret)

module _ ⦃env : Env⦄ where
  -- the header proves, by the answers from `h` on, that the request is that of the one node that
  -- has this node id
  pub record IsAuthentic (h : History) (s : Server) (auth : Bytes) (node_id : String) : Type 0 where
    pub nodes : List McuNode
    pub node : McuNode
    pub nodes_are : env.list_nodes h none ≡ ok nodes
    pub alone : matches node_id nodes ≡ node ∷ []
    pub secret : Secret
    pub secret_is :
        env.get_secret (nodes_listed none ∷ h) (resolve_token_secret s node).0 ≡ ok secret
    pub bearer : has_prefix auth (codes "Bearer ") ≡ true
    pub token : IsToken (resolve_token_secret s node).1 (provided_by auth) secret

pub token_is-HasToken :
    (key : String) (provided : Bytes) (secret : Secret) (o : Option Bytes)
    → lookup key secret.secret_data ≡ o
    → token_is o provided ≡ true
    → HasToken key provided secret
unfolding token_is
token_is-HasToken key provided secret none e h = absurd (cc)
token_is-HasToken key provided secret (some t) e h =
    (t, (e, same_octets-eq (trim_space t) provided h))

previous_is-HasToken :
    (key : String) (provided : Bytes) (secret : Secret) (o : Option Bytes)
    → lookup key secret.secret_data ≡ o
    → previous_is o provided ≡ true
    → HasToken key provided secret
unfolding previous_is
previous_is-HasToken key provided secret none e h = absurd (cc)
previous_is-HasToken key provided secret (some t) e h =
    (t, (e, same_octets-eq (trim_space t) provided (ground arith)))

-- what a match says of the Secret
abbrev pub Matched : String → Bytes → Result Secret → TokenMatch → Type 0
Matched data_key provided r no_match = Unit
Matched data_key provided r (current secret) = (r ≡ ok secret) × HasToken data_key provided secret
Matched data_key provided r (previous secret) =
    (r ≡ ok secret) × ((data_key ≡ "token") × HasToken "previousToken" provided secret)

if-Matched :
    (data_key : String) (provided : Bytes) (secret : Secret) (is_current is_previous : Bool)
    → (is_current ≡ true → HasToken data_key provided secret)
    → (is_previous ≡ true → (data_key ≡ "token") × HasToken "previousToken" provided secret)
    → Matched data_key provided
        (ok secret)
        (if is_current then current secret else if is_previous then previous secret else no_match)
if-Matched data_key provided secret true b c p = (refl, c refl)
if-Matched data_key provided secret false true c p = (refl, p refl)
if-Matched data_key provided secret false false c p = tt

match_in-Matched :
    (data_key : String) (provided : Bytes) (r : Result Secret)
    → Matched data_key provided r (match_in data_key provided r)
unfolding match_in
match_in-Matched data_key provided (err e) = tt
match_in-Matched data_key provided (ok secret) =
    if-Matched data_key provided secret _ _ (token_is-HasToken data_key provided secret _ refl)
      (λ h. (
        (eq_iff data_key "token").0 (and_left _ _ h),
        previous_is-HasToken "previousToken" provided secret _ refl (and_right _ _ h),
      ))

-- the outcomes of validateToken that let a request in
abbrev pub Accepts : TokenMatch → Type 0
Accepts no_match = ⊥
Accepts (current secret) = Unit
Accepts (previous secret) = Unit

abbrev pub secret_of : (m : TokenMatch) → Accepts m → Secret
secret_of no_match a = elim a [ ]
secret_of (current secret) a = secret
secret_of (previous secret) a = secret

Matched-IsToken :
    (data_key : String) (provided : Bytes) (r : Result Secret) (m : TokenMatch)
    → Matched data_key provided r m
    → (a : Accepts m) → (r ≡ ok (secret_of m a)) × IsToken data_key provided (secret_of m a)
Matched-IsToken data_key provided r no_match m a = elim a [ ]
Matched-IsToken data_key provided r (current secret) (e, h) a = (e, inl h)
Matched-IsToken data_key provided r (previous secret) (e, h) a = (e, inr h)

module _ ⦃env : Env⦄ where
  -- a request that validateToken accepts for the one node of a node id is authentic, as that node's,
  -- by the Secret that validateToken returns
  pub validate_token-IsAuthentic :
      (s : Server) (auth : Bytes) (node_id : String) (h : History) (prev : Assoc Labels)
      → (nodes : List McuNode) (node : McuNode) → env.list_nodes h none ≡ ok nodes
      → matches node_id nodes ≡ node ∷ []
      → (a : Accepts
          (validate_token s auth node
            (record { history = nodes_listed none ∷ h; prev_labels = prev })).0)
      → (p : IsAuthentic h s auth node_id) × ((p.node ≡ node) × (p.secret ≡ secret_of _ a))
  unfolding validate_token read_and_match
  validate_token-IsAuthentic s auth node_id h prev nodes node listed alone a =
      go (has_prefix auth (codes "Bearer ")) refl a
    where
      go :
          (b : Bool)
          → has_prefix auth (codes "Bearer ") ≡ b
          → (a : Accepts
              ((if not b then pure no_match else read_and_match s auth node)
                (record { history = nodes_listed none ∷ h; prev_labels = prev })).0)
          → (p : IsAuthentic h s auth node_id) × ((p.node ≡ node) × (p.secret ≡ secret_of _ a))
      go false e a = elim a [ ]
      go true e a =
          let answer = env.get_secret (nodes_listed none ∷ h) (resolve_token_secret s node).0 in
          let data_key = (resolve_token_secret s node).1 in
          let provided = provided_by auth in
          let m = match_in data_key provided answer in
          let (is, token) =
            Matched-IsToken data_key provided answer m (match_in-Matched data_key provided answer)
              a in
          (
            record {
              nodes = nodes;
              node = node;
              nodes_are = listed;
              alone = alone;
              secret = secret_of m a;
              secret_is = is;
              bearer = e;
              token = token;
            },
            (refl, refl),
          )

  -- the Secret of a match by the current token holds that token
  pub validate_token-current :
      (s : Server) (auth : Bytes) (node : McuNode) (w : World) (secret : Secret)
      → (validate_token s auth node w).0 ≡ current secret
      → HasToken (resolve_token_secret s node).1 (provided_by auth) secret
  unfolding validate_token read_and_match
  validate_token-current s auth node w secret h = go (has_prefix auth (codes "Bearer ")) h
    where
      of_match :
          (data_key : String) (r : Result Secret) (m : TokenMatch)
          → Matched data_key (provided_by auth) r m
          → m ≡ current secret
          → HasToken data_key (provided_by auth) secret
      of_match data_key r m k e = (subst (λ m. Matched data_key (provided_by auth) r m) e k).1

      go :
          (b : Bool)
          → ((if not b then pure no_match else read_and_match s auth node) w).0 ≡ current secret
          → HasToken (resolve_token_secret s node).1 (provided_by auth) secret
      go false e = absurd (cc)
      go true e =
          let data_key = (resolve_token_secret s node).1 in
          let answer = env.get_secret w.history (resolve_token_secret s node).0 in
          of_match data_key answer (match_in data_key (provided_by auth) answer)
            (match_in-Matched data_key (provided_by auth) answer) e
