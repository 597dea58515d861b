-- ===== src/Heartbeat/Handled.antt =====
-- handleHeartbeat meets a policy that allows what an authentic heartbeat makes it write.
use mathlib.Core.Path.{subst₂}
use embewi_core.Base.{
  not, false, if◌then◌else◌, ◌≡◌, refl, String, ℕ, Bool, true, none, List, [], ◌∷◌, Result, ok, err,
  ◌==◌,
}
use embewi_core.Api.Meta.{Secret, Bytes}
use embewi_core.Api.Node.{McuNode}
use embewi_core.Heartbeat.Payload.{HeartbeatPayload, LogPayload}
use embewi_core.Heartbeat.Request.{IncomingRequest, read_limited}
use embewi_core.Heartbeat.Nodes.{Server, key_of_node, matches, among, among_listed, find_node}
use embewi_core.Heartbeat.Tokens.{
  TokenMatch, no_match, current, previous, resolve_token_secret, validate_token, provided_by,
  has_previous, without_previous,
}
use embewi_core.Heartbeat.Status.{is_valid_state, with_heartbeat}
use embewi_core.Heartbeat.Authentic.{
  IsAuthentic, HasToken, Accepts, secret_of, validate_token-IsAuthentic, validate_token-current,
}
use embewi_core.Heartbeat.Guarded.{
  Guarded, among-Keeps, validate_token-Keeps, confirm_rotation-Keeps, record_mismatch-Keeps,
}
use embewi_core.Heartbeat.Attempts.{Accepted, IsRead, attempts-Keeps}
use embewi_core.Heartbeat.Server.{
  apply_heartbeat, accept, authorized, of_node, of_payload, of_body, handle_heartbeat,
}
use embewi_core.World.Call.{History, nodes_listed}
use embewi_core.World.Env.{Env}
use embewi_core.World.Action.{World, M, pure}
use embewi_core.World.Emits.{Extends, Any, Extends-Any, same, more, Extends-trans}
use embewi_core.World.Retry.{RetryApi}

-- the heartbeat that a request carries
abbrev pub IsSent : ⦃env : Env⦄ → IncomingRequest → HeartbeatPayload → Type 0
IsSent ⦃env⦄ r hb =
    (body : Bytes) × ((read_limited 4096 r.body ≡ ok body) × (env.decode_heartbeat body ≡ ok hb))

-- the server relays no log entry
abbrev pub Nothing : Bool → LogPayload → Type 0
Nothing is_error entry = ⊥

module _ ⦃env : Env⦄ ⦃api : RetryApi⦄ (S : Bool → McuNode → McuNode → Type 0)
    (K : Secret → Secret → Type 0) (G : Type 0) (s : Server) (r : IncomingRequest) where
  -- what the policy has to allow for one heartbeat of the node, whose Secret is read
  pub record Allows (start final : History) (hb : HeartbeatPayload) (node : McuNode)
      (secret : Secret) : Type 0 where
    pub status :
        is_valid_state hb.state ≡ true
        → (ip : String) (now : ℕ) (old : McuNode) → IsRead start (key_of_node node) old
        → S true old (with_heartbeat hb ip now old)
    pub rotates :
        HasToken (resolve_token_secret s node).1 (provided_by r.authorization) secret
        → has_previous secret ≡ true
        → K secret (without_previous secret)
    pub gauges : Accepted start final → G

  -- the calls of the action, which ends in the history `final`, are allowed
  abbrev Handles : {A : Type 0} → History → M A → World → Type 0
  Handles final m w =
      (m w).1.history ≡ final → Extends (Guarded S K G Nothing) w.history (m w).1.history

  if-Handles :
      {A : Type 0} (final : History) (b : Bool) (m n : M A) (w : World)
      → (b ≡ true → Handles final m w)
      → (b ≡ false → Handles final n w)
      → Handles final (if b then m else n) w
  if-Handles final true m n w k l = k refl
  if-Handles final false m n w k l = l refl

  module _ (start final : History) where
    apply_heartbeat-Keeps :
        (hb : HeartbeatPayload) (node : McuNode) (w : World)
        → Extends Any start w.history
        → ((ip : String) (now : ℕ) (old : McuNode)
            → IsRead start (key_of_node node) old
            → S true old (with_heartbeat hb ip now old))
        → (Accepted start final → G)
        → Handles final (apply_heartbeat s r hb node) w
    unfolding apply_heartbeat
    apply_heartbeat-Keeps hb node w reached status gauges ends =
        let event = (record_mismatch-Keeps S K G Nothing s hb _ node).at w in
        Extends-trans event (
          Extends-trans (more tt same) (
            attempts-Keeps S K G Nothing start final hb _ _ _ _ status
              (Extends-trans reached (Extends-trans (Extends-Any event) (more tt same))) ends
              gauges))

    pub accept-Keeps :
        (hb : HeartbeatPayload) (node : McuNode) (secret : Secret) (w : World)
        → Extends Any start w.history
        → Allows start final hb node secret
        → Handles final (accept s r hb node) w
    unfolding accept
    accept-Keeps hb node secret w reached a =
        if-Handles final (is_valid_state hb.state) (apply_heartbeat s r hb node) _ w
          (λ e. apply_heartbeat-Keeps hb node w reached (a.status e) a.gauges) (λ e ends. same)

    authorized-Keeps :
        (hb : HeartbeatPayload) (node : McuNode) (m : TokenMatch) (w : World)
        → Extends Any start w.history
        → ((a : Accepts m) → Allows start final hb node (secret_of m a))
        → ((secret : Secret)
            → m ≡ current secret
            → HasToken (resolve_token_secret s node).1 (provided_by r.authorization) secret)
        → Handles final (authorized s r hb node m) w
    unfolding authorized
    authorized-Keeps hb node no_match w reached a c ends = same
    authorized-Keeps hb node (current secret) w reached a c ends =
        let cleared =
          (confirm_rotation-Keeps S K G Nothing (current secret)
              ((a tt).rotates (c secret refl))).at
            w in
        Extends-trans cleared
          (accept-Keeps hb node secret _ (Extends-trans reached (Extends-Any cleared)) (a tt) ends)
    authorized-Keeps hb node (previous secret) w reached a c ends =
        let cleared = (confirm_rotation-Keeps S K G Nothing (previous secret) tt).at w in
        Extends-trans cleared
          (accept-Keeps hb node secret _ (Extends-trans reached (Extends-Any cleared)) (a tt) ends)

  module _ (w : World) (final : History)
      (allows : (hb : HeartbeatPayload)
        → IsSent r hb
        → (p : IsAuthentic w.history s r.authorization hb.node_id)
        → Allows w.history final hb p.node p.secret) where
    of_one_node :
        (hb : HeartbeatPayload)
        → IsSent r hb
        → (nodes : List McuNode) → env.list_nodes w.history none ≡ ok nodes
        → (found : List McuNode) → matches hb.node_id nodes ≡ found
        → let w' = record w { history = nodes_listed none ∷ w.history } in
          let out = among s hb.node_id found w' in
          (of_node s r hb out.0 out.1).1.history ≡ final
          → Extends (Guarded S K G Nothing) w'.history (of_node s r hb out.0 out.1).1.history
    unfolding of_node among
    of_one_node hb sent nodes listed [] e ends = same
    of_one_node hb sent nodes listed (n ∷ []) e ends =
        let w' = record w { history = nodes_listed none ∷ w.history } in
        let found = (validate_token s r.authorization n w').0 in
        let checked = (validate_token-Keeps S K G Nothing s r.authorization n).at w' in
        let allowed : (a : Accepts found) → Allows w.history final hb n (secret_of found a) = λ a.
          let (p, (is_node, is_secret)) =
            validate_token-IsAuthentic s r.authorization hb.node_id w.history w.prev_labels nodes n
              listed e a in
          subst₂ (λ n t. Allows w.history final hb n t) is_node is_secret (allows hb sent p) in
        Extends-trans checked (
          authorized-Keeps w.history final hb n found _
            (Extends-trans (more tt same) (Extends-Any checked)) allowed
            (λ t c. validate_token-current s r.authorization n w' t c) ends)
    of_one_node hb sent nodes listed (n ∷ m ∷ rest) e ends =
        (among-Keeps S K G Nothing s hb.node_id (n ∷ m ∷ rest)).at _

    of_listed :
        (hb : HeartbeatPayload)
        → IsSent r hb
        → (answer : Result (List McuNode)) → env.list_nodes w.history none ≡ answer
        → let w' = record w { history = nodes_listed none ∷ w.history } in
          let out = among_listed s hb.node_id answer w' in
          (of_node s r hb out.0 out.1).1.history ≡ final
          → Extends (Guarded S K G Nothing) w'.history (of_node s r hb out.0 out.1).1.history
    unfolding of_node among_listed
    of_listed hb sent (err e) listed ends = same
    of_listed hb sent (ok nodes) listed ends =
        of_one_node hb sent nodes listed (matches hb.node_id nodes) refl ends

    of_payload-Keeps :
        (answer : Result HeartbeatPayload)
        → ((hb : HeartbeatPayload) → answer ≡ ok hb → IsSent r hb)
        → Handles final (of_payload s r answer) w
    unfolding of_payload find_node
    of_payload-Keeps (err e) k ends = same
    of_payload-Keeps (ok hb) k ends =
        Extends-trans (more tt same) (of_listed hb (k hb refl) _ refl ends)

    of_body-Keeps :
        (answer : Result Bytes)
        → ((body : Bytes) → answer ≡ ok body → read_limited 4096 r.body ≡ ok body)
        → Handles final (of_body s r answer) w
    unfolding of_body
    of_body-Keeps (err e) k ends = same
    of_body-Keeps (ok body) k ends =
        of_payload-Keeps (env.decode_heartbeat body) (λ hb e. (body, (k body refl, e))) ends

    pub handle_heartbeat-Keeps : Handles final (handle_heartbeat s r) w
    unfolding handle_heartbeat
    handle_heartbeat-Keeps =
        if-Handles final (not (r.method == "POST")) (pure _) _ w (λ e ends. same)
          (λ e. of_body-Keeps (read_limited 4096 r.body) (λ body e. e))
