-- ===== src/Heartbeat/Refused.antt =====
-- A heartbeat that is not answered with 200.
use embewi_core.Base.{◌≡◌, ◌≢◌, refl, none, Result, ok, err, ◌==◌, Bool-cases, inl, inr}
use embewi_core.Api.Meta.{Bytes}
use embewi_core.Api.Node.{McuNode}
use embewi_core.Heartbeat.Payload.{HeartbeatPayload}
use embewi_core.Heartbeat.Request.{IncomingRequest, Reply, read_limited}
use embewi_core.Heartbeat.Nodes.{Server, find_node, among_listed}
use embewi_core.Heartbeat.Tokens.{TokenMatch, no_match, current, previous, validate_token}
use embewi_core.Heartbeat.Status.{is_valid_state}
use embewi_core.Heartbeat.Guarded.{
  Guarded, among_listed-Keeps, validate_token-Keeps, confirm_rotation-Keeps,
}
use embewi_core.Heartbeat.Handled.{Nothing}
use embewi_core.Heartbeat.Server.{
  publish, confirm_rotation, apply_heartbeat, accept, authorized, of_node, of_payload, of_body,
  handle_heartbeat,
}
use embewi_core.World.Call.{Call}
use embewi_core.World.Env.{Env}
use embewi_core.World.Action.{World, M, list_nodes}
use embewi_core.World.Emits.{Extends, same, more, Extends-trans}
use embewi_core.World.Retry.{RetryApi}

-- no status, gauge or log entry is written
abbrev pub Untouched : Call → Type 0
Untouched = Guarded (λ lock old new. ⊥) (λ old new. Unit) ⊥ Nothing

-- an answer other than 200 comes without a write
abbrev Refuses : M Reply → World → Type 0
Refuses m w = (m w).0.code ≢ 200 → Extends Untouched w.history (m w).1.history

module _ ⦃env : Env⦄ where
  publish-code :
      (hb : HeartbeatPayload) (r : Result McuNode) (w : World) → (publish hb r w).0.code ≡ 200
  unfolding publish
  publish-code hb (err e) w = refl
  publish-code hb (ok node) w = refl

module _ ⦃env : Env⦄ ⦃api : RetryApi⦄ (s : Server) (r : IncomingRequest) where
  accept-Refuses :
      (hb : HeartbeatPayload) (node : McuNode) (w : World) → Refuses (accept s r hb node) w
  unfolding accept apply_heartbeat
  accept-Refuses hb node w = elim (Bool-cases (is_valid_state hb.state)) [
    | inl e ↦ rw (e) (λ other. absurd (other (publish-code hb _ _)))
    | inr e ↦ rw (e) (λ other. same)
  ]

  authorized-Refuses :
      (hb : HeartbeatPayload) (node : McuNode) (m : TokenMatch) (w : World)
      → Refuses (authorized s r hb node m) w
  unfolding authorized
  authorized-Refuses hb node no_match w other = same
  authorized-Refuses hb node (current secret) w other =
      Extends-trans ((confirm_rotation-Keeps _ _ _ _ (current secret) (λ _. tt)).at w)
        (accept-Refuses hb node (confirm_rotation (current secret) w).1 other)
  authorized-Refuses hb node (previous secret) w other =
      Extends-trans ((confirm_rotation-Keeps _ _ _ _ (previous secret) tt).at w)
        (accept-Refuses hb node (confirm_rotation (previous secret) w).1 other)

  of_node-Refuses :
      (hb : HeartbeatPayload) (answer : Result McuNode) (w : World)
      → Refuses (of_node s r hb answer) w
  unfolding of_node
  of_node-Refuses hb (err e) w other = same
  of_node-Refuses hb (ok node) w other =
      let (found, u) = validate_token s r.authorization node w in
      Extends-trans ((validate_token-Keeps _ _ _ _ s r.authorization node).at w)
        (authorized-Refuses hb node found u other)

  of_payload-Refuses :
      (answer : Result HeartbeatPayload) (w : World) → Refuses (of_payload s r answer) w
  unfolding of_payload find_node
  of_payload-Refuses (err e) w other = same
  of_payload-Refuses (ok hb) w other =
      let (nodes, v) = list_nodes none w in
      let (node, u) = among_listed s hb.node_id nodes v in
      Extends-trans {h' = v.history} (more tt same) (
        Extends-trans ((among_listed-Keeps _ _ _ _ s hb.node_id nodes).at v)
          (of_node-Refuses hb node u other))

  of_body-Refuses : (answer : Result Bytes) (w : World) → Refuses (of_body s r answer) w
  unfolding of_body
  of_body-Refuses (err e) w other = same
  of_body-Refuses (ok body) w other = of_payload-Refuses (env.decode_heartbeat body) w other

  -- A request to the heartbeat endpoint that is answered with another code than 200 (a method other
  -- than POST, a body that cannot be read or decoded, a token that does not match, a state outside the
  -- CRD's enumeration) leaves every node's status and every gauge as they were: the handler reads,
  -- records events, and may end a token rotation, and makes no other call.
  pub handle_heartbeat-refused :
      (w : World)
      → (handle_heartbeat s r w).0.code ≢ 200
      → Extends Untouched w.history (handle_heartbeat s r w).1.history
  unfolding handle_heartbeat
  handle_heartbeat-refused w = elim (Bool-cases (r.method == "POST")) [
    | inl e ↦ rw (e) (of_body-Refuses (read_limited 4096 r.body) w)
    | inr e ↦ rw (e) (λ other. same)
  ]
