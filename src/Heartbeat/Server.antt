-- ===== src/Heartbeat/Server.antt =====
-- internal/heartbeat/server.go: handleHeartbeat.
use embewi_core.Base.{
  ℕ, String, true, ◌&&◌, not, Option, none, some, Result, ok, err, str, ◌<>◌, ◌==◌, if◌then◌else◌,
}
use embewi_core.Api.Meta.{ObjectKey, Bytes}
use embewi_core.Api.Node.{McuNode}
use embewi_core.Metrics.{update_from_heartbeat}
use embewi_core.Heartbeat.Payload.{HeartbeatPayload}
use embewi_core.Heartbeat.Request.{IncomingRequest, read_limited, Reply, reply}
use embewi_core.Heartbeat.Nodes.{Server, key_of_node, find_node}
use embewi_core.Heartbeat.Tokens.{
  TokenMatch, no_match, current, previous, validate_token, has_previous, clear_previous_token,
}
use embewi_core.Heartbeat.Status.{is_valid_state, with_heartbeat, metrics_of}
use embewi_core.World.Call.{warning}
use embewi_core.World.Env.{Env}
use embewi_core.World.Retry.{RetryApi}
use embewi_core.World.Action.{
  M, pure, ◌>>=◌, ◌>>◌, time_now, get_node, patch_node_status, record_event,
}

abbrev or_no_address : Option String → String
or_no_address none = ""
or_no_address (some host) = host

abbrev source_ip : HeartbeatPayload → String → String
source_ip hb tcp_ip = if hb.ip == "" then tcp_ip else hb.ip

-- HeartbeatIPMismatch
unfoldable pub record_mismatch : Server → HeartbeatPayload → String → McuNode → M (Unit {0})
record_mismatch s hb tcp_ip node =
    if s.records && (not (hb.ip == "") && (not (tcp_ip == "") && not (hb.ip == tcp_ip)))
    then record_event (key_of_node node) warning "HeartbeatIPMismatch"
        (str "heartbeat.ip=" <> str hb.ip <> str " diffère de l'IP source TCP=" <> str tcp_ip)
    else pure tt

module _ ⦃env : Env⦄ where
  unfoldable pub confirm_rotation : TokenMatch → M (Unit {0})
  confirm_rotation no_match = pure tt
  confirm_rotation (previous secret) = pure tt
  confirm_rotation (current secret) =
      if has_previous secret then clear_previous_token secret else pure tt

  unfoldable pub patch_read : HeartbeatPayload → String → ℕ → Result McuNode → M (Result McuNode)
  patch_read hb ip now (err e) = pure (err e)
  patch_read hb ip now (ok node) = patch_node_status true node (with_heartbeat hb ip now node)

  -- one attempt of the function that RetryOnConflict runs
  unfoldable pub attempt : HeartbeatPayload → String → ℕ → ObjectKey → M (Result McuNode)
  unfolding patch_read
  attempt hb ip now key = do node ← get_node key; patch_read hb ip now node

  unfoldable pub publish : HeartbeatPayload → Result McuNode → M Reply
  publish hb (err e) = pure (reply 200 "")
  publish hb (ok node) = do
    update_from_heartbeat (metrics_of hb node.status.chip)
    pure (reply 200 "")

  module _ ⦃api : RetryApi⦄ where
    unfoldable pub apply_heartbeat : Server → IncomingRequest → HeartbeatPayload → McuNode → M Reply
    unfolding record_mismatch attempt publish
    apply_heartbeat s r hb node = do
      let tcp_ip = or_no_address (env.host_of_address r.remote_addr)
      record_mismatch s hb tcp_ip node
      now ← time_now
      result ← api.retry_on_conflict (attempt hb (source_ip hb tcp_ip) now (key_of_node node))
      publish hb result

    unfoldable pub accept : Server → IncomingRequest → HeartbeatPayload → McuNode → M Reply
    unfolding apply_heartbeat is_valid_state
    accept s r hb node =
        if is_valid_state hb.state
        then apply_heartbeat s r hb node
        else pure (reply 400 "invalid state")

    unfoldable pub authorized :
        Server → IncomingRequest → HeartbeatPayload → McuNode → TokenMatch → M Reply
    unfolding confirm_rotation accept
    authorized s r hb node no_match = pure (reply 401 "unauthorized")
    authorized s r hb node (current secret) = do
      confirm_rotation (current secret)
      accept s r hb node
    authorized s r hb node (previous secret) = do
      confirm_rotation (previous secret)
      accept s r hb node

    unfoldable pub of_node : Server → IncomingRequest → HeartbeatPayload → Result McuNode → M Reply
    unfolding authorized validate_token
    of_node s r hb (err e) = pure (reply 200 "")
    of_node s r hb (ok node) = do
      found ← validate_token s r.authorization node
      authorized s r hb node found

    unfoldable pub of_payload : Server → IncomingRequest → Result HeartbeatPayload → M Reply
    unfolding of_node find_node
    of_payload s r (err e) = pure (reply 400 "invalid json")
    of_payload s r (ok hb) = do node ← find_node s hb.node_id; of_node s r hb node

    unfoldable pub of_body : Server → IncomingRequest → Result Bytes → M Reply
    unfolding of_payload
    of_body s r (err e) = pure (reply 400 "read error")
    of_body s r (ok body) = of_payload s r (env.decode_heartbeat body)

    unfoldable pub handle_heartbeat : Server → IncomingRequest → M Reply
    unfolding of_body read_limited
    handle_heartbeat s r =
        if not (r.method == "POST")
        then pure (reply 405 "method not allowed")
        else of_body s r (read_limited 4096 r.body)
