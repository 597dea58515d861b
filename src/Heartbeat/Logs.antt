-- ===== src/Heartbeat/Logs.antt =====
-- internal/heartbeat/server.go: handleLog, handleLogWS and logEntry. A log line goes to the
-- structured logger.
use embewi_core.Base.{
  String, Bool, true, false, ◌||◌, not, List, [], ◌∷◌, Result, ok, err, ◌==◌, if◌then◌else◌,
}
use embewi_core.Api.Meta.{Bytes}
use embewi_core.Api.Node.{McuNode}
use embewi_core.Heartbeat.Payload.{LogPayload}
use embewi_core.Heartbeat.Request.{
  IncomingRequest, WebSocket, plain_request, upgrade_failed, upgraded, read_limited, Reply, reply,
}
use embewi_core.Heartbeat.Nodes.{Server, find_node}
use embewi_core.Heartbeat.Tokens.{TokenMatch, no_match, current, previous, validate_token}
use embewi_core.World.Env.{Env}
use embewi_core.World.Action.{M, pure, ◌>>=◌, ◌>>◌, relay_log}

unfoldable pub log_entry : LogPayload → M (Unit {0})
log_entry entry = relay_log (entry.level == "fatal" || entry.level == "error") entry

-- how a WebSocket handler ends: the upgrade failed, reading failed, or a close frame was sent
pub data WsEnd : Type 0 where
  not_upgraded ended : WsEnd
  policy_violation : String → WsEnd

-- the answer of handleLog: over HTTP, or over a WebSocket
pub data LogReply : Type 0 where
  http : Reply → LogReply
  websocket : WsEnd → LogReply

abbrev pub is_match : TokenMatch → Bool
is_match no_match = false
is_match (current secret) = true
is_match (previous secret) = true

unfoldable pub post_entry : Result LogPayload → M LogReply
unfolding log_entry
post_entry (err e) = pure (http (reply 200 ""))
post_entry (ok entry) = do log_entry entry; pure (http (reply 200 ""))

abbrev entry_of : Result Bytes → Bytes → Bytes
entry_of (ok body) partial = body
entry_of (err e) partial = partial

module _ ⦃env : Env⦄ where
  -- authentication by the node that the first well-formed frame names
  unfoldable pub authenticate_node : Server → Bytes → Result McuNode → M Bool
  authenticate_node s auth (err e) = pure false
  authenticate_node s auth (ok node) = do found ← validate_token s auth node; pure (is_match found)

  unfoldable pub authenticate : Server → Bytes → LogPayload → M Bool
  unfolding authenticate_node
  authenticate s auth entry = do node ← find_node s entry.node; authenticate_node s auth node

  -- one frame; `next` reads the frames after it, with the new value of `authenticated`
  unfoldable pub first_entry : LogPayload → Bool → (Bool → M WsEnd) → M WsEnd
  unfolding log_entry
  first_entry entry false next = pure (policy_violation "unauthorized")
  first_entry entry true next = log_entry entry >> next true

  unfoldable pub frame : Server → Bytes → Bool → Result LogPayload → (Bool → M WsEnd) → M WsEnd
  unfolding authenticate log_entry first_entry
  frame s auth authenticated (err e) next = next authenticated
  frame s auth true (ok entry) next = log_entry entry >> next true
  frame s auth false (ok entry) next = do
    is_authentic ← authenticate s auth entry
    first_entry entry is_authentic next

  -- the loop over the frames
  unfoldable pub read_frames : Server → Bytes → Bool → List Bytes → M WsEnd
  unfolding frame
  read_frames s auth authenticated [] = pure ended
  read_frames s auth authenticated (raw ∷ frames) =
      frame s auth authenticated (env.decode_log raw) (λ b. read_frames s auth b frames)

  unfoldable pub handle_log_ws : Server → IncomingRequest → WebSocket → M WsEnd
  unfolding read_frames
  handle_log_ws s r plain_request = pure not_upgraded
  handle_log_ws s r upgrade_failed = pure not_upgraded
  handle_log_ws s r (upgraded frames) = read_frames s r.authorization false frames

  abbrev pub is_upgrade : WebSocket → Bool
  is_upgrade plain_request = false
  is_upgrade _ = true

  unfoldable pub handle_log : Server → IncomingRequest → M LogReply
  unfolding handle_log_ws post_entry read_limited
  handle_log s r =
      if is_upgrade r.socket
      then handle_log_ws s r r.socket >>= (λ end. pure (websocket end))
      else if not (r.method == "POST")
      then pure (http (reply 405 "method not allowed"))
      else post_entry (env.decode_log (entry_of (read_limited 2048 r.body) r.body.octets))
