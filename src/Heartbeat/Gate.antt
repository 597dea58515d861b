-- ===== src/Heartbeat/Gate.antt =====
-- The server writes for authentic heartbeats only.
use embewi_core.Base.{◌≡◌, refl, true}
use embewi_core.Api.Meta.{Secret}
use embewi_core.Heartbeat.Payload.{HeartbeatPayload}
use embewi_core.Heartbeat.Request.{IncomingRequest}
use embewi_core.Heartbeat.Nodes.{Server}
use embewi_core.Heartbeat.Tokens.{resolve_token_secret, provided_by, has_previous, without_previous}
use embewi_core.Heartbeat.Authentic.{IsAuthentic, HasToken}
use embewi_core.Heartbeat.Guarded.{Guarded}
use embewi_core.Heartbeat.Attempts.{Accepted}
use embewi_core.Heartbeat.Handled.{IsSent, Nothing, handle_heartbeat-Keeps}
use embewi_core.Heartbeat.Server.{handle_heartbeat}
use embewi_core.World.Call.{History}
use embewi_core.World.Env.{Env}
use embewi_core.World.Action.{World}
use embewi_core.World.Emits.{Extends}
use embewi_core.World.Retry.{RetryApi}

module _ ⦃env : Env⦄ where
  -- the request carries a heartbeat and proves that it is from the node that the heartbeat names
  abbrev pub FromDevice : History → Server → IncomingRequest → Type 0
  FromDevice h s r =
      (hb : HeartbeatPayload) × (IsSent r hb × IsAuthentic h s r.authorization hb.node_id)

  -- the end of a rotation: the Secret of that node loses its previous token, and the request used the
  -- new one
  pub record EndsRotation (h : History) (s : Server) (r : IncomingRequest) (old new : Secret)
      : Type 0 where
    pub heartbeat : HeartbeatPayload
    pub sent : IsSent r heartbeat
    pub authentic : IsAuthentic h s r.authorization heartbeat.node_id
    pub of_node : old ≡ authentic.secret
    pub current :
        HasToken (resolve_token_secret s authentic.node).1 (provided_by r.authorization) old
    pub rotating : has_previous old ≡ true
    pub cleared : new ≡ without_previous old

  -- Of all the calls that handleHeartbeat makes, the ones that write are the status patches, the
  -- Secret patches and the gauge updates. Each of them is made only if the body decodes to a
  -- heartbeat whose node id is that of exactly one McuNode listed, and the Authorization header carries
  -- a token of that node's Secret: the current one, or `previousToken` where the node's key in the
  -- Secret is `token`. A Secret patch is made only on that Secret, where the token is the current one
  -- of that node and `previousToken` is not empty, and erases `previousToken`. A gauge changes only in
  -- a run in which the API server has also accepted a status patch that the run made.
  pub handle_heartbeat-IsAuthentic :
      ⦃api : RetryApi⦄ (s : Server) (r : IncomingRequest) (w : World)
      → let final = (handle_heartbeat s r w).1.history in
        Extends
          (Guarded
            (λ lock old new. FromDevice w.history s r)
            (EndsRotation w.history s r)
            (FromDevice w.history s r × Accepted w.history final)
            Nothing)
          w.history
          final
  handle_heartbeat-IsAuthentic s r w =
      handle_heartbeat-Keeps _ _ _ s r w _
        (λ hb sent authentic. record {
          status = λ e ip now old read. (hb, (sent, authentic));
          rotates = λ token some_previous. record {
            heartbeat = hb;
            sent = sent;
            authentic = authentic;
            of_node = refl;
            current = token;
            rotating = some_previous;
            cleared = refl;
          };
          gauges = λ accepted. ((hb, (sent, authentic)), accepted);
        })
        refl
