-- ===== src/Heartbeat/Duplicates.antt =====
-- A heartbeat whose node id several McuNodes declare.
use embewi_core.Base.{◌≡◌, refl, ap, String, ℕ, true, none, List, [], ◌∷◌, ok, length}
use embewi_core.Api.Node.{McuNode}
use embewi_core.Heartbeat.Payload.{HeartbeatPayload}
use embewi_core.Heartbeat.Request.{IncomingRequest, reply}
use embewi_core.Heartbeat.Nodes.{
  Server, key_of_node, matches, duplicate_message, record_duplicates, among, among_listed,
  find_node,
}
use embewi_core.Heartbeat.Handled.{IsSent}
use embewi_core.Heartbeat.Server.{of_node, of_payload, of_body, handle_heartbeat}
use embewi_core.World.Call.{History, warning, nodes_listed, event_recorded}
use embewi_core.World.Env.{Env}
use embewi_core.World.Action.{World}
use embewi_core.World.Retry.{RetryApi}

-- one DuplicateNodeID event for each node, the latest first
abbrev pub duplicate_events : ℕ → String → List McuNode → History → History
duplicate_events count node_id [] h = h
duplicate_events count node_id (n ∷ ns) h =
    duplicate_events count node_id ns (
      event_recorded (key_of_node n) warning "DuplicateNodeID" (duplicate_message count node_id)
      ∷ h)

record_duplicates-history :
    (count : ℕ) (node_id : String) (ns : List McuNode) (w : World)
    → (record_duplicates count node_id ns w).1
      ≡ record w { history = duplicate_events count node_id ns w.history }
unfolding record_duplicates
record_duplicates-history count node_id [] w = refl
record_duplicates-history count node_id (n ∷ ns) w = record_duplicates-history count node_id ns _

module _ ⦃env : Env⦄ ⦃api : RetryApi⦄ where
  -- If a POST carries a heartbeat whose node id two or more of the McuNodes listed declare, and the
  -- server has a recorder, then the answer is 200 with no text, and the only calls are the listing and
  -- then one DuplicateNodeID event for each of these nodes, in the order of the list: no token is
  -- read, and no status, Secret or gauge is written, whatever the request's token is.
  pub handle_heartbeat-duplicates :
      (s : Server) (r : IncomingRequest) (w : World) (hb : HeartbeatPayload)
      → (nodes : List McuNode) (n m : McuNode) (rest : List McuNode) → s.records ≡ true
      → r.method ≡ "POST"
      → IsSent r hb
      → env.list_nodes w.history none ≡ ok nodes
      → matches hb.node_id nodes ≡ n ∷ m ∷ rest
      → handle_heartbeat s r w ≡ (
        reply 200 "",
        record w {
          history =
              duplicate_events
                (length (n ∷ m ∷ rest))
                hb.node_id
                (n ∷ m ∷ rest)
                (nodes_listed none ∷ w.history);
        },
      )
  unfolding handle_heartbeat of_body of_payload find_node among_listed among of_node
  handle_heartbeat-duplicates s r w hb nodes n m rest records post (body, (is, decoded)) listed
        found =
      rw (post, is, decoded, listed, found, records)
        (ap (λ w. (reply 200 "", w)) (record_duplicates-history _ hb.node_id (n ∷ m ∷ rest) _))
