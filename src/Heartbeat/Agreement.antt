-- ===== src/Heartbeat/Agreement.antt =====
-- The heartbeat server and the McuDeployment controller look for the token of a node in the same
-- place, and NodeKey finds the node that findNode finds.
use embewi_core.Base.{
  ◌≡◌, String, Bool, true, false, none, List, [], ◌∷◌, Result, ok, err, ◌==◌, if◌then◌else◌, arith,
}
use embewi_core.Api.Meta.{ObjectKey}
use embewi_core.Api.Node.{McuNode}
use embewi_core.Deployment.Device.{token_location}
use embewi_core.Heartbeat.Nodes.{
  Server, key_of_node, matches, among, among_listed, first_key, key_listed, find_node, node_key,
}
use embewi_core.Heartbeat.Tokens.{resolve_token_secret}
use embewi_core.World.Env.{Env}
use embewi_core.World.Action.{World}

-- For the same configured Secret name, resolveTokenSecret of the heartbeat server and nodeToken of
-- the McuDeployment controller read the token of any node under the same key of the same Secret.
pub resolve_token_secret-token_location :
    (s : Server) (node : McuNode) → resolve_token_secret s node ≡ token_location s.token_secret node
unfolding resolve_token_secret token_location
resolve_token_secret-token_location s node = ground arith

first_step :
    (b : Bool) (m n : McuNode) (tail rest : List McuNode) (k : Result ObjectKey)
    → (tail ≡ n ∷ rest → k ≡ ok (key_of_node n))
    → (if b then m ∷ tail else tail) ≡ n ∷ rest
    → (if b then ok (key_of_node m) else k) ≡ ok (key_of_node n)
first_step true m n tail rest k next e = cc
first_step false m n tail rest k next e = next e

first_key-matches :
    (node_id : String) (nodes : List McuNode) (n : McuNode) (rest : List McuNode)
    → matches node_id nodes ≡ n ∷ rest
    → first_key node_id nodes ≡ ok (key_of_node n)
unfolding matches first_key
first_key-matches node_id [] n rest e = absurd (cc)
first_key-matches node_id (m ∷ ms) n rest e =
    first_step (m.spec.node_id == node_id) m n (matches node_id ms) rest (first_key node_id ms)
      (first_key-matches node_id ms n rest) e

among-ok :
    (s : Server) (node_id : String) (found : List McuNode) (w : World) (n : McuNode)
    → (among s node_id found w).0 ≡ ok n
    → found ≡ n ∷ []
unfolding among
among-ok s node_id [] w n e = absurd (cc)
among-ok s node_id (m ∷ []) w n e = cc
among-ok s node_id (m ∷ l ∷ rest) w n e = absurd (cc)

among_listed-key :
    (s : Server) (node_id : String) (answer : Result (List McuNode)) (w : World) (n : McuNode)
    → (among_listed s node_id answer w).0 ≡ ok n
    → key_listed node_id answer ≡ ok (key_of_node n)
unfolding among_listed key_listed
among_listed-key s node_id (err e) w n h = absurd (cc)
among_listed-key s node_id (ok nodes) w n h =
    first_key-matches node_id nodes n [] (among-ok s node_id (matches node_id nodes) w n h)

module _ ⦃env : Env⦄ where
  -- Where findNode returns a node, NodeKey, asked at the same moment, returns the name and the
  -- namespace of that node.
  pub node_key-find_node :
      (s : Server) (node_id : String) (w : World) (n : McuNode)
      → (find_node s node_id w).0 ≡ ok n
      → (node_key node_id w).0 ≡ ok (key_of_node n)
  unfolding find_node node_key
  node_key-find_node s node_id w n e =
      among_listed-key s node_id (env.list_nodes w.history none) _ n e
