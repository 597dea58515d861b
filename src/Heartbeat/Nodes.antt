-- ===== src/Heartbeat/Nodes.antt =====
-- internal/heartbeat/server.go: findNode, FindByNodeID and NodeKey.
use embewi_core.Base.{
  ℕ, String, Bool, List, [], ◌∷◌, Result, ok, err, sentinel, duplicate_node_id, plain, wrap,
  Message, str, number, quoted, ◌<>◌, ◌==◌, if◌then◌else◌, length, none,
}
use embewi_core.Api.Meta.{ObjectKey}
use embewi_core.Api.Node.{McuNode}
use embewi_core.World.Call.{warning}
use embewi_core.World.Env.{Env}
use embewi_core.World.Action.{M, pure, ◌>>=◌, ◌>>◌, list_nodes, record_event}

-- Server, without the client, and with whether it has a recorder; the address and the TLS files are
-- read by Start alone
pub record Server : Type 0 where
  pub token_secret : String
  pub records : Bool

abbrev pub key_of_node : McuNode → ObjectKey
key_of_node node = record { name = node.name; namespace = node.namespace }

unfoldable pub matches : String → List McuNode → List McuNode
matches node_id [] = []
matches node_id (n ∷ ns) =
    let rest = matches node_id ns in if n.spec.node_id == node_id then n ∷ rest else rest

abbrev pub duplicate_message : ℕ → String → Message
duplicate_message count node_id =
    number count
    <> str " McuNode déclarent nodeId="
    <> quoted node_id
    <> str " — heartbeats de ce device ignorés jusqu'à résolution"

unfoldable pub record_duplicates : ℕ → String → List McuNode → M (Unit {0})
record_duplicates count node_id [] = pure tt
record_duplicates count node_id (n ∷ ns) = do
  record_event (key_of_node n) warning "DuplicateNodeID" (duplicate_message count node_id)
  record_duplicates count node_id ns

abbrev pub no_such_node : String → Result McuNode
no_such_node node_id = err (plain (str "no McuNode with nodeId=" <> quoted node_id))

unfoldable pub among : Server → String → List McuNode → M (Result McuNode)
unfolding record_duplicates
among s node_id [] = pure (no_such_node node_id)
among s node_id (n ∷ []) = pure (ok n)
among s node_id (n ∷ m ∷ rest) = do
  if s.records then record_duplicates (length (n ∷ m ∷ rest)) node_id (n ∷ m ∷ rest) else pure tt
  pure (
      err (
        wrap (number (length (n ∷ m ∷ rest)) <> str " McuNode déclarent nodeId=" <> quoted node_id)
          (sentinel duplicate_node_id)))

unfoldable pub among_listed : Server → String → Result (List McuNode) → M (Result McuNode)
unfolding among matches
among_listed s node_id (err e) = pure (err e)
among_listed s node_id (ok nodes) = among s node_id (matches node_id nodes)

unfoldable pub first_key : String → List McuNode → Result ObjectKey
first_key node_id [] = err (plain (str "no McuNode with nodeId=" <> quoted node_id))
first_key node_id (n ∷ ns) =
    let rest = first_key node_id ns in
    if n.spec.node_id == node_id then ok (key_of_node n) else rest

unfoldable pub key_listed : String → Result (List McuNode) → Result ObjectKey
unfolding first_key
key_listed node_id (err e) = err e
key_listed node_id (ok nodes) = first_key node_id nodes

module _ ⦃env : Env⦄ where
  unfoldable pub find_node : Server → String → M (Result McuNode)
  unfolding among_listed
  find_node s node_id = do nodes ← list_nodes none; among_listed s node_id nodes

  abbrev pub find_by_node_id : Server → String → M (Result McuNode)
  unfolding find_node
  find_by_node_id = find_node

  unfoldable pub node_key : String → M (Result ObjectKey)
  unfolding key_listed
  node_key node_id = do nodes ← list_nodes none; pure (key_listed node_id nodes)
