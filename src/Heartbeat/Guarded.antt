-- ===== src/Heartbeat/Guarded.antt =====
-- A policy on the calls of the heartbeat server: on the statuses and Secrets that it writes and on the
-- gauges, and on the log entries that it relays. It reads and records events freely, and makes no other call.
use embewi_core.Base.{
  ◌≡◌, String, ℕ, Bool, true, not, List, [], ◌∷◌, Result, ok, err, has_prefix, codes,
}
use embewi_core.Api.Meta.{Secret, Bytes}
use embewi_core.Api.Node.{McuNode}
use embewi_core.Heartbeat.Payload.{HeartbeatPayload, LogPayload}
use embewi_core.Heartbeat.Nodes.{Server, matches, record_duplicates, among, among_listed}
use embewi_core.Heartbeat.Tokens.{
  TokenMatch, no_match, current, previous, read_and_match, validate_token, has_previous,
  without_previous, clear_previous_token,
}
use embewi_core.Heartbeat.Server.{record_mismatch, confirm_rotation}
use embewi_core.World.Call.{
  Call, clock_read, node_read, secret_read, nodes_listed, event_recorded, node_status_patched,
  secret_patched, gauge_set, gauge_deleted, log_relayed,
}
use embewi_core.World.Env.{Env}
use embewi_core.World.Action.{M, record_event}
use embewi_core.World.Emits.{same, more, Extends-trans, Emits, Emits-pure, Emits-call, Emits-if}

abbrev pub Guarded :
    (Bool → McuNode → McuNode → Type 0)
    → (Secret → Secret → Type 0)
    → Type 0
    → (Bool → LogPayload → Type 0)
    → Call
    → Type 0
Guarded S K G L (node_status_patched lock old new) = S lock old new
Guarded S K G L (secret_patched old new) = K old new
Guarded S K G L (gauge_set g l v) = G
Guarded S K G L (gauge_deleted g l) = G
Guarded S K G L (log_relayed is_error entry) = L is_error entry
Guarded S K G L clock_read = Unit
Guarded S K G L (node_read k) = Unit
Guarded S K G L (secret_read k) = Unit
Guarded S K G L (nodes_listed ns) = Unit
Guarded S K G L (event_recorded k kind reason m) = Unit
Guarded S K G L _ = ⊥

module _ ⦃env : Env⦄ (S : Bool → McuNode → McuNode → Type 0) (K : Secret → Secret → Type 0)
    (G : Type 0) (L : Bool → LogPayload → Type 0) where
  abbrev pub Keeps : {A : Type 0} → M A → Type 0
  Keeps m = Emits (Guarded S K G L) m

  record_duplicates-Keeps :
      (count : ℕ) (node_id : String) (ns : List McuNode)
      → Keeps (record_duplicates count node_id ns)
  unfolding record_duplicates
  record_duplicates-Keeps count node_id [] = record { at = λ w. same }
  record_duplicates-Keeps count node_id (n ∷ ns) = record {
    at = λ w. Extends-trans (more tt same) ((record_duplicates-Keeps count node_id ns).at _);
  }

  pub among-Keeps : (s : Server) (node_id : String) (ns : List McuNode) → Keeps (among s node_id ns)
  unfolding among
  among-Keeps s node_id [] = record { at = λ w. same }
  among-Keeps s node_id (n ∷ []) = record { at = λ w. same }
  among-Keeps s node_id (n ∷ m ∷ rest) = record {
    at = λ w.
        (Emits-if s.records _ _ (λ e. record_duplicates-Keeps _ node_id (n ∷ m ∷ rest))
            (λ e. Emits-pure tt)).at
          w;
  }

  pub among_listed-Keeps :
      (s : Server) (node_id : String) (r : Result (List McuNode)) → Keeps (among_listed s node_id r)
  unfolding among_listed
  among_listed-Keeps s node_id (err e) = record { at = λ w. same }
  among_listed-Keeps s node_id (ok ns) = among-Keeps s node_id (matches node_id ns)

  read_and_match-Keeps :
      (s : Server) (auth : Bytes) (node : McuNode) → Keeps (read_and_match s auth node)
  unfolding read_and_match
  read_and_match-Keeps s auth node = record { at = λ w. more tt same }

  pub validate_token-Keeps :
      (s : Server) (auth : Bytes) (node : McuNode) → Keeps (validate_token s auth node)
  unfolding validate_token
  validate_token-Keeps s auth node =
      Emits-if (not (has_prefix auth (codes "Bearer "))) _ _ (λ e. Emits-pure no_match)
        (λ e. read_and_match-Keeps s auth node)

  clear_previous_token-Keeps :
      (secret : Secret) → K secret (without_previous secret) → Keeps (clear_previous_token secret)
  unfolding clear_previous_token
  clear_previous_token-Keeps secret k = record { at = λ w. more k same }

  -- the policy allows the end of a rotation after this match
  abbrev pub AllowsEnd : TokenMatch → Type 0
  AllowsEnd no_match = Unit
  AllowsEnd (current secret) = has_previous secret ≡ true → K secret (without_previous secret)
  AllowsEnd (previous secret) = Unit

  pub confirm_rotation-Keeps : (m : TokenMatch) → AllowsEnd m → Keeps (confirm_rotation m)
  unfolding confirm_rotation
  confirm_rotation-Keeps no_match k = record { at = λ w. same }
  confirm_rotation-Keeps (previous secret) k = record { at = λ w. same }
  confirm_rotation-Keeps (current secret) k =
      Emits-if (has_previous secret) _ _ (λ e. clear_previous_token-Keeps secret (k e))
        (λ e. Emits-pure tt)

  pub record_mismatch-Keeps :
      (s : Server) (hb : HeartbeatPayload) (tcp_ip : String) (node : McuNode)
      → Keeps (record_mismatch s hb tcp_ip node)
  unfolding record_mismatch
  record_mismatch-Keeps s hb tcp_ip node =
      Emits-if _ (record_event _ _ _ _) _ (λ e. Emits-call _ _ tt) (λ e. Emits-pure tt)
