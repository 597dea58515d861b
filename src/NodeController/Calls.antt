-- ===== src/NodeController/Calls.antt =====
-- A policy on the calls of the McuNode controller: on the statuses, Services and EndpointSlices that it
-- writes and on the requests that it sends. It reads, records events, updates finalizers and deletes
-- gauges freely, and makes no other call.
use Prim.Native.String.{◌++◌}
use embewi_core.Base.{
  ◌==◌, if◌then◌else◌, String, Bool, true, false, none, [], ◌∷◌, Message, Bool-cases, inl, inr,
}
use embewi_core.Api.Meta.{Bytes}
use embewi_core.Api.Node.{McuNode}
use embewi_core.Api.Kube.{Service, EndpointSlice}
use embewi_core.Agent.Protocol.{
  Client, Payload, HttpRequest, authorization, content_type, empty_json, token_json, tls_json,
}
use embewi_core.Agent.Client.{post_reboot, post_tls_cert, rotate_token}
use embewi_core.NodeController.Secrets.{McuNodeReconciler, record_if, current_token}
use embewi_core.World.Call.{
  Call, EventKind, clock_read, node_read, secret_read, service_read, slice_read, event_recorded,
  node_updated, gauge_deleted, node_status_patched, http_sent, service_created, service_patched,
  slice_created, slice_patched,
}
use embewi_core.World.Env.{Env}
use embewi_core.World.Action.{World, M}
use embewi_core.World.Emits.{Extends, same, more}

abbrev pub NodePolicy :
    (Bool → McuNode → McuNode → Type 0)
    → (HttpRequest → Type 0)
    → (Service → Type 0)
    → (EndpointSlice → Type 0)
    → Call
    → Type 0
NodePolicy S H V E (node_status_patched lock old new) = S lock old new
NodePolicy S H V E (http_sent r) = H r
NodePolicy S H V E (service_created s) = V s
NodePolicy S H V E (service_patched old new) = V new
NodePolicy S H V E (slice_created s) = E s
NodePolicy S H V E (slice_patched old new) = E new
NodePolicy S H V E clock_read = Unit
NodePolicy S H V E (node_read k) = Unit
NodePolicy S H V E (secret_read k) = Unit
NodePolicy S H V E (service_read k) = Unit
NodePolicy S H V E (slice_read k) = Unit
NodePolicy S H V E (event_recorded k kind reason m) = Unit
NodePolicy S H V E (node_updated n) = Unit
NodePolicy S H V E (gauge_deleted g l) = Unit
NodePolicy S H V E _ = ⊥

-- a POST with a JSON body
abbrev pub posted : Client → String → Payload → HttpRequest
posted c path body = record {
  method = "POST";
  url = c.base_url ++ "/v1alpha1" ++ path;
  headers = authorization c.token ∷ content_type "application/json" ∷ [];
  content_length = none;
  body = body;
}

module _ ⦃env : Env⦄ (S : Bool → McuNode → McuNode → Type 0) (H : HttpRequest → Type 0)
    (V : Service → Type 0) (E : EndpointSlice → Type 0) where
  abbrev pub Keeps : {A : Type 0} → M A → World → Type 0
  Keeps m w = Extends (NodePolicy S H V E) w.history (m w).1.history

  pub if-Keeps :
      {A : Type 0} (b : Bool) (m n : M A) (w : World)
      → Keeps m w
      → Keeps n w
      → Keeps (if b then m else n) w
  if-Keeps true m n w k l = k
  if-Keeps false m n w k l = l

  pub record_if-Keeps :
      (r : McuNodeReconciler) (node : McuNode) (kind : EventKind) (reason : String) (m : Message)
      (w : World)
      → Keeps (record_if r node kind reason m) w
  unfolding record_if
  record_if-Keeps r node kind reason m w = elim (Bool-cases r.records) [
    | inl e ↦ rw (e) (more tt same)
    | inr e ↦ rw (e) same
  ]

  pub current_token-Keeps : (node : McuNode) (w : World) → Keeps (current_token node) w
  unfolding current_token
  current_token-Keeps node w = elim (Bool-cases (node.spec.token_ref.name == "")) [
    | inl e ↦ rw (e) same
    | inr e ↦ rw (e) (more tt same)
  ]

  pub post_reboot-Keeps :
      (c : Client) (w : World) → H (posted c "/reboot" empty_json) → Keeps (post_reboot c) w
  unfolding post_reboot
  post_reboot-Keeps c w h = more h same

  pub rotate_token-Keeps :
      (c : Client) (token : Bytes) (w : World)
      → H (posted c "/token" (token_json token))
      → Keeps (rotate_token c token) w
  unfolding rotate_token
  rotate_token-Keeps c token w h = more h same

  pub post_tls_cert-Keeps :
      (c : Client) (cert key : Bytes) (w : World)
      → H (posted c "/tls/cert" (tls_json cert key))
      → Keeps (post_tls_cert c cert key) w
  unfolding post_tls_cert
  post_tls_cert-Keeps c cert key w h = more h same
