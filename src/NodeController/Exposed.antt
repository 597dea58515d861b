-- ===== src/NodeController/Exposed.antt =====
-- The Service and the EndpointSlice that reconcileService and reconcileEndpointSlice write for a node.
use embewi_core.Base.{
  ◌≡◌, refl, String, Bool, List, [], ◌∷◌, Result, ok, err, Bool-cases, inl, inr, is_not_found,
}
use embewi_core.Api.Node.{McuNode}
use embewi_core.Api.Kube.{Port, Service, EndpointSlice}
use embewi_core.Agent.Protocol.{HttpRequest}
use embewi_core.NodeController.Endpoints.{
  key_for, port_value, app_ports, desired_service, endpoints_of, desired_slice, update_service,
  apply_service, service_owned_by, reconcile_service, update_slice, apply_slice, slice_owned_by,
  reconcile_endpoint_slice,
}
use embewi_core.NodeController.Calls.{Keeps}
use embewi_core.World.Call.{service_read, slice_read}
use embewi_core.World.Env.{Env}
use embewi_core.World.Action.{World}
use embewi_core.World.Emits.{same, more, Extends-trans}

-- the one port of the application
abbrev pub port_of : McuNode → List Port
unfolding port_value
port_of node =
    record { name = "app"; port = port_value node.status.app_port; protocol = "TCP" } ∷ []

module _ ⦃env : Env⦄ (node : McuNode) where
  -- the owner references are those of an object that the node owns
  abbrev pub IsOwned : List String → Type 0
  IsOwned owners = (before : List String) × (env.set_controller_reference node before ≡ ok owners)

  -- the Service has the port of the application, and the node for its owner
  pub record Exposes (s : Service) : Type 0 where
    pub ports : s.ports ≡ port_of node
    pub owned : IsOwned s.owners

  -- the slice has one endpoint: the IP of the node, ready as the node is
  pub record Routes (e : EndpointSlice) : Type 0 where
    pub endpoints :
        e.endpoints ≡ record { addresses = node.status.ip ∷ []; ready = node.status.ready } ∷ []
    pub ports : e.ports ≡ port_of node
    pub owned : IsOwned e.owners

module _ ⦃env : Env⦄ (S : Bool → McuNode → McuNode → Type 0) (H : HttpRequest → Type 0)
    (V : Service → Type 0) (E : EndpointSlice → Type 0) (node : McuNode) where
  module _ (exposes : (s : Service) → Exposes node s → V s) where
    update_service-Keeps :
        (existing : Service) (before : List String) (answer : Result (List String)) (w : World)
        → env.set_controller_reference node before ≡ answer
        → Keeps S H V E (update_service node existing answer) w
    unfolding update_service app_ports
    update_service-Keeps existing before (err e) w is = same
    update_service-Keeps existing before (ok owners) w is =
        more (exposes _ (record { ports = refl; owned = (before, is) })) same

    apply_service-Keeps :
        (owners : List String) (answer : Result Service) (w : World)
        → env.set_controller_reference node [] ≡ ok owners
        → Keeps S H V E (apply_service node (desired_service node owners) answer) w
    unfolding apply_service desired_service app_ports
    apply_service-Keeps owners (err e) w is = elim (Bool-cases (is_not_found e)) [
      | inl f ↦ rw (f) (more (exposes _ (record { ports = refl; owned = ([], is) })) same)
      | inr f ↦ rw (f) same
    ]
    apply_service-Keeps owners (ok existing) w is =
        update_service-Keeps existing existing.owners _ w refl

    service_owned_by-Keeps :
        (answer : Result (List String)) (w : World)
        → env.set_controller_reference node [] ≡ answer
        → Keeps S H V E (service_owned_by node answer) w
    unfolding service_owned_by
    service_owned_by-Keeps (err e) w is = same
    service_owned_by-Keeps (ok owners) w is =
        let key = key_for node in
        Extends-trans {h' = service_read key ∷ w.history} (more tt same) (
          apply_service-Keeps owners (env.get_service w.history key)
            (record w { history = service_read key ∷ w.history }) is)

    pub reconcile_service-Keeps : (w : World) → Keeps S H V E (reconcile_service node) w
    unfolding reconcile_service
    reconcile_service-Keeps w = service_owned_by-Keeps _ w refl

  module _ (routes : (e : EndpointSlice) → Routes node e → E e) where
    update_slice-Keeps :
        (existing : EndpointSlice) (before : List String) (answer : Result (List String))
        (w : World)
        → env.set_controller_reference node before ≡ answer
        → Keeps S H V E (update_slice node existing answer) w
    unfolding update_slice app_ports endpoints_of
    update_slice-Keeps existing before (err e) w is = same
    update_slice-Keeps existing before (ok owners) w is =
        more (routes _ (record { endpoints = refl; ports = refl; owned = (before, is) })) same

    apply_slice-Keeps :
        (owners : List String) (answer : Result EndpointSlice) (w : World)
        → env.set_controller_reference node [] ≡ ok owners
        → Keeps S H V E (apply_slice node (desired_slice node owners) answer) w
    unfolding apply_slice desired_slice app_ports endpoints_of
    apply_slice-Keeps owners (err e) w is = elim (Bool-cases (is_not_found e)) [
      | inl f ↦
          rw (f)
            (more (routes _ (record { endpoints = refl; ports = refl; owned = ([], is) })) same)
      | inr f ↦ rw (f) same
    ]
    apply_slice-Keeps owners (ok existing) w is =
        update_slice-Keeps existing existing.owners _ w refl

    slice_owned_by-Keeps :
        (answer : Result (List String)) (w : World)
        → env.set_controller_reference node [] ≡ answer
        → Keeps S H V E (slice_owned_by node answer) w
    unfolding slice_owned_by
    slice_owned_by-Keeps (err e) w is = same
    slice_owned_by-Keeps (ok owners) w is =
        let key = key_for node in
        Extends-trans {h' = slice_read key ∷ w.history} (more tt same) (
          apply_slice-Keeps owners (env.get_slice w.history key)
            (record w { history = slice_read key ∷ w.history }) is)

    pub reconcile_endpoint_slice-Keeps :
        (w : World) → Keeps S H V E (reconcile_endpoint_slice node) w
    unfolding reconcile_endpoint_slice
    reconcile_endpoint_slice-Keeps w = slice_owned_by-Keeps _ w refl
