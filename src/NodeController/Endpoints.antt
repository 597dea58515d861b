-- ===== src/NodeController/Endpoints.antt =====
-- internal/controller/mcunode_controller.go: reconcileService and reconcileEndpointSlice.
use Prim.Native.String.{◌++◌}
use embewi_core.Base.{
  ℕ, ◌%◌, ◌-◌, String, List, [], ◌∷◌, Result, ok, err, wrap, str, is_not_found, ltb, suc,
  if◌then◌else◌,
}
use embewi_core.Base.Int.{ℤ, pos, negsuc}
use embewi_core.Api.Meta.{ObjectKey}
use embewi_core.Api.Node.{McuNode}
use embewi_core.Api.Kube.{Port, Service, Endpoint, EndpointSlice}
use embewi_core.World.Env.{Env}
use embewi_core.World.Action.{
  M, pure, ◌>>=◌, get_service, create_service, patch_service, get_slice, create_slice, patch_slice,
}

-- int32(n) of an `int`
unfoldable pub int32_of : ℕ → ℤ
int32_of n =
    let low = n % 4294967296 in if ltb low 2147483648 then pos low else negsuc (4294967295 - low)

unfoldable pub port_value : ℤ → ℤ
unfolding int32_of
port_value (pos (suc n)) = int32_of (suc n)
port_value _ = pos 8080

unfoldable pub service_name : McuNode → String
service_name node = "embewi-" ++ node.name

unfoldable pub key_for : McuNode → ObjectKey
unfolding service_name
key_for node = record { name = service_name node; namespace = node.namespace }

unfoldable pub app_ports : McuNode → List Port
unfolding port_value
app_ports node =
    record { name = "app"; port = port_value node.status.app_port; protocol = "TCP" } ∷ []

unfoldable pub desired_service : McuNode → List String → Service
unfolding service_name app_ports
desired_service node owners = record {
  name = service_name node;
  namespace = node.namespace;
  labels =
      ("embewi.io/managed-by", "embewi-controller") ∷ ("embewi.io/node-id", node.spec.node_id) ∷ [];
  owners = owners;
  ports = app_ports node;
}

unfoldable pub endpoints_of : McuNode → List Endpoint
endpoints_of node = record { addresses = node.status.ip ∷ []; ready = node.status.ready } ∷ []

unfoldable pub desired_slice : McuNode → List String → EndpointSlice
unfolding service_name app_ports endpoints_of
desired_slice node owners = record {
  name = service_name node;
  namespace = node.namespace;
  labels =
      ("kubernetes.io/service-name", service_name node)
      ∷ ("embewi.io/managed-by", "embewi-controller")
      ∷ ("embewi.io/node-id", node.spec.node_id)
      ∷ [];
  owners = owners;
  address_type = "IPv4";
  endpoints = endpoints_of node;
  ports = app_ports node;
}

module _ ⦃env : Env⦄ where
  unfoldable pub update_service : McuNode → Service → Result (List String) → M (Result (Unit {0}))
  unfolding app_ports
  update_service node existing (err e) =
      pure (err (wrap (str "SetControllerReference Service existant") e))
  update_service node existing (ok owners) =
      patch_service existing (record existing { ports = app_ports node; owners = owners })

  unfoldable pub apply_service : McuNode → Service → Result Service → M (Result (Unit {0}))
  unfolding update_service
  apply_service node desired (err e) =
      if is_not_found e then create_service desired else pure (err e)
  apply_service node desired (ok existing) =
      update_service node existing (env.set_controller_reference node existing.owners)

  unfoldable pub service_owned_by : McuNode → Result (List String) → M (Result (Unit {0}))
  unfolding apply_service desired_service key_for
  service_owned_by node (err e) = pure (err (wrap (str "SetControllerReference Service") e))
  service_owned_by node (ok owners) = do
    existing ← get_service (key_for node)
    apply_service node (desired_service node owners) existing

  unfoldable pub reconcile_service : McuNode → M (Result (Unit {0}))
  unfolding service_owned_by
  reconcile_service node = service_owned_by node (env.set_controller_reference node [])

  unfoldable pub update_slice :
      McuNode → EndpointSlice → Result (List String) → M (Result (Unit {0}))
  unfolding app_ports endpoints_of
  update_slice node existing (err e) =
      pure (err (wrap (str "SetControllerReference EndpointSlice existant") e))
  update_slice node existing (ok owners) =
      patch_slice existing
        (record existing { endpoints = endpoints_of node; ports = app_ports node; owners = owners })

  unfoldable pub apply_slice :
      McuNode → EndpointSlice → Result EndpointSlice → M (Result (Unit {0}))
  unfolding update_slice
  apply_slice node desired (err e) = if is_not_found e then create_slice desired else pure (err e)
  apply_slice node desired (ok existing) =
      update_slice node existing (env.set_controller_reference node existing.owners)

  unfoldable pub slice_owned_by : McuNode → Result (List String) → M (Result (Unit {0}))
  unfolding apply_slice desired_slice key_for
  slice_owned_by node (err e) = pure (err (wrap (str "SetControllerReference EndpointSlice") e))
  slice_owned_by node (ok owners) = do
    existing ← get_slice (key_for node)
    apply_slice node (desired_slice node owners) existing

  unfoldable pub reconcile_endpoint_slice : McuNode → M (Result (Unit {0}))
  unfolding slice_owned_by
  reconcile_endpoint_slice node = slice_owned_by node (env.set_controller_reference node [])
