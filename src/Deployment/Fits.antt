-- ===== src/Deployment/Fits.antt =====
-- A reconciliation meets a policy that allows what its phase writes and sends: Pulling and Preparing.
use embewi_core.Base.{String, Bool, Option, none, some, Result, ok, err, Error, ◌==◌}
use embewi_core.Api.Meta.{Bytes}
use embewi_core.Api.Node.{McuNode}
use embewi_core.Api.Deployment.{McuDeployment, writing, activating, confirming}
use embewi_core.Agent.Protocol.{
  Client, InfoResponse, PrepareRequest, PrepareResponse, Payload, prepare_json,
}
use embewi_core.Agent.Client.{get_info, ota_prepare}
use embewi_core.Agent.Calls.{get_info-Policy, ota_prepare-Policy}
use embewi_core.Oci.Types.{Client as OciClient, FirmwareMeta, Ref}
use embewi_core.Oci.Reference.{parse_ref}
use embewi_core.Oci.Registry.{resolve_at, resolve_firmware, stream_at, stream_blob}
use embewi_core.Deployment.Calls.{
  Fits, AllowsPhase, AllowsFail, set_phase-Fits, fail-Fits, node_client-Fits,
  persist_node_info-Fits,
}
use embewi_core.Deployment.ConfigFits.{AllowsConfig, push_config_if_needed-Fits, config_failed-Fits}
use embewi_core.Deployment.Device.{McuDeploymentReconciler, node_client, persist_node_info}
use embewi_core.Deployment.Ota.{
  pulled, pull_resolved, phase_pulling, unsupported_version, on_prepared, staged_activating,
  staged_written, prepare_staged, prepare_info, prepare_request, push_if_referenced,
  prepare_configured, prepare_with, phase_preparing,
}
use embewi_core.World.Env.{Env}
use embewi_core.World.Emits.{same, more, Extends-trans, Emits-bind, Emits-if}

module _ ⦃env : Env⦄ (Q : McuDeployment → McuDeployment → Type 0) (H : Payload → Type 0) where
  abbrev pub AllowsPull : Type 0
  AllowsPull = (dep : McuDeployment) (meta : FirmwareMeta) → Q dep (pulled dep meta)

  -- Pulling

  resolve_at-Fits :
      (c : OciClient) (image : Bytes) (r : Result Ref) → Fits Q H (resolve_at c image r)
  unfolding resolve_at
  resolve_at-Fits c image (err e) = record { at = λ w. same }
  resolve_at-Fits c image (ok r) = record { at = λ w. more tt same }

  resolve_firmware-Fits : (c : OciClient) (image : Bytes) → Fits Q H (resolve_firmware c image)
  unfolding resolve_firmware
  resolve_firmware-Fits c image = resolve_at-Fits c image (parse_ref image)

  stream_at-Fits :
      (c : OciClient) (digest : String) (r : Result Ref) → Fits Q H (stream_at c digest r)
  unfolding stream_at
  stream_at-Fits c digest (err e) = record { at = λ w. same }
  stream_at-Fits c digest (ok r) = record { at = λ w. more tt same }

  pub stream_blob-Fits :
      (c : OciClient) (image : Bytes) (digest : String) → Fits Q H (stream_blob c image digest)
  unfolding stream_blob
  stream_blob-Fits c image digest = stream_at-Fits c digest (parse_ref image)

  pull_resolved-Fits :
      AllowsPull → (dep : McuDeployment) (r : Result FirmwareMeta) → Fits Q H (pull_resolved dep r)
  unfolding pull_resolved
  pull_resolved-Fits a dep (err e) = record { at = λ w. same }
  pull_resolved-Fits a dep (ok meta) = record { at = λ w. more (a dep meta) same }

  pub phase_pulling-Fits :
      AllowsPull
      → (r : McuDeploymentReconciler) (dep : McuDeployment) → Fits Q H (phase_pulling r dep)
  unfolding phase_pulling
  phase_pulling-Fits a r dep =
      Emits-bind (resolve_firmware r.oci dep.spec.firmware.image) (pull_resolved dep)
        (resolve_firmware-Fits r.oci dep.spec.firmware.image) (pull_resolved-Fits a dep)

  -- Preparing

  pub unsupported_version-Fits :
      AllowsFail Q H → (dep : McuDeployment) (e : Error) → Fits Q H (unsupported_version dep e)
  unfolding unsupported_version
  unsupported_version-Fits f dep e = record {
    at = λ w. Extends-trans (more tt same) ((fail-Fits Q H f dep _ _).at _);
  }

  on_prepared-Fits :
      AllowsPhase Q H writing
      → AllowsFail Q H
      → (dep : McuDeployment) (node : McuNode) (r : Result PrepareResponse)
      → Fits Q H (on_prepared dep node r)
  unfolding on_prepared
  on_prepared-Fits a f dep node (err e) = record { at = λ w. same }
  on_prepared-Fits a f dep node (ok resp) =
      Emits-if resp.accepted _ _ (λ _. set_phase-Fits Q H writing a dep _ _)
        (λ _. record { at = λ w. Extends-trans (more tt same) ((fail-Fits Q H f dep _ _).at _) })

  -- what the preparation of a deployment is allowed
  pub record AllowsPreparing : Type 0 where
    pub to_confirming : AllowsPhase Q H confirming
    pub to_activating : AllowsPhase Q H activating
    pub to_writing : AllowsPhase Q H writing
    pub to_failed : AllowsFail Q H
    pub config : AllowsConfig Q H
    pub prepare : (req : PrepareRequest) → H (prepare_json req)

  prepare_staged-Fits :
      AllowsPreparing
      → (dep : McuDeployment) (cli : Client) (info : InfoResponse) (n : McuNode × Option Error)
      → Fits Q H (prepare_staged dep cli info n)
  unfolding prepare_staged
  prepare_staged-Fits a dep cli info (node, some e) = unsupported_version-Fits a.to_failed dep e
  prepare_staged-Fits a dep cli info (node, none) =
      Emits-if (staged_activating info dep) _ _
        (λ _. set_phase-Fits Q H confirming a.to_confirming dep _ _)
        (λ _.
          Emits-if (staged_written info dep) _ _
            (λ _. set_phase-Fits Q H activating a.to_activating dep _ _)
            (λ _.
              Emits-bind (ota_prepare cli (prepare_request dep node)) (on_prepared dep node)
                (ota_prepare-Policy Q H cli _ (a.prepare (prepare_request dep node)))
                (on_prepared-Fits a.to_writing a.to_failed dep node)))

  prepare_info-Fits :
      AllowsPreparing
      → (dep : McuDeployment) (node : McuNode) (cli : Client) (r : Result InfoResponse)
      → Fits Q H (prepare_info dep node cli r)
  unfolding prepare_info
  prepare_info-Fits a dep node cli (err e) = record { at = λ w. same }
  prepare_info-Fits a dep node cli (ok info) =
      Emits-bind (persist_node_info node info) (prepare_staged dep cli info)
        (persist_node_info-Fits Q H node info) (prepare_staged-Fits a dep cli info)

  prepare_configured-Fits :
      AllowsPreparing
      → (dep : McuDeployment) (node : McuNode) (cli : Client) (r : Result Bool)
      → Fits Q H (prepare_configured dep node cli r)
  unfolding prepare_configured
  prepare_configured-Fits a dep node cli (err e) = config_failed-Fits Q H a.to_failed dep 15 e
  prepare_configured-Fits a dep node cli (ok _) =
      Emits-bind (get_info cli) (prepare_info dep node cli) (get_info-Policy Q H cli a.config.0)
        (prepare_info-Fits a dep node cli)

  prepare_with-Fits :
      AllowsPreparing
      → (dep : McuDeployment) (r : Result (McuNode × Client)) → Fits Q H (prepare_with dep r)
  unfolding prepare_with
  prepare_with-Fits a dep (err e) = record { at = λ w. same }
  prepare_with-Fits a dep (ok (node, cli)) =
      Emits-bind (push_if_referenced dep cli) (prepare_configured dep node cli)
        (Emits-if (dep.spec.config_map_ref == "") _ _ (λ _. record { at = λ w. same })
          (λ _. push_config_if_needed-Fits Q H a.config cli dep))
        (prepare_configured-Fits a dep node cli)

  pub phase_preparing-Fits :
      AllowsPreparing
      → (r : McuDeploymentReconciler) (dep : McuDeployment) → Fits Q H (phase_preparing r dep)
  unfolding phase_preparing
  phase_preparing-Fits a r dep =
      Emits-bind (node_client r dep) (prepare_with dep) (node_client-Fits Q H r dep)
        (prepare_with-Fits a dep)
