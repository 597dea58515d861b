-- ===== src/Deployment/Ota.antt =====
-- internal/controller/mcudeployment_controller.go, phasePulling, phasePreparing, phaseWriting and
-- phaseActivating.
use embewi_core.Base.{
  integer, String, Bool, false, ◌&&◌, ◌||◌, Option, none, some, Result, ok, err, Error, str,
  no_message, error_text, as_ota_write_error, ◌<>◌, ◌==◌, if◌then◌else◌,
}
use embewi_core.Api.Node.{McuNode}
use embewi_core.Api.Deployment.{McuDeployment, preparing, writing, activating, confirming}
use embewi_core.Agent.Protocol.{Client, InfoResponse, PrepareRequest, PrepareResponse}
use embewi_core.Agent.Client.{get_info, ota_prepare, ota_activate}
use embewi_core.Agent.Write.{ota_write}
use embewi_core.Oci.Types.{FirmwareMeta}
use embewi_core.Oci.Blob.{BlobStream, stream_err}
use embewi_core.Oci.Registry.{resolve_firmware, stream_blob}
use embewi_core.Deployment.Conditions.{set_deployment_conditions}
use embewi_core.Deployment.Phase.{
  Outcome, requeue, requeue_after, error, after_patch, set_phase, fail,
}
use embewi_core.Deployment.Device.{McuDeploymentReconciler, key_of, node_client, persist_node_info}
use embewi_core.Deployment.Config.{push_config_if_needed, config_failed}
use embewi_core.World.Call.{normal, warning}
use embewi_core.World.Env.{Env}
use embewi_core.World.Action.{M, pure, ◌>>=◌, ◌>>◌, patch_deployment_status, record_event}

module _ ⦃env : Env⦄ where
  -- Pulling

  unfoldable pub pulled : McuDeployment → FirmwareMeta → McuDeployment
  unfolding set_deployment_conditions
  pulled dep meta =
      set_deployment_conditions
        (record dep {
          status = record dep.status {
            phase = preparing;
            deployment_id =
                if dep.status.deployment_id == "" then dep.uid else dep.status.deployment_id;
            digest = meta.digest;
            size = meta.size;
          };
        })
        preparing

  unfoldable pub pull_resolved : McuDeployment → Result FirmwareMeta → M Outcome
  unfolding pulled
  pull_resolved dep (err e) = pure (requeue_after 30)
  pull_resolved dep (ok meta) = do
    r ← patch_deployment_status dep (pulled dep meta)
    pure (after_patch requeue r)

  unfoldable pub phase_pulling : McuDeploymentReconciler → McuDeployment → M Outcome
  unfolding pull_resolved
  phase_pulling r dep = do
    meta ← resolve_firmware r.oci dep.spec.firmware.image
    pull_resolved dep meta

  -- Preparing

  unfoldable pub unsupported_version : McuDeployment → Error → M Outcome
  unsupported_version dep e = do
    record_event (key_of dep) warning "APIVersionUnsupported" (error_text e)
    fail dep "APIVersionUnsupported" (error_text e)

  -- the Event of a refusal, from the map of the source
  unfoldable pub rejection_event : String → String
  rejection_event reason =
      if reason == "chip_mismatch"
      then "OTARejectedChip"
      else if reason == "layout_mismatch"
      then "OTARejectedLayout"
      else if reason == "idf_incompatible"
      then "OTARejectedIdf"
      else if reason == "size_too_large"
      then "OTARejectedSize"
      else if reason == "busy"
      then "OTABusy"
      else "OTARejected"

  unfoldable pub on_prepared : McuDeployment → McuNode → Result PrepareResponse → M Outcome
  unfolding rejection_event
  on_prepared dep node (err e) = pure (requeue_after 15)
  on_prepared dep node (ok resp) =
      if resp.accepted then set_phase dep writing node.name no_message else do
        record_event (key_of dep) warning (rejection_event resp.reason)
            (str "prepare refusé par le device: " <> str resp.reason)
        fail dep resp.reason (str "prepare refusé: " <> str resp.reason)

  abbrev pub prepare_request : McuDeployment → McuNode → PrepareRequest
  prepare_request dep node = record {
    deployment_id = dep.status.deployment_id;
    artifact = dep.spec.firmware.image;
    digest = dep.status.digest;
    size = dep.status.size;
    chip = node.status.chip;
    idf_version = node.status.idf_version;
    partition_layout = "embewi-ab-v1";
  }

  abbrev pub staged_activating : InfoResponse → McuDeployment → Bool
  staged_activating info dep =
      info.staged.state == "activating" && info.staged.deployment_id == dep.status.deployment_id

  abbrev pub staged_written : InfoResponse → McuDeployment → Bool
  staged_written info dep =
      info.staged.state == "written"
      && (info.staged.digest == dep.status.digest
          && info.staged.deployment_id == dep.status.deployment_id)

  unfoldable pub prepare_staged :
      McuDeployment → Client → InfoResponse → McuNode × Option Error → M Outcome
  unfolding unsupported_version on_prepared
  prepare_staged dep cli info (node, some e) = unsupported_version dep e
  prepare_staged dep cli info (node, none) =
      if staged_activating info dep
      then set_phase dep confirming node.name no_message
      else if staged_written info dep
      then set_phase dep activating node.name no_message
      else do resp ← ota_prepare cli (prepare_request dep node); on_prepared dep node resp

  unfoldable pub prepare_info : McuDeployment → McuNode → Client → Result InfoResponse → M Outcome
  unfolding prepare_staged
  prepare_info dep node cli (err e) = pure (requeue_after 15)
  prepare_info dep node cli (ok info) = do
    n ← persist_node_info node info
    prepare_staged dep cli info n

  unfoldable pub prepare_configured : McuDeployment → McuNode → Client → Result Bool → M Outcome
  unfolding prepare_info
  prepare_configured dep node cli (err e) = config_failed dep 15 e
  prepare_configured dep node cli (ok _) = do info ← get_info cli; prepare_info dep node cli info

  abbrev pub push_if_referenced : McuDeployment → Client → M (Result Bool)
  push_if_referenced dep cli =
      if dep.spec.config_map_ref == "" then pure (ok false) else push_config_if_needed cli dep

  unfoldable pub prepare_with : McuDeployment → Result (McuNode × Client) → M Outcome
  unfolding prepare_configured
  prepare_with dep (err e) = pure (error e)
  prepare_with dep (ok (node, cli)) = do
    r ← push_if_referenced dep cli
    prepare_configured dep node cli r

  unfoldable pub phase_preparing : McuDeploymentReconciler → McuDeployment → M Outcome
  unfolding prepare_with
  phase_preparing r dep = do c ← node_client r dep; prepare_with dep c

  -- Writing

  -- the Event of a refused write; a range_mismatch has none
  unfoldable pub write_failure_event : McuDeployment → Error → Option String → M (Unit {0})
  write_failure_event dep e none = pure tt
  write_failure_event dep e (some status) =
      if status == "digest_mismatch"
      then record_event (key_of dep) warning "OTADigestMismatch" (error_text e)
      else if status == "write_failed"
      then record_event (key_of dep) warning "OTAWriteFailed" (error_text e)
      else if status == "ota_begin_failed"
      then record_event (key_of dep) warning "OTABeginFailed" (error_text e)
      else pure tt

  unfoldable pub on_written : McuDeployment → Result (Unit {0}) → Option Error → M Outcome
  unfolding write_failure_event
  on_written dep (err e) mismatch = do
    write_failure_event dep e (as_ota_write_error e)
    pure (requeue_after 30)
  on_written dep (ok _) (some e) = do
    record_event (key_of dep) warning "OTABlobDigestMismatch" (error_text e)
    pure (requeue_after 30)
  on_written dep (ok _) none = do
    record_event (key_of dep) normal "OTAWritten"
        (str "firmware écrit sur le device (" <> integer dep.status.size <> str " bytes)")
    set_phase dep activating dep.status.bound_node no_message

  unfoldable pub write_stream : McuDeployment → Client → Result BlobStream → M Outcome
  unfolding on_written stream_err
  write_stream dep cli (err e) = pure (requeue_after 30)
  write_stream dep cli (ok stream) = do
    (r, stream') ← ota_write cli dep.status.deployment_id dep.status.digest dep.status.size stream
    on_written dep r (stream_err stream')

  unfoldable pub write_with :
      McuDeploymentReconciler → McuDeployment → Result (McuNode × Client) → M Outcome
  unfolding write_stream
  write_with r dep (err e) = pure (error e)
  write_with r dep (ok (node, cli)) = do
    stream ← stream_blob r.oci dep.spec.firmware.image dep.status.digest
    write_stream dep cli stream

  unfoldable pub phase_writing : McuDeploymentReconciler → McuDeployment → M Outcome
  unfolding write_with
  phase_writing r dep = do c ← node_client r dep; write_with r dep c

  -- Activating

  abbrev pub already_activated : InfoResponse → McuDeployment → Bool
  already_activated info dep = staged_activating info dep || info.state == "pending_verify"

  unfoldable pub on_activated : McuDeployment → Result (Unit {0}) → M Outcome
  on_activated dep (err e) = pure (requeue_after 15)
  on_activated dep (ok _) = set_phase dep confirming dep.status.bound_node no_message

  unfoldable pub activate_once : McuDeployment → Client → InfoResponse → Option Error → M Outcome
  unfolding unsupported_version on_activated
  activate_once dep cli info (some e) = unsupported_version dep e
  activate_once dep cli info none =
      if already_activated info dep
      then on_activated dep (ok tt)
      else do r ← ota_activate cli dep.status.deployment_id; on_activated dep r

  unfoldable pub activate_info : McuDeployment → McuNode → Client → Result InfoResponse → M Outcome
  unfolding activate_once
  activate_info dep node cli (err e) = pure (requeue_after 15)
  activate_info dep node cli (ok info) = do
    n ← persist_node_info node info
    activate_once dep cli info n.1

  unfoldable pub activate_with : McuDeployment → Result (McuNode × Client) → M Outcome
  unfolding activate_info
  activate_with dep (err e) = pure (error e)
  activate_with dep (ok (node, cli)) = do info ← get_info cli; activate_info dep node cli info

  unfoldable pub phase_activating : McuDeploymentReconciler → McuDeployment → M Outcome
  unfolding activate_with
  phase_activating r dep = do c ← node_client r dep; activate_with dep c
