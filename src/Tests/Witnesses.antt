-- ===== src/Tests/Witnesses.antt =====
-- Each result at a concrete input.
use mathlib.Core.List.{Mem}
use embewi_core.Api.Meta.{ObjectKey}
use embewi_core.Deployment.Checked.{Matches, write_stream-Matches}
use embewi_core.Deployment.Ota.{write_stream}
use embewi_core.Deployment.Wakes.{IsWoken, node_to_deployments-Mem, config_map_to_deployments-Mem}
use embewi_core.Agent.Protocol.{ConfigResponse}
use embewi_core.Deployment.Config.{push_diverging}
use embewi_core.Deployment.Settled.{IsSettled, push_diverging-IsSettled}
use embewi_core.World.Env.{Env}
use embewi_core.Base.{
  All, inl, ◌↔◌, false, ◌≡◌, ◌≢◌, refl, arith, ◌≤◌, none, [], ◌∷◌, ok, length, codes,
}
use embewi_core.Base.Int.{pos}
use embewi_core.Api.Deployment.{
  McuConfigMap, McuDeploymentPhase, preparing, writing, confirming, deployed, unset,
}
use embewi_core.Agent.Chunk.{put_ota_chunk, on_response, send_range}
use embewi_core.Agent.Chunk.Ranges.{IsRangeOf}
use embewi_core.Agent.Chunk.Attempts.{put_ota_chunk-CallsAtMost}
use embewi_core.Agent.Write.{ota_write, write_loop, write_next}
use embewi_core.Agent.Write.Ranges.{ota_write-IsRangeOf}
use embewi_core.Agent.Write.Loop.{write_loop-ne-none}
use embewi_core.Agent.Write.Verdict.{ota_write_blind, ota_write_judged}
use embewi_core.Agent.Version.{negotiate_api_version}
use embewi_core.Agent.Negotiation.{Negotiated, negotiate_api_version-Negotiated}
use embewi_core.Oci.Types.{Ref}
use embewi_core.Oci.Blob.{BlobStream, stream_err, check_digest, read_full}
use embewi_core.Oci.Reference.{parse_ref, contains}
use embewi_core.Oci.References.{print_ref, parse-print}
use embewi_core.Oci.Registry.{resolve_firmware, firmware_meta_from_layer}
use embewi_core.Oci.Trust.{IsTrusted, resolve_firmware-IsTrusted}
use embewi_core.Deployment.Binding.{phase_binding}
use embewi_core.Deployment.Bound.{Justifies, phase_binding-Justifies}
use embewi_core.Deployment.Calls.{Fits}
use embewi_core.Deployment.Confirm.{confirm_with}
use embewi_core.Heartbeat.Payload.{HeartbeatPayload}
use embewi_core.Deployment.Confirmed.{Verdict, confirm_with-Verdict}
use embewi_core.Deployment.Identity.{KeepsIdentity, dispatch-KeepsIdentity}
use embewi_core.Deployment.Readiness.{TellsReadiness, dispatch-TellsReadiness}
use embewi_core.Deployment.Reconcile.{dispatch, node_to_deployments, config_map_to_deployments}
use embewi_core.Deployment.Sends.{AnyStatus, MaySend, dispatch-MaySend}
use embewi_core.Deployment.Uniform.{Anything}
use embewi_core.World.Emits.{Extends, Emits}
use embewi_core.World.Policy.{Policy}
use embewi_core.Tests.Setting.{
  test_env, test_heartbeat, test_node, deployment_in, test_reconciler, test_client, test_image,
  test_key, test_layer, test_manifest, stream_from, start,
}

dispatch-MaySend_example :
    Fits ⦃env = test_env⦄ AnyStatus
      (MaySend preparing)
      (dispatch ⦃env = test_env⦄ test_reconciler (deployment_in preparing) preparing)
dispatch-MaySend_example =
    dispatch-MaySend ⦃env = test_env⦄ test_reconciler (deployment_in preparing)

dispatch-TellsReadiness_example :
    Fits ⦃env = test_env⦄
      (TellsReadiness ⦃env = test_env⦄)
      Anything
      (dispatch ⦃env = test_env⦄ test_reconciler (deployment_in confirming) confirming)
dispatch-TellsReadiness_example =
    dispatch-TellsReadiness ⦃env = test_env⦄ test_reconciler (deployment_in confirming)

dispatch-KeepsIdentity_example :
    Fits ⦃env = test_env⦄ KeepsIdentity Anything
      (dispatch ⦃env = test_env⦄ test_reconciler (deployment_in writing) writing)
dispatch-KeepsIdentity_example =
    dispatch-KeepsIdentity ⦃env = test_env⦄ test_reconciler (deployment_in writing)

confirm_with-Verdict_example :
    Fits ⦃env = test_env⦄
      (Verdict test_node (deployment_in confirming))
      Anything
      (confirm_with ⦃env = test_env⦄ (deployment_in confirming) (ok (test_node, test_client)))
confirm_with-Verdict_example =
    confirm_with-Verdict ⦃env = test_env⦄ (deployment_in confirming) test_node test_client

phase_binding-Justifies_example :
    Extends
      (Policy (Justifies ⦃env = test_env⦄ [] (deployment_in unset)) Anything)
      []
      (phase_binding ⦃env = test_env⦄ (deployment_in unset) start).1.history
phase_binding-Justifies_example =
    phase_binding-Justifies ⦃env = test_env⦄ (deployment_in unset) start

ota_write-IsRangeOf_example :
    Emits (IsRangeOf test_client "uid-1" "sha256:abc" (pos 3) (1 ∷ 2 ∷ 3 ∷ [])) (
      ota_write ⦃env = test_env⦄ test_client "uid-1" "sha256:abc"
        (pos 3)
        (stream_from ((1 ∷ 2 ∷ []) ∷ (3 ∷ []) ∷ [])))
ota_write-IsRangeOf_example =
    ota_write-IsRangeOf ⦃env = test_env⦄ test_client "uid-1" "sha256:abc" (pos 3)
      (stream_from ((1 ∷ 2 ∷ []) ∷ (3 ∷ []) ∷ [])) refl

write_loop-ne-none_example :
    (write_loop ⦃env = test_env⦄ test_client "uid-1" "sha256:abc"
      (pos 3)
      3
      0
      (stream_from ((1 ∷ 2 ∷ []) ∷ (3 ∷ []) ∷ []))
      start).0
    ≢ none
write_loop-ne-none_example =
    write_loop-ne-none ⦃env = test_env⦄ test_client "uid-1" "sha256:abc" (pos 3) 3 0
      (stream_from ((1 ∷ 2 ∷ []) ∷ (3 ∷ []) ∷ [])) start (omega arith)

put_ota_chunk-CallsAtMost_example :
    length
      (put_ota_chunk ⦃env = test_env⦄ test_client "uid-1" "sha256:abc"
        (pos 3)
        (1 ∷ 2 ∷ 3 ∷ [])
        0
        2
        start).1.history
    ≤ 3
put_ota_chunk-CallsAtMost_example =
    put_ota_chunk-CallsAtMost ⦃env = test_env⦄ test_client "uid-1" "sha256:abc" (pos 3)
      (1 ∷ 2 ∷ 3 ∷ []) 0 2 start

negotiate_api_version-Negotiated_example :
    Negotiated ("v1" ∷ "v1alpha1" ∷ []) (negotiate_api_version ("v1" ∷ "v1alpha1" ∷ []))
negotiate_api_version-Negotiated_example = negotiate_api_version-Negotiated ("v1" ∷ "v1alpha1" ∷ [])

abbrev test_ref : Ref
test_ref = record { registry = codes "reg:5000"; repo = codes "lab/blink"; tag = codes "1" }

parse-print_example : parse_ref (print_ref test_ref) ≡ ok test_ref
unfolding contains
parse-print_example = parse-print test_ref refl refl

resolve_firmware-IsTrusted_example :
    IsTrusted ⦃env = test_env⦄ test_key
      (firmware_meta_from_layer test_layer test_manifest.annotations)
unfolding resolve_firmware
resolve_firmware-IsTrusted_example =
    resolve_firmware-IsTrusted ⦃env = test_env⦄ test_reconciler.oci test_key test_image start
      (firmware_meta_from_layer test_layer test_manifest.annotations) refl refl

abbrev exact : BlobStream
exact = stream_from ((1 ∷ 2 ∷ []) ∷ (3 ∷ []) ∷ [])

abbrev wrong : BlobStream
wrong = stream_from ((9 ∷ 9 ∷ []) ∷ (9 ∷ 9 ∷ []) ∷ [])

-- the stream after OTAWrite
abbrev after_write : BlobStream → BlobStream
unfolding ota_write
after_write b = (ota_write ⦃env = test_env⦄ test_client "uid-1" "sha256:abc" (pos 3) b start).0.1

ota_write_judged_example :
    stream_err ⦃env = test_env⦄ (after_write exact)
    ≡ check_digest ⦃env = test_env⦄ "sha256:abc" (1 ∷ 2 ∷ 3 ∷ [])
unfolding ota_write stream_err write_next read_full put_ota_chunk on_response send_range
ota_write_judged_example =
    ota_write_judged ⦃env = test_env⦄ test_client "uid-1" "sha256:abc" (pos 3) exact
      (record { unread = refl; no_mismatch = refl }) start (after_write exact)
      (record { eager = refl; ending = refl; pieces = ((λ e. cc), ((λ e. cc), tt)); judged = refl })
      refl refl

ota_write_blind_example : stream_err ⦃env = test_env⦄ (after_write wrong) ≡ none
unfolding ota_write stream_err write_next read_full put_ota_chunk on_response send_range
ota_write_blind_example =
    ota_write_blind ⦃env = test_env⦄ test_client "uid-1" "sha256:abc" (pos 3) wrong
      (record { unread = refl; no_mismatch = refl }) start (after_write wrong) (omega arith) refl

write_stream-Matches_example :
    Extends
      (Policy (Matches ⦃env = test_env⦄ (deployment_in writing) exact) Anything)
      []
      (write_stream ⦃env = test_env⦄ (deployment_in writing) test_client (ok exact) start).1.history
write_stream-Matches_example =
    write_stream-Matches ⦃env = test_env⦄ (deployment_in writing) exact test_client start
      (record { unread = refl; no_mismatch = refl })
      (record { eager = refl; ending = refl; pieces = ((λ e. cc), ((λ e. cc), tt)); judged = refl })
      refl refl

abbrev key_of_blink : ObjectKey
key_of_blink = record { name = "blink"; namespace = "lab" }

abbrev all_in : McuDeploymentPhase → Env
all_in phase = record test_env {
  list_deployments = λ h ns. ok (deployment_in unset ∷ deployment_in phase ∷ []);
}

node_to_deployments-Mem_example :
    let requests = (node_to_deployments ⦃env = all_in confirming⦄ test_node start).0 in
    Mem key_of_blink requests
    × All (IsWoken test_node (deployment_in unset ∷ deployment_in confirming ∷ [])) requests
node_to_deployments-Mem_example =
    node_to_deployments-Mem ⦃env = all_in confirming⦄ test_node (deployment_in unset ∷ []) []
      (deployment_in confirming) start refl refl (inl refl)

abbrev confirming_heartbeat : HeartbeatPayload
confirming_heartbeat = record test_heartbeat {
  deployment_id = (deployment_in confirming).status.deployment_id;
}

abbrev test_config_map : McuConfigMap
test_config_map = record { name = "cfg"; namespace = "lab"; config_data = [] }

config_map_to_deployments-Mem_example :
    Mem key_of_blink (config_map_to_deployments ⦃env = all_in deployed⦄ test_config_map start).0
config_map_to_deployments-Mem_example =
    config_map_to_deployments-Mem ⦃env = all_in deployed⦄ test_config_map (deployment_in unset ∷ [])
      [] (deployment_in deployed) start refl refl

abbrev stored_config : ConfigResponse
stored_config = record {
  generation = pos 2;
  active_generation = pos 2;
  active = [];
  nvs = ("mode", "x") ∷ [];
}

push_diverging-IsSettled_example :
    ((push_diverging ⦃env = test_env⦄ test_client
        (("mode", "x") ∷ ("_id", "y") ∷ [])
        (ok stored_config)
        start).0
      ≡ ok false)
    ↔ IsSettled (("mode", "x") ∷ ("_id", "y") ∷ []) stored_config
push_diverging-IsSettled_example =
    push_diverging-IsSettled ⦃env = test_env⦄ test_client (("mode", "x") ∷ ("_id", "y") ∷ [])
      stored_config start
