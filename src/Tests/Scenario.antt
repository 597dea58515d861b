-- ===== src/Tests/Scenario.antt =====
-- The definitions run on the concrete environment.
use embewi_core.Base.{◌≡◌, refl, ◌∷◌, [], codes}
use embewi_core.Api.Deployment.{McuDeploymentPhase, binding, pulling, writing, deployed}
use embewi_core.Oci.Reference.{scheme}
use embewi_core.Deployment.Config.{filtered}
use embewi_core.Deployment.Phase.{Outcome, requeue, done, set_phase}
use embewi_core.Deployment.Reconcile.{dispatch}
use embewi_core.Deployment.Binding.{phase_binding}
use embewi_core.Deployment.Ota.{phase_pulling, phase_writing}
use embewi_core.Oci.Registry.{resolve_firmware, stream_blob}
use embewi_core.Deployment.Device.{node_client}
use embewi_core.Agent.Write.{ota_write, write_next}
use embewi_core.Oci.Blob.{read_full}
use embewi_core.Agent.Chunk.{on_response, put_ota_chunk, send_range}
use embewi_core.Deployment.Deployed.{reconcile_deployed}
use embewi_core.Deployment.Config.{push_config_if_needed, reconcile_config_only}
use embewi_core.Agent.Client.{get_config, post_config, post_reboot}
use embewi_core.Tests.Setting.{test_env, deployment_in, test_reconciler, start}

-- the outcome of a reconciliation in a phase
abbrev outcome_in : McuDeploymentPhase → Outcome
outcome_in phase = (dispatch ⦃env = test_env⦄ test_reconciler (deployment_in phase) phase start).0

binding_requeues : outcome_in binding ≡ requeue
unfolding dispatch phase_binding
binding_requeues = refl

pulling_requeues : outcome_in pulling ≡ requeue
unfolding dispatch phase_pulling resolve_firmware
pulling_requeues = refl

writing_requeues : outcome_in writing ≡ requeue
unfolding dispatch phase_writing node_client stream_blob ota_write write_next read_full
    put_ota_chunk on_response send_range set_phase
writing_requeues = refl

deployed_is_done : outcome_in deployed ≡ done
unfolding dispatch reconcile_deployed reconcile_config_only node_client push_config_if_needed
    get_config post_config post_reboot
deployed_is_done = refl

reserved_keys_stay : filtered (("_id", "y") ∷ ("mode", "x") ∷ []) ≡ ("mode", "x") ∷ []
unfolding filtered
reserved_keys_stay = refl

local_is_plain : scheme (codes "127.0.0.1:5000") ≡ "http"
unfolding scheme
local_is_plain = refl

remote_is_tls : scheme (codes "ghcr.io") ≡ "https"
unfolding scheme
remote_is_tls = refl
