-- ===== src/Deployment/WriteFits.antt =====
-- A reconciliation meets a policy that allows what its phase writes and sends: Writing and Activating.
use embewi_core.Base.{
  String, true, Option, none, some, Result, ok, err, Error, ◌==◌, as_ota_write_error,
}
use embewi_core.Api.Meta.{Bytes}
use embewi_core.Api.Node.{McuNode}
use embewi_core.Api.Deployment.{McuDeployment, activating, confirming}
use embewi_core.Agent.Protocol.{Client, InfoResponse, Payload, no_body, octets, activate_json}
use embewi_core.Agent.Client.{get_info, ota_activate}
use embewi_core.Agent.Write.{ota_write}
use embewi_core.Agent.Calls.{get_info-Policy, ota_activate-Policy, ota_write-Policy}
use embewi_core.Oci.Blob.{BlobStream, stream_err}
use embewi_core.Oci.Registry.{stream_blob}
use embewi_core.Deployment.Calls.{
  Fits, AllowsPhase, AllowsFail, set_phase-Fits, node_client-Fits, persist_node_info-Fits,
}
use embewi_core.Deployment.Device.{McuDeploymentReconciler, node_client, persist_node_info}
use embewi_core.Deployment.Ota.{
  write_failure_event, on_written, write_stream, write_with, phase_writing, already_activated,
  on_activated, activate_once, activate_info, activate_with, phase_activating,
}
use embewi_core.World.Env.{Env}
use embewi_core.World.Emits.{same, more, Extends-trans, Emits-bind, Emits-if}
use embewi_core.Deployment.Fits.{unsupported_version-Fits, stream_blob-Fits}

module _ ⦃env : Env⦄ (Q : McuDeployment → McuDeployment → Type 0) (H : Payload → Type 0) where
  abbrev pub AllowsActivate : Type 0
  AllowsActivate = (id : String) → H (activate_json (record { deployment_id = id; reboot = true }))

  -- Writing

  pub write_failure_event-Fits :
      (dep : McuDeployment) (e : Error) (s : Option String) → Fits Q H (write_failure_event dep e s)
  unfolding write_failure_event
  write_failure_event-Fits dep e none = record { at = λ w. same }
  write_failure_event-Fits dep e (some s) =
      Emits-if (s == "digest_mismatch") _ _ (λ _. record { at = λ w. more tt same })
        (λ _.
          Emits-if (s == "write_failed") _ _ (λ _. record { at = λ w. more tt same })
            (λ _.
              Emits-if (s == "ota_begin_failed") _ _ (λ _. record { at = λ w. more tt same })
                (λ _. record { at = λ w. same })))

  on_written-Fits :
      AllowsPhase Q H activating
      → (dep : McuDeployment) (r : Result (Unit {0})) (m : Option Error)
      → Fits Q H (on_written dep r m)
  unfolding on_written
  on_written-Fits a dep (err e) m = record {
    at = λ w. (write_failure_event-Fits dep e (as_ota_write_error e)).at w;
  }
  on_written-Fits a dep (ok tt) (some e) = record { at = λ w. more tt same }
  on_written-Fits a dep (ok tt) none = record {
    at = λ w. Extends-trans (more tt same) ((set_phase-Fits Q H activating a dep _ _).at _);
  }

  write_stream-Fits :
      AllowsPhase Q H activating
      → ((x : Bytes) → H (octets x))
      → (dep : McuDeployment) (cli : Client) (r : Result BlobStream)
      → Fits Q H (write_stream dep cli r)
  unfolding write_stream
  write_stream-Fits a h dep cli (err e) = record { at = λ w. same }
  write_stream-Fits a h dep cli (ok stream) =
      Emits-bind (ota_write cli dep.status.deployment_id dep.status.digest dep.status.size stream)
        (λ p. on_written dep p.0 (stream_err p.1))
        (ota_write-Policy Q H cli h _ _ dep.status.size stream)
        (λ p. on_written-Fits a dep p.0 (stream_err p.1))

  write_with-Fits :
      AllowsPhase Q H activating
      → ((x : Bytes) → H (octets x))
      → (r : McuDeploymentReconciler) (dep : McuDeployment) (c : Result (McuNode × Client))
      → Fits Q H (write_with r dep c)
  unfolding write_with
  write_with-Fits a h r dep (err e) = record { at = λ w. same }
  write_with-Fits a h r dep (ok (node, cli)) =
      Emits-bind (stream_blob r.oci dep.spec.firmware.image dep.status.digest)
        (write_stream dep cli)
        (stream_blob-Fits Q H r.oci dep.spec.firmware.image dep.status.digest)
        (write_stream-Fits a h dep cli)

  pub phase_writing-Fits :
      AllowsPhase Q H activating
      → ((x : Bytes) → H (octets x))
      → (r : McuDeploymentReconciler) (dep : McuDeployment) → Fits Q H (phase_writing r dep)
  unfolding phase_writing
  phase_writing-Fits a h r dep =
      Emits-bind (node_client r dep) (write_with r dep) (node_client-Fits Q H r dep)
        (write_with-Fits a h r dep)

  -- Activating

  pub record AllowsActivating : Type 0 where
    pub to_confirming : AllowsPhase Q H confirming
    pub to_failed : AllowsFail Q H
    pub get : H no_body
    pub activate : AllowsActivate

  on_activated-Fits :
      AllowsActivating
      → (dep : McuDeployment) (r : Result (Unit {0})) → Fits Q H (on_activated dep r)
  unfolding on_activated
  on_activated-Fits a dep (err e) = record { at = λ w. same }
  on_activated-Fits a dep (ok tt) = set_phase-Fits Q H confirming a.to_confirming dep _ _

  activate_once-Fits :
      AllowsActivating
      → (dep : McuDeployment) (cli : Client) (info : InfoResponse) (e : Option Error)
      → Fits Q H (activate_once dep cli info e)
  unfolding activate_once
  activate_once-Fits a dep cli info (some e) = unsupported_version-Fits Q H a.to_failed dep e
  activate_once-Fits a dep cli info none =
      Emits-if (already_activated info dep) _ _ (λ _. on_activated-Fits a dep (ok tt))
        (λ _.
          Emits-bind (ota_activate cli dep.status.deployment_id) (on_activated dep)
            (ota_activate-Policy Q H cli _ (a.activate dep.status.deployment_id))
            (on_activated-Fits a dep))

  activate_info-Fits :
      AllowsActivating
      → (dep : McuDeployment) (node : McuNode) (cli : Client) (r : Result InfoResponse)
      → Fits Q H (activate_info dep node cli r)
  unfolding activate_info
  activate_info-Fits a dep node cli (err e) = record { at = λ w. same }
  activate_info-Fits a dep node cli (ok info) =
      Emits-bind (persist_node_info node info) (λ n. activate_once dep cli info n.1)
        (persist_node_info-Fits Q H node info) (λ n. activate_once-Fits a dep cli info n.1)

  activate_with-Fits :
      AllowsActivating
      → (dep : McuDeployment) (r : Result (McuNode × Client)) → Fits Q H (activate_with dep r)
  unfolding activate_with
  activate_with-Fits a dep (err e) = record { at = λ w. same }
  activate_with-Fits a dep (ok (node, cli)) =
      Emits-bind (get_info cli) (activate_info dep node cli) (get_info-Policy Q H cli a.get)
        (activate_info-Fits a dep node cli)

  pub phase_activating-Fits :
      AllowsActivating
      → (r : McuDeploymentReconciler) (dep : McuDeployment) → Fits Q H (phase_activating r dep)
  unfolding phase_activating
  phase_activating-Fits a r dep =
      Emits-bind (node_client r dep) (activate_with dep) (node_client-Fits Q H r dep)
        (activate_with-Fits a dep)
