-- ===== src/Deployment/Checked.antt =====
-- What phaseWriting knows of the firmware when it goes on to Activating.
use embewi_core.Base.{
  ◌≡◌, refl, sym, ap, ◌∙◌, Option, none, some, Result, ok, err, Error, length, as_ota_write_error,
}
use embewi_core.Base.Int.{pos_part}
use embewi_core.Api.Deployment.{McuDeployment, activating}
use embewi_core.Agent.Protocol.{Client}
use embewi_core.Agent.Calls.{ota_write-Policy}
use embewi_core.Agent.Write.{ota_write}
use embewi_core.Agent.Write.Verdict.{IsFresh, ota_write_judged}
use embewi_core.Oci.Blob.{BlobStream, check_digest, stream_err}
use embewi_core.Oci.Blob.Reading.{content}
use embewi_core.Oci.Blob.Verdict.{IsJudged}
use embewi_core.Deployment.Calls.{set_phase-Fits}
use embewi_core.Deployment.WriteFits.{write_failure_event-Fits}
use embewi_core.Deployment.Phase.{in_phase}
use embewi_core.Deployment.Ota.{on_written, write_stream}
use embewi_core.Deployment.Uniform.{Anything}
use embewi_core.World.Env.{Env}
use embewi_core.World.Action.{World}
use embewi_core.World.Emits.{Extends, same, more, Extends-trans, Emits}
use embewi_core.World.Policy.{Policy}

module _ ⦃env : Env⦄ (dep : McuDeployment) (stream : BlobStream) where
  -- Activating is written, and the octets of the stream hash to the digest of the deployment
  abbrev pub Matches : McuDeployment → McuDeployment → Type 0
  Matches old new =
      (check_digest dep.status.digest (content stream) ≡ none) × (new.status.phase ≡ activating)

  on_written-Matches :
      (r : Result (Unit {0})) (mismatch : Option Error)
      → (r ≡ ok tt → mismatch ≡ check_digest dep.status.digest (content stream))
      → Emits (Policy Matches Anything) (on_written dep r mismatch)
  unfolding on_written in_phase
  on_written-Matches (err e) mismatch k = record {
    at = λ w. (write_failure_event-Fits Matches Anything dep e (as_ota_write_error e)).at w;
  }
  on_written-Matches (ok tt) (some e) k = record { at = λ w. more tt same }
  on_written-Matches (ok tt) none k = record {
    at = λ w.
        Extends-trans (more tt same) (
          (set_phase-Fits Matches Anything activating (λ d b m. (sym (k refl), refl)) dep _ _).at
            _);
  }

  -- Take a deployment whose blob is opened with its digest: nothing of the stream is read yet, it
  -- holds as many octets as the status says in pieces that are not empty, and its last piece comes
  -- together with io.EOF; with no piece at all, its digest is already judged. Then the end of
  -- phaseWriting writes a status, which is that of Activating, only if the octets hash to the digest,
  -- whatever the device answers.
  pub write_stream-Matches :
      (cli : Client) (w : World)
      → IsFresh stream
      → IsJudged stream
      → length (content stream) ≡ pos_part dep.status.size
      → stream.want_digest ≡ dep.status.digest
      → Extends (Policy Matches Anything) w.history (write_stream dep cli (ok stream) w).1.history
  unfolding write_stream
  write_stream-Matches cli w fresh judged exact want =
      let id = dep.status.deployment_id in
      let (written, later) = ota_write cli id dep.status.digest dep.status.size stream w in
      Extends-trans
        ((ota_write-Policy Matches Anything cli (λ x. tt) id dep.status.digest dep.status.size
            stream).at
          w)
        ((on_written-Matches written.0 (stream_err written.1) (λ e.
            ota_write_judged cli id dep.status.digest dep.status.size stream fresh w written.1
              judged exact (ap (λ r. (r, written.1)) e)
            ∙ ap (λ d. check_digest d (content stream)) want)).at
          later)
