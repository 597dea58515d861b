-- ===== src/Deployment/Sends.antt =====
-- What a reconciliation sends to a device, in which phase.
use Prim.Native.String.{len}
use embewi_core.Base.{
  ℕ, ◌≡◌, ◌≤◌, ◌⊎◌, inl, inr, refl, String, Bool, true, false, [], ◌∷◌, ok, err, Error, Result, All,
  arith, Assoc, ltb, if◌then◌else◌, Bool-cases,
}
use embewi_core.Api.Deployment.{
  McuDeployment, McuDeploymentPhase, unset, binding, pulling, preparing, writing, activating,
  confirming, deployed, failed, other,
}
use embewi_core.Agent.Protocol.{
  Payload, no_body, octets, prepare_json, activate_json, config_json, empty_json, token_json,
  port_json, tls_json,
}
use embewi_core.Agent.Client.{is_bad_port}
use embewi_core.Deployment.Config.{check_limits, filtered, is_reserved}
use embewi_core.Deployment.Device.{McuDeploymentReconciler}
use embewi_core.Deployment.Calls.{Fits}
use embewi_core.Deployment.Watch.{Allows, dispatch-Fits}
use embewi_core.Deployment.Reconcile.{dispatch}
use embewi_core.World.Env.{Env}

-- an entry that the device's NVS takes, and that is not the agent's own
abbrev pub IsStorable : String × String → Type 0
IsStorable (k, v) = (is_reserved k ≡ false) × ((len k ≤ 15) × (len v ≤ 63))

within : (n x : ℕ) → ltb n x ≡ false → x ≤ n
within n x h = ground arith

-- a check that passes did not stop at its test
passed_test :
    (b : Bool) (e : Error) (r : Result (Unit {0}))
    → (if b then err e else r) ≡ ok tt
    → (b ≡ false) × (r ≡ ok tt)
passed_test false e r h = (refl, h)
passed_test true e r h = absurd (cc)

check_limits_cons :
    (k v : String) (rest : Assoc String)
    → check_limits ((k, v) ∷ rest) ≡ ok tt
    → (ltb 15 (len k) ≡ false) × ((ltb 63 (len v) ≡ false) × (check_limits rest ≡ ok tt))
unfolding check_limits
check_limits_cons k v rest h =
    let (short_key, more) = passed_test (ltb 15 (len k)) _ _ h in
    (short_key, passed_test (ltb 63 (len v)) _ _ more)

-- every entry that passes the limits and is not filtered out can be stored
pub filtered-IsStorable : (m : Assoc String) → check_limits m ≡ ok tt → All IsStorable (filtered m)
unfolding filtered
filtered-IsStorable [] h = tt
filtered-IsStorable ((k, v) ∷ rest) h =
    let (short_key, (short_value, more)) = check_limits_cons k v rest h in
    elim (Bool-cases (is_reserved k)) [
      | inl e ↦ rw (e) (filtered-IsStorable rest more)
      | inr e ↦ rw (e) (
          (
            (e, (within 15 (len k) short_key, within 63 (len v) short_value)),
            filtered-IsStorable rest more,
          ))
    ]

-- what may be sent to a device in a phase; a token or a certificate never
abbrev pub MaySend : McuDeploymentPhase → Payload → Type 0
MaySend phase no_body = Unit
MaySend phase (octets x) = phase ≡ writing
MaySend phase (prepare_json r) = phase ≡ preparing
MaySend phase (activate_json r) = phase ≡ activating
MaySend phase (config_json m) = ((phase ≡ preparing) ⊎ (phase ≡ deployed)) × All IsStorable m
MaySend phase empty_json = phase ≡ deployed
MaySend phase (port_json n) = (phase ≡ deployed) × (is_bad_port n ≡ false)
MaySend phase (token_json t) = ⊥
MaySend phase (tls_json c k) = ⊥

abbrev pub AnyStatus : McuDeployment → McuDeployment → Type 0
AnyStatus old new = Unit

module _ ⦃env : Env⦄ where
  MaySend-Allows : (phase : McuDeploymentPhase) → Allows AnyStatus (MaySend phase) phase
  MaySend-Allows unset = (λ d b m. tt, λ d r m. tt)
  MaySend-Allows binding = (λ d b m. tt, λ d r m. tt)
  MaySend-Allows pulling = λ d m. tt
  MaySend-Allows preparing = record {
    to_confirming = λ d b m. tt;
    to_activating = λ d b m. tt;
    to_writing = λ d b m. tt;
    to_failed = λ d r m. tt;
    config = (tt, λ m h. (inl refl, filtered-IsStorable m h));
    prepare = λ r. refl;
  }
  MaySend-Allows writing = (λ d b m. tt, λ x. refl)
  MaySend-Allows activating = record {
    to_confirming = λ d b m. tt;
    to_failed = λ d r m. tt;
    get = tt;
    activate = λ i. refl;
  }
  MaySend-Allows confirming = (λ d b m. tt, λ d r m. tt)
  MaySend-Allows deployed = record {
    availability = λ d e s h. tt;
    to_failed = λ d r m. tt;
    config = (tt, λ m h. (inr refl, filtered-IsStorable m h));
    reboot = refl;
    port = λ n h. (refl, h);
  }
  MaySend-Allows failed = tt
  MaySend-Allows (other s) = tt

  -- A reconciliation sends firmware only in Writing, a prepare only in Preparing, an activate only in
  -- Activating, a reboot and an application port only in Deployed, and a configuration only in
  -- Preparing or Deployed. Each entry of that configuration has a key of at most 15 characters that
  -- does not begin with `_` and a value of at most 63, and the port is within 1024-65535. It sends no
  -- token and no certificate.
  pub dispatch-MaySend :
      (r : McuDeploymentReconciler) (dep : McuDeployment)
      → Fits AnyStatus (MaySend dep.status.phase) (dispatch r dep dep.status.phase)
  dispatch-MaySend r dep =
      dispatch-Fits AnyStatus (MaySend dep.status.phase) r dep dep.status.phase
        (MaySend-Allows dep.status.phase) refl
