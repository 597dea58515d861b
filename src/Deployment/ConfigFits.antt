-- ===== src/Deployment/ConfigFits.antt =====
-- A reconciliation meets a policy that allows what it writes and sends: the configuration push.
use embewi_core.Base.{
  ◌≡◌, refl, Assoc, is_not_found, is_error, config_permanent, ℕ, String, Bool, true, false, Result,
  ok, err, Error,
}
use embewi_core.Api.Meta.{ObjectKey}
use embewi_core.Api.Node.{McuNode}
use embewi_core.Api.Deployment.{McuConfigMap, McuDeployment}
use embewi_core.Agent.Protocol.{Client, ConfigResponse, Payload, no_body, config_json, empty_json}
use embewi_core.Agent.Calls.{get_config-Policy, post_config-Policy, post_reboot-Policy}
use embewi_core.Deployment.Device.{McuDeploymentReconciler, node_client}
use embewi_core.Deployment.Config.{
  filtered, diverges, check_limits, push_diverging, push_checked, push_config_map,
  push_config_if_needed, config_failed, config_pushed, config_with, reconcile_config_only,
}
use embewi_core.Agent.Client.{get_config}
use embewi_core.World.Env.{Env}
use embewi_core.World.Action.{get_config_map}
use embewi_core.World.Emits.{same, more, Emits-bind, Emits-if}
use embewi_core.Deployment.Calls.{Fits, AllowsFail, fail-Fits, node_client-Fits}

module _ ⦃env : Env⦄ (Q : McuDeployment → McuDeployment → Type 0) (H : Payload → Type 0) where
  abbrev pub AllowsConfig : Type 0
  AllowsConfig =
      H no_body × ((m : Assoc String) → check_limits m ≡ ok tt → H (config_json (filtered m)))

  push_diverging-Fits :
      AllowsConfig
      → (cli : Client) (wanted : Assoc String) (r : Result ConfigResponse)
      → check_limits wanted ≡ ok tt
      → Fits Q H (push_diverging cli wanted r)
  unfolding push_diverging
  push_diverging-Fits a cli wanted (err e) h = record { at = λ w. same }
  push_diverging-Fits a cli wanted (ok current) h =
      Emits-if (diverges current.nvs (filtered wanted)) _ _
        (λ _. record {
          at = λ w. (post_config-Policy Q H cli (filtered wanted) (a.1 wanted h)).at w;
        })
        (λ _. record { at = λ w. same })

  push_checked-Fits :
      AllowsConfig
      → (cli : Client) (wanted : Assoc String) (r : Result (Unit {0})) → check_limits wanted ≡ r
      → Fits Q H (push_checked cli wanted r)
  unfolding push_checked
  push_checked-Fits a cli wanted (err e) h = record { at = λ w. same }
  push_checked-Fits a cli wanted (ok tt) h =
      Emits-bind (get_config cli) (push_diverging cli wanted) (get_config-Policy Q H cli a.0)
        (λ r. push_diverging-Fits a cli wanted r h)

  push_config_map-Fits :
      AllowsConfig
      → (cli : Client) (ref : String) (r : Result McuConfigMap)
      → Fits Q H (push_config_map cli ref r)
  unfolding push_config_map
  push_config_map-Fits a cli ref (err e) =
      Emits-if (is_not_found e) _ _ (λ _. record { at = λ w. same })
        (λ _. record { at = λ w. same })
  push_config_map-Fits a cli ref (ok cm) =
      push_checked-Fits a cli cm.config_data (check_limits cm.config_data) refl

  pub push_config_if_needed-Fits :
      AllowsConfig → (cli : Client) (dep : McuDeployment) → Fits Q H (push_config_if_needed cli dep)
  unfolding push_config_if_needed
  push_config_if_needed-Fits a cli dep =
      let key : ObjectKey = record { name = dep.spec.config_map_ref; namespace = dep.namespace } in
      Emits-bind (get_config_map key) (push_config_map cli dep.spec.config_map_ref)
        (record { at = λ w. more tt same }) (push_config_map-Fits a cli dep.spec.config_map_ref)

  pub config_failed-Fits :
      AllowsFail Q H → (dep : McuDeployment) (n : ℕ) (e : Error) → Fits Q H (config_failed dep n e)
  unfolding config_failed
  config_failed-Fits f dep n e =
      Emits-if (is_error config_permanent e) _ _ (λ _. fail-Fits Q H f dep _ _)
        (λ _. record { at = λ w. same })

  config_pushed-Fits :
      AllowsFail Q H
      → H empty_json
      → (dep : McuDeployment) (cli : Client) (r : Result Bool) → Fits Q H (config_pushed dep cli r)
  unfolding config_pushed
  config_pushed-Fits f h dep cli (err e) = config_failed-Fits f dep 30 e
  config_pushed-Fits f h dep cli (ok true) = record {
    at = λ w. (post_reboot-Policy Q H cli h).at w;
  }
  config_pushed-Fits f h dep cli (ok false) = record { at = λ w. same }

  config_with-Fits :
      AllowsFail Q H
      → AllowsConfig
      → H empty_json
      → (dep : McuDeployment) (r : Result (McuNode × Client)) → Fits Q H (config_with dep r)
  unfolding config_with
  config_with-Fits f a h dep (err e) = record { at = λ w. same }
  config_with-Fits f a h dep (ok (node, cli)) =
      Emits-bind (push_config_if_needed cli dep) (config_pushed dep cli)
        (push_config_if_needed-Fits a cli dep) (config_pushed-Fits f h dep cli)

  pub reconcile_config_only-Fits :
      AllowsFail Q H
      → AllowsConfig
      → H empty_json
      → (r : McuDeploymentReconciler) (dep : McuDeployment) → Fits Q H (reconcile_config_only r dep)
  unfolding reconcile_config_only
  reconcile_config_only-Fits f a h r dep =
      Emits-bind (node_client r dep) (config_with dep) (node_client-Fits Q H r dep)
        (config_with-Fits f a h dep)
