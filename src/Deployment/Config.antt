-- ===== src/Deployment/Config.antt =====
-- internal/controller/mcudeployment_controller.go, pushConfigIfNeeded, configFailReason and
-- reconcileConfigOnly.
use Prim.Native.String.{len}
use text.Mathlib.Text.{starts_with}
use embewi_core.Base.{
  quoted, ℕ, String, Bool, true, false, not, ◌||◌, [], ◌∷◌, Result, ok, err, Error, Message, wrap,
  wrap_both, sentinel, error_text, config_permanent, config_map_not_found, is_error, is_not_found,
  str, ◌<>◌, ◌==◌, ltb, if◌then◌else◌, Assoc, lookup, or_empty,
}
use embewi_core.Base.Int.{ltz}
use embewi_core.Api.Node.{McuNode}
use embewi_core.Api.Deployment.{McuDeployment, McuConfigMap}
use embewi_core.Agent.Protocol.{Client, ConfigResponse}
use embewi_core.Agent.Client.{get_config, post_config, post_reboot}
use embewi_core.Deployment.Phase.{Outcome, done, requeue_after, fail}
use embewi_core.Deployment.Device.{McuDeploymentReconciler, node_client}
use embewi_core.World.Env.{Env}
use embewi_core.World.Action.{M, pure, ◌>>=◌, get_config_map}

abbrev pub permanent : Message → Error
permanent m = wrap m (sentinel config_permanent)

-- the limits of the device's NVS: 15 octets for a key, 63 for a value
unfoldable pub check_limits : Assoc String → Result (Unit {0})
check_limits [] = ok tt
check_limits ((k, v) ∷ rest) =
    if ltb 15 (len k)
    then err (permanent (str "clé " <> quoted k <> str " dépasse 15 caractères (limite NVS §4a)"))
    else if ltb 63 (len v)
    then err
        (permanent (str "valeur de " <> quoted k <> str " dépasse 63 caractères (limite NVS §4a)"))
    else check_limits rest

abbrev pub is_reserved : String → Bool
is_reserved k = starts_with k "_"

-- the keys that are not reserved to the agent
unfoldable pub filtered : Assoc String → Assoc String
filtered [] = []
filtered ((k, v) ∷ rest) = let more = filtered rest in if is_reserved k then more else (k, v) ∷ more

-- some key of the filtered map whose value on the device is another; a missing one reads as ""
unfoldable pub diverges : Assoc String → Assoc String → Bool
unfolding lookup
diverges nvs [] = false
diverges nvs ((k, v) ∷ rest) = not (or_empty (lookup k nvs) == v) || diverges nvs rest

abbrev pub posted : Result (Unit {0}) → Result Bool
posted (err e) = err (wrap (str "POST /config") e)
posted (ok _) = ok true

module _ ⦃env : Env⦄ where
  unfoldable pub push_diverging : Client → Assoc String → Result ConfigResponse → M (Result Bool)
  unfolding filtered diverges
  push_diverging cli wanted (err e) = pure (err (wrap (str "GET /config") e))
  push_diverging cli wanted (ok current) =
      if diverges current.nvs (filtered wanted)
      then (do r ← post_config cli (filtered wanted); pure (posted r))
      else pure (ok (ltz current.active_generation current.generation))

  unfoldable pub push_checked : Client → Assoc String → Result (Unit {0}) → M (Result Bool)
  unfolding push_diverging
  push_checked cli wanted (err e) = pure (err e)
  push_checked cli wanted (ok _) = do current ← get_config cli; push_diverging cli wanted current

  unfoldable pub push_config_map : Client → String → Result McuConfigMap → M (Result Bool)
  unfolding push_checked check_limits
  push_config_map cli ref (err e) =
      if is_not_found e
      then pure (
          err (
            wrap_both (sentinel config_permanent) (sentinel config_map_not_found)
              (str "McuConfigMap " <> quoted ref <> str " introuvable")))
      else pure (err (wrap (str "McuConfigMap " <> quoted ref) e))
  push_config_map cli ref (ok cm) = push_checked cli cm.config_data (check_limits cm.config_data)

  -- whether the device must be rebooted
  unfoldable pub push_config_if_needed : Client → McuDeployment → M (Result Bool)
  unfolding push_config_map
  push_config_if_needed cli dep = do
    cm ← get_config_map (record { name = dep.spec.config_map_ref; namespace = dep.namespace })
    push_config_map cli dep.spec.config_map_ref cm

abbrev pub config_fail_reason : Error → String
config_fail_reason e =
    if is_error config_map_not_found e then "ConfigMapNotFound" else "ConfigInvalid"

abbrev after_reboot : Result (Unit {0}) → Outcome
after_reboot (ok _) = done
after_reboot (err e) = requeue_after 30

module _ ⦃env : Env⦄ where
  -- a permanent error fails the deployment, any other is retried after the given delay
  unfoldable pub config_failed : McuDeployment → ℕ → Error → M Outcome
  config_failed dep delay e =
      if is_error config_permanent e
      then fail dep (config_fail_reason e) (error_text e)
      else pure (requeue_after delay)

  unfoldable pub config_pushed : McuDeployment → Client → Result Bool → M Outcome
  unfolding config_failed
  config_pushed dep cli (err e) = config_failed dep 30 e
  config_pushed dep cli (ok true) = do r ← post_reboot cli; pure (after_reboot r)
  config_pushed dep cli (ok false) = pure done

  unfoldable pub config_with : McuDeployment → Result (McuNode × Client) → M Outcome
  unfolding config_pushed
  config_with dep (err e) = pure (requeue_after 30)
  config_with dep (ok (node, cli)) = do r ← push_config_if_needed cli dep; config_pushed dep cli r

  unfoldable pub reconcile_config_only : McuDeploymentReconciler → McuDeployment → M Outcome
  unfolding config_with
  reconcile_config_only r dep = do c ← node_client r dep; config_with dep c
