-- ===== src/Deployment/Wakes.antt =====
-- Which reconciliations a change of a node or of a McuConfigMap requests.
use mathlib.Core.List.{Mem, mem-cons_self, mem-cons_of_mem}
use embewi_core.Base.{
  All, and_left, and_right, refl, ◌⊎◌, inl, inr, eq_iff, ◌≡◌, Bool, true, false, ◌&&◌, List, [],
  ◌∷◌, ◌++◌, ok, if◌then◌else◌, ◌==◌,
}
use embewi_core.Api.Meta.{ObjectKey}
use embewi_core.Api.Node.{McuNode}
use embewi_core.Api.Deployment.{
  McuDeployment, McuDeploymentPhase, McuConfigMap, confirming, deployed,
}
use embewi_core.Deployment.Device.{key_of}
use embewi_core.Deployment.Reconcile.{
  waits_for_node, requests_of_node, requests_of_config_map, node_to_deployments,
  config_map_to_deployments,
}
use embewi_core.World.Env.{Env}
use embewi_core.World.Action.{World}

Mem-if :
    (b : Bool) (k j : ObjectKey) (rest : List ObjectKey)
    → Mem k rest
    → Mem k (if b then j ∷ rest else rest)
Mem-if true k j rest m = mem-cons_of_mem j m
Mem-if false k j rest m = m

requests_of_node-Mem :
    (node : McuNode) (before after : List McuDeployment) (dep : McuDeployment)
    → (dep.status.bound_node == node.name && waits_for_node dep.status.phase) ≡ true
    → Mem (key_of dep) (requests_of_node node (before ++ (dep ∷ after)))
unfolding requests_of_node
requests_of_node-Mem node [] after dep h = rw (h) mem-cons_self
requests_of_node-Mem node (d ∷ before) after dep h =
    Mem-if _ (key_of dep) (key_of d) _ (requests_of_node-Mem node before after dep h)

waits :
    (node : McuNode) (dep : McuDeployment)
    → dep.status.bound_node ≡ node.name
    → (dep.status.phase ≡ confirming) ⊎ (dep.status.phase ≡ deployed)
    → (dep.status.bound_node == node.name && waits_for_node dep.status.phase) ≡ true
waits node dep bound (inl e) = rw ((eq_iff dep.status.bound_node node.name).1 bound, e) refl
waits node dep bound (inr e) = rw ((eq_iff dep.status.bound_node node.name).1 bound, e) refl

-- the key is that of a deployment of the list that waits for the node
abbrev pub IsWoken : McuNode → List McuDeployment → ObjectKey → Type 0
IsWoken node ds key =
    (dep : McuDeployment) × (Mem dep ds
      × ((key ≡ key_of dep)
          × ((dep.status.bound_node ≡ node.name)
              × ((dep.status.phase ≡ confirming) ⊎ (dep.status.phase ≡ deployed)))))

waits_for_node_if :
    (p : McuDeploymentPhase) → waits_for_node p ≡ true → (p ≡ confirming) ⊎ (p ≡ deployed)
waits_for_node_if confirming e = inl refl
waits_for_node_if deployed e = inr refl
waits_for_node_if _ e = absurd (cc)

All-IsWoken :
    (node : McuNode) (d : McuDeployment) (ds : List McuDeployment) (ks : List ObjectKey)
    → All (IsWoken node ds) ks
    → All (IsWoken node (d ∷ ds)) ks
All-IsWoken node d ds [] h = tt
All-IsWoken node d ds (k ∷ ks) ((dep, (m, is)), later) =
    ((dep, (mem-cons_of_mem d m, is)), All-IsWoken node d ds ks later)

All-if :
    (P : ObjectKey → Type 0) (b : Bool) (k : ObjectKey) (rest : List ObjectKey)
    → (b ≡ true → P k)
    → All P rest
    → All P (if b then k ∷ rest else rest)
All-if P true k rest now later = (now refl, later)
All-if P false k rest now later = later

requests_of_node-IsWoken :
    (node : McuNode) (ds : List McuDeployment) → All (IsWoken node ds) (requests_of_node node ds)
unfolding requests_of_node
requests_of_node-IsWoken node [] = tt
requests_of_node-IsWoken node (d ∷ ds) =
    All-if (IsWoken node (d ∷ ds)) _ (key_of d) (requests_of_node node ds)
      (λ e. (
        d,
        (
          mem-cons_self,
          (
            refl,
            (
              (eq_iff d.status.bound_node node.name).0 (and_left _ _ e),
              waits_for_node_if d.status.phase (and_right _ _ e),
            ),
          ),
        ),
      ))
      (All-IsWoken node d ds _ (requests_of_node-IsWoken node ds))

requests_of_config_map-Mem :
    (cm : McuConfigMap) (before after : List McuDeployment) (dep : McuDeployment)
    → (dep.spec.config_map_ref == cm.name) ≡ true
    → Mem (key_of dep) (requests_of_config_map cm (before ++ (dep ∷ after)))
unfolding requests_of_config_map
requests_of_config_map-Mem cm [] after dep h = rw (h) mem-cons_self
requests_of_config_map-Mem cm (d ∷ before) after dep h =
    Mem-if _ (key_of dep) (key_of d) _ (requests_of_config_map-Mem cm before after dep h)

module _ ⦃env : Env⦄ where
  -- A change of a node requests a reconciliation of every deployment of its namespace that the API
  -- server lists, is bound to the node, and is in Confirming or Deployed, wherever it stands in the
  -- list; and every reconciliation that it requests is of such a deployment.
  pub node_to_deployments-Mem :
      (node : McuNode) (before after : List McuDeployment) (dep : McuDeployment) (w : World)
      → env.list_deployments w.history node.namespace ≡ ok (before ++ (dep ∷ after))
      → dep.status.bound_node ≡ node.name
      → (dep.status.phase ≡ confirming) ⊎ (dep.status.phase ≡ deployed)
      → let requests = (node_to_deployments node w).0 in
        Mem (key_of dep) requests × All (IsWoken node (before ++ (dep ∷ after))) requests
  unfolding node_to_deployments
  node_to_deployments-Mem node before after dep w listed bound phase = rw (listed) (
    requests_of_node-Mem node before after dep (waits node dep bound phase),
    requests_of_node-IsWoken node (before ++ (dep ∷ after)),
  )

  -- A change of a McuConfigMap requests a reconciliation of every deployment of its namespace that the
  -- API server lists and that refers to it, wherever it stands in the list.
  pub config_map_to_deployments-Mem :
      (cm : McuConfigMap) (before after : List McuDeployment) (dep : McuDeployment) (w : World)
      → env.list_deployments w.history cm.namespace ≡ ok (before ++ (dep ∷ after))
      → (dep.spec.config_map_ref == cm.name) ≡ true
      → Mem (key_of dep) (config_map_to_deployments cm w).0
  unfolding config_map_to_deployments
  config_map_to_deployments-Mem cm before after dep w listed h =
      rw (listed) (requests_of_config_map-Mem cm before after dep h)
