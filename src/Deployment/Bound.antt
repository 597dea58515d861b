-- ===== src/Deployment/Bound.antt =====
-- To which node phaseBinding binds a deployment.
use embewi_core.Base.{
  ◌≡◌, ◌≢◌, Bool, true, not, ◌&&◌, eq_iff, ◌==◌, refl, sym, ap, ◌∙◌, String, false, Option, none,
  some, List, [], ◌∷◌, Result, ok, err, if◌then◌else◌, Bool-cases, ◌⊎◌, inl, inr, All, Message,
}
use embewi_core.Api.Node.{McuNode}
use embewi_core.Api.Deployment.{McuDeployment, McuDeploymentPhase, pulling, failed}
use embewi_core.Deployment.Phase.{failed_with, in_phase, set_phase, stamp_if, write_phase}
use embewi_core.Deployment.Binding.{
  candidates, is_failed, holds, find_holder, busy_error, busy_in, check_not_busy, bind_to,
  bind_candidates, bind_among, phase_binding,
}
use embewi_core.Deployment.Wanted.{IsOnly, candidates-IsOnly}
use embewi_core.Deployment.Calls.{Fits, AllowsFail, fail-Fits}
use embewi_core.Deployment.Uniform.{Anything}
use embewi_core.World.Call.{History, nodes_listed}
use embewi_core.World.Env.{Env}
use embewi_core.World.Action.{World}
use embewi_core.World.Emits.{Extends, same, more, Extends-trans}
use embewi_core.World.Policy.{Policy}

-- the deployment does not hold the node against the one named: it is that one, or is not bound to the
-- node, or is Failed
abbrev pub IsFree : String → String → McuDeployment → Type 0
IsFree dep_name node_name d =
    (d.name ≡ dep_name) ⊎ ((d.status.bound_node ≢ node_name) ⊎ (d.status.phase ≡ failed))

is_failed_iff : (p : McuDeploymentPhase) → is_failed p ≡ true → p ≡ failed
is_failed_iff failed e = refl
is_failed_iff _ e = absurd (cc)

holds-IsFree :
    (dep_name node_name : String) (d : McuDeployment)
    → holds dep_name node_name d ≡ false
    → IsFree dep_name node_name d
unfolding holds
holds-IsFree dep_name node_name d e = pick _ _ _ refl refl refl e
  where
    pick :
        (own bound fails : Bool)
        → (d.name == dep_name) ≡ own
        → (d.status.bound_node == node_name) ≡ bound
        → is_failed d.status.phase ≡ fails
        → ((not own && bound) && not fails) ≡ false
        → IsFree dep_name node_name d
    pick true b f is _ _ h = inl ((eq_iff d.name dep_name).0 is)
    pick false false f _ is _ h =
        inr (inl (λ e. let g = (eq_iff d.status.bound_node node_name).1 e in cc))
    pick false true true _ _ is h = inr (inr (is_failed_iff d.status.phase is))
    pick false true false _ _ _ h = absurd (cc)

pub find_holder-none :
    (dep_name node_name : String) (ds : List McuDeployment)
    → find_holder dep_name node_name ds ≡ none
    → All (IsFree dep_name node_name) ds
unfolding find_holder
find_holder-none dep_name node_name [] h = tt
find_holder-none dep_name node_name (d ∷ ds) h = elim (Bool-cases (holds dep_name node_name d)) [
  | inl e ↦
      absurd
        (some_none (sym (ap (λ b. if b then some d else find_holder dep_name node_name ds) e) ∙ h))
  | inr e ↦ (
    holds-IsFree dep_name node_name d e,
    find_holder-none dep_name node_name ds
        (sym (ap (λ b. if b then some d else find_holder dep_name node_name ds) e) ∙ h),
  )
]
  where
    some_none : some d ≡ none → ⊥
    some_none e = cc

busy_error-ok :
    (node_name : String) (h : Option McuDeployment) → busy_error node_name h ≡ ok tt → h ≡ none
busy_error-ok node_name none e = refl
busy_error-ok node_name (some d) e = absurd (cc)

pub busy_in-ok :
    (dep_name node_name : String) (r : Result (List McuDeployment))
    → busy_in dep_name node_name r ≡ ok tt
    → (ds : List McuDeployment) × ((r ≡ ok ds) × All (IsFree dep_name node_name) ds)
busy_in-ok dep_name node_name (err e) h = absurd (cc)
busy_in-ok dep_name node_name (ok ds) h =
    (ds, (refl, find_holder-none dep_name node_name ds (busy_error-ok node_name _ h)))

module _ ⦃env : Env⦄ where
  -- A binding is justified by the answers of the API server: one node alone of those listed matches
  -- the spec, the new status names it, and no deployment listed after it holds it.
  pub record IsJustified (h : History) (dep new : McuDeployment) : Type 0 where
    pub nodes : List McuNode
    pub node : McuNode
    pub nodes_are : env.list_nodes h (some dep.namespace) ≡ ok nodes
    pub alone : IsOnly dep.spec nodes node
    pub others : List McuDeployment
    pub others_are :
        env.list_deployments (nodes_listed (some dep.namespace) ∷ h) dep.namespace ≡ ok others
    pub free : All (IsFree dep.name node.name) others
    pub pulls : new.status.phase ≡ pulling
    pub bound : new.status.bound_node ≡ node.name

  abbrev pub Justifies : History → McuDeployment → McuDeployment → McuDeployment → Type 0
  Justifies h dep old new = (new.status.phase ≡ failed) ⊎ IsJustified h dep new

  bind_to-Fits :
      (Q : McuDeployment → McuDeployment → Type 0) (dep : McuDeployment) (n : McuNode)
      → AllowsFail Q Anything
      → (r : Result (Unit {0}))
      → (r ≡ ok tt → (d : McuDeployment) (m : Message) → Q d (in_phase d pulling n.name m))
      → Fits Q Anything (bind_to dep n r)
  unfolding bind_to set_phase stamp_if write_phase
  bind_to-Fits Q dep n f (err e) k = fail-Fits Q Anything f dep _ _
  bind_to-Fits Q dep n f (ok tt) k = record { at = λ w. more (k refl dep _) same }

  module _ (h : History) (dep : McuDeployment) where
    fails-Justifies : AllowsFail (Justifies h dep) Anything
    unfolding failed_with
    fails-Justifies d r m = inl refl

    bind_candidates-Justifies :
        (ns : List McuNode) (w : World)
        → env.list_nodes h (some dep.namespace) ≡ ok ns
        → w.history ≡ nodes_listed (some dep.namespace) ∷ h
        → (cs : List McuNode) → candidates dep.spec ns ≡ cs
        → Extends (Policy (Justifies h dep) Anything) w.history (bind_candidates dep cs w).1.history
    unfolding bind_candidates check_not_busy in_phase
    bind_candidates-Justifies ns w e at [] c = (fail-Fits _ Anything fails-Justifies dep _ _).at w
    bind_candidates-Justifies ns w e at (n ∷ m ∷ rest) c =
        (fail-Fits _ Anything fails-Justifies dep _ _).at w
    bind_candidates-Justifies ns w e at (n ∷ []) c =
        let answer = env.list_deployments w.history dep.namespace in
        Extends-trans (more tt same) (
          (bind_to-Fits (Justifies h dep) dep n fails-Justifies (busy_in dep.name n.name answer)
              (λ ok_is d m.
                let (others, (are, free)) = busy_in-ok dep.name n.name answer ok_is in
                inr (record {
                  nodes = ns;
                  node = n;
                  nodes_are = e;
                  alone = candidates-IsOnly dep.spec ns n c;
                  others = others;
                  others_are = sym (ap (λ t. env.list_deployments t dep.namespace) at) ∙ are;
                  free = free;
                  pulls = refl;
                  bound = refl;
                }))).at
            _)

    bind_among-Justifies :
        (w : World)
        → w.history ≡ nodes_listed (some dep.namespace) ∷ h
        → (r : Result (List McuNode)) → env.list_nodes h (some dep.namespace) ≡ r
        → Extends (Policy (Justifies h dep) Anything) w.history (bind_among dep r w).1.history
    unfolding bind_among
    bind_among-Justifies w at (err e) is = same
    bind_among-Justifies w at (ok ns) is =
        bind_candidates-Justifies ns w is at (candidates dep.spec ns) refl

  -- A status that a binding writes is either Failed, or justified by what the API server answers from
  -- the moment at which the binding starts. Then one node alone of those listed has the name in the
  -- spec, or, where there is none, every label of the selector, a missing label read as the empty one;
  -- the status names that node; and each deployment listed afterwards has the name of this one, is not
  -- bound to that node, or is Failed. So a deployment in Deployed holds its node.
  pub phase_binding-Justifies :
      (dep : McuDeployment) (w : World)
      → Extends
          (Policy (Justifies w.history dep) Anything)
          w.history
          (phase_binding dep w).1.history
  unfolding phase_binding
  phase_binding-Justifies dep w = Extends-trans (more tt same) (
      bind_among-Justifies w.history dep
        (record w { history = nodes_listed (some dep.namespace) ∷ w.history }) refl
        (env.list_nodes w.history (some dep.namespace)) refl)
