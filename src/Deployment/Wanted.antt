-- ===== src/Deployment/Wanted.antt =====
-- Which node a McuDeployment asks for, and which nodes phaseBinding takes for candidates.
use mathlib.Core.Path.{subst}
use embewi_core.Base.{
  ◌≡◌, ◌≢◌, ◌↔◌, refl, sym, ap, ◌∙◌, String, Bool, true, false, List, [], ◌∷◌, ◌++◌, ◌==◌, eq_iff,
  if◌then◌else◌, Bool-cases, ◌⊎◌, inl, inr, All, and_left, and_right, Assoc, lookup, or_empty,
}
use embewi_core.Api.Node.{McuNode}
use embewi_core.Api.Deployment.{McuDeploymentSpec}
use embewi_core.Deployment.Binding.{labels_match, node_matches, candidates}

-- the label has the value; a missing label reads as ""
abbrev pub HasLabel : Assoc String → String × String → Type 0
HasLabel labels (k, v) = or_empty (lookup k labels) ≡ v

-- the node is the one that the spec names, or, where it names none, has the labels that it selects
abbrev pub IsWanted : McuDeploymentSpec → McuNode → Type 0
IsWanted spec n =
    ((spec.node_name ≢ "") × (n.name ≡ spec.node_name))
    ⊎ ((spec.node_name ≡ "") × All (HasLabel n.labels) spec.node_selector)

-- the node stands in the list, and is the only one there that the spec asks for
pub record IsOnly (spec : McuDeploymentSpec) (nodes : List McuNode) (node : McuNode) : Type 0 where
  pub before : List McuNode
  pub after : List McuNode
  pub stands : nodes ≡ before ++ (node ∷ after)
  pub wanted : IsWanted spec node
  pub none_before : All (λ n. ¬ IsWanted spec n) before
  pub none_after : All (λ n. ¬ IsWanted spec n) after

labels_match_iff :
    (selector labels : Assoc String)
    → (labels_match selector labels ≡ true) ↔ All (HasLabel labels) selector
unfolding labels_match
labels_match_iff [] labels = (λ e. tt, λ t. refl)
labels_match_iff ((k, v) ∷ selector) labels = (
  λ h. (
    (eq_iff (or_empty (lookup k labels)) v).0 (and_left _ _ h),
    (labels_match_iff selector labels).0 (and_right _ _ h),
  ),
  λ (here, later).
      rw
        ((eq_iff (or_empty (lookup k labels)) v).1 here, (labels_match_iff selector labels).1 later)
        refl,
)

node_matches-IsWanted :
    (spec : McuDeploymentSpec) (n : McuNode) → (node_matches spec n ≡ true) ↔ IsWanted spec n
unfolding node_matches
node_matches-IsWanted spec n = elim (Bool-cases (spec.node_name == "")) [
  | inl e ↦
      let none_named = (eq_iff spec.node_name "").0 e in
      let labels = labels_match_iff spec.node_selector n.labels in
      (
        λ h. inr (none_named, labels.0 (sym (if_at _ _ _ e) ∙ h)),
        λ w.
            if_at _ _ _ e
            ∙ elim w [ inl (named, _) ↦ absurd (named none_named) | inr (_, has) ↦ labels.1 has ],
      )
  | inr e ↦
      let named : spec.node_name ≢ "" = λ f. let g = (eq_iff spec.node_name "").1 f in cc in
      let names = eq_iff n.name spec.node_name in
      (
        λ h. inl (named, names.0 (sym (if_not _ _ _ e) ∙ h)),
        λ w.
            if_not _ _ _ e
            ∙ elim w [ inl (_, is) ↦ names.1 is | inr (none_named, _) ↦ absurd (named none_named) ],
      )
]
  where
    if_at : (b c d : Bool) → b ≡ true → (if b then c else d) ≡ c
    if_at true c d e = refl
    if_at false c d e = absurd (cc)

    if_not : (b c d : Bool) → b ≡ false → (if b then c else d) ≡ d
    if_not false c d e = refl
    if_not true c d e = absurd (cc)

not-IsWanted :
    (spec : McuDeploymentSpec) (n : McuNode) → node_matches spec n ≡ false → ¬ IsWanted spec n
not-IsWanted spec n e w = let f = (node_matches-IsWanted spec n).1 w in absurd (cc)

candidates-none :
    (spec : McuDeploymentSpec) (ns : List McuNode)
    → candidates spec ns ≡ []
    → All (λ n. ¬ IsWanted spec n) ns
unfolding candidates
candidates-none spec [] h = tt
candidates-none spec (n ∷ ns) h = elim (Bool-cases (node_matches spec n)) [
  | inl e ↦ absurd (cons_nil (sym (pick e) ∙ h))
  | inr e ↦ (not-IsWanted spec n e, candidates-none spec ns (sym (pick e) ∙ h))
]
  where
    pick :
        {b : Bool}
        → node_matches spec n ≡ b
        → candidates spec (n ∷ ns) ≡ (if b then n ∷ candidates spec ns else candidates spec ns)
    pick e = ap (λ b. if b then n ∷ candidates spec ns else candidates spec ns) e

    cons_nil : {l : List McuNode} → n ∷ l ≡ [] → ⊥
    cons_nil e = cc

pub candidates-IsOnly :
    (spec : McuDeploymentSpec) (ns : List McuNode) (node : McuNode)
    → candidates spec ns ≡ node ∷ []
    → IsOnly spec ns node
unfolding candidates
candidates-IsOnly spec [] node h = absurd (cc)
candidates-IsOnly spec (n ∷ ns) node h = elim (Bool-cases (node_matches spec n)) [
  | inl e ↦
      let both = sym (pick e) ∙ h in
      let is : n ≡ node = head both in
      record {
        before = [];
        after = ns;
        stands = ap (λ m. m ∷ ns) is;
        wanted = subst (λ m. IsWanted spec m) is ((node_matches-IsWanted spec n).0 e);
        none_before = tt;
        none_after = candidates-none spec ns (tail both);
      }
  | inr e ↦
      let later = candidates-IsOnly spec ns node (sym (pick e) ∙ h) in
      record {
        before = n ∷ later.before;
        after = later.after;
        stands = ap (λ l. n ∷ l) later.stands;
        wanted = later.wanted;
        none_before = (not-IsWanted spec n e, later.none_before);
        none_after = later.none_after;
      }
]
  where
    pick :
        {b : Bool}
        → node_matches spec n ≡ b
        → candidates spec (n ∷ ns) ≡ (if b then n ∷ candidates spec ns else candidates spec ns)
    pick e = ap (λ b. if b then n ∷ candidates spec ns else candidates spec ns) e

    head : {m k : McuNode} {l t : List McuNode} → m ∷ l ≡ k ∷ t → m ≡ k
    head e = cc

    tail : {m k : McuNode} {l t : List McuNode} → m ∷ l ≡ k ∷ t → l ≡ t
    tail e = cc
