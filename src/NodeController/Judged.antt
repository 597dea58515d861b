-- ===== src/NodeController/Judged.antt =====
-- What a reconciliation of a node writes about its readiness.
use embewi_core.Base.{
  ◌≡◌, ◌↔◌, refl, ◌∙◌, ℕ, ◌+◌, ◌≤◌, ◌<◌, List, String, Bool, true, false, ◌⊎◌, Option, none, some,
  ◌==◌, eq_iff, inl, inr, arith, and_left, and_right,
}
use embewi_core.Api.Meta.{Condition}
use embewi_core.Api.Node.{McuNode}
use embewi_core.NodeController.Readiness.{
  heartbeat_timeout, is_expired_at, want_ready, want_state, not_provisioned, never_ready, timed_out,
  conditions_after, with_readiness, is_set,
}
use embewi_core.World.Call.{History}
use embewi_core.World.Env.{Env}

module _ ⦃env : Env⦄ where
  -- whether the last heartbeat is too old, by some answer of the clock
  abbrev pub IsExpiry : Option ℕ → Bool → Type 0
  IsExpiry none expired = expired ≡ true
  IsExpiry (some last) expired =
      (h : History) × ((expired ≡ true) ↔ ¬ (env.now h ≤ last + heartbeat_timeout))

  -- what stands in the conditions
  abbrev pub Tells : McuNode → String → Condition → Type 0
  Tells node type c = env.conditions.find_status_condition node.status.conditions type ≡ some c

  -- what a status patch says of a node whose last heartbeat is, or is not, too old
  pub record JudgedAs (expired : Bool) (old new : McuNode) : Type 0 where
    pub same_spec : new.spec ≡ old.spec
    pub same_annotations : new.annotations ≡ old.annotations
    pub same_ip : new.status.ip ≡ old.status.ip
    pub same_deployment : new.status.deployment_id ≡ old.status.deployment_id
    pub same_digest : new.status.firmware_digest ≡ old.status.firmware_digest
    pub same_heartbeat : new.status.last_heartbeat ≡ old.status.last_heartbeat
    pub ready_iff :
        (new.status.ready ≡ true)
        ↔ ((expired ≡ false) × ((old.status.state ≡ "running") × (old.status.ota_validated ≡ true)))
    pub state_kept : expired ≡ false → new.status.state ≡ old.status.state
    pub never_seen :
        old.status.last_heartbeat ≡ none
        → (new.status.state ≡ old.status.state)
          × (Tells new "Provisioned" not_provisioned × Tells new "Ready" never_ready)
    pub timed_out_is :
        (last : ℕ)
        → old.status.last_heartbeat ≡ some last
        → expired ≡ true
        → (new.status.state ≡ "offline") × Tells new "Ready" timed_out

module _ ⦃env : Env⦄ where
  -- the patch judges the node by some answer of the clock
  abbrev pub IsJudged : McuNode → McuNode → Type 0
  IsJudged old new =
      (expired : Bool) × (IsExpiry old.status.last_heartbeat expired × JudgedAs expired old new)

-- the test of the clock
pub is_expired_at_iff :
    (last now : ℕ) → (is_expired_at last now ≡ true) ↔ ¬ (now ≤ last + heartbeat_timeout)
unfolding is_expired_at
is_expired_at_iff last now = (
  λ e le. let late : last + heartbeat_timeout < now = ground arith in absurd (omega arith),
  λ late. let lt : last + heartbeat_timeout < now = omega arith in ground arith,
)

want_ready_iff :
    (expired : Bool) (node : McuNode)
    → (want_ready expired node ≡ true)
      ↔ ((expired ≡ false) × ((node.status.state ≡ "running") × (node.status.ota_validated ≡ true)))
unfolding want_ready
want_ready_iff true node = (λ e. absurd (cc), λ (e, rest). absurd (cc))
want_ready_iff false node = (
  λ e. (refl, ((eq_iff node.status.state "running").0 (and_left _ _ e), and_right _ _ e)),
  λ (e, (running, validated)). rw ((eq_iff node.status.state "running").1 running, validated) refl,
)

state_kept_if :
    (expired : Bool) (node : McuNode)
    → (expired ≡ false) ⊎ (node.status.last_heartbeat ≡ none)
    → want_state expired node ≡ node.status.state
unfolding want_state is_set
state_kept_if expired node h = ground arith

state_offline :
    (node : McuNode) (last : ℕ)
    → node.status.last_heartbeat ≡ some last
    → want_state true node ≡ "offline"
unfolding want_state is_set
state_offline node last seen = ground (arith, eq_iff node.status.state "offline")

module _ ⦃env : Env⦄ where
  found_last :
      (cs : List Condition) (c : Condition) (type : String)
      → c.type ≡ type
      → env.conditions.find_status_condition (env.conditions.set_status_condition cs c) type
        ≡ some c
  found_last cs c type e = env.conditions.find-set cs c type ∙ rw ((eq_iff c.type type).1 e) refl

  found_first :
      (cs : List Condition) (c d : Condition) (type : String)
      → c.type ≡ type
      → (d.type == type) ≡ false
      → env.conditions.find_status_condition
          (env.conditions.set_status_condition (env.conditions.set_status_condition cs c) d)
          type
        ≡ some c
  found_first cs c d type e other =
      env.conditions.find-set (env.conditions.set_status_condition cs c) d type
      ∙ rw (other) (found_last cs c type e)

  told_never :
      (expired : Bool) (last : Option ℕ) (cs : List Condition)
      → last ≡ none
      → let after = conditions_after expired last cs in
        (env.conditions.find_status_condition after "Provisioned" ≡ some not_provisioned)
        × (env.conditions.find_status_condition after "Ready" ≡ some never_ready)
  unfolding conditions_after
  told_never expired last cs e = rw (e) (
    found_first cs not_provisioned never_ready "Provisioned" refl refl,
    found_last (env.conditions.set_status_condition cs not_provisioned) never_ready "Ready" refl,
  )

  told_timed_out :
      (expired : Bool) (at : Option ℕ) (last : ℕ) (cs : List Condition)
      → at ≡ some last
      → expired ≡ true
      → env.conditions.find_status_condition (conditions_after expired at cs) "Ready"
        ≡ some timed_out
  unfolding conditions_after
  told_timed_out expired at last cs e f = rw (e, f) (found_last cs timed_out "Ready" refl)

module _ ⦃env : Env⦄ where
  pub with_readiness-JudgedAs :
      (old : McuNode) (expired : Bool) → JudgedAs expired old (with_readiness expired old)
  unfolding with_readiness
  with_readiness-JudgedAs old expired = record {
    same_spec = refl;
    same_annotations = refl;
    same_ip = refl;
    same_deployment = refl;
    same_digest = refl;
    same_heartbeat = refl;
    ready_iff = want_ready_iff expired old;
    state_kept = λ e. state_kept_if expired old (inl e);
    never_seen = λ never. (
      state_kept_if expired old (inr never),
      told_never expired old.status.last_heartbeat old.status.conditions never,
    );
    timed_out_is = λ last seen e. (
      rw (e) (state_offline old last seen),
      told_timed_out expired old.status.last_heartbeat last old.status.conditions seen e,
    );
  }
