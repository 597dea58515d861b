-- ===== src/Heartbeat/Reports.antt =====
-- What the server writes in the status of a node.
use embewi_core.Base.{
  ◌≡◌, ◌≢◌, ◌↔◌, refl, ap, ◌∙◌, String, ℕ, Bool, true, not, some, ◌==◌, if◌then◌else◌, eq_iff,
  arith, Bool-cases, inl, inr, and_left, and_right,
}
use embewi_core.Api.Meta.{Condition, ConditionStatus, condition_true, condition_false}
use embewi_core.Api.Node.{McuNode}
use embewi_core.Heartbeat.Payload.{HeartbeatPayload}
use embewi_core.Heartbeat.Request.{IncomingRequest}
use embewi_core.Heartbeat.Nodes.{Server, key_of_node}
use embewi_core.Heartbeat.Status.{
  is_valid_state, is_ready, provisioned, heartbeat_condition, with_heartbeat,
}
use embewi_core.Heartbeat.Authentic.{IsAuthentic}
use embewi_core.Heartbeat.Guarded.{Guarded}
use embewi_core.Heartbeat.Attempts.{IsRead}
use embewi_core.Heartbeat.Handled.{IsSent, Nothing, handle_heartbeat-Keeps}
use embewi_core.Heartbeat.Server.{handle_heartbeat}
use embewi_core.World.Call.{History}
use embewi_core.World.Env.{Env}
use embewi_core.World.Action.{World}
use embewi_core.World.Emits.{Extends}
use embewi_core.World.Retry.{RetryApi}

-- a heartbeat of a node that runs a validated image and has its clock set
abbrev pub IsOperational : HeartbeatPayload → Type 0
IsOperational hb =
    (hb.state ≡ "running") × ((hb.ota_validated ≡ true) × (hb.reason ≢ "clock_unsynced"))

abbrev pub status_of_ready : Bool → ConditionStatus
status_of_ready b = if b then condition_true else condition_false

module _ ⦃env : Env⦄ where
  -- the status says what the heartbeat says, and the rest of the object is as it was
  pub record IsReport (hb : HeartbeatPayload) (lock : Bool) (old new : McuNode) : Type 0 where
    pub locked : lock ≡ true
    pub same_spec : new.spec ≡ old.spec
    pub same_annotations : new.annotations ≡ old.annotations
    pub same_finalizers : new.finalizers ≡ old.finalizers
    pub same_chip : new.status.chip ≡ old.status.chip
    pub same_api_version : new.status.api_version ≡ old.status.api_version
    pub same_tls_cert_digest : new.status.tls_cert_digest ≡ old.status.tls_cert_digest
    pub same_reboot : new.status.last_reboot_requested ≡ old.status.last_reboot_requested
    pub valid_state : is_valid_state new.status.state ≡ true
    pub state : new.status.state ≡ hb.state
    pub ota_validated : new.status.ota_validated ≡ hb.ota_validated
    pub deployment_id : new.status.deployment_id ≡ hb.deployment_id
    pub firmware_digest : new.status.firmware_digest ≡ hb.firmware_digest
    pub config_generation : new.status.config_generation ≡ hb.config_generation
    pub ready_iff : (new.status.ready ≡ true) ↔ IsOperational hb
    pub seen : (now : ℕ) × (new.status.last_heartbeat ≡ some now)
    pub provisioned_is :
        env.conditions.find_status_condition new.status.conditions "Provisioned" ≡ some provisioned
    pub ready_is :
        (c : Condition) × ((env.conditions.find_status_condition new.status.conditions "Ready"
            ≡ some c)
          × (c.status ≡ status_of_ready new.status.ready))

is_ready-IsOperational : (hb : HeartbeatPayload) → (is_ready hb ≡ true) ↔ IsOperational hb
unfolding is_ready
is_ready-IsOperational hb = (
  λ h.
      let rest = and_right _ _ h in
      (
        (eq_iff hb.state "running").0 (and_left _ _ h),
        (and_left _ _ rest, λ e. is_not _ ((eq_iff hb.reason _).1 e) (and_right _ _ rest)),
      ),
  λ (running, (validated, synced)).
      rw ((eq_iff hb.state "running").1 running, validated)
        (elim (Bool-cases (hb.reason == "clock_unsynced")) [
          | inl e ↦ absurd (synced ((eq_iff hb.reason "clock_unsynced").0 e))
          | inr e ↦ rw (e) refl
        ]),
)
  where
    is_not : (b : Bool) → b ≡ true → not b ≡ true → ⊥
    is_not b e h = cc

heartbeat_condition-type : (hb : HeartbeatPayload) → (heartbeat_condition hb).type ≡ "Ready"
unfolding heartbeat_condition
heartbeat_condition-type hb = ground arith

heartbeat_condition-status :
    (hb : HeartbeatPayload) → (heartbeat_condition hb).status ≡ status_of_ready (is_ready hb)
unfolding heartbeat_condition
heartbeat_condition-status hb = ground arith

module _ ⦃env : Env⦄ where
  pub with_heartbeat-IsReport :
      (hb : HeartbeatPayload)
      → is_valid_state hb.state ≡ true
      → (ip : String) (now : ℕ) (old : McuNode)
      → IsReport hb true old (with_heartbeat hb ip now old)
  unfolding with_heartbeat
  with_heartbeat-IsReport hb valid ip now old =
      let before = env.conditions.set_status_condition old.status.conditions provisioned in
      let c = heartbeat_condition hb in
      record {
        locked = refl;
        same_spec = refl;
        same_annotations = refl;
        same_finalizers = refl;
        same_chip = refl;
        same_api_version = refl;
        same_tls_cert_digest = refl;
        same_reboot = refl;
        valid_state = valid;
        state = refl;
        ota_validated = refl;
        deployment_id = refl;
        firmware_digest = refl;
        config_generation = refl;
        ready_iff = is_ready-IsOperational hb;
        seen = (now, refl);
        provisioned_is =
            env.conditions.find-set before c "Provisioned"
            ∙ (ap
                  (λ t.
                    if t == "Provisioned"
                    then some c
                    else env.conditions.find_status_condition before "Provisioned")
                  (heartbeat_condition-type hb)
                ∙ env.conditions.find-set old.status.conditions provisioned "Provisioned");
        ready_is = (
          c,
          (
            env.conditions.find-set before c "Ready"
                ∙ ap
                    (λ t.
                      if t == "Ready"
                      then some c
                      else env.conditions.find_status_condition before "Ready")
                    (heartbeat_condition-type hb),
            heartbeat_condition-status hb,
          ),
        );
      }

  -- the patch is of an object that a Get of the node answered in this run, and tells the heartbeat of
  -- the request
  pub record Reported (h : History) (s : Server) (r : IncomingRequest) (lock : Bool)
      (old new : McuNode) : Type 0 where
    pub heartbeat : HeartbeatPayload
    pub sent : IsSent r heartbeat
    pub authentic : IsAuthentic h s r.authorization heartbeat.node_id
    pub read : IsRead h (key_of_node authentic.node) old
    pub report : IsReport heartbeat lock old new

  pub handle_heartbeat-IsReport :
      ⦃api : RetryApi⦄ (s : Server) (r : IncomingRequest) (w : World)
      → Extends
          (Guarded (Reported w.history s r) (λ old new. Unit) Unit Nothing)
          w.history
          (handle_heartbeat s r w).1.history
  handle_heartbeat-IsReport s r w =
      handle_heartbeat-Keeps _ _ _ s r w _
        (λ hb sent authentic. record {
          status = λ e ip now old read. record {
            heartbeat = hb;
            sent = sent;
            authentic = authentic;
            read = read;
            report = with_heartbeat-IsReport hb e ip now old;
          };
          rotates = λ token some_previous. tt;
          gauges = λ accepted. tt;
        })
        refl
