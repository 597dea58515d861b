-- ===== src/NodeController/Sound.antt =====
-- When the status of a node is sound, and what keeps it sound.
use embewi_core.Base.{
  ◌≡◌, ◌≢◌, refl, sym, ap, ◌∙◌, ℕ, String, Bool, true, false, ◌⊎◌, inl, inr, Option, none, some,
  List, Bool-cases, Option-cases,
}
use embewi_core.Api.Meta.{
  Condition, ConditionStatus, condition_true, condition_false, condition_unknown,
}
use embewi_core.Api.Node.{McuNode}
use embewi_core.World.Policy.{KeepsReadiness}
use embewi_core.Heartbeat.Payload.{HeartbeatPayload}
use embewi_core.Heartbeat.Status.{is_valid_state}
use embewi_core.Heartbeat.Reports.{status_of_ready, IsReport}
use embewi_core.NodeController.Readiness.{with_readiness, conditions_after, timed_out, never_ready}
use embewi_core.NodeController.Judged.{IsExpiry, with_readiness-JudgedAs}
use embewi_core.World.Env.{Env}

module _ ⦃env : Env⦄ where
  abbrev pub FindsReady : McuNode → Option Condition → Type 0
  FindsReady n o = env.conditions.find_status_condition n.status.conditions "Ready" ≡ o

  -- a node that was just created
  pub record IsCreated (n : McuNode) : Type 0 where
    pub not_ready : n.status.ready ≡ false
    pub no_state : n.status.state ≡ ""
    pub no_condition : FindsReady n none

  pub record IsSound (n : McuNode) : Type 0 where
    pub running : n.status.ready ≡ true → n.status.state ≡ "running"
    pub validated : n.status.ready ≡ true → n.status.ota_validated ≡ true
    pub heard_of : n.status.ready ≡ true → n.status.last_heartbeat ≢ none
    pub known_state : (n.status.state ≡ "") ⊎ (is_valid_state n.status.state ≡ true)
    pub told :
        (c : Condition) → FindsReady n (some c) → c.status ≡ condition_true → n.status.ready ≡ true

  pub IsCreated-IsSound : (n : McuNode) → IsCreated n → IsSound n
  IsCreated-IsSound n is = record {
    running = λ e. absurd (no e);
    validated = λ e. absurd (no e);
    heard_of = λ e. absurd (no e);
    known_state = inl is.no_state;
    told = λ c e f. absurd (none_some (sym is.no_condition ∙ e));
  }
    where
      no : n.status.ready ≡ true → ⊥
      no e = let f = is.not_ready in cc

      none_some : {c : Condition} → none ≡ some c → ⊥
      none_some e = cc

  told_once :
      (o : Option Condition) (c d : Condition) → o ≡ some c → o ≡ some d → c.status ≡ d.status
  told_once o c d e f = ap (λ o. status_in o) (sym e ∙ f)
    where
      status_in : Option Condition → ConditionStatus
      status_in none = condition_false
      status_in (some c) = c.status

  status_of_ready-true : (b : Bool) → status_of_ready b ≡ condition_true → b ≡ true
  status_of_ready-true true e = refl
  status_of_ready-true false e = absurd (cc)

  pub heard-IsSound : (hb : HeartbeatPayload) (n m : McuNode) → IsReport hb true n m → IsSound m
  heard-IsSound hb n m report =
      let (c, (found, status)) = report.ready_is in
      let (now, seen) = report.seen in
      record {
        running = λ e. report.state ∙ (report.ready_iff.0 e).0;
        validated = λ e. report.ota_validated ∙ ((report.ready_iff.0 e).1).0;
        heard_of = λ _ e. some_none now (sym seen ∙ e);
        known_state = inr report.valid_state;
        told = λ d e f. status_of_ready-true _ (sym status ∙ (told_once _ c d found e ∙ f));
      }
    where
      some_none : (now : ℕ) → some now ≡ none → ⊥
      some_none now e = cc

  expired_if_never :
      (last : Option ℕ) (expired : Bool) → last ≡ none → IsExpiry last expired → expired ≡ true
  expired_if_never none expired e is = is
  expired_if_never (some t) expired e is = absurd (cc)

  conditions_kept :
      (last : Option ℕ) (t : ℕ) (expired : Bool) (cs : List Condition)
      → last ≡ some t
      → expired ≡ false
      → conditions_after expired last cs ≡ cs
  unfolding conditions_after
  conditions_kept last t expired cs e f = rw (e, f) refl

  module _ (n : McuNode) (expired : Bool) (is : IsExpiry n.status.last_heartbeat expired)
      (s : IsSound n) where
    judged-state :
        (with_readiness expired n).status.state ≡ ""
        ⊎ (is_valid_state (with_readiness expired n).status.state ≡ true)
    unfolding is_valid_state
    judged-state =
        let j = with_readiness-JudgedAs n expired in
        elim (Option-cases n.status.last_heartbeat) [
          | inl never ↦ kept (j.never_seen never).0
          | inr (t, seen) ↦ elim (Bool-cases expired) [
            | inl late ↦ inr (ap is_valid_state (j.timed_out_is t seen late).0)
            | inr on_time ↦ kept (j.state_kept on_time)
          ]
        ]
      where
        kept : {t : String} → t ≡ n.status.state → (t ≡ "") ⊎ (is_valid_state t ≡ true)
        kept e = elim s.known_state [
          | inl none_yet ↦ inl (e ∙ none_yet)
          | inr valid ↦ inr (ap is_valid_state e ∙ valid)
        ]

    judged-told :
        (c : Condition)
        → FindsReady (with_readiness expired n) (some c)
        → c.status ≡ condition_true
        → (with_readiness expired n).status.ready ≡ true
    unfolding with_readiness
    judged-told c found e =
        let j = with_readiness-JudgedAs n expired in
        elim (Option-cases n.status.last_heartbeat) [
          | inl never ↦
              absurd (unlike (told_once _ never_ready c ((j.never_seen never).1).1 found ∙ e))
          | inr (t, seen) ↦ elim (Bool-cases expired) [
            | inl late ↦
                absurd
                  (unlike_too (told_once _ timed_out c (j.timed_out_is t seen late).1 found ∙ e))
            | inr on_time ↦
                let same =
                  ap (λ cs. env.conditions.find_status_condition cs "Ready")
                    (conditions_kept n.status.last_heartbeat t expired n.status.conditions seen
                      on_time) in
                let was = s.told c (sym same ∙ found) e in
                j.ready_iff.1 (on_time, (s.running was, s.validated was))
          ]
        ]
      where
        unlike : condition_unknown ≡ condition_true → ⊥
        unlike e = cc

        unlike_too : condition_false ≡ condition_true → ⊥
        unlike_too e = cc

    pub judged-IsSound : IsSound (with_readiness expired n)
    judged-IsSound =
        let j = with_readiness-JudgedAs n expired in
        record {
          running = λ e. let (on_time, rest) = j.ready_iff.0 e in j.state_kept on_time ∙ rest.0;
          validated = λ e. unfold with_readiness in ((j.ready_iff.0 e).1).1;
          heard_of = λ e never.
              both (j.ready_iff.0 e).0 (
                expired_if_never n.status.last_heartbeat expired (sym j.same_heartbeat ∙ never) is);
          known_state = judged-state;
          told = judged-told;
        }
      where
        both : expired ≡ false → expired ≡ true → ⊥
        both e f = cc

  -- a write that leaves readiness alone
  pub kept-IsSound : (n m : McuNode) → IsSound n → KeepsReadiness n m → IsSound m
  kept-IsSound n m s k = record {
    running = λ e. k.same_state ∙ s.running (sym k.same_ready ∙ e);
    validated = λ e. k.same_validated ∙ s.validated (sym k.same_ready ∙ e);
    heard_of = λ e never. s.heard_of (sym k.same_ready ∙ e) (sym k.same_heartbeat ∙ never);
    known_state = elim s.known_state [
      | inl none_yet ↦ inl (k.same_state ∙ none_yet)
      | inr known ↦ inr (ap is_valid_state k.same_state ∙ known)
    ];
    told = λ c found e.
        k.same_ready
        ∙ s.told c
            (sym (ap (λ cs. env.conditions.find_status_condition cs "Ready") k.same_conditions)
              ∙ found)
            e;
  }
