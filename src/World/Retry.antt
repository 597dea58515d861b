-- ===== src/World/Retry.antt =====
-- k8s.io/client-go/util/retry, which is third-party code and so an interface. RetryOnConflict runs its
-- argument, and runs it again only after an answer that is a conflict; it returns the last answer.
use embewi_core.Base.{◌≡◌, refl, Bool, true, false, Result, ok, err, Error, api, conflict, wrap}
use embewi_core.World.Call.{Call, History}
use embewi_core.World.Action.{World, M}
use embewi_core.World.Emits.{Extends, same, Any, Extends-Any, Extends-trans, Emits}

-- apierrors.IsConflict
abbrev pub is_conflict : Error → Bool
is_conflict (api conflict) = true
is_conflict (wrap m e) = is_conflict e
is_conflict _ = false

abbrev pub is_retried : {A : Type 0} → Result A → Bool
is_retried (ok a) = false
is_retried (err e) = is_conflict e

pub data Retried {A : Type 0} (m : M (Result A)) : World → Result A × World → Type 0 where
  last : {w : World} → Retried m w (m w)
  again :
      {w : World} {out : Result A × World}
      → is_retried (m w).0 ≡ true
      → Retried m (m w).1 out
      → Retried m w out

pub record RetryApi : Type 1 where
  pub retry_on_conflict : {A : Type 0} → M (Result A) → M (Result A)
  pub retry_on_conflict-Retried :
      {A : Type 0} (m : M (Result A)) (w : World) → Retried m w (retry_on_conflict m w)

module _ {A : Type 0} where
  -- a retried action satisfies what each of its runs satisfies from a history on
  pub Retried-Extends_from :
      {P : Call → Type 0} (h : History) (m : M (Result A))
      → ((w : World) → Extends Any h w.history → Extends P w.history (m w).1.history)
      → {w : World} {out : Result A × World} → Extends Any h w.history
      → Retried m w out
      → Extends P w.history out.1.history
  Retried-Extends_from h m e {w} r last = e w r
  Retried-Extends_from h m e {w} r (again c later) =
      let now = e w r in
      Extends-trans now (Retried-Extends_from h m e (Extends-trans r (Extends-Any now)) later)

  -- the answer of a retried action is that of one of its runs
  pub Retried-run :
      (m : M (Result A))
      → Emits Any m
      → {w : World} {out : Result A × World} → Retried m w out
      → (before : World) × (Extends Any w.history before.history × (m before ≡ out))
  Retried-run m e {w} last = (w, (same, refl))
  Retried-run m e {w} (again c r) =
      let (before, (reached, is)) = Retried-run m e r in
      (before, (Extends-trans (e.at w) reached, is))
