-- ===== src/World/Made.antt =====
-- That a run makes a call.
use mathlib.Core.Path.{subst}
use embewi_core.Base.{◌≡◌, refl, ap, ℕ, ◌+◌, ◌≤◌, [], ◌∷◌, ◌++◌, arith}
use embewi_core.World.Call.{Call, History}
use embewi_core.World.Emits.{Extends, Any, same, more}

-- the call is made between the two histories
pub record Made (c : Call) (start final : History) : Type 0 where
  pub later : History
  pub before : History
  pub reached : Extends Any start before
  pub final_is : final ≡ later ++ (c ∷ before)

calls : History → ℕ
calls [] = 0
calls (c ∷ h) = let n = calls h in n + 1

calls-append : (a b : History) → calls b ≤ calls (a ++ b)
unfolding calls
calls-append [] b = omega arith
calls-append (c ∷ a) b = let n = calls-append a b in omega arith

calls-Extends : {P : Call → Type 0} {h t : History} → Extends P h t → calls h ≤ calls t
unfolding calls
calls-Extends same = omega arith
calls-Extends (more p e) = let n = calls-Extends e in omega arith

head : {c d : Call} {a b : History} → c ∷ a ≡ d ∷ b → c ≡ d
head e = cc

tail : {c d : Call} {a b : History} → c ∷ a ≡ d ∷ b → a ≡ b
tail e = cc

not_before : (c : Call) (h a b : History) → h ≡ a ++ (c ∷ b) → Extends Any h b → ⊥
unfolding calls
not_before c h a b e r =
    let n = calls-Extends r in let m = calls-append a (c ∷ b) in let k = ap calls e in omega arith

made_holds :
    {P : Call → Type 0} {h t : History} (c : Call) (a b : History)
    → Extends P h t
    → t ≡ a ++ (c ∷ b)
    → Extends Any h b
    → P c
made_holds {h = h} c a b same e r = absurd (not_before c h a b e r)
made_holds {P} c [] b (more p later) e r = subst P (head e) p
made_holds c (d ∷ a) b (more p later) e r = made_holds c a b later (tail e) r

-- a call that a run makes satisfies the policy of the run
pub Made-holds : {P : Call → Type 0} {c : Call} {h t : History} → Extends P h t → Made c h t → P c
Made-holds {c = c} e m = made_holds c m.later m.before e m.final_is m.reached

made_since : {h t : History} → Extends Any h t → (later : History) × (t ≡ later ++ h)
made_since same = ([], refl)
made_since (more {c = c} p e) = let (later, is) = made_since e in (c ∷ later, ap (λ t. c ∷ t) is)

-- a call after which the run goes on
pub Extends-Made : {c : Call} {h t : History} → Extends Any (c ∷ h) t → Made c h t
Extends-Made {h = h} e =
    let (later, is) = made_since e in
    record { later = later; before = h; reached = same; final_is = is }
