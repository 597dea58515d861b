-- ===== src/World/Emits.antt =====
-- Which calls an action makes: rules for the ways to build an action.
use embewi_core.Base.{◌≡◌, refl, Bool, true, false, ◌∷◌, if◌then◌else◌}
use embewi_core.World.Call.{Call, History}
use embewi_core.World.Action.{World, M, pure, ◌>>=◌, call}

-- the later history is the earlier one with calls that satisfy `P` made on top
pub data Extends (P : Call → Type 0) (h : History) : History → Type 0 where
  same : Extends P h h
  more : {h' : History} {c : Call} → P c → Extends P h h' → Extends P h (c ∷ h')

pub Extends-trans :
    {P : Call → Type 0} {h h' h'' : History} → Extends P h h' → Extends P h' h'' → Extends P h h''
Extends-trans e same = e
Extends-trans e (more p f) = more p (Extends-trans e f)

-- an extension by any calls
abbrev pub Any : Call → Type 0
Any c = Unit

pub Extends-Any : {P : Call → Type 0} {h h' : History} → Extends P h h' → Extends Any h h'
Extends-Any same = same
Extends-Any (more p e) = more tt (Extends-Any e)

pub record Emits {A : Type 0} (P : Call → Type 0) (m : M A) : Type 0 where
  pub at : (w : World) → Extends P w.history (m w).1.history

module _ {A : Type 0} {P : Call → Type 0} where
  pub Emits-pure : (a : A) → Emits P (pure a)
  Emits-pure a = record { at = λ w. same }

  pub Emits-call : (c : Call) (f : History → A) → P c → Emits P (call c f)
  Emits-call c f p = record { at = λ w. more p same }

  pub Emits-if :
      (b : Bool) (m n : M A)
      → (b ≡ true → Emits P m)
      → (b ≡ false → Emits P n)
      → Emits P (if b then m else n)
  Emits-if true m n km kn = km refl
  Emits-if false m n km kn = kn refl

module _ {A B : Type 0} {P : Call → Type 0} where
  pub Emits-bind :
      (m : M A) (f : A → M B) → Emits P m → ((a : A) → Emits P (f a)) → Emits P (m >>= f)
  Emits-bind m f km kf = record {
    at = λ w. let (a, w') = m w in Extends-trans (km.at w) ((kf a).at w');
  }
