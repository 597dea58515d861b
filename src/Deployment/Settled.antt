-- ===== src/Deployment/Settled.antt =====
-- When the configuration push finds nothing to do.
use embewi_core.Base.{
  ◌≡◌, refl, sym, ap, ◌∙◌, ◌⊎◌, inl, inr, Option, none, some, ◌↔◌, String, Bool, true, false, not,
  ◌||◌, [], ◌∷◌, Result, ok, err, ◌==◌, eq_iff, if◌then◌else◌, All, Assoc, lookup, or_empty,
}
use text.Mathlib.Text.{starts_with}
use embewi_core.Base.Int.{ltz}
use embewi_core.Agent.Protocol.{Client, ConfigResponse}
use embewi_core.Agent.Client.{post_config}
use embewi_core.Deployment.Config.{diverges, filtered, push_diverging, posted}
use embewi_core.World.Env.{Env}
use embewi_core.World.Action.{World, pure, ◌>>=◌}

-- the device holds the entry, or the entry is empty and the device has none under its key
abbrev pub IsStored : Assoc String → String × String → Type 0
IsStored nvs (k, v) = (lookup k nvs ≡ some v) ⊎ ((v ≡ "") × (lookup k nvs ≡ none))

-- the key of the entry is reserved to the agent, or the entry is stored
abbrev pub IsServed : Assoc String → String × String → Type 0
IsServed nvs (k, v) = (starts_with k "_" ≡ true) ⊎ IsStored nvs (k, v)

reads-IsStored :
    (v : String) (o : Option String) → or_empty o ≡ v → (o ≡ some v) ⊎ ((v ≡ "") × (o ≡ none))
reads-IsStored v none e = inr (sym e, refl)
reads-IsStored v (some t) e = inl (cc)

IsStored-reads :
    (v : String) (o : Option String) → (o ≡ some v) ⊎ ((v ≡ "") × (o ≡ none)) → or_empty o ≡ v
IsStored-reads v o (inl e) = ap or_empty e
IsStored-reads v o (inr (empty, e)) = ap or_empty e ∙ sym empty

neither : (b c : Bool) → (not b || c) ≡ false → (b ≡ true) × (c ≡ false)
neither true c h = (refl, h)
neither false c h = absurd (cc)

diverges-IsStored : (nvs m : Assoc String) → diverges nvs m ≡ false → All (IsStored nvs) m
unfolding diverges
diverges-IsStored nvs [] h = tt
diverges-IsStored nvs ((k, v) ∷ rest) h =
    let (same, more) = neither (or_empty (lookup k nvs) == v) (diverges nvs rest) h in
    (
      reads-IsStored v (lookup k nvs) ((eq_iff (or_empty (lookup k nvs)) v).0 same),
      diverges-IsStored nvs rest more,
    )

IsStored-diverges : (nvs m : Assoc String) → All (IsStored nvs) m → diverges nvs m ≡ false
unfolding diverges
IsStored-diverges nvs [] h = refl
IsStored-diverges nvs ((k, v) ∷ rest) (here, more) =
    rw ((eq_iff (or_empty (lookup k nvs)) v).1 (IsStored-reads v (lookup k nvs) here))
      (IsStored-diverges nvs rest more)

filtered-IsServed : (nvs m : Assoc String) → All (IsStored nvs) (filtered m) → All (IsServed nvs) m
unfolding filtered
filtered-IsServed nvs [] h = tt
filtered-IsServed nvs ((k, v) ∷ rest) h =
    pick (λ m. filtered-IsServed nvs rest m) (starts_with k "_") refl h
  where
    pick :
        (All (IsStored nvs) (filtered rest) → All (IsServed nvs) rest)
        → (b : Bool) → starts_with k "_" ≡ b
        → All (IsStored nvs) (if b then filtered rest else (k, v) ∷ filtered rest)
        → IsServed nvs (k, v) × All (IsServed nvs) rest
    pick later true e h = (inl e, later h)
    pick later false e (here, more) = (inr here, later more)

IsServed-filtered : (nvs m : Assoc String) → All (IsServed nvs) m → All (IsStored nvs) (filtered m)
unfolding filtered
IsServed-filtered nvs [] h = tt
IsServed-filtered nvs ((k, v) ∷ rest) (here, more) =
    pick (IsServed-filtered nvs rest more) (starts_with k "_") refl
  where
    pick :
        All (IsStored nvs) (filtered rest)
        → (b : Bool) → starts_with k "_" ≡ b
        → All (IsStored nvs) (if b then filtered rest else (k, v) ∷ filtered rest)
    pick later true e = later
    pick later false e = elim here [ inl reserved ↦ absurd (cc) | inr stored ↦ (stored, later) ]

-- the device holds all that is wanted, and has booted with it
abbrev pub IsSettled : Assoc String → ConfigResponse → Type 0
IsSettled wanted current =
    All (IsServed current.nvs) wanted × (ltz current.active_generation current.generation ≡ false)

posted-ne-false : (r : Result (Unit {0})) → posted r ≡ ok false → ⊥
posted-ne-false (ok tt) h = cc
posted-ne-false (err e) h = cc

ok_injective : (b : Bool) → ok b ≡ ok false → b ≡ false
ok_injective b h = cc

module _ ⦃env : Env⦄ where
  idle_only :
      (diverging behind : Bool) (cli : Client) (m : Assoc String) (w : World)
      → ((if diverging then (do r ← post_config cli m; pure (posted r)) else pure (ok behind)) w).0
        ≡ ok false
      → (diverging ≡ false) × (behind ≡ false)
  idle_only true behind cli m w h = absurd (posted-ne-false _ h)
  idle_only false behind cli m w h = (refl, ok_injective behind h)

  -- Once the device has told its configuration, the push answers that no reboot is needed exactly where
  -- each wanted entry whose key does not begin with `_` is stored by the device with its value, or is
  -- empty and has no counterpart on the device, and the device's active generation is not behind the
  -- one stored.
  pub push_diverging-IsSettled :
      (cli : Client) (wanted : Assoc String) (current : ConfigResponse) (w : World)
      → ((push_diverging cli wanted (ok current) w).0 ≡ ok false) ↔ IsSettled wanted current
  unfolding push_diverging
  push_diverging-IsSettled cli wanted current w = (only, when)
    where
      only : (push_diverging cli wanted (ok current) w).0 ≡ ok false → IsSettled wanted current
      only h =
          let (agree, active) = idle_only (diverges current.nvs (filtered wanted)) _ cli _ w h in
          (
            filtered-IsServed current.nvs wanted
                (diverges-IsStored current.nvs (filtered wanted) agree),
            active,
          )

      when : IsSettled wanted current → (push_diverging cli wanted (ok current) w).0 ≡ ok false
      when (served, active) =
          let stored = IsServed-filtered current.nvs wanted served in
          rw (push_diverging, IsStored-diverges current.nvs (filtered wanted) stored, active) refl
