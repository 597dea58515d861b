-- ===== src/Agent/Negotiation.antt =====
-- Which devices the negotiation of the API version accepts.
use mathlib.Core.List.{Mem, mem-cons_self, mem-cons_of_mem}
use embewi_core.Base.{
  All, Error, ◌≢◌, ◌≡◌, refl, ◌⊎◌, inl, inr, String, true, false, List, [], ◌∷◌, Result, ok, err,
  ◌==◌, eq_iff, Bool-cases, is_error, unsupported_api_version,
}
use embewi_core.Agent.Version.{
  find_supported, negotiate_api_version, supported_api_version, unsupported_error,
}

-- no version announced is the one that the code supports
abbrev pub NoneSupported : List String → Type 0
NoneSupported = All (λ v. (v == supported_api_version) ≡ false)

-- how a negotiation ends
pub data Negotiated (vs : List String) : Result String → Type 0 where
  announced : Mem supported_api_version vs → Negotiated vs (ok supported_api_version)
  silent : vs ≡ [] → Negotiated vs (ok supported_api_version)
  refused :
      {e : Error}
      → vs ≢ []
      → NoneSupported vs
      → is_error unsupported_api_version e ≡ true
      → Negotiated vs (err e)

abbrev Found : List String → Result String → Type 0
Found vs r =
    (Mem supported_api_version vs × (r ≡ ok supported_api_version))
    ⊎ (NoneSupported vs × (r ≡ err unsupported_error))

find_supported-Found : (vs : List String) → Found vs (find_supported vs)
unfolding find_supported
find_supported-Found [] = inr (tt, refl)
find_supported-Found (v ∷ vs) = elim (Bool-cases (v == supported_api_version)) [
  | inl e ↦ inl (rw ((eq_iff v supported_api_version).0 e) mem-cons_self, rw (e) refl)
  | inr e ↦ elim (find_supported-Found vs) [
    | inl (m, f) ↦ inl (mem-cons_of_mem v m, rw (e) f)
    | inr (n, f) ↦ inr ((e, n), rw (e) f)
  ]
]

-- The negotiation ends in one of two ways. It returns v1alpha1, and then the device announces that
-- version or announces none at all; or it returns an error that errors.Is knows as
-- ErrUnsupportedAPIVersion, and then the device announces versions and v1alpha1 is not among them.
pub negotiate_api_version-Negotiated : (vs : List String) → Negotiated vs (negotiate_api_version vs)
unfolding negotiate_api_version
negotiate_api_version-Negotiated [] = silent refl
negotiate_api_version-Negotiated (v ∷ vs) = elim (find_supported-Found (v ∷ vs)) [
  | inl (m, f) ↦ rw (f) (announced m)
  | inr (n, f) ↦ rw (f) (refused (λ e. cc) n refl)
]
