-- ===== src/Base/Errors.antt =====
-- Go's error values: sentinels, texts, and `%w` chains read by errors.Is and errors.As. A rendered
-- text is a rope of its parts, so `fmt.Sprintf` keeps its arguments; `quoted` is the verb %q.
use Prim.Native.Nat.{ℕ}
use Prim.Native.String.{String}
use embewi_core.Base.Int.{ℤ}
use mathlib.Core.Bool.{Bool, true, false, ◌||◌}
use mathlib.Core.List.{List}
use mathlib.Core.Option.{Option, none, some}

-- the package-level `errors.New` values
pub data Sentinel : Type 0 where
  config_permanent config_map_not_found unsupported_api_version duplicate_node_id : Sentinel
  signature_missing signature_invalid blob_digest_mismatch : Sentinel

-- what the API server answers: apierrors.IsNotFound, a conflict, or any other failure
pub data ApiError : Type 0 where
  not_found conflict : ApiError
  unavailable : String → ApiError

infixr 60 ◌<>◌
mutual
  pub data Message : Type 0 where
    str : String → Message
    number : ℕ → Message
    integer : ℤ → Message
    quoted : String → Message
    bytes : List ℕ → Message
    error_text : Error → Message
    ◌<>◌ : Message → Message → Message

  pub data Error : Type 0 where
    sentinel : Sentinel → Error
    api : ApiError → Error
    plain : Message → Error
    wrap : Message → Error → Error
    wrap_both : Error → Error → Message → Error
    ota_write_error : String → ℕ → Error

abbrev pub no_message : Message
no_message = str ""

abbrev pub same_sentinel : Sentinel → Sentinel → Bool
same_sentinel config_permanent config_permanent = true
same_sentinel config_map_not_found config_map_not_found = true
same_sentinel unsupported_api_version unsupported_api_version = true
same_sentinel duplicate_node_id duplicate_node_id = true
same_sentinel signature_missing signature_missing = true
same_sentinel signature_invalid signature_invalid = true
same_sentinel blob_digest_mismatch blob_digest_mismatch = true
same_sentinel _ _ = false

-- errors.Is(err, s)
abbrev pub is_error : Sentinel → Error → Bool
is_error s (sentinel t) = same_sentinel t s
is_error s (wrap m e) = is_error s e
is_error s (wrap_both e f m) = is_error s e || is_error s f
is_error s _ = false

-- apierrors.IsNotFound(err)
abbrev pub is_not_found : Error → Bool
is_not_found (api not_found) = true
is_not_found (wrap m e) = is_not_found e
is_not_found (wrap_both e f m) = is_not_found e || is_not_found f
is_not_found _ = false

-- errors.As(err, &otaWriteErr): the status of the first OTAWriteError in the chain
abbrev or_else : Option String → Option String → Option String
or_else (some s) _ = some s
or_else none o = o

abbrev pub as_ota_write_error : Error → Option String
as_ota_write_error (ota_write_error s n) = some s
as_ota_write_error (wrap m e) = as_ota_write_error e
as_ota_write_error (wrap_both e f m) = or_else (as_ota_write_error e) (as_ota_write_error f)
as_ota_write_error _ = none

-- a Go result `(value, err)`
pub data Result {ℓ} (A : Type ℓ) : Type ℓ where
  ok : A → Result A
  err : Error → Result A
