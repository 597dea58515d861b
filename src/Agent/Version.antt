-- ===== src/Agent/Version.antt =====
-- internal/agent/client.go, NegotiateAPIVersion.
use embewi_core.Base.{
  String, List, [], ◌∷◌, ◌==◌, if◌then◌else◌, ok, err, Error, sentinel, wrap,
  unsupported_api_version, Result, str,
}

abbrev pub supported_api_version : String
supported_api_version = "v1alpha1"

abbrev pub unsupported_error : Error
unsupported_error =
    wrap (str "device annonce, Core ne supporte que v1alpha1") (sentinel unsupported_api_version)

-- the loop over the versions that the device announces
unfoldable pub find_supported : List String → Result String
find_supported [] = err unsupported_error
find_supported (v ∷ vs) =
    if v == supported_api_version then ok supported_api_version else find_supported vs

unfoldable pub negotiate_api_version : List String → Result String
unfolding find_supported
negotiate_api_version [] = ok supported_api_version
negotiate_api_version (v ∷ vs) = find_supported (v ∷ vs)
