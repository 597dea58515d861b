-- ===== src/Oci/Options.antt =====
-- internal/oci/client.go: the functional options of New. What WithInsecureTLS changes is in the
-- http.Client, which is the environment's.
use embewi_core.Base.{String, none, some, List, [], ◌∷◌}
use embewi_core.Api.Meta.{Bytes}
use embewi_core.Oci.Types.{Client}

-- Option, by the function that makes it
pub data ClientOption : Type 0 where
  with_basic_auth : String → String → ClientOption
  with_insecure_tls : ClientOption
  with_trusted_public_key : Bytes → ClientOption

unfoldable pub apply_option : ClientOption → Client → Client
apply_option (with_basic_auth username password) c = record c {
  username = username;
  password = password;
}
apply_option with_insecure_tls c = c
apply_option (with_trusted_public_key key) c = record c { trusted_pub_key = some key }

unfoldable pub apply_options : List ClientOption → Client → Client
unfolding apply_option
apply_options [] c = c
apply_options (o ∷ opts) c = apply_options opts (apply_option o c)

unfoldable pub new : List ClientOption → Client
unfolding apply_options
new opts = apply_options opts (record { username = ""; password = ""; trusted_pub_key = none })
