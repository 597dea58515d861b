-- ===== src/Agent/Http.antt =====
-- internal/agent/client.go: `New`, `doWith` and `do`. A URL that http.NewRequest refuses is a failure
-- of the call.
use Prim.Native.String.{◌++◌}
use embewi_core.Base.{ℕ, String, Option, none, List, ◌∷◌, Result}
use embewi_core.Api.Meta.{Bytes}
use embewi_core.Agent.Protocol.{Client, Header, authorization, Payload, HttpResponse}
use embewi_core.World.Env.{Env}
use embewi_core.World.Action.{M, http_do}

unfoldable pub new : String → Bytes → Client
new ip token = record { base_url = "https://" ++ ip; token = token }

module _ ⦃env : Env⦄ where
  unfoldable pub do_with :
      Client → String → String → Payload → Option ℕ → List Header → M (Result HttpResponse)
  do_with c method path body content_length extra = http_do (record {
    method = method;
    url = c.base_url ++ "/v1alpha1" ++ path;
    headers = authorization c.token ∷ extra;
    content_length = content_length;
    body = body;
  })

  unfoldable pub do_request :
      Client → String → String → Payload → List Header → M (Result HttpResponse)
  unfolding do_with
  do_request c method path body extra = do_with c method path body none extra
