-- ===== src/Agent/Client.antt =====
-- internal/agent/client.go: the calls that take one request and one response.
use embewi_core.Base.{
  integer, String, Bool, true, ◌||◌, Option, none, some, List, [], ◌∷◌, Result, ok, err, str,
  number, bytes, ◌<>◌, plain, Assoc, eqb, if◌then◌else◌,
}
use embewi_core.Base.Int.{ℤ, pos, ltz}
use embewi_core.Api.Meta.{Bytes}
use embewi_core.Agent.Protocol.{
  Client, Header, content_type, no_body, prepare_json, activate_json, config_json, empty_json,
  token_json, port_json, tls_json, HttpResponse, InfoResponse, HealthResponse, PrepareRequest,
  PrepareResponse, ConfigResponse,
}
use embewi_core.Agent.Http.{do_request}
use embewi_core.World.Env.{Env}
use embewi_core.World.Action.{M, pure, ◌>>=◌}

abbrev json_type : List Header
json_type = content_type "application/json" ∷ []

-- the bytes of a body whose read error is ignored
abbrev raw : Option Bytes → Bytes
raw none = []
raw (some b) = b

-- `if resp.StatusCode != http.StatusOK { return fmt.Errorf("… → %d") }`, then the body
pub on_ok : {A : Type 0} → String → (Option Bytes → Result A) → Result HttpResponse → Result A
on_ok what decode (err e) = err e
on_ok what decode (ok r) =
    if eqb r.status_code 200 then decode r.body else err (plain (str what <> number r.status_code))

-- the same with the body in the error, and no result
pub on_ok_with_body : String → Result HttpResponse → Result (Unit {0})
on_ok_with_body what (err e) = err e
on_ok_with_body what (ok r) =
    if eqb r.status_code 200
    then ok tt
    else err (plain (str what <> number r.status_code <> str ": " <> bytes (raw r.body)))

-- a port outside the range of the contract
abbrev pub is_bad_port : ℤ → Bool
is_bad_port port = ltz port (pos 1024) || ltz (pos 65535) port

module _ ⦃env : Env⦄ (c : Client) where
  unfoldable pub get_info : M (Result InfoResponse)
  unfolding do_request on_ok
  get_info = do
    r ← do_request c "GET" "/info" no_body []
    pure (on_ok "GET /info → " env.decode_info r)

  unfoldable pub get_health : M (Result HealthResponse)
  unfolding do_request on_ok
  get_health = do
    r ← do_request c "GET" "/health" no_body []
    pure (on_ok "GET /health → " env.decode_health r)

  unfoldable pub ota_prepare : PrepareRequest → M (Result PrepareResponse)
  unfolding do_request on_ok
  ota_prepare req = do
    r ← do_request c "POST" "/ota/prepare" (prepare_json req) json_type
    pure (on_ok "POST /ota/prepare → " env.decode_prepare r)

  unfoldable pub get_config : M (Result ConfigResponse)
  unfolding do_request on_ok
  get_config = do
    r ← do_request c "GET" "/config" no_body []
    pure (on_ok "GET /config → " env.decode_config r)

  unfoldable pub post_config : Assoc String → M (Result (Unit {0}))
  unfolding do_request on_ok_with_body
  post_config pairs = do
    r ← do_request c "POST" "/config" (config_json pairs) json_type
    pure (on_ok_with_body "POST /config → " r)

  unfoldable pub post_reboot : M (Result (Unit {0}))
  unfolding do_request on_ok
  post_reboot = do
    r ← do_request c "POST" "/reboot" empty_json json_type
    pure (on_ok "POST /reboot → " (λ _. ok tt) r)

  unfoldable pub ota_activate : String → M (Result (Unit {0}))
  unfolding do_request on_ok
  ota_activate id = do
    r ←
        do_request c "POST" "/ota/activate"
          (activate_json (record { deployment_id = id; reboot = true })) json_type
    pure (on_ok "POST /ota/activate → " (λ _. ok tt) r)

  unfoldable pub rotate_token : Bytes → M (Result (Unit {0}))
  unfolding do_request on_ok_with_body
  rotate_token new_token = do
    r ← do_request c "POST" "/token" (token_json new_token) json_type
    pure (on_ok_with_body "POST /token → " r)

  unfoldable pub post_app_port : ℤ → M (Result (Unit {0}))
  unfolding do_request on_ok_with_body
  post_app_port port =
      if is_bad_port port
      then pure
          (err (plain (str "port " <> integer port <> str " hors limites contrat (1024-65535)")))
      else do
        r ← do_request c "POST" "/app/port" (port_json port) json_type
        pure (on_ok_with_body "POST /app/port → " r)

  unfoldable pub post_tls_cert : Bytes → Bytes → M (Result (Unit {0}))
  unfolding do_request on_ok_with_body
  post_tls_cert cert_pem key_pem = do
    r ← do_request c "POST" "/tls/cert" (tls_json cert_pem key_pem) json_type
    pure (on_ok_with_body "POST /tls/cert → " r)
