-- ===== src/Heartbeat/Request.antt =====
-- What internal/heartbeat/server.go reads of an HTTP request, and its answer. The body is the octets
-- that arrive before its end or before a failure.
use embewi_core.Base.{
  ℕ, String, Option, none, some, Result, ok, err, Error, List, length, take, leb, if◌then◌else◌,
}
use embewi_core.Api.Meta.{Bytes}

pub record Body : Type 0 where
  pub octets : Bytes
  pub failure : Option Error

-- an upgrade that fails, or a connection with the frames that arrive until it ends
pub data WebSocket : Type 0 where
  plain_request : WebSocket
  upgrade_failed : WebSocket
  upgraded : List Bytes → WebSocket

pub record IncomingRequest : Type 0 where
  pub method : String
  pub authorization : Bytes
  pub remote_addr : String
  pub body : Body
  pub socket : WebSocket

abbrev ending : Bytes → Option Error → Result Bytes
ending octets none = ok octets
ending octets (some e) = err e

-- io.ReadAll(io.LimitReader(body, limit))
unfoldable pub read_limited : ℕ → Body → Result Bytes
read_limited limit body =
    if leb limit (length body.octets)
    then ok (take limit body.octets)
    else ending body.octets body.failure

-- http.Error and WriteHeader
pub record Reply : Type 0 where
  pub code : ℕ
  pub text : String

abbrev pub reply : ℕ → String → Reply
reply code text = record { code = code; text = text }
