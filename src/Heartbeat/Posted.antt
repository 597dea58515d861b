-- ===== src/Heartbeat/Posted.antt =====
-- A log entry that is posted over HTTP.
use embewi_core.Base.{◌≡◌, refl, ◌||◌, ◌∷◌, Result, ok, err, ◌==◌}
use embewi_core.Api.Meta.{Bytes}
use embewi_core.Heartbeat.Payload.{LogPayload}
use embewi_core.Heartbeat.Request.{IncomingRequest, plain_request, read_limited, reply}
use embewi_core.Heartbeat.Nodes.{Server}
use embewi_core.Heartbeat.Logs.{http, post_entry, handle_log}
use embewi_core.World.Call.{History, log_relayed}
use embewi_core.World.Env.{Env}
use embewi_core.World.Action.{World}

-- what a body that decodes to `answer` leaves in the history
abbrev pub relayed : Result LogPayload → History → History
relayed (err e) h = h
relayed (ok entry) h = log_relayed (entry.level == "fatal" || entry.level == "error") entry ∷ h

post_entry-relayed :
    (answer : Result LogPayload) (w : World)
    → post_entry answer w ≡ (http (reply 200 ""), record w { history = relayed answer w.history })
unfolding post_entry
post_entry-relayed (err e) w = refl
post_entry-relayed (ok entry) w = refl

module _ ⦃env : Env⦄ where
  -- A POST to the log endpoint with no upgrade, whose body can be read, is answered with 200 whatever
  -- its Authorization header is. Its only call relays the entry that the body (its first 2048 octets)
  -- decodes to, as an error where the level is fatal or error; it makes none where the body does not
  -- decode. No node is looked up and no token read.
  pub handle_log-posted :
      (s : Server) (r : IncomingRequest) (auth body : Bytes) (w : World)
      → r.socket ≡ plain_request
      → r.method ≡ "POST"
      → read_limited 2048 r.body ≡ ok body
      → handle_log s (record r { authorization = auth }) w
        ≡ (http (reply 200 ""), record w { history = relayed (env.decode_log body) w.history })
  unfolding handle_log
  handle_log-posted s r auth body w plain post is =
      rw (plain, post, is) (post_entry-relayed (env.decode_log body) w)
