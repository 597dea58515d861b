-- ===== src/Tests/ServerWitnesses.antt =====
-- The results on the heartbeat server, the gauges and the command at concrete inputs.
use embewi_core.Base.{
  ◌≡◌, refl, arith, String, none, some, List, [], ◌∷◌, ok, ◌==◌, eq_iff, codes, lookup, has_prefix,
  if◌then◌else◌,
}
use embewi_core.Base.Int.{pos}
use embewi_core.Api.Meta.{Secret, Bytes}
use embewi_core.Api.Node.{McuNode}
use embewi_core.Command.{Program, configure, wire}
use embewi_core.Command.Trusts.{Enforces, configure-Enforces}
use embewi_core.Deployment.Device.{token_location}
use embewi_core.Heartbeat.Agreement.{resolve_token_secret-token_location, node_key-find_node}
use embewi_core.Heartbeat.Duplicates.{duplicate_events, handle_heartbeat-duplicates}
use embewi_core.Heartbeat.Gate.{FromDevice, EndsRotation, handle_heartbeat-IsAuthentic}
use embewi_core.Heartbeat.Guarded.{Guarded}
use embewi_core.Heartbeat.Attempts.{Accepted}
use embewi_core.Heartbeat.Handled.{Nothing}
use embewi_core.Heartbeat.Logs.{http, handle_log, handle_log_ws}
use embewi_core.Heartbeat.Matched.{Found, validate_token-Found}
use embewi_core.Heartbeat.Nodes.{key_of_node, matches, find_node, node_key}
use embewi_core.Heartbeat.Posted.{relayed, handle_log-posted}
use embewi_core.Heartbeat.Refused.{Untouched, handle_heartbeat-refused}
use embewi_core.Heartbeat.Relay.{IsRelayed, handle_log_ws-IsRelayed}
use embewi_core.Heartbeat.Request.{read_limited, reply, upgraded}
use embewi_core.Heartbeat.Server.{handle_heartbeat}
use embewi_core.Heartbeat.Tokens.{resolve_token_secret, validate_token, provided_by}
use embewi_core.Metrics.{labels_of, remove_node}
use embewi_core.Metrics.Board.{Board, Refines, heartbeat, removal, run, replay}
use embewi_core.Metrics.Race.{removed_in_between, removed_in_between-leaks}
use embewi_core.Metrics.Refines.{run-Refines}
use embewi_core.Metrics.Series.{series}
use embewi_core.Oci.Options.{with_trusted_public_key}
use embewi_core.World.Call.{History, nodes_listed, heap_free_bytes, whole}
use embewi_core.World.Env.{Env}
use embewi_core.World.Emits.{Extends}
use embewi_core.Tests.Setting.{test_env, test_node, test_heartbeat, start}
use embewi_core.Tests.Devices.{
  test_retry, test_gauges, test_server, request_with, test_request, own_node, rotating_data,
  rotating_env, test_beat, shown_series,
}

abbrev test_run : History
test_run =
    (handle_heartbeat ⦃env = test_env⦄ ⦃api = test_retry⦄ test_server test_request start).1.history

handle_heartbeat-IsAuthentic_example :
    Extends
      (Guarded
        (λ lock old new. FromDevice ⦃env = test_env⦄ [] test_server test_request)
        (EndsRotation ⦃env = test_env⦄ [] test_server test_request)
        (FromDevice ⦃env = test_env⦄ [] test_server test_request
          × Accepted ⦃env = test_env⦄ [] test_run)
        Nothing)
      []
      test_run
handle_heartbeat-IsAuthentic_example =
    handle_heartbeat-IsAuthentic ⦃env = test_env⦄ ⦃api = test_retry⦄ test_server test_request start

handle_heartbeat-refused_example :
    Extends Untouched []
      (handle_heartbeat ⦃env = test_env⦄ ⦃api = test_retry⦄ test_server
        (request_with (codes "Bearer no"))
        start).1.history
unfolding handle_heartbeat
handle_heartbeat-refused_example =
    handle_heartbeat-refused ⦃env = test_env⦄ ⦃api = test_retry⦄ test_server
      (request_with (codes "Bearer no")) start (omega arith)

abbrev twice : Env
twice = record test_env { list_nodes = λ h ns. ok (test_node ∷ test_node ∷ []) }

handle_heartbeat-duplicates_example :
    handle_heartbeat ⦃env = twice⦄ ⦃api = test_retry⦄ test_server test_request start ≡ (
      reply 200 "",
      record start {
        history = duplicate_events 2 "esp-1" (test_node ∷ test_node ∷ []) (nodes_listed none ∷ []);
      },
    )
unfolding matches
handle_heartbeat-duplicates_example =
    handle_heartbeat-duplicates ⦃env = twice⦄ ⦃api = test_retry⦄ test_server test_request start
      test_heartbeat (test_node ∷ test_node ∷ []) test_node test_node [] refl refl
      (1 ∷ [], (unfold read_limited in refl, refl)) refl refl

abbrev test_frames : List Bytes
test_frames = [] ∷ (1 ∷ []) ∷ []

handle_log_ws-IsRelayed_example :
    Extends
      (Guarded
        (λ lock old new. ⊥)
        (λ old new. ⊥)
        ⊥
        (IsRelayed ⦃env = test_env⦄ [] test_server (codes "Bearer t0") test_frames))
      []
      (handle_log_ws ⦃env = test_env⦄ test_server test_request
        (upgraded test_frames)
        start).1.history
handle_log_ws-IsRelayed_example =
    handle_log_ws-IsRelayed ⦃env = test_env⦄ test_server test_request test_frames start

handle_log-posted_example :
    handle_log ⦃env = test_env⦄ test_server (request_with []) start
    ≡ (http (reply 200 ""), record start { history = relayed (test_env.decode_log (1 ∷ [])) [] })
unfolding read_limited
handle_log-posted_example =
    handle_log-posted ⦃env = test_env⦄ test_server test_request [] (1 ∷ []) start refl refl refl

abbrev rotating_secret : Secret
rotating_secret = record {
  key = record { name = "esp-1-token"; namespace = "lab" };
  secret_data = rotating_data;
}

validate_token-Found_example :
    Found
      (resolve_token_secret test_server own_node).1
      (provided_by (codes "Bearer t0"))
      rotating_secret
      (validate_token ⦃env = rotating_env⦄ test_server (codes "Bearer t0") own_node start).0
unfolding has_prefix resolve_token_secret
validate_token-Found_example =
    validate_token-Found ⦃env = rotating_env⦄ test_server (codes "Bearer t0") own_node start
      rotating_secret refl refl

resolve_token_secret-token_location_example :
    resolve_token_secret test_server own_node ≡ token_location "" own_node
resolve_token_secret-token_location_example =
    resolve_token_secret-token_location test_server own_node

node_key-find_node_example :
    (node_key ⦃env = test_env⦄ "esp-1" start).0 ≡ ok (key_of_node test_node)
unfolding find_node
node_key-find_node_example =
    node_key-find_node ⦃env = test_env⦄ test_server "esp-1" start test_node refl

abbrev empty_board : Board
empty_board id = none

run-Refines_example :
    Refines ⦃gauges = test_gauges⦄
      (run (heartbeat test_beat ∷ removal "esp-1" ∷ []) start)
      (replay (heartbeat test_beat ∷ removal "esp-1" ∷ []) empty_board)
unfolding lookup shown_series
run-Refines_example =
    run-Refines ⦃gauges = test_gauges⦄ (heartbeat test_beat ∷ removal "esp-1" ∷ []) start
      empty_board (record { shows = λ g l. refl; tracks = λ id. refl; keyed = λ id. tt })

removed_in_between-leaks_example :
    let after = (removed_in_between test_beat start).1 in
    (series ⦃gauges = test_gauges⦄ after.history heap_free_bytes (labels_of test_beat)
      ≡ some (whole (pos 1)))
    × ((lookup "esp-1" after.prev_labels ≡ none) × ((remove_node "esp-1" after).1 ≡ after))
removed_in_between-leaks_example = removed_in_between-leaks ⦃gauges = test_gauges⦄ test_beat start

abbrev key_text : String
key_text = "01234567890123456789012345678901"

-- the variables of the program
abbrev getenv : String → String
getenv name = if name == "OCI_TRUSTED_PUBLIC_KEY" then key_text else ""

abbrev test_program : Program
test_program = wire "tokens" (with_trusted_public_key (codes key_text) ∷ [])

configure-Enforces_example :
    Enforces ⦃env = test_env⦄ getenv test_program
    × ((node : McuNode)
        → resolve_token_secret test_program.server node
          ≡ token_location test_program.deployments.token_secret node)
unfolding configure
configure-Enforces_example =
    configure-Enforces ⦃env = test_env⦄ getenv "tokens" test_program refl
      (λ e. let f = (eq_iff key_text "").1 e in cc)
