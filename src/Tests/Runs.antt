-- ===== src/Tests/Runs.antt =====
-- The heartbeat server and the McuNode controller run on the concrete environment.
use embewi_core.Base.{◌≡◌, refl, codes, length}
use embewi_core.Agent.Client.{rotate_token, post_tls_cert, post_reboot}
use embewi_core.Deployment.Phase.{Outcome, requeue_after}
use embewi_core.Heartbeat.Nodes.{find_node}
use embewi_core.Heartbeat.Request.{IncomingRequest, Reply, reply}
use embewi_core.Heartbeat.Server.{handle_heartbeat}
use embewi_core.Heartbeat.Tokens.{validate_token, has_previous}
use embewi_core.Metrics.{update_from_heartbeat}
use embewi_core.NodeController.Reconcile.{reconcile_node}
use embewi_core.NodeController.Secrets.{current_token}
use embewi_core.World.Action.{World}
use embewi_core.Tests.Setting.{test_env, start}
use embewi_core.Tests.Devices.{
  test_retry, test_server, request_with, test_request, test_nodes, rotating_env,
}

abbrev answer_to : IncomingRequest → Reply × World
answer_to r = handle_heartbeat ⦃env = test_env⦄ ⦃api = test_retry⦄ test_server r start

heartbeat_is_accepted : (answer_to test_request).0 ≡ reply 200 ""
unfolding handle_heartbeat find_node validate_token
heartbeat_is_accepted = refl

wrong_token_is_refused : (answer_to (request_with (codes "Bearer no"))).0 ≡ reply 401 "unauthorized"
unfolding handle_heartbeat find_node validate_token
wrong_token_is_refused = refl

-- a list, a Secret, the clock, a read and a patch of the node, and eight gauges
heartbeat_calls : length (answer_to test_request).1.history ≡ 13
unfolding handle_heartbeat find_node validate_token has_previous update_from_heartbeat
heartbeat_calls = refl

abbrev node_run : Outcome × World
node_run =
    reconcile_node ⦃env = rotating_env⦄ test_nodes (record { name = "esp-1"; namespace = "lab" })
      start

node_requeues : node_run.0 ≡ requeue_after 10
unfolding reconcile_node rotate_token post_tls_cert post_reboot current_token
node_requeues = refl
