-- ===== src/Tests/NodeWitnesses.antt =====
-- The results on the McuNode controller at concrete inputs.
use embewi_core.Base.{
  take, drop, Result, codes, some, ◌≡◌, refl, arith, true, false, none, [], ◌∷◌, ok, eq_iff, lookup,
}
use embewi_core.Api.Meta.{ObjectKey, Secret, Condition, condition_false}
use embewi_core.Api.Node.{McuNode}
use embewi_core.Heartbeat.Payload.{HeartbeatPayload}
use embewi_core.Heartbeat.Status.{with_heartbeat}
use embewi_core.Heartbeat.Server.{handle_heartbeat, of_node}
use embewi_core.Heartbeat.Tokens.{without_previous, has_previous, validate_token}
use embewi_core.Metrics.{remove_node, update_from_heartbeat}
use embewi_core.Metrics.Board.{Board, Refines, replay_op, removal}
use embewi_core.NodeController.Answers.{IsPatched}
use embewi_core.NodeController.Calls.{NodePolicy}
use embewi_core.NodeController.Deletion.{released, reconcile_present-deleted}
use embewi_core.NodeController.Exposed.{Exposes, Routes}
use embewi_core.NodeController.Interleaved.{here, next, heard, judged, finalized, Reach-IsSound}
use embewi_core.NodeController.Sound.{IsSound}
use embewi_core.NodeController.Kept.{
  AnyStatus, AnyRequest, AnyService, AnySlice, JudgesLocked, RecordsUnlocked, MaySend,
  reconcile_node-IsJudged, reconcile_node-Records, reconcile_node-MaySend, reconcile_node-Routes,
}
use embewi_core.NodeController.Readiness.{with_readiness, is_expired_at}
use embewi_core.NodeController.Reconcile.{reconcile_node, reconcile_present}
use embewi_core.NodeController.Secrets.{key_of_ref}
use embewi_core.NodeController.Served.{of_node-ends}
use embewi_core.NodeController.Tokens.{reconcile_token_rotation}
use embewi_core.NodeController.Unsynced.{with_readiness-unsynced}
use embewi_core.World.Call.{History, secret_read, secret_patched, clock_read, node_updated}
use embewi_core.World.Action.{World}
use embewi_core.World.Made.{Made}
use embewi_core.World.Env.{Env}
use embewi_core.World.Emits.{Extends, Any, same, more}
use embewi_core.Tests.Setting.{
  find_by_type, set_by_type, test_env, test_node, test_heartbeat, start,
}
use embewi_core.Tests.Devices.{
  test_retry, test_server, test_request, request_with, test_gauges, shown_series, test_nodes,
  own_node, rotating_data, rotating_env,
}

abbrev key_of_esp : ObjectKey
key_of_esp = record { name = "esp-1"; namespace = "lab" }

reconcile_node-IsJudged_example :
    Extends
      (NodePolicy (JudgesLocked ⦃env = rotating_env⦄) AnyRequest AnyService AnySlice)
      []
      (reconcile_node ⦃env = rotating_env⦄ test_nodes key_of_esp start).1.history
reconcile_node-IsJudged_example =
    reconcile_node-IsJudged ⦃env = rotating_env⦄ test_nodes key_of_esp start

reconcile_node-Records_example :
    Extends
      (NodePolicy (RecordsUnlocked ⦃env = rotating_env⦄) AnyRequest AnyService AnySlice)
      []
      (reconcile_node ⦃env = rotating_env⦄ test_nodes key_of_esp start).1.history
reconcile_node-Records_example =
    reconcile_node-Records ⦃env = rotating_env⦄ test_nodes key_of_esp start

reconcile_node-MaySend_example :
    Extends
      (NodePolicy AnyStatus (MaySend ⦃env = rotating_env⦄ test_nodes) AnyService AnySlice)
      []
      (reconcile_node ⦃env = rotating_env⦄ test_nodes key_of_esp start).1.history
reconcile_node-MaySend_example =
    reconcile_node-MaySend ⦃env = rotating_env⦄ test_nodes key_of_esp start

reconcile_node-Routes_example :
    Extends
      (NodePolicy AnyStatus AnyRequest
        (λ s.
          (node : McuNode) × (IsPatched ⦃env = rotating_env⦄ node
            × Exposes ⦃env = rotating_env⦄ node s))
        (λ e.
          (node : McuNode) × (IsPatched ⦃env = rotating_env⦄ node
            × Routes ⦃env = rotating_env⦄ node e)))
      []
      (reconcile_node ⦃env = rotating_env⦄ test_nodes key_of_esp start).1.history
reconcile_node-Routes_example =
    reconcile_node-Routes ⦃env = rotating_env⦄ test_nodes key_of_esp start

abbrev rotating_secret : Secret
rotating_secret = record {
  key = record { name = "esp-1-token"; namespace = "lab" };
  secret_data = rotating_data;
}

-- the Secret before and after it is patched
abbrev secret_at : History → ObjectKey → Result Secret
secret_at [] k = ok rotating_secret
secret_at (c ∷ h) k = ok (without_previous rotating_secret)

abbrev ended_env : Env
ended_env = record rotating_env { get_secret = secret_at }

abbrev token_key : ObjectKey
token_key = key_of_ref own_node own_node.spec.token_ref

abbrev next_day : World
next_day = record start { history = clock_read ∷ [] }

of_node-ends_example :
    Made
      (secret_patched rotating_secret (without_previous rotating_secret))
      (validate_token ⦃env = ended_env⦄ test_server (codes "Bearer t1") own_node start).1.history
      (of_node ⦃env = ended_env⦄ ⦃api = test_retry⦄ test_server
        (request_with (codes "Bearer t1"))
        test_heartbeat
        (ok own_node)
        start).1.history
    × (reconcile_token_rotation ⦃env = ended_env⦄ test_nodes own_node next_day
        ≡ (ok tt, record next_day { history = secret_read token_key ∷ clock_read ∷ [] }))
unfolding validate_token has_previous
of_node-ends_example =
    of_node-ends ⦃env = ended_env⦄ ⦃api = test_retry⦄ test_server (request_with (codes "Bearer t1"))
      test_heartbeat test_nodes own_node rotating_secret start next_day
      (λ e. let f = (eq_iff "esp-1-token" "").1 e in cc) refl refl refl

abbrev deleted_node : McuNode
deleted_node = record test_node {
  finalizers = "embewi.io/metrics-cleanup" ∷ [];
  being_deleted = true;
}

abbrev empty_board : Board
empty_board id = none

reconcile_present-deleted_example :
    let w' = (reconcile_present ⦃env = test_env⦄ test_nodes deleted_node start).1 in
    Refines ⦃gauges = test_gauges⦄ w' (replay_op (removal "esp-1") empty_board)
    × (w'.history
        ≡ node_updated (released ⦃env = test_env⦄ deleted_node)
          ∷ (remove_node "esp-1" start).1.history)
unfolding lookup shown_series
reconcile_present-deleted_example =
    reconcile_present-deleted ⦃env = test_env⦄ ⦃gauges = test_gauges⦄ test_nodes deleted_node start
      empty_board refl refl (record { shows = λ g l. refl; tracks = λ id. refl; keyed = λ id. tt })

abbrev unsynced_heartbeat : HeartbeatPayload
unsynced_heartbeat = record test_heartbeat { reason = "clock_unsynced" }

with_readiness-unsynced_example :
    let reported = with_heartbeat ⦃env = test_env⦄ unsynced_heartbeat "10.0.0.7" 3 test_node in
    let reconciled = with_readiness ⦃env = test_env⦄ (is_expired_at 3 5) reported in
    ((reported.status.ready ≡ false) × (reconciled.status.ready ≡ true))
    × ((c : Condition) × ((test_env.conditions.find_status_condition reconciled.status.conditions
              "Ready"
            ≡ some c)
          × (c.status ≡ condition_false)))
with_readiness-unsynced_example =
    with_readiness-unsynced ⦃env = test_env⦄ unsynced_heartbeat "10.0.0.7" 3 5 test_node refl refl
      refl (omega arith)

-- a node before its first heartbeat
abbrev created_node : McuNode
created_node = record test_node {
  status = record test_node.status { ready = false; state = ""; last_heartbeat = none };
}

abbrev heard_node : McuNode
heard_node = with_heartbeat ⦃env = test_env⦄ test_heartbeat "10.0.0.7" 5 created_node

-- the API server's answers before and after the heartbeat
abbrev node_at : History → ObjectKey → Result McuNode
node_at [] k = ok heard_node
node_at (c ∷ h) k = ok created_node

abbrev reach_env : Env
reach_env = record test_env { get_node = node_at; list_nodes = λ h ns. ok (created_node ∷ []) }

abbrev heard_run : History
heard_run =
    (handle_heartbeat ⦃env = reach_env⦄ ⦃api = test_retry⦄ test_server test_request start).1.history

abbrev judged_run : History
judged_run = (reconcile_node ⦃env = reach_env⦄ test_nodes key_of_esp start).1.history

from_start : (h : History) → Extends Any [] h
from_start [] = same
from_start (c ∷ h) = more tt (from_start h)

abbrev finalized_node : McuNode
finalized_node = record heard_node { finalizers = "embewi.io/metrics-cleanup" ∷ [] }

Reach-IsSound_example :
    IsSound ⦃env = reach_env⦄ (with_readiness ⦃env = reach_env⦄ false finalized_node)
unfolding handle_heartbeat reconcile_node find_by_type set_by_type with_heartbeat
    update_from_heartbeat has_previous
Reach-IsSound_example =
    Reach-IsSound ⦃env = reach_env⦄ ⦃api = test_retry⦄ {n = created_node}
      (record { not_ready = refl; no_state = refl; no_condition = refl })
      (next
        (next
          (next here (
            heard created_node heard_node test_server test_request start (record {
              later = take 8 heard_run;
              before = drop 9 heard_run;
              reached = from_start _;
              final_is = refl;
            })))
          (finalized heard_node finalized_node test_nodes key_of_esp start (record {
            later = take 6 judged_run;
            before = drop 7 judged_run;
            reached = from_start _;
            final_is = refl;
          })))
        (judged finalized_node _ test_nodes key_of_esp start (record {
          later = take 4 judged_run;
          before = drop 5 judged_run;
          reached = from_start _;
          final_is = refl;
        })))
