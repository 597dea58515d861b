-- ===== src/Lib.antt =====
-- A model of embewi-core, the Kubernetes controller that updates firmware on ESP devices and follows
-- their state, with the theorems that make it correct.
--
-- The program. A McuDeployment asks for a firmware image on a device, a McuNode. The controller of
-- McuDeployments (internal/controller/mcudeployment_controller.go) takes a deployment through the
-- phases Binding, Pulling, Preparing, Writing, Activating, Confirming and Deployed, one phase in a
-- reconciliation. In Pulling it reads the image's manifest with the OCI client
-- (internal/oci/client.go); in Writing it passes the blob, whose octets are hashed on the way, to the
-- client of the device (internal/agent/client.go), which sends it in ranges; the other phases talk to
-- the device and write the deployment's status. The devices report to the heartbeat server
-- (internal/heartbeat/server.go), which writes the McuNode's status and the gauges
-- (internal/metrics/metrics.go) and relays logs. The controller of McuNodes
-- (internal/controller/mcunode_controller.go) lets a node's readiness expire, keeps its Service and
-- EndpointSlice, and pushes tokens, certificates and reboots. cmd/controller/main.go starts them all.
--
-- The parts.
--   Base: lists measured by native numbers, Go maps as association lists, Go errors with errors.Is
--     and errors.As, int64 as ℤ, ASCII octets.
--   Api: the types of api/v1alpha1, and in Kube the fields of Services and EndpointSlices that are
--     used. Condition helpers of apimachinery are an interface with one law, that a condition is kept
--     by its type.
--   Agent: internal/agent/client.go. Protocol has the bodies, Http `doWith` and `do`, Client the calls
--     of one request, Chunk `putOTAChunk`, Write `OTAWrite`, Version and Negotiation
--     `NegotiateAPIVersion`.
--   Oci: internal/oci/client.go. Reference has `parseRef` and `scheme`, Registry `ResolveFirmware`,
--     `verifySignature`, `getManifest` and `StreamBlob`, Blob `BlobStream` and io.ReadFull, Options
--     `New` with its options.
--   World: actions. Env is everything outside (API server, devices, registries, clock, JSON, SHA-256,
--     Ed25519), each answer a function of all calls made so far, so an answer may change from call to
--     call. Call has the calls, Action the monad that records them, Emits which calls an action makes,
--     Policy what a reconciliation of a deployment may write and send, Made that a run makes a call,
--     and Retry the interface of retry.RetryOnConflict.
--   Deployment: the controller of McuDeployments. Conditions, Phase (`setPhase`, `fail`), Binding,
--     Device (`nodeClient`, `nodeToken`, `persistNodeInfo`), Config, Ota (Pulling to Activating),
--     Confirm, Deployed and Reconcile follow the source's functions; a function is cut into one
--     definition per early return, so `phase_writing` is followed by `write_with`, `write_stream` and
--     `on_written`. Calls, ConfigFits, Fits, WriteFits and Watch go once through these definitions for
--     any policy; Uniform, Lifecycle, Readiness, Identity, Sends, Confirmed and Checked are the
--     policies. Wanted and Bound are about Binding, Settled about the configuration push, Wakes about
--     the watches.
--   Metrics: internal/metrics/metrics.go. Series is the interface of the gauges, by which Board reads
--     off a history which series are shown; Heard, Refines and Race are about those.
--   Heartbeat: internal/heartbeat/server.go. Payload, Request and Nodes (`findNode`, `NodeKey`), Tokens
--     (`validateToken`), Status (what a heartbeat makes of a status), Server (`handleHeartbeat`), Logs
--     (`handleLog`, `handleLogWS`). Guarded, Attempts and Handled go once through
--     `handleHeartbeat` for any policy; Authentic, Gate, Reports, Refused, Matched, Relay, Posted,
--     Duplicates and Agreement are about these.
--   NodeController: internal/controller/mcunode_controller.go. Readiness, Endpoints, Secrets, Tokens,
--     Tls, Reboot and Reconcile follow the source; Calls, Judged, Exposed, Rotation, Certificate and
--     Restart go through them for any policy, Allowed and Kept join them, Answers says which answers
--     a step passes on, Writes and Sound what a status written means, Interleaved runs heartbeats and
--     reconciliations in any order, Served and Unsynced are about a heartbeat and the reconciliation
--     after it, and Deletion about the last one.
--   Command: how main reads the environment variables and gives its configuration to the parts.
--   Tests: concrete environments, runs on them, and an instance of each result.
--
-- Bounds and fuel. The loop of `OTAWrite` has the size as its fuel, since a round sends at least one
-- octet. `putOTAChunk` has its three attempts. A blob is the list of the pieces in which it arrives,
-- and io.ReadFull recurs on them; a WebSocket is the list of the frames that it carries. int64 is ℤ,
-- so sizes within a range of the largest int64 are out of scope. Floating point is kept in
-- thousandths. A few texts of errors leave out an argument that is formatted (the versions in the
-- error of `NegotiateAPIVersion`, the reference and the body in those of `getManifest`); no test of
-- the code reads them. The entries of a `range` over a Go map come in any order, which here is the
-- order of the association list.
--
-- Not modelled. Generated deep copies; logging other than the relayed log entries; TLS settings and
-- timeouts of the http.Clients, which the environment decides by its answers; the encoding of JSON
-- requests, which are kept as the values that are encoded; in internal/heartbeat/server.go the wiring
-- of net/http (`New`, `Start`, `Handler`) and the pings and deadlines of a WebSocket; the registration
-- of gauges and of controllers; in cmd/controller/main.go the flags and the calls of the manager.
pub mod Base
pub mod Api
pub mod Agent
pub mod Oci
pub mod World
pub mod Metrics
pub mod Heartbeat
pub mod NodeController
pub mod Deployment
pub mod Command
mod Tests
