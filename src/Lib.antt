-- ===== src/Lib.antt =====
-- A model of the assignment core of the network mesh exporter, a daemon that places hosts into the
-- slots of zone pairings and probes between them.
--
-- The parts. Providers replace their sets of host records in the inventory store, which merges them
-- into a snapshot. The zone rule gives each host a zone. The zones are paired, under a filter and a
-- limit. Each pairing has a table of slots with two sides, one for each zone: anchor slots, which
-- all hold one host on a side, diverse slots, and super slots from a few hosts to many targets. The
-- health tracker says which hosts may hold a side. A reconcile takes the snapshot, the zones, the
-- eligibility and the current table to the next table and the list of changes; the loop runs it,
-- keeps the result in the state store, and hands it to the runner of the probes. The runner keeps a
-- task for each direction, kind and slot of which its node is the source; a cycle of a task goes into
-- its window, into the tracker and into the metrics. The configuration is filled in and checked before
-- the parts read it, and the provider manager starts and stops the sources that it enables.
--
-- The files:
--   Inventory: internal/inventory/inventory.go. `merge`, `build_snapshot` and `snapshot` for `merge`
--     and `Store.Snapshot`, `replace` and `remove` for the methods of those names.
--   Zone: internal/zone/zone.go. `apply`, `build`, `zone_of`; Zone/Compile for `NewRule`.
--   Pairing: internal/pairing/pairing.go. `make_key`, `split`, `new_filter`, `count`, `build`.
--   Slot: internal/slot/slot.go. `compute_layout`, `scan`, `pick`, `pick_anchor`, `pick_super`.
--   State: internal/state/state.go. State/Store: internal/state/store.go, `update` and `flush`;
--     State/Writer for the steps of `Run`.
--   Reconcile: internal/reconcile/reconcile.go. Reconcile/Diff, Resize, Validate, Super and Fill
--     hold the phases `diffPairings`, `resizeSlots`, `validateSides`, `updateSuper` and `fillSides`,
--     Reconcile/Run composes them into `reconcile`. Reconcile/Loop: internal/reconcile/loop.go,
--     `run_once` for `runOnce`; Reconcile/Loop/Wakes for the steps of `Run` with its channel of
--     triggers and its timer.
--   Health: internal/health/health.go. Each step on the record of one host; Health/Tracker lifts the
--     steps to the methods of the tracker.
--   PingProto: pkg/pingproto/proto.go, `validate` and `next`. Probe: internal/probe/probe.go;
--     Probe/Header for the payload header, Probe/Window for the rolling window, where `add`,
--     `expire` and `stats` are the methods of those names.
--     Probe/Icmp: internal/probe/icmp/client.go, the table of requests, with `read_one` for a round
--     of `readLoop`.
--   Responder: internal/responder/responder.go, `serve_packet` for a round of `serveUDP` and
--     `handle_conn`.
--   Config: the records of internal/config/config.go. Config/Validate: internal/config/load.go,
--     `normalise`, `validate` and `parse`.
--   Runner: internal/runner/runner.go, `desired`; Runner/Apply for `Apply`, `startTask` and
--     `stopTask`, over a sink; Runner/Cycle for `runCycle`; Runner/States for the steps of a runner.
--   Metrics: internal/metrics/metrics.go, `admit`, `observe` and `forget`, which fill the sink.
--   Provider: internal/provider/provider.go, `apply`, `register` and `backoff`. Provider/File:
--     internal/provider/file/file.go, `parse`, `parse_name` and `poll`. Provider/K8s:
--     internal/provider/k8s/k8s.go, `convert` and `build`. Provider/Http:
--     internal/provider/http/http.go, `fetch`, `load_cache` and `round`.
--   Base: lists measured by native numbers, byte strings, maps, sorting. Tests: examples.
--
-- How the code is modelled. A Go string is a list of bytes and the empty string is `[]`. A map is an
-- association list that a range visits in list order, or a function where it is a set or a count. A
-- time is a number of nanoseconds and 0 is the zero time. A method that changes its receiver returns
-- the new value; a phase returns the changes that the source appends to the delta. An integer is a
-- natural number where the source treats all numbers that are not positive alike, and ℤ elsewhere.
-- The parameters stand for code outside the repository: float64 arithmetic, `path.Match`, the
-- `Sprintf` of the slot fingerprint, `net.JoinHostPort`, the fingerprint and the factory of a
-- provider, the random number of a delay, the `Sprintf` of a request number, what a prober and the
-- file system yield, and in `Zone.Compile.Lib` the functions of strings, strconv, regexp and
-- sha256 that the rule compiler calls. Sorting is insertion sort, which agrees with `sort.Slice`
-- on distinct keys. All loops are structural recursion, and the scan counts the candidates that
-- are left, so no fuel is needed. A duration stays below 2 ^ 60 nanoseconds.
--
-- Not modelled: the sockets of the probers and the responder, the HTTP and the Kubernetes client,
-- the HTTP interface and the commands, which are input and output; the text of the configuration
-- and its defaults; the vectors of the metrics library; locks and the real clock; the file of the
-- state. A task or a provider that outlives the time given to it to stop is not modelled either.
pub mod Base
pub mod Inventory
pub mod Zone
pub mod Pairing
pub mod Slot
pub mod State
pub mod Reconcile
pub mod Health
pub mod PingProto
pub mod Probe
pub mod Responder
pub mod Config
pub mod Runner
pub mod Metrics
pub mod Provider
pub mod Tests
