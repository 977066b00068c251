-- ===== src/Tests/Loops.antt =====
-- Examples on the select loop of internal/reconcile/loop.go.
use network_mesh_exporter.Base.{refl, arith}
use network_mesh_exporter.Reconcile.Loop.Wakes.{
  Reads, Waits, Reachable, by_provider, by_config, begin, new_waits, request, receive, arm_deadline,
  run_now, started, stepped, requests, receives,
}
use network_mesh_exporter.Reconcile.Loop.Wakes.Served.{IsServed, Reachable-IsServed}
use network_mesh_exporter.Tests.{env, snapshot}
use network_mesh_exporter.Tests.Reconciles.{config, loop}

abbrev reads : Reads
reads = record { now = 50; cfg = config; generation = 7; snap = snapshot }

abbrev begun : Waits
begun = begin env reads (new_waits loop)

-- Two requests, of which the channel holds the first.
abbrev twice : Waits
twice = request by_config (request by_provider begun)

twice_reachable : Reachable env (record { made = 2; taken = 0; clock = 52; latest = 52 }) twice
twice_reachable =
    stepped
      (stepped (started loop reads) (
        requests (record { made = 0; taken = 0; clock = 50; latest = 0 }) begun by_provider 51
          (omega arith)))
      (requests (record { made = 1; taken = 0; clock = 51; latest = 51 })
        (request by_provider begun) by_config 52 (omega arith))

-- The run that takes the first from the channel.
abbrev later : Reads
later = record reads { now = 60 }

served_reachable :
    Reachable env
      (record { made = 2; taken = 1; clock = 60; latest = 52 })
      (receive env by_provider later twice)
unfolding request begin arm_deadline run_now new_waits
served_reachable = stepped twice_reachable (
    receives (record { made = 2; taken = 0; clock = 52; latest = 52 }) twice by_provider later
      (omega arith) refl)

Reachable-IsServed_example :
    IsServed
      (record { made = 2; taken = 1; clock = 60; latest = 52 })
      (receive env by_provider later twice)
Reachable-IsServed_example = Reachable-IsServed served_reachable
