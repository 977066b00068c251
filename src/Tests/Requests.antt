-- ===== src/Tests/Requests.antt =====
-- Examples on the requests of internal/probe/icmp/client.go.
use network_mesh_exporter.Base.{ℕ, ◌+◌, ◌≢◌, [], ◌∷◌, true, some, All}
use network_mesh_exporter.Base.Str.{Str, bytes}
use network_mesh_exporter.Probe.Icmp.{
  Client, new, connect, register, read_one, hello, Message, Reachable, created, connects, registers,
  reads, fail_all,
}
use network_mesh_exporter.Probe.Icmp.Routed.{IsRouted, Reachable-released}

-- The digit of a small number.
abbrev digit : ℕ → Str
digit n = (n + 48) ∷ []

abbrev version : Str
version = bytes "1"

abbrev greeting : Message
greeting = hello (some (record { version = version; permitted = true }))

-- A client that has sent two requests.
abbrev busy : Client
busy = register digit (register digit (read_one version greeting (connect new)).0)

busy_reachable : Reachable digit busy
busy_reachable = registers (registers (reads version greeting (connects created)))

Reachable-released_example :
    IsRouted digit busy
    × All (λ e. (fail_all (bytes "meshping exited") busy).inbox e.1 ≢ []) busy.waiting
Reachable-released_example = Reachable-released digit (bytes "meshping exited") busy_reachable
