-- ===== src/Tests/Writers.antt =====
-- Examples on the debounced writes of internal/state/store.go.
use network_mesh_exporter.Base.{ℕ, ◌+◌, ◌≡◌, ◌⊎◌, refl, true, false, none, some, arith}
use network_mesh_exporter.Base.Int.{pos}
use network_mesh_exporter.State.Store.{Store}
use network_mesh_exporter.State.Writer.{
  Writer, kicked, put, start, Reachable, started, stepped, updates, kicks,
}
use network_mesh_exporter.State.Writer.Bounded.{IsDue, Reachable-IsDue}
use network_mesh_exporter.Tests.{table}

abbrev idle_store : Store
idle_store = record {
  cur = table;
  dirty = false;
  first_dirty = 0;
  writes = 0;
  failures = 0;
  disk = none;
}

-- A change at the time 10.
abbrev changed_writer : Writer
changed_writer = put 10 table (start (pos 5) (pos 20) idle_store)

-- The timer that is set for it.
abbrev armed_writer : Writer
armed_writer = kicked 11 changed_writer

armed : Reachable (pos 5) (pos 20) 11 10 armed_writer
unfolding put
armed =
    stepped
      (stepped (started 1 idle_store (omega arith) refl refl)
        (updates 1 10 0 table (start (pos 5) (pos 20) idle_store) (omega arith)))
      (kicks 10 11 10 changed_writer (omega arith) refl)

Reachable-IsDue_example :
    (armed_writer.kick ≡ true)
    ⊎ ((d : ℕ) × (armed_writer.timer ≡ some d) × IsDue (10 + armed_writer.max_delay) 11 d)
Reachable-IsDue_example = Reachable-IsDue armed (omega arith)
