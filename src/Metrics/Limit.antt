-- ===== src/Metrics/Limit.antt =====
-- internal/metrics/metrics.go and internal/runner/runner.go: the registry as the sink of the runner.
use network_mesh_exporter.Base.{ℕ, ◌≡◌, refl, ◌∙◌, List, some, arith, inr}
use network_mesh_exporter.Metrics.{Vecs, Registry, new_registry, observe, admit, forget, sink}
use network_mesh_exporter.Metrics.Series.{IsBounded, observe-IsBounded, forget-IsBounded}
use network_mesh_exporter.Probe.{Cycle}
use network_mesh_exporter.Probe.Window.{Float64, Stats}
use network_mesh_exporter.Runner.{Task}
use network_mesh_exporter.Runner.Apply.{Deps, Runner, forget_task}
use network_mesh_exporter.Runner.Cycle.{publish}
use network_mesh_exporter.Runner.States.{Reachable, Reachable-sink}

module _ {V : Type 0} (lib : Vecs V) (deps : Deps (Registry V))
    (exports : deps.metrics ≡ some (sink lib)) where
  -- The registry within its limit, which nobody changes.
  abbrev Within : ℕ → Registry V → Type 0
  Within max s = IsBounded s × (s.max_series ≡ max)

  observe-max_series :
      (t : Task) (c : Cycle) (st : Stats) (s : Registry V)
      → (observe lib t c st s).max_series ≡ s.max_series
  unfolding observe admit
  observe-max_series t c st s = ground arith

  forget_task-Within :
      (max : ℕ) (t : Task) (s : Registry V) → Within max s → Within max (forget_task deps t s)
  unfolding forget_task sink forget
  forget_task-Within max t s h = rw exports (forget-IsBounded lib t s h.0, h.1)

  publish-Within :
      (fl : Float64) (qs : List ℕ) (max : ℕ) (t : Task) (c : Cycle) (st : Stats) (s : Registry V)
      → Within max s
      → Within max (publish deps fl qs t c st s)
  unfolding publish sink
  publish-Within fl qs max t c st s h =
      rw exports (observe-IsBounded lib t c st s h.0, observe-max_series t c st s ∙ h.1)

  -- Whatever tables are applied and whatever cycles the running tasks complete, the registry counts no
  -- label set twice and never more of them than the limit, where the limit is positive, and the gauge
  -- of the number of series shows how many there are.
  pub Reachable-Within :
      (fl : Float64) (qs : List ℕ) (max : ℕ) (v : V) (r : Runner (Registry V))
      → Reachable deps fl qs (new_registry max v) r
      → IsBounded r.sink × (r.sink.max_series ≡ max)
  unfolding new_registry
  Reachable-Within fl qs max v r h =
      Reachable-sink deps fl qs (Within max) (forget_task-Within max) (publish-Within fl qs max) r
        (record { limited = inr (omega arith); once = tt; counted = refl }, refl) h
