-- ===== src/Tests/Trackers.antt =====
-- Examples on internal/health/health.go.
use network_mesh_exporter.Base.{◌≡◌, ◌↔◌, ◌⊎◌, ◌+◌, ◌<◌, ◌≤◌, true, inr, false, [], ◌∷◌, arith}
use network_mesh_exporter.Base.Str.{bytes}
use network_mesh_exporter.Health.{Status, is_eligible, unhealthy, probe_failed}
use network_mesh_exporter.Health.Steps.{recent, probe_failed-eligible_iff}
use network_mesh_exporter.Health.Tracker.{
  Tracker, new, observe, record_probe, tick, next_deadline, deadline_from, deadline_of, consider,
}
use network_mesh_exporter.Health.Tracker.Deadlines.{next_deadline-tick}
use network_mesh_exporter.Health.Tracker.Reach.{
  IsOk, Reachable, started, stepped, observed, probed, Reachable-IsOk,
}
use network_mesh_exporter.Tests.{health_config, pending_status, snapshot}

abbrev unhealthy_status : Status
unhealthy_status = record pending_status { state = unhealthy; fail_streak = 0 }

probe_failed-eligible_iff_example :
    (is_eligible (probe_failed health_config 40 unhealthy_status) ≡ true) ↔ (
      (is_eligible unhealthy_status ≡ true)
      ⊎ ((unhealthy_status.state ≡ unhealthy)
          × (unhealthy_status.fail_streak + 1 < health_config.unhealthy_after)
          × ((health_config.flap_threshold ≡ 0)
              ⊎ (recent health_config 40 unhealthy_status ≤ health_config.flap_threshold))))
probe_failed-eligible_iff_example = probe_failed-eligible_iff health_config 40 unhealthy_status

-- A tracker with one pending host, whose release time is 35.
abbrev waiting : Tracker
waiting = record { cfg = health_config; hosts = (bytes "a1", pending_status) ∷ [] }

next_deadline-tick_example : tick 20 waiting ≡ (waiting, [])
unfolding next_deadline deadline_from deadline_of consider
next_deadline-tick_example = next_deadline-tick 20 waiting (inr (omega arith))

-- A snapshot, and then a probe that fails.
abbrev probed_tracker : Tracker
probed_tracker = record_probe 9 (bytes "a1") false (observe 8 snapshot (new health_config))

probed_tracker-Reachable : Reachable probed_tracker
probed_tracker-Reachable =
    stepped (stepped (started health_config) (observed 8 snapshot (new health_config)))
      (probed 9 (bytes "a1") false (observe 8 snapshot (new health_config)) (λ e. ground arith))

Reachable-IsOk_example : IsOk probed_tracker
Reachable-IsOk_example = Reachable-IsOk probed_tracker-Reachable
