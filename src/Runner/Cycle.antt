-- ===== src/Runner/Cycle.antt =====
-- internal/runner/runner.go: `runCycle`, which measures once and publishes the result. The prober is a
-- parameter: what it returned, a cycle and an error.
use network_mesh_exporter.Base.{
  ℕ, false, true, List, [], ◌∷◌, Option, none, some, if◌then◌else◌, eqb,
}
use network_mesh_exporter.Base.Str.{Str}
use network_mesh_exporter.Health.Tracker.{Tracker, record_probe, record_resolve}
use network_mesh_exporter.PingProto.{err_resolve}
use network_mesh_exporter.Probe.{Cycle, Failure, classify, is_ok}
use network_mesh_exporter.Probe.Window.{Float64, Stats, add, stats, class_eqb}
use network_mesh_exporter.Runner.{Task, same_key}
use network_mesh_exporter.Runner.Apply.{Deps, Runner}

-- The cycle with the error of the prober and a start time.
unfoldable pub completed : ℕ → Cycle → Option Failure → Cycle
completed now c e =
    let failed : Cycle = elim e [
      | none ↦ c
      | some f ↦ record c { err = some f; err_class = classify (some f) }
    ] in
    if eqb failed.started_at 0 then record failed { started_at = now } else failed

-- The outcome for the destination in the tracker.
unfoldable pub infer : ℕ → Str → Cycle → Tracker → Tracker
infer now id c t =
    let probed = record_probe now id (is_ok c) t in
    if class_eqb c.err_class err_resolve
    then record_resolve now id false probed
    else if is_ok c
    then record_resolve now id true probed
    else probed

-- The task that has the key of `t` replaced by `t`: the window is shared by its pointer.
unfoldable pub update : Task → List Task → List Task
update t [] = []
update t (u ∷ us) = let rest = update t us in if same_key t.key u.key then t ∷ us else u ∷ rest

module _ {S : Type 0} (deps : Deps S) (fl : Float64) (percentiles : List ℕ) where
  unfoldable pub publish : Task → Cycle → Stats → S → S
  publish t c st s = elim deps.metrics [ none ↦ s | some m ↦ m.observe t c st s ]

  -- At the time `now`, with the window and the tracker that are left, the tracker where there is one.
  unfoldable pub run_cycle :
      ℕ → Task → Cycle → Option Failure → Option Tracker → Runner S → Option Tracker × Runner S
  unfolding publish
  run_cycle now t c e health r =
      let c1 = completed now c e in
      let out = stats fl now percentiles (add now c1 t.window) in
      let measured = record t { window = out.1 } in
      (
        elim health [ none ↦ none | some h ↦ some (infer now t.dst.host_id c1 h) ],
        record r { tasks = update measured r.tasks; sink = publish measured c1 out.0 r.sink },
      )
