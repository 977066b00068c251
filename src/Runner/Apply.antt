-- ===== src/Runner/Apply.antt =====
-- internal/runner/runner.go: `Apply`, `startTask` and `stopTask`, and the end of `Run`.
pub mod Keys
pub mod Wants
pub mod Steps
pub mod Reach
use network_mesh_exporter.Base.{
  ℕ, Bool, false, true, not, ◌||◌, List, [], ◌∷◌, ◌++◌, Option, none, some, if◌then◌else◌, map,
}
use network_mesh_exporter.Base.Str.{Str, ◌==◌}
use network_mesh_exporter.Config.{Config}
use network_mesh_exporter.Inventory.{Snapshot}
use network_mesh_exporter.Probe.{Kind, Cycle}
use network_mesh_exporter.Probe.Window.{Stats}
use network_mesh_exporter.Runner.{Task, TaskKey, Net, ident, same_params, find, drop_task, desired}
use network_mesh_exporter.State.{State}

-- `Sink`, over what the sink stores.
pub record Sink (S : Type 0) : Type 0 where
  pub observe : Task → Cycle → Stats → S → S
  pub forget : Task → S → S

-- `Deps`, less the configuration and the tracker; a kind has a prober or not. `clock` is what
-- `time.Now` says when the task of a key is started.
pub record Deps (S : Type 0) : Type 0 where
  pub node_id : Str
  pub has_prober : Kind → Bool
  pub metrics : Option (Sink S)
  pub net : Net
  pub clock : TaskKey → ℕ

-- `ready` where the context is set.
pub record Runner (S : Type 0) : Type 0 where
  pub ready : Bool
  pub tasks : List Task
  pub sink : S

-- The variables of `Apply`.
pub record Plan : Type 0 where
  pub tasks : List Task
  pub to_stop : List TaskKey
  pub to_start : List Task

-- The task measures another thing than `cur` does.
abbrev pub is_changed : Net → Task → Task → Bool
is_changed net nt cur =
    not (ident net nt == ident net cur) || not (same_params nt.params cur.params)

abbrev pub refresh : Task → Task → Task
refresh nt cur = record cur { class = nt.class; rank = nt.rank }

-- The loop over the running tasks.
unfoldable pub plan_running : Net → List Task → List Task → Plan
plan_running net want [] = record { tasks = []; to_stop = []; to_start = [] }
plan_running net want (cur ∷ ts) =
    let rest = plan_running net want ts in
    elim (find cur.key want) [
      | none ↦ record rest { tasks = cur ∷ rest.tasks; to_stop = cur.key ∷ rest.to_stop }
      | some nt ↦
          if is_changed net nt cur
          then record {
            tasks = cur ∷ rest.tasks;
            to_stop = cur.key ∷ rest.to_stop;
            to_start = nt ∷ rest.to_start;
          }
          else record rest { tasks = refresh nt cur ∷ rest.tasks }
    ]

-- The loop over the tasks that are wanted.
unfoldable pub plan_new : List Task → List Task → List Task
plan_new running [] = []
plan_new running (nt ∷ nts) =
    let rest = plan_new running nts in
    elim (find nt.key running) [ none ↦ nt ∷ rest | some _ ↦ rest ]

module _ {S : Type 0} (deps : Deps S) where
  unfoldable pub forget_task : Task → S → S
  forget_task t s = elim deps.metrics [ none ↦ s | some m ↦ m.forget t s ]

  unfoldable pub stop_task : TaskKey → Runner S → Runner S
  unfolding forget_task
  stop_task k r = elim (find k r.tasks) [
    | none ↦ r
    | some t ↦ record r { tasks = drop_task k r.tasks; sink = forget_task t r.sink }
  ]

  unfoldable pub start_task : Task → Runner S → Runner S
  start_task t r = if not r.ready then r else elim (find t.key r.tasks) [
    | some _ ↦ r
    | none ↦
        if deps.has_prober t.key.kind
        then record r { tasks = record t { started_at = deps.clock t.key } ∷ r.tasks }
        else r
  ]

  unfoldable pub stop_all : List TaskKey → Runner S → Runner S
  unfolding stop_task
  stop_all [] r = r
  stop_all (k ∷ ks) r = stop_all ks (stop_task k r)

  unfoldable pub start_all : List Task → Runner S → Runner S
  unfolding start_task
  start_all [] r = r
  start_all (t ∷ ts) r = start_all ts (start_task t r)

  unfoldable pub apply_want : List Task → Runner S → Runner S
  unfolding stop_all start_all
  apply_want want r =
      let plan = plan_running deps.net want r.tasks in
      start_all (plan.to_start ++ plan_new r.tasks want)
        (stop_all plan.to_stop (record r { tasks = plan.tasks }))

  unfoldable pub apply : Config → State → Snapshot → Runner S → Runner S
  unfolding apply_want
  apply cfg st snap r =
      if r.ready then apply_want (desired deps.node_id cfg.probes snap st) r else r

  -- `Run`, once the context is cancelled.
  unfoldable pub shut_down : Runner S → Runner S
  unfolding stop_all
  shut_down r = stop_all (map (λ t. t.key) r.tasks) r
