-- ===== src/Runner/Apply/Wants.antt =====
-- internal/runner/runner.go: the set of tasks after `Apply`.
use network_mesh_exporter.Base.{
  ℕ, ◌≡◌, refl, sym, ap, ◌∙◌, false, true, List, ◌++◌, Option, none, some, if◌then◌else◌, arith,
  Option-cases, inl, inr,
}
use network_mesh_exporter.Runner.{Task, TaskKey, Net, ident, find}
use network_mesh_exporter.Runner.Apply.{
  Deps, Runner, Plan, is_changed, refresh, plan_running, plan_new, stop_all, apply_want,
}
use network_mesh_exporter.Runner.Apply.Keys.{DistinctKeys, find-append}
use network_mesh_exporter.Runner.Apply.Steps.{
  plan_running-none, find-plan_running, find-plan_new, stop_all-ready, find-stop_all,
  find-start_all, launched,
}
use network_mesh_exporter.Runner.Apply.Reach.{IsSound, apply_want-IsSound, apply_want-ready}

is_changed-launch :
    (net : Net) (nt : Task) (at : ℕ) → is_changed net nt (record nt { started_at = at }) ≡ false
unfolding ident
is_changed-launch net nt at = ground arith

is_changed-refresh :
    (net : Net) (nt cur : Task) → is_changed net nt (refresh nt cur) ≡ is_changed net nt cur
unfolding ident
is_changed-refresh net nt cur = refl

module _ {S : Type 0} (deps : Deps S) where
  -- What `Apply` promises of one key, of the task that is wanted there and of the one that runs.
  unfoldable pub next_task : Option Task → Option Task → Option Task
  next_task none cur = none
  next_task (some nt) none = launched deps nt
  next_task (some nt) (some cur) =
      if is_changed deps.net nt cur then launched deps nt else some (refresh nt cur)

  -- After `Apply`, on a runner that is ready and has one task for each key, the task at any key is the
  -- one that is promised: none where none is wanted; the running one with the class and the rank of the
  -- one that is wanted where both measure the same thing, so with its window and start time; and
  -- otherwise the one that is wanted, started now, or none where its kind has no prober.
  pub apply_want-next_task :
      (k : TaskKey) (want : List Task) (r : Runner S)
      → r.ready ≡ true
      → DistinctKeys r.tasks
      → find k (apply_want deps want r).tasks ≡ next_task (find k want) (find k r.tasks)
  unfolding apply_want next_task
  apply_want-next_task k want r e h =
      let plan : Plan = plan_running deps.net want r.tasks in
      let planned : Runner S = record r { tasks = plan.tasks } in
      let stopped : Runner S = stop_all deps plan.to_stop planned in
      let started =
        find-start_all deps k (plan.to_start ++ plan_new r.tasks want) stopped
          (stop_all-ready deps plan.to_stop planned ∙ e) in
      let left = find-stop_all deps k plan.to_stop planned in
      let new = find-append k plan.to_start (plan_new r.tasks want) in
      let fresh = find-plan_new deps.net want k r.tasks want in
      elim (Option-cases (find k r.tasks)) [
        | inl none_runs ↦ ground (
          arith,
          none_runs,
          started,
          left,
          new,
          fresh,
          plan_running-none deps.net want k r.tasks none_runs,
        )
        | inr (cur, runs) ↦ ground (
          arith,
          runs,
          started,
          left,
          new,
          fresh,
          find-plan_running deps.net want k {cur = cur} r.tasks h runs,
        )
      ]

  -- The task that a launch or a refresh leaves is the task that a second round leaves.
  next_task-next_task :
      (want cur : Option Task) → next_task want (next_task want cur) ≡ next_task want cur
  unfolding next_task
  next_task-next_task none cur = refl
  next_task-next_task (some nt) none =
      ground (arith, is_changed-launch deps.net nt (deps.clock nt.key))
  next_task-next_task (some nt) (some cur) =
      ground (
        arith,
        is_changed-launch deps.net nt (deps.clock nt.key),
        is_changed-refresh deps.net nt cur,
      )

  -- A second `Apply` of the same tasks leaves the task at every key as the first one left it, where the
  -- runner is ready, has one task for each key and a prober for each task.
  pub apply_want-apply_want :
      (k : TaskKey) (want : List Task) (r : Runner S)
      → r.ready ≡ true
      → IsSound deps r
      → find k (apply_want deps want (apply_want deps want r)).tasks
        ≡ find k (apply_want deps want r).tasks
  apply_want-apply_want k want r e h =
      let again =
        apply_want-next_task k want (apply_want deps want r) (apply_want-ready deps want r e)
          (apply_want-IsSound deps want r h).distinct in
      let once = apply_want-next_task k want r e h.distinct in
      again
      ∙ (ap (next_task (find k want)) once
          ∙ (next_task-next_task (find k want) (find k r.tasks) ∙ sym once))
