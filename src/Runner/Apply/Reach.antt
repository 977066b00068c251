-- ===== src/Runner/Apply/Reach.antt =====
-- internal/runner/runner.go: the sets of tasks that a runner goes through.
use network_mesh_exporter.Base.{
  ◌≡◌, ◌≢◌, refl, ◌∙◌, true, List, [], ◌∷◌, ◌++◌, map, none, if◌then◌else◌, arith, All, Bool-cases,
  Option-cases, inl, inr,
}
use network_mesh_exporter.Config.{Config}
use network_mesh_exporter.Inventory.{Snapshot}
use network_mesh_exporter.Runner.{Task, TaskKey, find, desired}
use network_mesh_exporter.Runner.Apply.{
  Deps, Runner, Plan, plan_running, plan_new, stop_task, start_task, stop_all, start_all,
  apply_want, apply, shut_down,
}
use network_mesh_exporter.Runner.Apply.Keys.{DistinctKeys, All-drop_task, drop_task-DistinctKeys}
use network_mesh_exporter.Runner.Apply.Steps.{has_key, find-stop_all, stop_all-ready}
use network_mesh_exporter.State.{State}

module _ {S : Type 0} (deps : Deps S) where
  -- One task for each key, and a prober for every task.
  pub record IsSound (r : Runner S) : Type 0 where
    pub distinct : DistinctKeys r.tasks
    pub probed : All (λ (t : Task). deps.has_prober t.key.kind ≡ true) r.tasks

  stop_task-IsSound : (k : TaskKey) (r : Runner S) → IsSound r → IsSound (stop_task deps k r)
  unfolding stop_task
  stop_task-IsSound k r h = elim (Option-cases (find k r.tasks)) [
    | inl e ↦ rw (e, stop_task) h
    | inr (t, e) ↦
        rw (e, stop_task)
          (record {
            distinct = drop_task-DistinctKeys k r.tasks h.distinct;
            probed =
                All-drop_task (λ (t : Task). deps.has_prober t.key.kind ≡ true) k r.tasks h.probed;
          })
  ]

  pub stop_all-IsSound :
      (ks : List TaskKey) (r : Runner S) → IsSound r → IsSound (stop_all deps ks r)
  unfolding stop_all
  stop_all-IsSound [] r h = h
  stop_all-IsSound (k ∷ ks) r h = stop_all-IsSound ks (stop_task deps k r) (stop_task-IsSound k r h)

  find-none_apart :
      (k : TaskKey) (ts : List Task) → find k ts ≡ none → All (λ (u : Task). k ≢ u.key) ts
  unfolding find
  find-none_apart k [] e = tt
  find-none_apart k (t ∷ ts) e = ground (arith, find-none_apart k ts)

  start_task-IsSound : (t : Task) (r : Runner S) → IsSound r → IsSound (start_task deps t r)
  unfolding start_task
  start_task-IsSound t r h = elim (Option-cases (find t.key r.tasks)) [
    | inr (u, e) ↦ ground (arith, h, e)
    | inl e ↦ elim (Bool-cases (deps.has_prober t.key.kind)) [
      | inr p ↦ ground (arith, h, e, p)
      | inl p ↦
          let grown : IsSound
              (record r { tasks = record t { started_at = deps.clock t.key } ∷ r.tasks }) =
            record {
              distinct = (find-none_apart t.key r.tasks e, h.distinct);
              probed = (p, h.probed);
            } in
          ground (arith, h, e, p, grown)
    ]
  ]

  start_task-ready : (t : Task) (r : Runner S) → (start_task deps t r).ready ≡ r.ready
  unfolding start_task
  start_task-ready t r = ground arith

  start_all-ready : (ts : List Task) (r : Runner S) → (start_all deps ts r).ready ≡ r.ready
  unfolding start_all
  start_all-ready [] r = refl
  start_all-ready (t ∷ ts) r = start_all-ready ts (start_task deps t r) ∙ start_task-ready t r

  start_all-IsSound : (ts : List Task) (r : Runner S) → IsSound r → IsSound (start_all deps ts r)
  unfolding start_all
  start_all-IsSound [] r h = h
  start_all-IsSound (t ∷ ts) r h =
      start_all-IsSound ts (start_task deps t r) (start_task-IsSound t r h)

  module _ {κ} (P : TaskKey → Type κ) where
    plan_running-All :
        (want ts : List Task)
        → All (λ (t : Task). P t.key) ts
        → All (λ (t : Task). P t.key) (plan_running deps.net want ts).tasks
    unfolding plan_running
    plan_running-All want [] h = tt
    plan_running-All want (t ∷ ts) h = ground (arith, h.0, plan_running-All want ts h.1)

  plan_running-DistinctKeys :
      (want ts : List Task) → DistinctKeys ts → DistinctKeys (plan_running deps.net want ts).tasks
  unfolding plan_running
  plan_running-DistinctKeys want [] h = tt
  plan_running-DistinctKeys want (t ∷ ts) h =
      ground (
        arith,
        plan_running-All (λ k. t.key ≢ k) want ts h.0,
        plan_running-DistinctKeys want ts h.1,
      )

  pub apply_want-IsSound :
      (want : List Task) (r : Runner S) → IsSound r → IsSound (apply_want deps want r)
  unfolding apply_want
  apply_want-IsSound want r h =
      let plan : Plan = plan_running deps.net want r.tasks in
      let planned : IsSound (record r { tasks = plan.tasks }) = record {
        distinct = plan_running-DistinctKeys want r.tasks h.distinct;
        probed = plan_running-All (λ k. deps.has_prober k.kind ≡ true) want r.tasks h.probed;
      } in
      start_all-IsSound (plan.to_start ++ plan_new r.tasks want)
        (stop_all deps plan.to_stop (record r { tasks = plan.tasks }))
        (stop_all-IsSound plan.to_stop (record r { tasks = plan.tasks }) planned)

  pub apply-IsSound :
      (cfg : Config) (st : State) (snap : Snapshot) (r : Runner S)
      → IsSound r
      → IsSound (apply deps cfg st snap r)
  unfolding apply
  apply-IsSound cfg st snap r h =
      ground (arith, h, apply_want-IsSound (desired deps.node_id cfg.probes snap st) r h)

  pub apply_want-ready :
      (want : List Task) (r : Runner S) → r.ready ≡ true → (apply_want deps want r).ready ≡ true
  unfolding apply_want
  apply_want-ready want r e =
      let plan : Plan = plan_running deps.net want r.tasks in
      start_all-ready (plan.to_start ++ plan_new r.tasks want)
        (stop_all deps plan.to_stop (record r { tasks = plan.tasks }))
      ∙ (stop_all-ready deps plan.to_stop (record r { tasks = plan.tasks }) ∙ e)

  find_all :
      (ts us : List Task)
      → ((k : TaskKey) → (if has_key k (map (λ t. t.key) ts) then none else find k ts) ≡ none)
  unfolding find
  find_all [] us k = refl
  find_all (t ∷ ts) us k = ground (arith, find_all ts us k)

  find_empty : (ts : List Task) → ((k : TaskKey) → find k ts ≡ none) → ts ≡ []
  unfolding find
  find_empty [] h = refl
  find_empty (t ∷ ts) h = let e = h t.key in ground arith

  -- When `Run` ends no task is left.
  pub shut_down-tasks : (r : Runner S) → (shut_down deps r).tasks ≡ []
  unfolding shut_down
  shut_down-tasks r =
      find_empty (stop_all deps (map (λ t. t.key) r.tasks) r).tasks
        (λ k. find-stop_all deps k (map (λ t. t.key) r.tasks) r ∙ find_all r.tasks [] k)
