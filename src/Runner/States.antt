-- ===== src/Runner/States.antt =====
-- internal/runner/runner.go: the states of a runner, whose steps are tables that are applied, cycles of
-- running tasks and the start and the end of `Run`. A task that outlives the 30 seconds of `stopTask`
-- is not among them.
use network_mesh_exporter.Base.{
  ℕ, ◌≡◌, ◌≢◌, refl, sym, ap, subst, ◌∙◌, false, true, List, [], ◌∷◌, ◌++◌, map, Option, some,
  if◌then◌else◌, arith, All, Bool-cases, Option-cases, inl, inr,
}
use network_mesh_exporter.Config.{Config}
use network_mesh_exporter.Health.Tracker.{Tracker}
use network_mesh_exporter.Inventory.{Snapshot}
use network_mesh_exporter.Probe.{Cycle, Failure}
use network_mesh_exporter.Probe.Window.{Float64, Stats, stats, add}
use network_mesh_exporter.Runner.{Task, TaskKey, same_key, find, desired}
use network_mesh_exporter.Runner.Apply.{
  Deps, Runner, Plan, plan_running, plan_new, forget_task, stop_task, start_task, stop_all,
  start_all, apply_want, apply, shut_down,
}
use network_mesh_exporter.Runner.Apply.Keys.{DistinctKeys, find-key, same_key-eq}
use network_mesh_exporter.Runner.Apply.Reach.{IsSound, apply-IsSound, stop_all-IsSound}
use network_mesh_exporter.Runner.Cycle.{completed, update, publish, run_cycle}
use network_mesh_exporter.State.{State}

-- The keys stay when a task is updated.
update-All {κ} :
    (P : TaskKey → Type κ) (t : Task) (ts : List Task)
    → All (λ (u : Task). P u.key) ts
    → All (λ (u : Task). P u.key) (update t ts)
unfolding update
update-All P t [] h = tt
update-All P t (u ∷ us) h = elim (Bool-cases (same_key t.key u.key)) [
  | inl e ↦ rw e (subst P (sym (same_key-eq t.key u.key e)) h.0, h.1)
  | inr e ↦ rw e (h.0, update-All P t us h.1)
]

update-DistinctKeys : (t : Task) (ts : List Task) → DistinctKeys ts → DistinctKeys (update t ts)
unfolding update
update-DistinctKeys t [] h = tt
update-DistinctKeys t (u ∷ us) h = elim (Bool-cases (same_key t.key u.key)) [
  | inl e ↦
      rw e
        (subst (λ k. All (λ (v : Task). k ≢ v.key) us) (sym (same_key-eq t.key u.key e)) h.0, h.1)
  | inr e ↦ rw e (update-All (λ k. u.key ≢ k) t us h.0, update-DistinctKeys t us h.1)
]

module _ {S : Type 0} (deps : Deps S) (fl : Float64) (percentiles : List ℕ) where
  run_cycle-IsSound :
      (now : ℕ) (t : Task) (c : Cycle) (e : Option Failure) (h : Option Tracker) (r : Runner S)
      → IsSound deps r
      → IsSound deps ((run_cycle deps fl percentiles now t c e h r).1)
  unfolding run_cycle
  run_cycle-IsSound now t c e h r sound = record {
    distinct = update-DistinctKeys _ r.tasks sound.distinct;
    probed = update-All (λ k. deps.has_prober k.kind ≡ true) _ r.tasks sound.probed;
  }

  pub data Reachable (initial : S) : Runner S → Type 0 where
    created : Reachable initial (record { ready = false; tasks = []; sink = initial })
    run : (r : Runner S) → Reachable initial r → Reachable initial (record r { ready = true })
    applied :
        (cfg : Config) (st : State) (snap : Snapshot) (r : Runner S)
        → Reachable initial r
        → Reachable initial (apply deps cfg st snap r)
    measured :
        (now : ℕ) (k : TaskKey) (t : Task) (c : Cycle) (e : Option Failure) (h : Option Tracker)
        (r : Runner S)
        → find k r.tasks ≡ some t
        → Reachable initial r
        → Reachable initial ((run_cycle deps fl percentiles now t c e h r).1)
    ended : (r : Runner S) → Reachable initial r → Reachable initial (shut_down deps r)

  -- In every state of a runner no two tasks have one key, and the kind of every task has a prober.
  pub Reachable-IsSound : {initial : S} (r : Runner S) → Reachable initial r → IsSound deps r
  unfolding shut_down
  Reachable-IsSound r (created) = record { distinct = tt; probed = tt }
  Reachable-IsSound r (run q h) =
      let sound = Reachable-IsSound q h in
      record { distinct = sound.distinct; probed = sound.probed }
  Reachable-IsSound r (applied cfg st snap q h) =
      apply-IsSound deps cfg st snap q (Reachable-IsSound q h)
  Reachable-IsSound r (measured now k t c e health q f h) =
      run_cycle-IsSound now t c e health q (Reachable-IsSound q h)
  Reachable-IsSound r (ended q h) =
      stop_all-IsSound deps (map (λ t. t.key) q.tasks) q (Reachable-IsSound q h)

  -- What the two operations of the sink keep holds of it in every state.
  module _ {κ} (P : S → Type κ) (forget-keep : (t : Task) (s : S) → P s → P (forget_task deps t s))
      (publish-keep : (t : Task) (c : Cycle) (st : Stats) (s : S)
        → P s
        → P (publish deps fl percentiles t c st s)) where
    stop_task-sink : (k : TaskKey) (r : Runner S) → P r.sink → P (stop_task deps k r).sink
    unfolding stop_task
    stop_task-sink k r h = elim (Option-cases (find k r.tasks)) [
      | inl e ↦ rw (e, stop_task) h
      | inr (t, e) ↦ rw (e, stop_task) (forget-keep t r.sink h)
    ]

    stop_all-sink : (ks : List TaskKey) (r : Runner S) → P r.sink → P (stop_all deps ks r).sink
    unfolding stop_all
    stop_all-sink [] r h = h
    stop_all-sink (k ∷ ks) r h = stop_all-sink ks (stop_task deps k r) (stop_task-sink k r h)

    start_all-sink : (ts : List Task) (r : Runner S) → (start_all deps ts r).sink ≡ r.sink
    unfolding start_all start_task
    start_all-sink [] r = refl
    start_all-sink (t ∷ ts) r = start_all-sink ts (start_task deps t r) ∙ ground arith

    apply-sink_cases :
        (cfg : Config) (st : State) (snap : Snapshot) (r : Runner S)
        → (r.ready ≡ true
            → (apply deps cfg st snap r).sink
              ≡ (apply_want deps (desired deps.node_id cfg.probes snap st) r).sink)
          × (r.ready ≡ false → (apply deps cfg st snap r).sink ≡ r.sink)
    unfolding apply
    apply-sink_cases cfg st snap r = ((λ e. ground arith), (λ e. ground arith))

    apply-sink :
        (cfg : Config) (st : State) (snap : Snapshot) (r : Runner S)
        → P r.sink
        → P (apply deps cfg st snap r).sink
    unfolding apply_want
    apply-sink cfg st snap r h =
        let want : List Task = desired deps.node_id cfg.probes snap st in
        let plan : Plan = plan_running deps.net want r.tasks in
        let stopped : Runner S = stop_all deps plan.to_stop (record r { tasks = plan.tasks }) in
        let kept : P stopped.sink =
          stop_all-sink plan.to_stop (record r { tasks = plan.tasks }) h in
        let done : P (apply_want deps want r).sink =
          subst P (sym (start_all-sink (plan.to_start ++ plan_new r.tasks want) stopped)) kept in
        elim (Bool-cases r.ready) [
          | inl e ↦ subst P (sym ((apply-sink_cases cfg st snap r).0 e)) done
          | inr e ↦ subst P (sym ((apply-sink_cases cfg st snap r).1 e)) h
        ]

    pub Reachable-sink : {initial : S} (r : Runner S) → P initial → Reachable initial r → P r.sink
    unfolding shut_down run_cycle
    Reachable-sink r p (created) = p
    Reachable-sink r p (run q h) = Reachable-sink q p h
    Reachable-sink r p (applied cfg st snap q h) = apply-sink cfg st snap q (Reachable-sink q p h)
    Reachable-sink r p (measured now k t c e health q f h) =
        publish-keep _ _ _ q.sink (Reachable-sink q p h)
    Reachable-sink r p (ended q h) =
        stop_all-sink (map (λ t. t.key) q.tasks) q (Reachable-sink q p h)

find-update :
    (k : TaskKey) (t u : Task) (ts : List Task)
    → find t.key ts ≡ some u
    → find k (update t ts) ≡ (if same_key k t.key then some t else find k ts)
unfolding find update
find-update k t u [] f = cc
find-update k t u (v ∷ vs) f = ground (arith, find-update k t u vs)

-- A cycle of a running task replaces the window of that task, by the one that the cycle and the reading
-- of the statistics leave, and touches no other task.
pub find-run_cycle :
    {S : Type 0} (deps : Deps S) (fl : Float64) (percentiles : List ℕ) (now : ℕ) (j k : TaskKey)
    (t : Task) (c : Cycle) (e : Option Failure) (h : Option Tracker) (r : Runner S)
    → find j r.tasks ≡ some t
    → find k (run_cycle deps fl percentiles now t c e h r).1.tasks ≡ (
        if same_key k j
        then some (record t {
          window = (stats fl now percentiles (add now (completed now c e) t.window)).1;
        })
        else find k r.tasks)
unfolding run_cycle
find-run_cycle deps fl percentiles now j k t c e h r f =
    let at : t.key ≡ j = find-key j r.tasks f in
    let here : find t.key r.tasks ≡ some t = subst (λ i. find i r.tasks ≡ some t) (sym at) f in
    let measured : Task = record t {
      window = (stats fl now percentiles (add now (completed now c e) t.window)).1;
    } in
    find-update k measured t r.tasks here
    ∙ ap (λ (i : TaskKey). if same_key k i then some measured else find k r.tasks) at
