-- ===== src/Runner/Apply/Steps.antt =====
-- internal/runner/runner.go: what `Apply` makes of each task.
use network_mesh_exporter.Base.{
  ◌≡◌, ◌≢◌, refl, sym, ◌∙◌, Bool, false, true, List, [], ◌∷◌, Option, none, some, if◌then◌else◌,
  arith, All, Bool-cases, Option-cases, inl, inr, subst,
}
use network_mesh_exporter.Runner.{Task, TaskKey, Net, same_key, find}
use network_mesh_exporter.Runner.Apply.{
  Deps, Runner, is_changed, refresh, plan_running, plan_new, stop_task, start_task, stop_all,
  start_all,
}
use network_mesh_exporter.Runner.Apply.Keys.{
  DistinctKeys, find-key, same_key-eq, find-none, find-drop_task,
}

-- A key is in a list of keys.
abbrev pub has_key : TaskKey → List TaskKey → Bool
has_key k [] = false
has_key k (j ∷ js) = let rest = has_key k js in if same_key k j then true else rest

-- What the loop over the running tasks decides for a task, given the task that is wanted at its key.
abbrev pub kept_task : Net → Option Task → Task → Option Task
kept_task net none cur = none
kept_task net (some nt) cur = if is_changed net nt cur then none else some (refresh nt cur)

abbrev pub started_task : Net → Option Task → Task → Option Task
started_task net none cur = none
started_task net (some nt) cur = if is_changed net nt cur then some nt else none

module _ (net : Net) (want : List Task) where
  -- Nothing is decided at a key that no task has.
  pub plan_running-none :
      (k : TaskKey) (ts : List Task)
      → find k ts ≡ none
      → (find k (plan_running net want ts).tasks ≡ none)
        × (has_key k (plan_running net want ts).to_stop ≡ false)
        × (find k (plan_running net want ts).to_start ≡ none)
  unfolding plan_running find
  plan_running-none k [] h = (refl, refl, refl)
  plan_running-none k (t ∷ ts) h =
      let later : find k ts ≡ none = ground arith in
      elim (Option-cases (find t.key want)) [
        | inl w ↦ ground (arith, w, plan_running-none k ts later)
        | inr (nt, w) ↦ ground (arith, w, plan_running-none k ts later, find-key t.key want w)
      ]

  find-head :
      (k : TaskKey) (t : Task) (ts : List Task)
      → k ≡ t.key
      → (find k (plan_running net want ts).tasks ≡ none)
        × (has_key k (plan_running net want ts).to_stop ≡ false)
        × (find k (plan_running net want ts).to_start ≡ none)
      → (find k (plan_running net want (t ∷ ts)).to_start ≡ started_task net (find k want) t)
        × ((if has_key k (plan_running net want (t ∷ ts)).to_stop
              then none
              else find k (plan_running net want (t ∷ ts)).tasks)
            ≡ kept_task net (find k want) t)
  unfolding plan_running find
  find-head k t ts same rest = elim (Option-cases (find t.key want)) [
    | inl w ↦ ground (arith, w, same, rest)
    | inr (nt, w) ↦ ground (arith, w, same, rest, find-key t.key want w)
  ]

  -- The task that is left at a key, whether it is stopped, and the task that is started there.
  pub find-plan_running :
      (k : TaskKey) {cur : Task} (ts : List Task)
      → DistinctKeys ts
      → find k ts ≡ some cur
      → (find k (plan_running net want ts).to_start ≡ started_task net (find k want) cur)
        × ((if has_key k (plan_running net want ts).to_stop
              then none
              else find k (plan_running net want ts).tasks)
            ≡ kept_task net (find k want) cur)
  unfolding plan_running find
  find-plan_running k {cur} [] h e = cc
  find-plan_running k {cur} (t ∷ ts) h e = elim (Bool-cases (same_key k t.key)) [
    | inl s ↦
        let here : t ≡ cur = ground arith in
        let same : k ≡ t.key = same_key-eq k t.key s in
        let rest =
          plan_running-none k ts
            (find-none k ts (subst (λ j. All (λ (u : Task). j ≢ u.key) ts) (sym same) h.0)) in
        subst
          (λ (u : Task).
            (find k (plan_running net want (t ∷ ts)).to_start ≡ started_task net (find k want) u)
            × ((if has_key k (plan_running net want (t ∷ ts)).to_stop
                  then none
                  else find k (plan_running net want (t ∷ ts)).tasks)
                ≡ kept_task net (find k want) u))
          here (find-head k t ts same rest)
    | inr s ↦
        let there : find k ts ≡ some cur = ground arith in
        let rest = find-plan_running k {cur = cur} ts h.1 there in
        elim (Option-cases (find t.key want)) [
          | inl w ↦ ground (arith, w, s, rest)
          | inr (nt, w) ↦ ground (arith, w, s, rest, find-key t.key want w)
        ]
  ]

  pub find-plan_new :
      (k : TaskKey) (running nts : List Task)
      → find k (plan_new running nts)
        ≡ elim (find k running) as (λ _. Option Task) [ none ↦ find k nts | some _ ↦ none ]
  unfolding plan_new find
  find-plan_new k running [] = ground arith
  find-plan_new k running (t ∷ ts) = ground (arith, find-plan_new k running ts)

module _ {S : Type 0} (deps : Deps S) where
  pub stop_all-ready : (ks : List TaskKey) (r : Runner S) → (stop_all deps ks r).ready ≡ r.ready
  unfolding stop_all stop_task
  stop_all-ready [] r = refl
  stop_all-ready (k ∷ ks) r = elim (Option-cases (find k r.tasks)) [
    | inl e ↦ stop_all-ready ks (stop_task deps k r) ∙ rw (e, stop_task) refl
    | inr (t, e) ↦ stop_all-ready ks (stop_task deps k r) ∙ rw (e, stop_task) refl
  ]

  find-stop_task :
      (k j : TaskKey) (r : Runner S)
      → find k (stop_task deps j r).tasks ≡ (if same_key k j then none else find k r.tasks)
  unfolding stop_task
  find-stop_task k j r = elim (Option-cases (find j r.tasks)) [
    | inl e ↦ rw (e, stop_task) (ground arith)
    | inr (t, e) ↦ rw (e, stop_task) (find-drop_task k j r.tasks)
  ]

  pub find-stop_all :
      (k : TaskKey) (ks : List TaskKey) (r : Runner S)
      → find k (stop_all deps ks r).tasks ≡ (if has_key k ks then none else find k r.tasks)
  unfolding stop_all
  find-stop_all k [] r = refl
  find-stop_all k (j ∷ js) r =
      ground (arith, find-stop_all k js (stop_task deps j r), find-stop_task k j r)

  -- The task that runs once a task that is wanted was started.
  abbrev pub launched : Task → Option Task
  launched t =
      if deps.has_prober t.key.kind then some (record t { started_at = deps.clock t.key }) else none

  find-start_task :
      (k : TaskKey) (t : Task) (r : Runner S)
      → r.ready ≡ true
      → find k (start_task deps t r).tasks ≡ elim (find k r.tasks) as (λ _. Option Task) [
        | some u ↦ some u
        | none ↦ if same_key k t.key then launched t else none
      ]
  unfolding start_task find
  find-start_task k t r e = ground (arith, find-key t.key r.tasks)

  start_task-ready : (t : Task) (r : Runner S) → r.ready ≡ true → (start_task deps t r).ready ≡ true
  unfolding start_task
  start_task-ready t r e = ground arith

  pub find-start_all :
      (k : TaskKey) (ts : List Task) (r : Runner S)
      → r.ready ≡ true
      → find k (start_all deps ts r).tasks ≡ elim (find k r.tasks) as (λ _. Option Task) [
        | some u ↦ some u
        | none ↦ elim (find k ts) as (λ _. Option Task) [ none ↦ none | some t ↦ launched t ]
      ]
  unfolding start_all find
  find-start_all k [] r e = ground arith
  find-start_all k (t ∷ ts) r e =
      let first = find-start_task k t r e in
      let next = find-start_all k ts (start_task deps t r) (start_task-ready t r e) in
      elim (Option-cases (find k ts)) [
        | inl f ↦ ground (arith, f, first, next)
        | inr (u, f) ↦ ground (arith, f, first, next, find-key k ts f)
      ]
