-- ===== src/Health/Tracker/Reach.antt =====
-- internal/health/health.go: the trackers that the methods of a tracker lead to.
use network_mesh_exporter.Base.{
  ℕ, ◌≡◌, ◌≢◌, inl, inr, Bool, List, [], ◌∷◌, some, if◌then◌else◌, eqb, arith, subst, sym, All,
  Option-cases,
}
use network_mesh_exporter.Base.Map.{Map, lookup, insert, All-insert, All-erase, All-lookup}
use network_mesh_exporter.Base.Str.{Str}
use network_mesh_exporter.Inventory.{HostRecord, Snapshot}
use network_mesh_exporter.Health.{HealthConfig, Status, tick_status, resolve_status, reconfigure}
use network_mesh_exporter.Health.Tracker.{
  Tracker, new, each, set_config, or_first, observe_hosts, observe_others, observe, forget,
  record_probe, record_resolve, mark_assigned, tick,
}
use network_mesh_exporter.Health.Tracker.Invariant.{
  WellFormed, expire_timer-WellFormed, expire_missing-WellFormed, observe_host-WellFormed,
  observe_absent-WellFormed, resolve_status-WellFormed, probe_succeeded-WellFormed,
  probe_failed-WellFormed, reconfigure-WellFormed, first_status-WellFormed,
}

abbrev pub Ok : HealthConfig → Map Status → Type 0
Ok cfg m = All (λ e. WellFormed cfg e.1) m

each-Ok :
    (cfg next : HealthConfig) (f : Status → Status)
    → ((st : Status) → WellFormed cfg st → WellFormed next (f st))
    → (m : Map Status) → Ok cfg m
    → Ok next (each f m)
unfolding each
each-Ok cfg next f h [] ok = tt
each-Ok cfg next f h ((id, st) ∷ m) ok = (h st ok.0, each-Ok cfg next f h m ok.1)

module _ (cfg : HealthConfig) where
  or_first-WellFormed :
      (id : Str) (now : ℕ) (m : Map Status)
      → Ok cfg m
      → WellFormed cfg (or_first id now (lookup id m))
  or_first-WellFormed id now m ok = elim (Option-cases (lookup id m)) [
    | inl e ↦ rw e (first_status-WellFormed cfg id now)
    | inr (st, e) ↦ rw e (All-lookup (λ x. WellFormed cfg x.1) id {v = st} m ok e)
  ]

  observe_hosts-Ok :
      (now : ℕ) (hs : List HostRecord) (m : Map Status)
      → Ok cfg m
      → Ok cfg (observe_hosts cfg now hs m)
  unfolding observe_hosts
  observe_hosts-Ok now [] m ok = ok
  observe_hosts-Ok now (h ∷ hs) m ok = observe_hosts-Ok now hs _ (
      All-insert (λ x. WellFormed cfg x.1) h.id _ m
        (observe_host-WellFormed cfg now h _ (or_first-WellFormed h.id now m ok)) ok)

  observe_others-Ok :
      (now : ℕ) (seen : List Str) (m : Map Status)
      → Ok cfg m
      → Ok cfg (observe_others cfg now seen m)
  unfolding observe_others
  observe_others-Ok now seen [] ok = tt
  observe_others-Ok now seen ((id, st) ∷ m) ok = (
    ground (arith, ok.0, observe_absent-WellFormed cfg now st ok.0),
    observe_others-Ok now seen m ok.1,
  )

-- The records of a tracker satisfy the invariant at its configuration.
abbrev pub IsOk : Tracker → Type 0
IsOk t = Ok t.cfg t.hosts

set_status-IsOk :
    (id : Str) (st : Status) (t : Tracker)
    → WellFormed t.cfg st
    → IsOk t
    → IsOk (record t { hosts = insert id st t.hosts })
set_status-IsOk id st t w ok = All-insert (λ x. WellFormed t.cfg x.1) id st t.hosts w ok

lookup-WellFormed :
    (id : Str) (t : Tracker) {st : Status}
    → IsOk t
    → lookup id t.hosts ≡ some st
    → WellFormed t.cfg st
lookup-WellFormed id t {st} ok e = All-lookup (λ x. WellFormed t.cfg x.1) id {v = st} t.hosts ok e

record_probe-IsOk :
    (now : ℕ) (id : Str) (r : Bool) (t : Tracker)
    → now ≢ 0
    → IsOk t
    → IsOk (record_probe now id r t)
unfolding record_probe
record_probe-IsOk now id r t n ok =
    let w = or_first-WellFormed t.cfg id now t.hosts ok in
    let st = or_first id now (lookup id t.hosts) in
    set_status-IsOk id _ t
      (ground (
        arith,
        probe_succeeded-WellFormed t.cfg now st w,
        probe_failed-WellFormed t.cfg now st n w,
      ))
      ok

record_resolve-IsOk :
    (now : ℕ) (id : Str) (r : Bool) (t : Tracker) → IsOk t → IsOk (record_resolve now id r t)
unfolding record_resolve
record_resolve-IsOk now id r t ok = elim (Option-cases (lookup id t.hosts)) [
  | inl e ↦ let step : record_resolve now id r t ≡ t = ground arith in subst IsOk (sym step) ok
  | inr (st, e) ↦
      let next = resolve_status t.cfg now r st in
      let step : record_resolve now id r t ≡ record t { hosts = insert id next t.hosts } =
        ground arith in
      subst IsOk (sym step) (
        set_status-IsOk id next t
          (resolve_status-WellFormed t.cfg now r st (lookup-WellFormed id t {st = st} ok e)) ok)
]

mark_assigned-IsOk : (now : ℕ) (id : Str) (t : Tracker) → IsOk t → IsOk (mark_assigned now id t)
unfolding mark_assigned
mark_assigned-IsOk now id t ok = elim (Option-cases (lookup id t.hosts)) [
  | inl e ↦ let step : mark_assigned now id t ≡ t = ground arith in subst IsOk (sym step) ok
  | inr (st, e) ↦
      let w = lookup-WellFormed id t {st = st} ok e in
      let next : Status = record st { assigned_at = now } in
      let step : mark_assigned now id t
          ≡ (if eqb st.assigned_at 0 then record t { hosts = insert id next t.hosts } else t) =
        ground arith in
      let kept : IsOk (record t { hosts = insert id next t.hosts }) =
        set_status-IsOk id next t
          (record { streaks = w.streaks; marks = w.marks; release = w.release }) ok in
      subst IsOk (sym step) (ground (arith, kept, ok))
]

-- One call of a method. Probes are recorded at a time that is not the zero time.
pub data Step : Tracker → Tracker → Type 0 where
  configured : (cfg : HealthConfig) (t : Tracker) → Step t (set_config cfg t)
  observed : (now : ℕ) (snap : Snapshot) (t : Tracker) → Step t (observe now snap t)
  forgotten : (id : Str) (t : Tracker) → Step t (forget id t)
  probed :
      (now : ℕ) (id : Str) (ok : Bool) (t : Tracker) → now ≢ 0 → Step t (record_probe now id ok t)
  resolved : (now : ℕ) (id : Str) (ok : Bool) (t : Tracker) → Step t (record_resolve now id ok t)
  assigned : (now : ℕ) (id : Str) (t : Tracker) → Step t (mark_assigned now id t)
  ticked : (now : ℕ) (t : Tracker) → Step t (tick now t).0

pub data Reachable : Tracker → Type 0 where
  started : (cfg : HealthConfig) → Reachable (new cfg)
  stepped : {t u : Tracker} → Reachable t → Step t u → Reachable u

step-IsOk : {t u : Tracker} → Step t u → IsOk t → IsOk u
unfolding set_config observe forget tick
step-IsOk (configured cfg t) ok =
    each-Ok t.cfg cfg (reconfigure cfg) (reconfigure-WellFormed t.cfg cfg) t.hosts ok
step-IsOk (observed now snap t) ok =
    observe_others-Ok t.cfg now _ _ (observe_hosts-Ok t.cfg now snap.hosts t.hosts ok)
step-IsOk (forgotten id t) ok = All-erase (λ x. WellFormed t.cfg x.1) id t.hosts ok
step-IsOk (probed now id r t n) ok = record_probe-IsOk now id r t n ok
step-IsOk (resolved now id r t) ok = record_resolve-IsOk now id r t ok
step-IsOk (assigned now id t) ok = mark_assigned-IsOk now id t ok
step-IsOk (ticked now t) ok =
    each-Ok t.cfg t.cfg (tick_status t.cfg now)
      (λ st w. expire_missing-WellFormed t.cfg now _ (expire_timer-WellFormed t.cfg now st w))
      t.hosts ok

-- Whatever methods are called, in whatever order, on a tracker that starts empty: in each record
-- one of the two streaks is 0, `Transitions` is the number of flap marks that are kept, and a
-- pending host has a mark and is released when the configured hold since the mark is over.
pub Reachable-IsOk : {t : Tracker} → Reachable t → IsOk t
unfolding new
Reachable-IsOk (started cfg) = tt
Reachable-IsOk (stepped r s) = step-IsOk s (Reachable-IsOk r)
