-- ===== src/Health/Tracker/Deadlines.antt =====
-- internal/health/health.go: `NextDeadline` and `Tick`.
use network_mesh_exporter.Base.{ℕ, ◌<◌, ◌≡◌, ◌⊎◌, refl, Bool, false, true, [], ◌∷◌, arith}
use network_mesh_exporter.Base.Map.{Map}
use network_mesh_exporter.Base.Sort.{sort}
use network_mesh_exporter.Health.{
  HealthConfig, Status, usable, expire_timer, expire_missing, tick_status,
}
use network_mesh_exporter.Health.Tracker.{
  Tracker, each, consider, deadline_of, deadline_from, next_deadline, changed_ids, bool_eqb, tick,
}

-- No timer of the record expires at `now` or earlier.
abbrev Quiet : ℕ → ℕ → Type 0
Quiet now d = (d ≡ 0) ⊎ (now < d)

consider-Quiet : (now v next : ℕ) → Quiet now (consider v next) → Quiet now v × Quiet now next
unfolding consider
consider-Quiet now v next q = ground arith

deadline_of-Quiet :
    (cfg : HealthConfig) (now : ℕ) (st : Status) (next : ℕ)
    → Quiet now (deadline_of cfg st next)
    → Quiet now next × (tick_status cfg now st ≡ st)
unfolding deadline_of expire_timer expire_missing consider
deadline_of-Quiet cfg now st next q = ground arith

bool_eqb_self : (b : Bool) → bool_eqb b b ≡ true
bool_eqb_self true = refl
bool_eqb_self false = refl

deadline_from-Quiet :
    (cfg : HealthConfig) (now next : ℕ) (m : Map Status)
    → Quiet now (deadline_from cfg next m)
    → Quiet now next × (each (tick_status cfg now) m ≡ m) × (changed_ids cfg now m ≡ [])
unfolding deadline_from each changed_ids
deadline_from-Quiet cfg now next [] q = (q, refl, refl)
deadline_from-Quiet cfg now next ((id, st) ∷ m) q =
    let (q', e, c) = deadline_from-Quiet cfg now (deadline_of cfg st next) m q in
    let (q'', f) = deadline_of-Quiet cfg now st next q' in
    (q'', rw (f, e) refl, rw (f, c, bool_eqb_self (usable st.state)) refl)

-- Before the deadline that the tracker reports, and where it reports none, a tick changes no record
-- and reports no host.
pub next_deadline-tick :
    (now : ℕ) (t : Tracker) → (next_deadline t ≡ 0) ⊎ (now < next_deadline t) → tick now t ≡ (t, [])
unfolding next_deadline tick sort
next_deadline-tick now t q =
    let (q', e, c) = deadline_from-Quiet t.cfg now 0 t.hosts q in rw (e, c) refl
