-- ===== src/Health/Tracker.antt =====
-- internal/health/health.go: the tracker of all hosts. A range over the map of hosts visits them in
-- list order.
pub mod Deadlines
pub mod Invariant
pub mod Reach
use network_mesh_exporter.Base.{
  ℕ, ◌+◌, Bool, false, true, not, ◌&&◌, ◌||◌, List, [], ◌∷◌, Option, none, some, map, if◌then◌else◌,
  ltb, eqb,
}
use network_mesh_exporter.Base.Map.{Map, lookup, insert, erase}
use network_mesh_exporter.Base.Sort.{sort}
use network_mesh_exporter.Base.Str.{Str, str_ltb}
use network_mesh_exporter.Base.Strs.{contains}
use network_mesh_exporter.Inventory.{HostRecord, Snapshot}
use network_mesh_exporter.Health.{
  State, pending, cooldown, ineligible, state_eqb, HealthConfig, Status, is_eligible, first_status,
  tick_status, observe_host, observe_absent, probe_succeeded, probe_failed, resolve_status,
  reconfigure,
}

pub record Tracker : Type 0 where
  pub cfg : HealthConfig
  pub hosts : Map Status

unfoldable pub new : HealthConfig → Tracker
new cfg = record { cfg = cfg; hosts = [] }

-- A loop over the records that changes each of them.
unfoldable pub each : (Status → Status) → Map Status → Map Status
each f [] = []
each f ((id, st) ∷ m) = (id, f st) ∷ each f m

unfoldable pub set_config : HealthConfig → Tracker → Tracker
set_config cfg t = record { cfg = cfg; hosts = each (reconfigure cfg) t.hosts }

abbrev pub or_first : Str → ℕ → Option Status → Status
or_first id now none = first_status id now
or_first id now (some st) = st

-- The first loop of `Observe`.
unfoldable pub observe_hosts : HealthConfig → ℕ → List HostRecord → Map Status → Map Status
observe_hosts cfg now [] m = m
observe_hosts cfg now (h ∷ hs) m =
    observe_hosts cfg now hs
      (insert h.id (observe_host cfg now h (or_first h.id now (lookup h.id m))) m)

-- The second loop of `Observe`.
unfoldable pub observe_others : HealthConfig → ℕ → List Str → Map Status → Map Status
observe_others cfg now seen [] = []
observe_others cfg now seen ((id, st) ∷ m) =
    (id, if contains id seen then st else observe_absent cfg now st) ∷ observe_others cfg now seen m

unfoldable pub observe : ℕ → Snapshot → Tracker → Tracker
observe now snap t =
    let seen = map (λ h. h.id) snap.hosts in
    record t { hosts = observe_others t.cfg now seen (observe_hosts t.cfg now snap.hosts t.hosts) }

unfoldable pub forget : Str → Tracker → Tracker
forget id t = record t { hosts = erase id t.hosts }

unfoldable pub record_probe : ℕ → Str → Bool → Tracker → Tracker
record_probe now id ok t =
    let st = or_first id now (lookup id t.hosts) in
    let next = if ok then probe_succeeded t.cfg now st else probe_failed t.cfg now st in
    record t { hosts = insert id next t.hosts }

unfoldable pub record_resolve : ℕ → Str → Bool → Tracker → Tracker
record_resolve now id ok t = elim (lookup id t.hosts) [
  | none ↦ t
  | some st ↦ record t { hosts = insert id (resolve_status t.cfg now ok st) t.hosts }
]

unfoldable pub mark_assigned : ℕ → Str → Tracker → Tracker
mark_assigned now id t = elim (lookup id t.hosts) [
  | none ↦ t
  | some st ↦
      if eqb st.assigned_at 0
      then record t { hosts = insert id (record st { assigned_at = now }) t.hosts }
      else t
]

-- `Eligible`, and the predicate that `EligibleFunc` returns.
unfoldable pub eligible : Tracker → Str → Bool
eligible t id = elim (lookup id t.hosts) [ none ↦ false | some st ↦ is_eligible st ]

-- `Counts`, as a function.
unfoldable pub counts_of : Map Status → State → ℕ
counts_of [] s = 0
counts_of ((id, st) ∷ m) s =
    let rest = counts_of m s in if state_eqb st.state s then rest + 1 else rest

-- The closure `consider` of `NextDeadline`.
unfoldable pub consider : ℕ → ℕ → ℕ
consider v next = if eqb v 0 then next else if eqb next 0 || ltb v next then v else next

-- The body of the loop of `NextDeadline`.
unfoldable pub deadline_of : HealthConfig → Status → ℕ → ℕ
deadline_of cfg st next =
    let a = if state_eqb st.state pending then consider st.release_at next else next in
    let b = if state_eqb st.state cooldown then consider st.cooldown_end a else a in
    if not (eqb st.missing_at 0) && not (state_eqb st.state ineligible)
    then consider (st.missing_at + cfg.missing_grace) b
    else b

unfoldable pub deadline_from : HealthConfig → ℕ → Map Status → ℕ
deadline_from cfg next [] = next
deadline_from cfg next ((id, st) ∷ m) = deadline_from cfg (deadline_of cfg st next) m

-- `NextDeadline`; 0 is its zero time, where it also returns false.
unfoldable pub next_deadline : Tracker → ℕ
next_deadline t = deadline_from t.cfg 0 t.hosts

abbrev pub bool_eqb : Bool → Bool → Bool
bool_eqb true b = b
bool_eqb false b = not b

-- The hosts whose eligibility a tick changes, in the order of the range.
unfoldable pub changed_ids : HealthConfig → ℕ → Map Status → List Str
changed_ids cfg now [] = []
changed_ids cfg now ((id, st) ∷ m) =
    let rest = changed_ids cfg now m in
    if bool_eqb (is_eligible (tick_status cfg now st)) (is_eligible st) then rest else id ∷ rest

unfoldable pub tick : ℕ → Tracker → Tracker × List Str
tick now t = (
  record t { hosts = each (tick_status t.cfg now) t.hosts },
  sort str_ltb (changed_ids t.cfg now t.hosts),
)
