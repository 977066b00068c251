-- ===== src/Health.antt =====
-- internal/health/health.go: the eligibility state of each host. Durations are nanoseconds, as
-- times are, and a duration or a threshold that is not positive stands for 0, which the source
-- treats alike; only the flap window is an integer, since a negative one keeps no mark.
-- `now.Sub(t) >= d` is `t + d <= now`. The lock and copies of a record are left out.
pub mod Steps
pub mod Tracker
use network_mesh_exporter.Base.{
  ℕ, ◌+◌, Bool, false, true, not, ◌&&◌, ◌||◌, List, [], ◌∷◌, ◌++◌, length, keep, if◌then◌else◌, ltb,
  leb, eqb,
}
use network_mesh_exporter.Base.Int.{ℤ, pos, negsuc}
use network_mesh_exporter.Base.Str.{Str, ◌==◌, bytes}
use network_mesh_exporter.Inventory.{HostRecord}

pub data State : Type 0 where
  unknown healthy suspect pending unhealthy cooldown ineligible : State

abbrev pub label : State → Str
label healthy = bytes "healthy"
label suspect = bytes "suspect"
label pending = bytes "pending"
label unhealthy = bytes "unhealthy"
label cooldown = bytes "cooldown"
label ineligible = bytes "ineligible"
label unknown = bytes "unknown"

-- `==` on states.
abbrev pub state_eqb : State → State → Bool
state_eqb unknown unknown = true
state_eqb healthy healthy = true
state_eqb suspect suspect = true
state_eqb pending pending = true
state_eqb unhealthy unhealthy = true
state_eqb cooldown cooldown = true
state_eqb ineligible ineligible = true
state_eqb _ _ = false

-- The fields of `config.HealthConfig` that the tracker reads.
pub record HealthConfig : Type 0 where
  pub unhealthy_after : ℕ
  pub release_hold : ℕ
  pub healthy_after : ℕ
  pub missing_grace : ℕ
  pub dns_grace : ℕ
  pub flap_threshold : ℕ
  pub flap_window : ℤ
  pub flap_cooldown : ℕ

pub record Status : Type 0 where
  pub host_id : Str
  pub state : State
  pub reason : Str
  pub source : Str
  pub first_seen : ℕ
  pub last_seen : ℕ
  pub last_success : ℕ
  pub last_failure : ℕ
  pub fail_streak : ℕ
  pub ok_streak : ℕ
  pub marked_at : ℕ
  pub release_at : ℕ
  pub cooldown_end : ℕ
  pub transitions : ℕ
  pub present : Bool
  pub missing_at : ℕ
  pub resolve_fail : ℕ
  pub flap_marks : List ℕ
  pub assigned_at : ℕ

abbrev pub usable : State → Bool
usable healthy = true
usable suspect = true
usable pending = true
usable unknown = true
usable _ = false

-- `Status.Eligible`.
abbrev pub is_eligible : Status → Bool
is_eligible st = usable st.state

-- The record of a host that is seen for the first time.
abbrev pub first_status : Str → ℕ → Status
first_status id now = record {
  host_id = id;
  state = unknown;
  reason = [];
  source = [];
  first_seen = now;
  last_seen = 0;
  last_success = 0;
  last_failure = 0;
  fail_streak = 0;
  ok_streak = 0;
  marked_at = 0;
  release_at = 0;
  cooldown_end = 0;
  transitions = 0;
  present = false;
  missing_at = 0;
  resolve_fail = 0;
  flap_marks = [];
  assigned_at = 0;
}

-- `now.Sub(m) <= window`, also for a window that is negative.
abbrev pub in_window : ℤ → ℕ → ℕ → Bool
in_window (pos d) now m = leb now (m + d)
in_window (negsuc d) now m = ltb (now + d) m

-- The part of `transition` that counts a change of eligibility.
unfoldable pub flap : HealthConfig → State → ℕ → Status → Status
flap cfg to now st =
    let kept = keep (in_window cfg.flap_window now) (st.flap_marks ++ now ∷ []) in
    let counted = record st { flap_marks = kept; transitions = length kept } in
    if ltb 0 cfg.flap_threshold
      && ltb cfg.flap_threshold (length kept)
      && not (state_eqb to ineligible)
      && not (state_eqb to cooldown)
    then record counted {
      state = cooldown;
      reason = bytes "flapping";
      cooldown_end = now + cfg.flap_cooldown;
    }
    else counted

unfoldable pub transition : HealthConfig → State → Str → ℕ → Status → Status
transition cfg to reason now st =
    let entered =
      if state_eqb to healthy
      then record st { state = to; reason = []; marked_at = 0; release_at = 0 }
      else record st { state = to; reason = reason } in
    let flapped = flap cfg to now entered in
    if state_eqb st.state to
    then (if reason == [] then st else record st { reason = reason })
    else if (if usable st.state then usable to else not (usable to))
    then entered
    else flapped

-- The body of the loop of `Tick`.
unfoldable pub expire_timer : HealthConfig → ℕ → Status → Status
expire_timer cfg now st = elim st.state [
  | pending ↦
      if not (eqb st.release_at 0) && leb st.release_at now
      then transition cfg unhealthy st.reason now st
      else st
  | cooldown ↦
      if not (eqb st.cooldown_end 0) && leb st.cooldown_end now
      then record (transition cfg unknown [] now st) { ok_streak = 0; fail_streak = 0 }
      else st
  | _ ↦ st
]

unfoldable pub expire_missing : HealthConfig → ℕ → Status → Status
expire_missing cfg now st =
    if not (eqb st.missing_at 0)
      && not (state_eqb st.state ineligible)
      && leb (st.missing_at + cfg.missing_grace) now
    then transition cfg ineligible (bytes "absent from provider") now st
    else st

abbrev pub tick_status : HealthConfig → ℕ → Status → Status
tick_status cfg now st = expire_missing cfg now (expire_timer cfg now st)

-- What `Observe` does with a host of the snapshot.
unfoldable pub observe_host : HealthConfig → ℕ → HostRecord → Status → Status
observe_host cfg now h st =
    let seen = record st { source = h.source; last_seen = now; present = true; missing_at = 0 } in
    if not h.healthy
    then transition cfg ineligible h.reason now seen
    else if state_eqb st.state ineligible
    then transition cfg unknown [] now seen
    else seen

-- What `Observe` does with a host that is not in the snapshot.
unfoldable pub observe_absent : HealthConfig → ℕ → Status → Status
observe_absent cfg now st =
    let left = if st.present then record st { present = false; missing_at = now } else st in
    if not (eqb left.missing_at 0) && leb (left.missing_at + cfg.missing_grace) now
    then transition cfg ineligible (bytes "absent from provider") now left
    else left

-- What `RecordProbe` does with the record of the host.
unfoldable pub probe_succeeded : HealthConfig → ℕ → Status → Status
probe_succeeded cfg now st =
    let counted = record st { last_success = now; ok_streak = st.ok_streak + 1; fail_streak = 0 } in
    if state_eqb st.state ineligible || state_eqb st.state cooldown
    then counted
    else if leb cfg.healthy_after counted.ok_streak
    then transition cfg healthy [] now counted
    else counted

unfoldable pub probe_failed : HealthConfig → ℕ → Status → Status
probe_failed cfg now st =
    let counted = record st {
      last_failure = now;
      fail_streak = st.fail_streak + 1;
      ok_streak = 0;
    } in
    if state_eqb st.state ineligible || state_eqb st.state cooldown
    then counted
    else if ltb counted.fail_streak cfg.unhealthy_after
    then transition cfg suspect (bytes "probe failing") now counted
    else if not (state_eqb st.state pending) && not (state_eqb st.state unhealthy)
    then record (transition cfg pending (bytes "probe failed repeatedly") now counted) {
      marked_at = now;
      release_at = now + cfg.release_hold;
    }
    else counted

-- What `RecordResolve` does with the record of the host.
unfoldable pub resolve_status : HealthConfig → ℕ → Bool → Status → Status
resolve_status cfg now ok st =
    if ok
    then record st { resolve_fail = 0 }
    else if eqb st.resolve_fail 0
    then record st { resolve_fail = now }
    else if leb (st.resolve_fail + cfg.dns_grace) now && is_eligible st
    then transition cfg unhealthy (bytes "address does not resolve") now st
    else st

-- What `SetConfig` does with a record.
unfoldable pub reconfigure : HealthConfig → Status → Status
reconfigure cfg st =
    if state_eqb st.state pending && not (eqb st.marked_at 0)
    then record st { release_at = st.marked_at + cfg.release_hold }
    else st
