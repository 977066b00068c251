-- ===== src/Health/Tracker/Invariant.antt =====
-- internal/health/health.go: what holds of every record of a tracker.
use network_mesh_exporter.Base.{
  ℕ, ◌+◌, ◌≡◌, ◌≢◌, ◌⊎◌, refl, inl, inr, Bool, false, true, [], length, arith,
}
use network_mesh_exporter.Base.Str.{Str, bytes}
use network_mesh_exporter.Inventory.{HostRecord}
use network_mesh_exporter.Health.{
  State, unknown, healthy, suspect, pending, unhealthy, ineligible, HealthConfig, Status, state_eqb,
  transition, flap, expire_timer, expire_missing, probe_failed, probe_succeeded, resolve_status,
  observe_host, observe_absent, reconfigure, first_status,
}

-- One of the two streaks is over; the transitions are the flap marks that are kept; a pending host
-- was marked, and is released when the hold since then is over.
pub record WellFormed (cfg : HealthConfig) (st : Status) : Type 0 where
  pub streaks : (st.fail_streak ≡ 0) ⊎ (st.ok_streak ≡ 0)
  pub marks : st.transitions ≡ length st.flap_marks
  pub release :
      st.state ≡ pending → (st.marked_at ≢ 0) × (st.release_at ≡ st.marked_at + cfg.release_hold)

state_eqb_sound : (a b : State) → state_eqb a b ≡ true → a ≡ b
state_eqb_sound a b e = ground arith

module _ (cfg : HealthConfig) (now : ℕ) where
  transition-WellFormed :
      (to : State) (reason : Str) (st : Status)
      → to ≢ pending
      → WellFormed cfg st
      → WellFormed cfg (transition cfg to reason now st)
  unfolding transition flap
  transition-WellFormed to reason st n w = record {
    streaks = ground (arith, w.streaks);
    marks = ground (arith, w.marks);
    release = λ e. ground (arith, state_eqb_sound st.state to, n, w.release);
  }

  pub expire_timer-WellFormed :
      (st : Status) → WellFormed cfg st → WellFormed cfg (expire_timer cfg now st)
  unfolding expire_timer
  expire_timer-WellFormed st w = ground (
    arith,
    w,
    transition-WellFormed unhealthy st.reason st (λ e. cc) w,
    transition-WellFormed unknown [] st (λ e. cc) w,
  )

  pub expire_missing-WellFormed :
      (st : Status) → WellFormed cfg st → WellFormed cfg (expire_missing cfg now st)
  unfolding expire_missing
  expire_missing-WellFormed st w =
      ground
        (arith, w, transition-WellFormed ineligible (bytes "absent from provider") st (λ e. cc) w)

  pub observe_host-WellFormed :
      (h : HostRecord) (st : Status)
      → WellFormed cfg st
      → WellFormed cfg (observe_host cfg now h st)
  unfolding observe_host
  observe_host-WellFormed h st w =
      let seen : Status = record st {
        source = h.source;
        last_seen = now;
        present = true;
        missing_at = 0;
      } in
      let kept : WellFormed cfg seen = record {
        streaks = w.streaks;
        marks = w.marks;
        release = w.release;
      } in
      ground (
        arith,
        kept,
        transition-WellFormed ineligible h.reason seen (λ e. cc) kept,
        transition-WellFormed unknown [] seen (λ e. cc) kept,
      )

  pub observe_absent-WellFormed :
      (st : Status) → WellFormed cfg st → WellFormed cfg (observe_absent cfg now st)
  unfolding observe_absent
  observe_absent-WellFormed st w =
      let gone : Status = record st { present = false; missing_at = now } in
      let kept : WellFormed cfg gone = record {
        streaks = w.streaks;
        marks = w.marks;
        release = w.release;
      } in
      let reason = bytes "absent from provider" in
      ground (
        arith,
        w,
        kept,
        transition-WellFormed ineligible reason st (λ e. cc) w,
        transition-WellFormed ineligible reason gone (λ e. cc) kept,
      )

  pub resolve_status-WellFormed :
      (ok : Bool) (st : Status) → WellFormed cfg st → WellFormed cfg (resolve_status cfg now ok st)
  unfolding resolve_status
  resolve_status-WellFormed ok st w =
      let cleared : WellFormed cfg (record st { resolve_fail = 0 }) = record {
        streaks = w.streaks;
        marks = w.marks;
        release = w.release;
      } in
      let failed : WellFormed cfg (record st { resolve_fail = now }) = record {
        streaks = w.streaks;
        marks = w.marks;
        release = w.release;
      } in
      ground (
        arith,
        w,
        cleared,
        failed,
        transition-WellFormed unhealthy (bytes "address does not resolve") st (λ e. cc) w,
      )

  pub probe_succeeded-WellFormed :
      (st : Status) → WellFormed cfg st → WellFormed cfg (probe_succeeded cfg now st)
  unfolding probe_succeeded
  probe_succeeded-WellFormed st w =
      let counted : Status = record st {
        last_success = now;
        ok_streak = st.ok_streak + 1;
        fail_streak = 0;
      } in
      let kept : WellFormed cfg counted = record {
        streaks = inl refl;
        marks = w.marks;
        release = w.release;
      } in
      ground (arith, kept, transition-WellFormed healthy [] counted (λ e. cc) kept)

  -- A host that becomes pending is marked at `now`.
  marked-WellFormed :
      (st : Status)
      → now ≢ 0
      → WellFormed cfg st
      → WellFormed cfg (record (transition cfg pending (bytes "probe failed repeatedly") now st) {
        marked_at = now;
        release_at = now + cfg.release_hold;
      })
  unfolding transition flap
  marked-WellFormed st t w = record {
    streaks = ground (arith, w.streaks);
    marks = ground (arith, w.marks);
    release = λ e. (t, refl);
  }

  pub probe_failed-WellFormed :
      (st : Status) → now ≢ 0 → WellFormed cfg st → WellFormed cfg (probe_failed cfg now st)
  unfolding probe_failed
  probe_failed-WellFormed st t w =
      let counted : Status = record st {
        last_failure = now;
        fail_streak = st.fail_streak + 1;
        ok_streak = 0;
      } in
      let kept : WellFormed cfg counted = record {
        streaks = inr refl;
        marks = w.marks;
        release = w.release;
      } in
      ground (
        arith,
        kept,
        transition-WellFormed suspect (bytes "probe failing") counted (λ e. cc) kept,
        marked-WellFormed counted t kept,
      )

pub reconfigure-WellFormed :
    (cfg next : HealthConfig) (st : Status)
    → WellFormed cfg st
    → WellFormed next (reconfigure next st)
unfolding reconfigure
reconfigure-WellFormed cfg next st w = record {
  streaks = ground (arith, w.streaks);
  marks = ground (arith, w.marks);
  release = λ e. ground (arith, state_eqb_sound st.state pending, w.release);
}

pub first_status-WellFormed :
    (cfg : HealthConfig) (id : Str) (now : ℕ) → WellFormed cfg (first_status id now)
first_status-WellFormed cfg id now = record { streaks = inl refl; marks = refl; release = λ e. cc }
