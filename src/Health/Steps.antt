-- ===== src/Health/Steps.antt =====
-- internal/health/health.go: what one step does with the record of a host.
use network_mesh_exporter.Base.{
  ℕ, ◌+◌, ◌<◌, ◌≤◌, ◌≡◌, ◌↔◌, ◌⊎◌, inl, inr, false, true, [], ◌∷◌, ◌++◌, length, keep, arith,
}
use network_mesh_exporter.Health.{
  in_window, pending, unhealthy, HealthConfig, Status, is_eligible, transition, flap, expire_timer,
  expire_missing, tick_status, probe_failed,
}

-- A failed probe leaves an eligible host eligible.
probe_failed-eligible :
    (cfg : HealthConfig) (now : ℕ) (st : Status)
    → is_eligible st ≡ true
    → is_eligible (probe_failed cfg now st) ≡ true
unfolding probe_failed transition
probe_failed-eligible cfg now st e = ground arith

-- How many changes of eligibility the flap window holds, with one at `now`.
abbrev pub recent : HealthConfig → ℕ → Status → ℕ
recent cfg now st = length (keep (in_window cfg.flap_window now) (st.flap_marks ++ now ∷ []))

-- After a failed probe a host is eligible exactly where it was eligible, or where it was unhealthy, its
-- streak of failures stays below the threshold, and the flap detection does not hold it back: it is
-- off, or the window holds no more changes than it allows. So a failed probe takes the eligibility of
-- no host, and it gives it back to unhealthy ones.
pub probe_failed-eligible_iff :
    (cfg : HealthConfig) (now : ℕ) (st : Status)
    → (is_eligible (probe_failed cfg now st) ≡ true) ↔ (
        (is_eligible st ≡ true)
        ⊎ ((st.state ≡ unhealthy)
            × (st.fail_streak + 1 < cfg.unhealthy_after)
            × ((cfg.flap_threshold ≡ 0) ⊎ (recent cfg now st ≤ cfg.flap_threshold))))
unfolding probe_failed transition flap
probe_failed-eligible_iff cfg now st = (
  λ e. ground (arith, e),
  λ h. elim h [
    | inl e ↦ probe_failed-eligible cfg now st e
    | inr (u, l, f) ↦ ground (arith, u, l, f)
  ],
)

-- A tick takes the eligibility of a host that no provider has lost only from a pending host, and
-- only when its release time has come.
pub tick_status-release :
    (cfg : HealthConfig) (now : ℕ) (st : Status)
    → st.missing_at ≡ 0
    → is_eligible st ≡ true
    → is_eligible (tick_status cfg now st) ≡ false
    → (st.state ≡ pending) × (st.release_at ≤ now)
unfolding expire_timer expire_missing
tick_status-release cfg now st m e f = ground arith
