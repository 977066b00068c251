-- ===== src/Reconcile/Run/Rebuild.antt =====
-- A reconcile that rebuilds the table from scratch, by internal/reconcile/reconcile.go.
use network_mesh_exporter.Base.{ℕ, ◌≡◌, refl, false, true, List, [], some, arith, eqb}
use network_mesh_exporter.Base.Str.{Str, ◌==◌}
use network_mesh_exporter.State
use network_mesh_exporter.State.{State}
use network_mesh_exporter.Zone.{Index}
use network_mesh_exporter.Zone
use network_mesh_exporter.Pairing
use network_mesh_exporter.Reconcile.{Input, Env, is_empty}
use network_mesh_exporter.Base.Sort.{sort}
use network_mesh_exporter.Reconcile.Diff.{diff_pairings, ensure_all, sweep}
use network_mesh_exporter.Reconcile.Validate.{validate_sides}
use network_mesh_exporter.Reconcile.Fill.{fill_sides, fill_keys, live_keys}
use network_mesh_exporter.Reconcile.Super.{update_super, drop_supers}
use network_mesh_exporter.Reconcile.Run.{
  assign, starting_state, slots_fingerprint, Output, output, timed, reconcile,
}

-- A table whose slot fingerprint is not that of the configuration is dropped.
pub starting_state-rebuilt :
    (env : Env) (i : Input) (st : State)
    → i.current ≡ some st
    → (st.slots_config == slots_fingerprint env i.slots) ≡ false
    → starting_state env i ≡ State.new i.rule.fp (slots_fingerprint env i.slots)
unfolding starting_state slots_fingerprint
starting_state-rebuilt env i st e f = ground arith

assign-nothing :
    (env : Env) (i : Input) (idx : Index) (zone_fp slot_fp : Str)
    → i.slots.super_hosts ≡ 0
    → assign env i idx [] (State.new zone_fp slot_fp) ≡ (
      State.new zone_fp slot_fp,
      record { pairings_added = []; pairings_removed = []; sides_changed = []; super_changed = [] },
    )
unfolding assign State.new diff_pairings ensure_all sweep validate_sides update_super drop_supers
    fill_sides fill_keys live_keys sort
assign-nothing env i idx zone_fp slot_fp z = rw z refl

pub reconcile-ok :
    (env : Env) (clock : ℕ) (i : Input) (want : List Pairing.Pairing)
    → eqb i.now 0 ≡ false
    → Pairing.build env.path_match (Zone.build i.rule i.snapshot) i.pairings i.filter
      ≡ Pairing.ok want
    → reconcile env clock i ≡ Pairing.ok (output env i want)
unfolding reconcile timed
reconcile-ok env clock i want n w = ground arith

-- A reconcile, at a time that is not zero, of a table whose slot fingerprint is not that of the
-- configuration, with no wanted pairing and no super hosts, returns the empty table and an empty
-- delta: none of the pairings that the table had is reported as removed.
pub reconcile_silent :
    (env : Env) (clock : ℕ) (i : Input) (st : State)
    → eqb i.now 0 ≡ false
    → i.current ≡ some st
    → (st.slots_config == slots_fingerprint env i.slots) ≡ false
    → i.slots.super_hosts ≡ 0
    → Pairing.build env.path_match (Zone.build i.rule i.snapshot) i.pairings i.filter
      ≡ Pairing.ok []
    → (out : Output) × (reconcile env clock i ≡ Pairing.ok out)
      × (out.state ≡ State.new i.rule.fp (slots_fingerprint env i.slots))
      × (is_empty out.delta ≡ true)
unfolding output is_empty
reconcile_silent env clock i st n e f z w = (
  output env i [],
  reconcile-ok env clock i [] n w,
  rw
      (
        starting_state-rebuilt env i st e f,
        assign-nothing env i (Zone.build i.rule i.snapshot) i.rule.fp
            (slots_fingerprint env i.slots) z,
      )
      refl,
  rw
      (
        starting_state-rebuilt env i st e f,
        assign-nothing env i (Zone.build i.rule i.snapshot) i.rule.fp
            (slots_fingerprint env i.slots) z,
      )
      refl,
)
