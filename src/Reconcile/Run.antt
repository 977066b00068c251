-- ===== src/Reconcile/Run.antt =====
-- `Reconcile`, `buildStats` and `slotsFingerprint` of internal/reconcile/reconcile.go. The measured
-- duration of the run is left out of the statistics.
pub mod Members
pub mod Rebuild
pub mod Valid
use network_mesh_exporter.Base.{
  ℕ, ◌+◌, Bool, false, true, not, ◌&&◌, ◌||◌, List, [], ◌∷◌, ◌++◌, Option, none, some, length,
  if◌then◌else◌, ltb, eqb,
}
use network_mesh_exporter.Base.Map.{Map}
use network_mesh_exporter.Base.Sort.{sort}
use network_mesh_exporter.Base.Str.{Str, ◌==◌, str_ltb}
use network_mesh_exporter.Inventory
use network_mesh_exporter.Pairing
use network_mesh_exporter.Slot.{
  Class, Side, side_a, side_b, Rank, unfilled, unique, min_use, any, SlotsConfig, compute_layout,
}
use network_mesh_exporter.State
use network_mesh_exporter.State.{State, Slot, is_filled, is_live}
use network_mesh_exporter.Zone
use network_mesh_exporter.Zone.{Index}
use network_mesh_exporter.Reconcile.{SideChange, Delta, Input, Env, class_eqb}
use network_mesh_exporter.Reconcile.Diff.{diff_pairings}
use network_mesh_exporter.Reconcile.Validate.{validate_sides}
use network_mesh_exporter.Reconcile.Super.{update_super}
use network_mesh_exporter.Reconcile.Fill.{fill_sides}

-- The two maps of counts are functions.
pub record Stats : Type 0 where
  pub hosts : ℕ
  pub unresolved : ℕ
  pub zones : ℕ
  pub pairings : ℕ
  pub slots_total : ℕ
  pub slots_filled : ℕ
  pub slots_unfilled : ℕ
  pub by_class : Class → ℕ
  pub by_rank : Rank → ℕ

abbrev rank_eqb : Rank → Rank → Bool
rank_eqb unfilled unfilled = true
rank_eqb unique unique = true
rank_eqb min_use min_use = true
rank_eqb any any = true
rank_eqb _ _ = false

abbrev bump_class : Class → (Class → ℕ) → Class → ℕ
bump_class c f x = if class_eqb x c then f x + 1 else f x

abbrev bump_rank : Rank → (Rank → ℕ) → Rank → ℕ
bump_rank r f x = if rank_eqb x r then f x + 1 else f x

unfoldable pub stat_slot : Stats → Slot → Stats
stat_slot st s =
    let seen = record st {
      slots_total = st.slots_total + 1;
      by_class = bump_class s.class st.by_class;
    } in
    if is_filled s
    then record seen {
      slots_filled = st.slots_filled + 1;
      by_rank = bump_rank s.rank_b (bump_rank s.rank_a st.by_rank);
    }
    else record seen { slots_unfilled = st.slots_unfilled + 1 }

unfoldable pub stat_slots : Stats → List Slot → Stats
stat_slots st [] = st
stat_slots st (s ∷ ss) = stat_slots (stat_slot st s) ss

unfoldable pub stat_pairings : Stats → Map State.Pairing → Stats
stat_pairings st [] = st
stat_pairings st ((key, p) ∷ ps) =
    stat_pairings
      (if is_live p then stat_slots (record st { pairings = st.pairings + 1 }) p.slots else st) ps

unfoldable pub build_stats : ℕ → Index → State → Stats
build_stats hosts idx st =
    stat_pairings
      (record {
        hosts = hosts;
        unresolved = length idx.unresolved;
        zones = length idx.zones;
        pairings = 0;
        slots_total = 0;
        slots_filled = 0;
        slots_unfilled = 0;
        by_class = λ c. 0;
        by_rank = λ r. 0;
      })
      st.pairings

unfoldable pub slots_fingerprint : Env → SlotsConfig → Str
slots_fingerprint env c =
    env.sprintf c.count c.anchor_ratio c.anchor_rounding c.super_hosts c.super_max_targets
      c.allow_reuse

pub record Output : Type 0 where
  pub state : State
  pub delta : Delta
  pub stats : Stats
  pub index : Index

abbrev side_less : Side → Side → Bool
side_less side_a side_b = true
side_less _ _ = false

-- `SidesChanged[i]` comes before `SidesChanged[j]`.
abbrev pub change_less : SideChange → SideChange → Bool
change_less a b =
    if a.pairing == b.pairing
    then (if eqb a.slot b.slot then side_less a.side b.side else ltb a.slot b.slot)
    else str_ltb a.pairing b.pairing

-- The state that the phases start from: the current one, unless a fingerprint of it differs.
unfoldable pub starting_state : Env → Input → State
unfolding slots_fingerprint
starting_state env i =
    let zone_fp = i.rule.fp in
    let slot_fp = slots_fingerprint env i.slots in
    let next : State = elim i.current [ none ↦ State.new zone_fp slot_fp | some st ↦ st ] in
    if not (next.zone_rule == zone_fp) || not (next.slots_config == slot_fp)
    then State.new zone_fp slot_fp
    else next

-- The four phases, on a set of wanted pairings.
unfoldable pub assign : Env → Input → Index → List Pairing.Pairing → State → State × Delta
assign env i idx want next =
    let layout = compute_layout env.float64 i.slots in
    let (d, removed) = diff_pairings layout i.now i.pairing_removal_hold want next.pairings in
    let (checked, c1) = validate_sides i.snapshot i.eligible idx d.pairings in
    let u =
      update_super i.now layout i.slots i.scanner i.snapshot i.eligible idx checked
        next.super_hosts in
    let (filled, c2) = fill_sides i.scanner i.now i.eligible idx u.pairings in
    (
      record next { pairings = filled; super_hosts = u.super_hosts },
      record {
        pairings_added = sort str_ltb d.added;
        pairings_removed = sort str_ltb removed;
        sides_changed = sort change_less (d.changes ++ (c1 ++ (u.changes ++ c2)));
        super_changed = sort str_ltb u.super_changed;
      },
    )

-- What a reconcile returns, for the wanted pairings.
unfoldable pub output : Env → Input → List Pairing.Pairing → Output
output env i want =
    let idx = Zone.build i.rule i.snapshot in
    let (next, delta) = assign env i idx want (starting_state env i) in
    record {
      state = next;
      delta = delta;
      stats = build_stats (Inventory.len i.snapshot) idx next;
      index = idx;
    }

-- The clock is read where `now` is zero.
unfoldable pub timed : ℕ → Input → Input
timed clock given = if eqb given.now 0 then record given { now = clock } else given

-- `Reconcile`. The error of `pairing.Build` ends it.
unfoldable pub reconcile : Env → ℕ → Input → Pairing.Result Output
reconcile env clock given =
    let i = timed clock given in
    elim (Pairing.build env.path_match (Zone.build i.rule i.snapshot) i.pairings i.filter) [
      | Pairing.err e ↦ Pairing.err e
      | Pairing.ok want ↦ Pairing.ok (output env i want)
    ]
