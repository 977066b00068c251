-- ===== src/Reconcile/Super.antt =====
-- `updateSuper`, `superPairs` and `dropSuper` of internal/reconcile/reconcile.go.
pub mod Churn
pub mod Laws
use network_mesh_exporter.Base.{
  ℕ, suc, zero, ◌+◌, ◌-◌, Bool, false, true, not, ◌&&◌, ◌||◌, List, [], ◌∷◌, ◌++◌, map, Option,
  none, some, length, take, drop, keep, if◌then◌else◌, ltb, leb, eqb,
}
use network_mesh_exporter.Base.Map.{Map, lookup, insert, erase}
use network_mesh_exporter.Base.Sort.{sort}
use network_mesh_exporter.Base.Str.{Str, ◌==◌, str_ltb}
use network_mesh_exporter.Base.Strs.{contains}
use network_mesh_exporter.Inventory.{Snapshot}
use network_mesh_exporter.Slot.{super, side_a, side_b, Rank, SlotsConfig, Layout, pick_super}
use network_mesh_exporter.State.{Slot, Pairing, is_live}
use network_mesh_exporter.Zone.{Index, members_of}
use network_mesh_exporter.Reconcile.{
  SideChange, super_changed, new_slot, is_super, removal, assignment, removal_if_held,
}

unfoldable pub drop_changes : Str → List Slot → List SideChange
drop_changes key [] = []
drop_changes key (s ∷ ss) =
    removal_if_held key s.index side_a s.class s.host_a super_changed
    ++ (removal_if_held key s.index side_b s.class s.host_b super_changed ++ drop_changes key ss)

unfoldable pub drop_super : Pairing → Pairing × List SideChange
drop_super p = (
  record p { slots = keep (λ s. not (is_super s)) p.slots },
  drop_changes p.key (keep is_super p.slots),
)

unfoldable pub drop_supers : Map Pairing → Map Pairing × List SideChange
drop_supers [] = ([], [])
drop_supers ((key, p) ∷ ps) =
    let (p', c) = drop_super p in let (ps', cs) = drop_supers ps in ((key, p') ∷ ps', c ++ cs)

unfoldable pub same_strings : List Str → List Str → Bool
same_strings [] [] = true
same_strings [] (y ∷ ys) = false
same_strings (x ∷ xs) [] = false
same_strings (x ∷ xs) (y ∷ ys) = x == y && same_strings xs ys

-- The super hosts of one zone after another: the new map, and the zones whose set changed.
unfoldable pub choose_supers :
    SlotsConfig
    → Snapshot
    → (Str → Bool)
    → Index
    → List Str
    → Map (List Str)
    → Map (List Str) × List Str
choose_supers scanner snap eligible idx [] hosts = (hosts, [])
choose_supers scanner snap eligible idx (z ∷ zones) hosts =
    let chosen =
      pick_super scanner (members_of z idx.members) snap (members_of z hosts) (some eligible) in
    let same = same_strings (members_of z hosts) chosen in
    let (hosts', changed) =
      choose_supers scanner snap eligible idx zones
        (if same then hosts else insert z chosen hosts) in
    (hosts', if same then changed else z ∷ changed)

-- The zones that no longer exist lose their entry.
unfoldable pub drop_zones : Index → Map (List Str) → Map (List Str) × List Str
drop_zones idx [] = ([], [])
drop_zones idx ((z, hosts) ∷ m) =
    let (m', dropped) = drop_zones idx m in
    elim (lookup z idx.members) [ none ↦ (m', z ∷ dropped) | some _ ↦ ((z, hosts) ∷ m', dropped) ]

pub record SuperPair : Type 0 where
  pub src : Str
  pub dst : Str

module _ (eligible : Str → Bool) (max : ℕ) where
  -- The inner loop of `add`, with the count of the pairs made so far.
  unfoldable pub targets : Str → ℕ → List Str → List SuperPair
  targets src n [] = []
  targets src n (dst ∷ dsts) =
      let take_it = not (dst == src) && eligible dst in
      let rest = targets src (if take_it then n + 1 else n) dsts in
      if leb max n then [] else if take_it then record { src = src; dst = dst } ∷ rest else rest

  unfoldable pub add_pairs : List Str → List Str → List SuperPair
  add_pairs [] dsts = []
  add_pairs (src ∷ srcs) dsts =
      let rest = add_pairs srcs dsts in if eligible src then targets src 0 dsts ++ rest else rest

abbrev pub pair_less : SuperPair → SuperPair → Bool
pair_less p q = if p.src == q.src then str_ltb p.dst q.dst else str_ltb p.src q.src

unfoldable pub super_pairs : (Str → Bool) → Index → Map (List Str) → Pairing → ℕ → List SuperPair
super_pairs eligible idx hosts p max =
    let forward =
      add_pairs eligible max (members_of p.zone_a hosts) (members_of p.zone_b idx.members) in
    let back =
      add_pairs eligible max (members_of p.zone_b hosts) (members_of p.zone_a idx.members) in
    sort pair_less (if p.zone_a == p.zone_b then forward else forward ++ back)

abbrev pub pair_key : Str → Str → Str
pair_key src dst = src ++ (b'|' ∷ dst)

-- The map of the super slots that stand above the layout.
unfoldable pub existing_supers : List Slot → Map Slot → Map Slot
existing_supers [] m = m
existing_supers (s ∷ ss) m =
    existing_supers ss (if is_super s then insert (pair_key s.host_a s.super_target) s m else m)

abbrev pub super_slot : ℕ → ℕ → SuperPair → Slot
super_slot now i w = record {
  index = i;
  class = super;
  host_a = w.src;
  host_b = w.dst;
  rank_a = Rank.unique;
  rank_b = Rank.unique;
  assigned_a = now;
  assigned_b = now;
  super_target = w.dst;
}

-- The loop over the wanted pairs from index `i` on.
unfoldable pub place_supers : Str → ℕ → Map Slot → ℕ → List SuperPair → List Slot × List SideChange
place_supers key now existing i [] = ([], [])
place_supers key now existing i (w ∷ ws) =
    let (slots, changes) = place_supers key now existing (suc i) ws in
    elim (lookup (pair_key w.src w.dst) existing) [
      | some s ↦ (record s { index = i } ∷ slots, changes)
      | none ↦ (
        super_slot now i w ∷ slots,
        assignment key i side_a super w.src new_slot Rank.unique
            ∷ assignment key i side_b super w.dst new_slot Rank.unique
            ∷ changes,
      )
    ]

-- What is recorded for the existing super slots that no wanted pair uses.
unfoldable pub unused_supers : Str → List Str → Map Slot → List SideChange
unused_supers key used [] = []
unused_supers key used ((k, s) ∷ m) =
    let rest = unused_supers key used m in
    if contains k used
    then rest
    else removal key s.index side_a super s.host_a super_changed
      ∷ removal key s.index side_b super s.host_b super_changed
      ∷ rest

unfoldable pub update_pairing :
    ℕ → Layout → (Str → Bool) → Index → ℕ → Map (List Str) → Pairing → Pairing × List SideChange
update_pairing now layout eligible idx max hosts p =
    let base = take layout.total p.slots in
    let existing = existing_supers (drop layout.total p.slots) [] in
    let wanted = super_pairs eligible idx hosts p max in
    let used = map (λ w. pair_key w.src w.dst) wanted in
    let (slots, placed) = place_supers p.key now existing layout.total wanted in
    if is_live p
    then (record p { slots = base ++ slots }, placed ++ unused_supers p.key used existing)
    else (p, [])

unfoldable pub update_pairings :
    ℕ
    → Layout
    → (Str → Bool)
    → Index
    → ℕ
    → Map (List Str)
    → Map Pairing
    → Map Pairing × List SideChange
update_pairings now layout eligible idx max hosts [] = ([], [])
update_pairings now layout eligible idx max hosts ((key, p) ∷ ps) =
    let (p', c) = update_pairing now layout eligible idx max hosts p in
    let (ps', cs) = update_pairings now layout eligible idx max hosts ps in
    ((key, p') ∷ ps', c ++ cs)

-- The pairings, the super hosts and the additions to the delta that `updateSuper` leaves.
pub record Update : Type 0 where
  pub pairings : Map Pairing
  pub super_hosts : Map (List Str)
  pub changes : List SideChange
  pub super_changed : List Str

unfoldable pub update_super :
    ℕ
    → Layout
    → SlotsConfig
    → SlotsConfig
    → Snapshot
    → (Str → Bool)
    → Index
    → Map Pairing
    → Map (List Str)
    → Update
update_super now layout cfg scanner snap eligible idx pairings hosts =
    let (dropped, drops) = drop_supers pairings in
    let (chosen, changed) = choose_supers scanner snap eligible idx idx.zones hosts in
    let (left, gone) = drop_zones idx chosen in
    let (updated, changes) =
      update_pairings now layout eligible idx cfg.super_max_targets left pairings in
    if eqb cfg.super_hosts 0
    then record {
      pairings = dropped;
      super_hosts = [];
      changes = drops;
      super_changed = map (λ e. e.0) hosts;
    }
    else record {
      pairings = updated;
      super_hosts = left;
      changes = changes;
      super_changed = changed ++ gone;
    }
