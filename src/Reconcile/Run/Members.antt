-- ===== src/Reconcile/Run/Members.antt =====
-- The hosts that a reconcile chooses from, by internal/zone/zone.go and
-- internal/inventory/inventory.go, pass the check of `checkSide`.
use network_mesh_exporter.Base.{ℕ, ◌≡◌, Bool, true, none, some, arith}
use network_mesh_exporter.Base.Sort.{IsStrict}
use network_mesh_exporter.Base.Str.{Str}
use network_mesh_exporter.Base.Strs.{contains}
use network_mesh_exporter.Inventory.{Snapshot, Store, id_less, get, build_snapshot}
use network_mesh_exporter.Inventory.Merge.{merge-IsStrict}
use network_mesh_exporter.Inventory.Snap.{find, find-merge, get-build_snapshot}
use network_mesh_exporter.Zone.{Rule, members_of, build, zone_of}
use network_mesh_exporter.Zone.HostZone.{zone_of-build, zone_of-iff-member}
use network_mesh_exporter.Reconcile.Validate.{fault}

-- A snapshot as the store makes it: hosts in order of their IDs, each found under its own ID.
pub record IsMerged (snap : Snapshot) : Type 0 where
  pub sorted : IsStrict id_less snap.hosts
  pub found : (id : Str) → get snap id ≡ find id snap.hosts

pub build_snapshot-IsMerged : (now : ℕ) (st : Store) → IsMerged (build_snapshot now st)
unfolding build_snapshot
build_snapshot-IsMerged now st = record {
  sorted = merge-IsStrict st.sets;
  found = λ id. ground (arith, get-build_snapshot now st id, find-merge id st.sets);
}

-- An eligible member of a zone has no fault on a side of that zone.
pub member-fault :
    (r : Rule) (snap : Snapshot) (eligible : Str → Bool) (zone id : Str)
    → IsMerged snap
    → contains id (members_of zone (build r snap).members) ≡ true
    → eligible id ≡ true
    → fault snap eligible (build r snap) zone id ≡ none
unfolding fault
member-fault r snap eligible zone id m c e =
    let z : zone_of (build r snap) id ≡ some zone =
      (zone_of-iff-member r snap id zone m.sorted).1 c in
    ground (arith, z, zone_of-build r snap id m.sorted, m.found id)
