-- ===== src/Reconcile/Super/Churn.antt =====
-- The super slots of the far direction, by `superPairs` and `checkSide` of
-- internal/reconcile/reconcile.go.
use network_mesh_exporter.Base.{ℕ, ◌≡◌, ◌≢◌, Bool, [], some, length, arith}
use network_mesh_exporter.Base.Str.{Str}
use network_mesh_exporter.Inventory.{Snapshot}
use network_mesh_exporter.Reconcile.Super.{SuperPair, super_slot}
use network_mesh_exporter.Reconcile.Validate.{check_side, check_slot, fault}
use network_mesh_exporter.State.{Pairing, host, set_host}
use network_mesh_exporter.Zone.{Index, zone_of}

-- A super slot whose source is in the second zone of a pairing of two zones, and whose target is in
-- the first, both with IDs that are not empty, loses both hosts in a check, even where both are
-- present and eligible, and two changes are recorded.
pub super_slot-cleared :
    (snap : Snapshot) (eligible : Str → Bool) (idx : Index) (p : Pairing) (now i : ℕ)
    (w : SuperPair)
    → w.src ≢ []
    → w.dst ≢ []
    → p.zone_a ≢ p.zone_b
    → zone_of idx w.src ≡ some p.zone_b
    → zone_of idx w.dst ≡ some p.zone_a
    → ((check_slot snap eligible idx p (super_slot now i w)).0.host_a ≡ [])
      × ((check_slot snap eligible idx p (super_slot now i w)).0.host_b ≡ [])
      × (length (check_slot snap eligible idx p (super_slot now i w)).1 ≡ 2)
unfolding check_slot check_side fault host set_host
super_slot-cleared snap eligible idx p now i w s d n za zb =
    (ground arith, ground arith, ground arith)
