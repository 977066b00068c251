-- ===== src/Tests/Tables.antt =====
-- Examples on the phases of internal/reconcile/reconcile.go.
use network_mesh_exporter.Base.{
  arith, ◌≡◌, ◌++◌, refl, inl, inr, false, true, List, [], ◌∷◌, some, none, All, length, keep,
}
use network_mesh_exporter.Base.Map.{Map, insert, lookup}
use network_mesh_exporter.Base.Str.{str_ltb, ◌==◌, bytes, str_dec}
use network_mesh_exporter.Pairing
use network_mesh_exporter.Reconcile.{is_super, SideChange}
use network_mesh_exporter.Reconcile.Super.{SuperPair, super_slot}
use network_mesh_exporter.Reconcile.Super.Churn.{super_slot-cleared}
use network_mesh_exporter.Inventory.{build_snapshot, merge, merge_sets, merge_hosts, merge_host}
use network_mesh_exporter.Base.Sort.{sort, insert_sorted}
use network_mesh_exporter.Reconcile.Diff.{diff_pairings, is_wanted}
use network_mesh_exporter.Reconcile.Diff.Laws.{diff_pairings_unwanted, diff_pairings_wanted}
use network_mesh_exporter.Reconcile.Fill.{is_anchor, fill_anchor_side, fill_slot}
use network_mesh_exporter.Reconcile.Fill.Anchors.{final_anchor, fill_anchor_side-uniform}
use network_mesh_exporter.Base.Strs.{contains}
use network_mesh_exporter.Reconcile.Fill.Filled.{fill_slot_filled}
use network_mesh_exporter.Reconcile.Fill.Diverse.{IsSlotFill, fill_slot-IsSlotFill}
use network_mesh_exporter.Reconcile.Resize.{resize_slots}
use network_mesh_exporter.Reconcile.Resize.Laws.{
  IsLaidOut, resize_slots-IsLaidOut, resize_slots-same,
}
use network_mesh_exporter.Reconcile.Validate.{check_slot}
use network_mesh_exporter.Reconcile.Validate.Laws.{IsChecked, check_slot-IsChecked}
use network_mesh_exporter.Slot.{class_at, anchor, diverse, side_a}
use network_mesh_exporter.State.{is_filled, Slot, Pairing, host, is_live}
use network_mesh_exporter.Tests.{candidates, layout, pair, rule, slot_of, slots_config, snapshot}
use network_mesh_exporter.Zone.{
  build, zone_of, add_hosts, add_host, apply, join, key_value, key_values, members_of,
}

check_slot-IsChecked_example :
    IsChecked snapshot
      (λ id. id == bytes "a1")
      (build rule snapshot)
      pair
      (slot_of 0 anchor (bytes "a1") (bytes "a2"))
      (check_slot snapshot
        (λ id. id == bytes "a1")
        (build rule snapshot)
        pair
        (slot_of 0 anchor (bytes "a1") (bytes "a2"))).0
check_slot-IsChecked_example =
    check_slot-IsChecked snapshot (λ id. id == bytes "a1") (build rule snapshot) pair
      (slot_of 0 anchor (bytes "a1") (bytes "a2"))

fill_slot-IsSlotFill_example :
    IsSlotFill pair
      (slot_of 1 diverse (bytes "a2") [])
      (fill_slot slots_config 9 pair
        (bytes "r1|r2")
        (slot_of 1 diverse (bytes "a2") [])
        candidates
        (record candidates { hosts = bytes "b1" ∷ [] })).0
      candidates.hosts
      (bytes "b1" ∷ [])
fill_slot-IsSlotFill_example =
    fill_slot-IsSlotFill slots_config 9 pair (bytes "r1|r2") (slot_of 1 diverse (bytes "a2") [])
      candidates (record candidates { hosts = bytes "b1" ∷ [] })

fill_slot_filled_example :
    is_filled
      (fill_slot slots_config 9 pair
        (bytes "r1|r2")
        (slot_of 1 diverse (bytes "a2") [])
        candidates
        (record candidates { hosts = bytes "b1" ∷ [] })).0
    ≡ true
unfolding contains str_dec
fill_slot_filled_example =
    fill_slot_filled slots_config 9 pair (bytes "r1|r2") (slot_of 1 diverse (bytes "a2") [])
      candidates (record candidates { hosts = bytes "b1" ∷ [] }) refl refl refl (omega arith)
      (omega arith) refl refl

-- Two anchor slots, of which the second has lost its first host.
abbrev anchors : List Slot
anchors = slot_of 0 anchor (bytes "a1") (bytes "b1") ∷ slot_of 1 anchor [] (bytes "b1") ∷ []

fill_anchor_side-uniform_example :
    All
      (λ t.
        is_anchor t ≡ true
        → host t side_a ≡ final_anchor pair (bytes "r1|r2") side_a anchors candidates)
      (fill_anchor_side 9 pair (bytes "r1|r2") side_a anchors candidates).0
unfolding host
fill_anchor_side-uniform_example =
    fill_anchor_side-uniform 9 pair (bytes "r1|r2") side_a (bytes "a1") anchors candidates
      ((λ _. inr refl), ((λ _. inl refl), tt))

-- The pairing, marked for removal at 20.
abbrev marked : Map Pairing
marked = (bytes "r1|r2", record pair { remove_at = 20 }) ∷ []

diff_pairings_unwanted_example :
    lookup (bytes "r1|r2") (diff_pairings layout 25 10 [] marked).0.pairings ≡ none
unfolding lookup is_wanted str_dec
diff_pairings_unwanted_example =
    diff_pairings_unwanted layout 25 10 [] marked (bytes "r1|r2") (record pair { remove_at = 20 })
      (tt, tt) refl refl

abbrev wanted_pair : Pairing.Pairing
wanted_pair = record {
  key = bytes "r1|r2";
  zone_a = bytes "r1";
  zone_b = bytes "r2";
  intra = false;
}

diff_pairings_wanted_example :
    (p : Pairing) × (lookup
        (bytes "r1|r2")
        (diff_pairings layout 25 10 (wanted_pair ∷ []) marked).0.pairings
      ≡ some p)
    × (is_live p ≡ true)
unfolding is_wanted str_dec
diff_pairings_wanted_example =
    diff_pairings_wanted layout 25 10 (wanted_pair ∷ []) marked (bytes "r1|r2") (tt, tt) refl

resize_slots-IsLaidOut_example :
    (base : List Slot) × ((resize_slots layout pair).0.slots ≡ base ++ keep is_super pair.slots)
    × (length base ≡ 2)
    × IsLaidOut layout 0 base
resize_slots-IsLaidOut_example = resize_slots-IsLaidOut layout pair

resize_slots-same_example : resize_slots layout pair ≡ (pair, [])
unfolding class_at
resize_slots-same_example =
    resize_slots-same layout pair pair.slots [] refl (refl, (refl, tt)) tt refl
      (refl, refl, (refl, refl, tt))

-- The super host `b1` of the second zone, measured against `a1`.
abbrev far_pair : SuperPair
far_pair = record { src = bytes "b1"; dst = bytes "a1" }

abbrev far_check : Slot × List SideChange
far_check = check_slot snapshot (λ id. true) (build rule snapshot) pair (super_slot 9 2 far_pair)

zone_of_b1 : zone_of (build rule snapshot) (bytes "b1") ≡ some (bytes "r2")
unfolding zone_of build sort insert_sorted add_hosts build_snapshot merge merge_sets merge_hosts
    merge_host lookup insert str_dec str_ltb add_host apply join key_value key_values members_of
zone_of_b1 = refl

zone_of_a1 : zone_of (build rule snapshot) (bytes "a1") ≡ some (bytes "r1")
unfolding zone_of build sort insert_sorted add_hosts build_snapshot merge merge_sets merge_hosts
    merge_host lookup insert str_dec str_ltb add_host apply join key_value key_values members_of
zone_of_a1 = refl

super_slot-cleared_example :
    (far_check.0.host_a ≡ []) × (far_check.0.host_b ≡ []) × (length far_check.1 ≡ 2)
super_slot-cleared_example =
    super_slot-cleared snapshot (λ id. true) (build rule snapshot) pair 9 2 far_pair (λ e. cc)
      (λ e. cc) (λ e. ground arith) zone_of_b1 zone_of_a1
