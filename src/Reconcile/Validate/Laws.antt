-- ===== src/Reconcile/Validate/Laws.antt =====
-- What `validateSides` of internal/reconcile/reconcile.go leaves.
use network_mesh_exporter.Base.{
  ◌≡◌, ◌⊎◌, inl, inr, Bool, true, List, [], ◌∷◌, none, some, All, arith, Bool-cases, Option-cases,
}
use network_mesh_exporter.Base.Map.{Map}
use network_mesh_exporter.Base.Str.{Str}
use network_mesh_exporter.Inventory.{Snapshot, HostRecord, get}
use network_mesh_exporter.Slot.{Rank}
use network_mesh_exporter.State.{Slot, Pairing, is_live}
use network_mesh_exporter.Zone.{Index, zone_of}
use network_mesh_exporter.Reconcile.Validate.{
  fault, host_present, check_slot, check_slots, validate_pairing, validate_sides,
}

module _ (snap : Snapshot) (eligible : Str → Bool) (idx : Index) where
  -- A side that is empty, or holds a host that may stay there.
  abbrev pub SideOk : Str → Str → Type 0
  SideOk zone id = (id ≡ []) ⊎ (fault snap eligible idx zone id ≡ none)

  abbrev pub SlotOk : Pairing → Slot → Type 0
  SlotOk p s = SideOk p.zone_a s.host_a × SideOk p.zone_b s.host_b

  -- The snapshot has the host, the host may hold a side, and the index puts it in the zone.
  pub record MayStay (zone id : Str) : Type 0 where
    pub record_of : HostRecord
    pub present : get snap id ≡ some record_of
    pub fit : eligible id ≡ true
    pub own_zone : zone_of idx id ≡ some zone

  pub fault-none : (zone id : Str) → fault snap eligible idx zone id ≡ none → MayStay zone id
  unfolding fault host_present
  fault-none zone id e = elim (Option-cases (get snap id)) [
    | inl g ↦ absurd (ground (arith, g, e))
    | inr (h, g) ↦ elim (Option-cases (zone_of idx id)) [
      | inl z ↦ absurd (ground (arith, g, z, e))
      | inr (got, z) ↦ record {
        record_of = h;
        present = g;
        fit = ground (arith, g, z, e);
        own_zone = ground (arith, g, z, e);
      }
    ]
  ]

  pub fault-MayStay : (zone id : Str) → MayStay zone id → fault snap eligible idx zone id ≡ none
  unfolding fault host_present
  fault-MayStay zone id m = ground (arith, m.present, m.fit, m.own_zone)

  -- Each side is empty or holds a host that may stay there.
  abbrev pub IsSettled : Pairing → Slot → Type 0
  IsSettled p s =
      ((s.host_a ≡ []) ⊎ MayStay p.zone_a s.host_a) × ((s.host_b ≡ []) ⊎ MayStay p.zone_b s.host_b)

  side-MayStay : (zone id : Str) → SideOk zone id → (id ≡ []) ⊎ MayStay zone id
  side-MayStay zone id (inl e) = inl e
  side-MayStay zone id (inr e) = inr (fault-none zone id e)

  pub SlotOk-IsSettled : (p : Pairing) (s : Slot) → SlotOk p s → IsSettled p s
  SlotOk-IsSettled p s h = (side-MayStay p.zone_a s.host_a h.0, side-MayStay p.zone_b s.host_b h.1)

  -- What the check makes of one side: it keeps a host that may stay, and its rank, and clears the side
  -- of any other host.
  pub record IsCheckedSide (zone before after : Str) (rank kept : Rank) : Type 0 where
    pub stays : MayStay zone before → (after ≡ before) × (kept ≡ rank)
    pub goes : ¬ MayStay zone before → after ≡ []

  -- What the check makes of the slot `s`.
  pub record IsChecked (p : Pairing) (s t : Slot) : Type 0 where
    pub a_side : IsCheckedSide p.zone_a s.host_a t.host_a s.rank_a t.rank_a
    pub b_side : IsCheckedSide p.zone_b s.host_b t.host_b s.rank_b t.rank_b
    pub same_index : t.index ≡ s.index
    pub same_class : t.class ≡ s.class
    pub same_target : t.super_target ≡ s.super_target

  -- The check of a slot keeps the host of a side, with its rank, exactly where the snapshot has it,
  -- it is eligible, and it is in the zone of the side; it clears the other sides, each side by
  -- itself, and the index, the class and the super target stay.
  pub check_slot-IsChecked :
      (p : Pairing) (s : Slot) → IsChecked p s (check_slot snap eligible idx p s).0
  unfolding check_slot
  check_slot-IsChecked p s = record {
    a_side = record {
      stays = λ m. ground (arith, fault-MayStay p.zone_a s.host_a m);
      goes = λ n. elim (Option-cases (fault snap eligible idx p.zone_a s.host_a)) [
        | inl e ↦ absurd (n (fault-none p.zone_a s.host_a e))
        | inr (r, e) ↦ ground (arith, e)
      ];
    };
    b_side = record {
      stays = λ m. ground (arith, fault-MayStay p.zone_b s.host_b m);
      goes = λ n. elim (Option-cases (fault snap eligible idx p.zone_b s.host_b)) [
        | inl e ↦ absurd (n (fault-none p.zone_b s.host_b e))
        | inr (r, e) ↦ ground (arith, e)
      ];
    };
    same_index = ground arith;
    same_class = ground arith;
    same_target = ground arith;
  }

  pub check_slot-SlotOk : (p : Pairing) (s : Slot) → SlotOk p (check_slot snap eligible idx p s).0
  unfolding check_slot
  check_slot-SlotOk p s = ground arith

  check_slots-SlotOk :
      (p : Pairing) (ss : List Slot) → All (SlotOk p) (check_slots snap eligible idx p ss).0
  unfolding check_slots
  check_slots-SlotOk p [] = tt
  check_slots-SlotOk p (s ∷ ss) = (check_slot-SlotOk p s, check_slots-SlotOk p ss)

  -- Every slot of a pairing that is not marked for removal passes.
  abbrev pub PairingOk : Str × Pairing → Type 0
  PairingOk e = is_live e.1 ≡ true → All (SlotOk e.1) e.1.slots

  validate_pairing-PairingOk :
      (key : Str) (p : Pairing) → PairingOk (key, (validate_pairing snap eligible idx p).0)
  unfolding validate_pairing is_live
  validate_pairing-PairingOk key p l = elim (Bool-cases (is_live p)) [
    | inl e ↦
        let same : (validate_pairing snap eligible idx p).0
            ≡ record p { slots = (check_slots snap eligible idx p p.slots).0 } =
          ground arith in
        rw same (check_slots-SlotOk p p.slots)
    | inr e ↦ ground arith
  ]

  pub validate_sides-PairingOk :
      (ps : Map Pairing) → All PairingOk (validate_sides snap eligible idx ps).0
  unfolding validate_sides
  validate_sides-PairingOk [] = tt
  validate_sides-PairingOk ((key, p) ∷ ps) =
      (validate_pairing-PairingOk key p, validate_sides-PairingOk ps)
