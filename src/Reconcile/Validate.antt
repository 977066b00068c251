-- ===== src/Reconcile/Validate.antt =====
-- `validateSides` and `checkSide` of internal/reconcile/reconcile.go.
pub mod Laws
use network_mesh_exporter.Base.{
  ℕ, Bool, false, true, List, [], ◌∷◌, ◌++◌, Option, none, some, if◌then◌else◌,
}
use network_mesh_exporter.Base.Map.{Map}
use network_mesh_exporter.Base.Str.{Str, ◌==◌}
use network_mesh_exporter.Inventory.{Snapshot, get}
use network_mesh_exporter.Slot.{Side, side_a, side_b, Rank}
use network_mesh_exporter.State.{Slot, Pairing, host, set_host, is_live}
use network_mesh_exporter.Zone.{Index, zone_of}
use network_mesh_exporter.Reconcile.{
  SideChange, Reason, host_gone, host_unhealthy, zone_changed, removal,
}

unfoldable pub host_present : Snapshot → Str → Bool
host_present snap id = elim (get snap id) [ none ↦ false | some _ ↦ true ]

-- Why a host may not stay on a side of a zone, if there is a reason.
unfoldable pub fault : Snapshot → (Str → Bool) → Index → Str → Str → Option Reason
unfolding host_present
fault snap eligible idx want id =
    if host_present snap id
    then (if eligible id
        then (elim (zone_of idx id) [
          | none ↦ some zone_changed
          | some got ↦ if got == want then none else some zone_changed
        ])
        else some host_unhealthy)
    else some host_gone

module _ (snap : Snapshot) (eligible : Str → Bool) (idx : Index) where
  unfoldable pub check_side : Str → Str → Side → Slot → Slot × List SideChange
  unfolding set_host host
  check_side key want side s =
      let checked : Slot × List SideChange = elim (fault snap eligible idx want (host s side)) [
        | none ↦ (s, [])
        | some reason ↦ (
          set_host side [] Rank.unfilled 0 s,
          removal key s.index side s.class (host s side) reason ∷ [],
        )
      ] in
      if host s side == [] then (s, []) else checked

  unfoldable pub check_slot : Pairing → Slot → Slot × List SideChange
  unfolding check_side
  check_slot p s =
      let (s1, c1) = check_side p.key p.zone_a side_a s in
      let (s2, c2) = check_side p.key p.zone_b side_b s1 in (s2, c1 ++ c2)

  unfoldable pub check_slots : Pairing → List Slot → List Slot × List SideChange
  unfolding check_slot
  check_slots p [] = ([], [])
  check_slots p (s ∷ ss) =
      let (s', c) = check_slot p s in let (ss', cs) = check_slots p ss in (s' ∷ ss', c ++ cs)

  unfoldable pub validate_pairing : Pairing → Pairing × List SideChange
  unfolding check_slots
  validate_pairing p =
      let (slots, changes) = check_slots p p.slots in
      if is_live p then (record p { slots = slots }, changes) else (p, [])

  unfoldable pub validate_sides : Map Pairing → Map Pairing × List SideChange
  unfolding validate_pairing
  validate_sides [] = ([], [])
  validate_sides ((key, p) ∷ ps) =
      let (p', c) = validate_pairing p in
      let (ps', cs) = validate_sides ps in ((key, p') ∷ ps', c ++ cs)
