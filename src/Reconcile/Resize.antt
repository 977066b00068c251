-- ===== src/Reconcile/Resize.antt =====
-- `resizeSlots` of internal/reconcile/reconcile.go.
pub mod Laws
use network_mesh_exporter.Base.{
  ℕ, suc, zero, ◌+◌, ◌-◌, Bool, false, true, not, List, [], ◌∷◌, ◌++◌, length, take, drop, keep,
  if◌then◌else◌,
}
use network_mesh_exporter.Base.Str.{Str, ◌==◌}
use network_mesh_exporter.Slot.{Class, other, side_a, side_b, Rank, Layout, class_at}
use network_mesh_exporter.State.{Slot, Pairing}
use network_mesh_exporter.Reconcile.{
  SideChange, class_changed, class_eqb, is_super, removal_if_held,
}

abbrev pub empty_slot : ℕ → Slot
empty_slot i = record {
  index = i;
  class = other [];
  host_a = [];
  host_b = [];
  rank_a = Rank.unfilled;
  rank_b = Rank.unfilled;
  assigned_a = 0;
  assigned_b = 0;
  super_target = [];
}

-- Empty slots from index `i` on.
unfoldable pub new_slots : ℕ → ℕ → List Slot
new_slots zero i = []
new_slots (suc n) i = empty_slot i ∷ new_slots n (suc i)

-- What is recorded for the slots that are cut off.
unfoldable pub cut_changes : Str → List Slot → List SideChange
cut_changes key [] = []
cut_changes key (s ∷ ss) =
    removal_if_held key s.index side_a s.class s.host_a class_changed
    ++ (removal_if_held key s.index side_b s.class s.host_b class_changed ++ cut_changes key ss)

-- One round of the loop that gives the slots their class.
unfoldable pub reclass : Str → Layout → ℕ → Slot → Slot × List SideChange
reclass key layout i s =
    let want = class_at layout i in
    let cleared_a =
      if s.host_a == [] then s else record s { host_a = []; rank_a = Rank.unfilled } in
    let cleared =
      if s.host_b == []
      then cleared_a
      else record cleared_a { host_b = []; rank_b = Rank.unfilled } in
    if class_eqb s.class want then (record s { index = i }, []) else (
      record cleared { index = i; class = want },
      removal_if_held key i side_a want s.host_a class_changed
          ++ removal_if_held key i side_b want s.host_b class_changed,
    )

unfoldable pub reclass_all : Str → Layout → ℕ → List Slot → List Slot × List SideChange
reclass_all key layout i [] = ([], [])
reclass_all key layout i (s ∷ ss) =
    let (s', d) = reclass key layout i s in
    let (ss', ds) = reclass_all key layout (suc i) ss in (s' ∷ ss', d ++ ds)

unfoldable pub resize_slots : Layout → Pairing → Pairing × List SideChange
resize_slots layout p =
    let supers = keep is_super p.slots in
    let kept = keep (λ s. not (is_super s)) p.slots in
    let base = kept ++ new_slots (layout.total - length kept) (length kept) in
    let cut = cut_changes p.key (drop layout.total base) in
    let (slots, changes) = reclass_all p.key layout 0 (take layout.total base) in
    (record p { slots = slots ++ supers }, cut ++ changes)
