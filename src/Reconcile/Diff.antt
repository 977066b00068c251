-- ===== src/Reconcile/Diff.antt =====
-- `diffPairings` of internal/reconcile/reconcile.go.
pub mod Laws
use network_mesh_exporter.Base.{
  ℕ, ◌+◌, Bool, false, true, not, List, [], ◌∷◌, ◌++◌, Option, none, some, if◌then◌else◌, eqb, leb,
}
use network_mesh_exporter.Base.Map.{Map, lookup, insert}
use network_mesh_exporter.Base.Str.{Str, ◌==◌}
use network_mesh_exporter.Pairing
use network_mesh_exporter.Slot.{Layout}
use network_mesh_exporter.State.{Slot, Pairing}
use network_mesh_exporter.Reconcile.{SideChange}
use network_mesh_exporter.Reconcile.Resize.{resize_slots}

-- The variables of the two loops.
pub record Diff : Type 0 where
  pub pairings : Map Pairing
  pub added : List Str
  pub changes : List SideChange

-- The slot table of a pairing that is new.
abbrev pub new_pairing : Pairing.Pairing → Pairing
new_pairing p = record {
  key = p.key;
  zone_a = p.zone_a;
  zone_b = p.zone_b;
  intra = p.intra;
  slots = [];
  remove_at = 0;
}

abbrev pub current_or_new : Option Pairing → Pairing.Pairing → Pairing
current_or_new none p = new_pairing p
current_or_new (some cur) p = cur

-- One round of the loop over the wanted pairings.
unfoldable pub ensure : Layout → Pairing.Pairing → Diff → Diff
ensure layout p d =
    let cur = current_or_new (lookup p.key d.pairings) p in
    let (resized, changes) = resize_slots layout (record cur { remove_at = 0 }) in
    record {
      pairings = insert p.key resized d.pairings;
      added = elim (lookup p.key d.pairings) [ none ↦ d.added ++ p.key ∷ [] | some _ ↦ d.added ];
      changes = d.changes ++ changes;
    }

unfoldable pub ensure_all : Layout → List Pairing.Pairing → Diff → Diff
ensure_all layout [] d = d
ensure_all layout (p ∷ ps) d = ensure_all layout ps (ensure layout p d)

unfoldable pub is_wanted : Str → List Pairing.Pairing → Bool
is_wanted key [] = false
is_wanted key (p ∷ ps) = if key == p.key then true else is_wanted key ps

-- What the second loop does with one pairing: none where it is deleted.
unfoldable pub sweep_one : ℕ → ℕ → List Pairing.Pairing → Str → Pairing → Option Pairing
sweep_one now hold want key p =
    if is_wanted key want
    then some p
    else if eqb p.remove_at 0
    then some (record p { remove_at = now + hold })
    else if leb p.remove_at now
    then none
    else some p

-- The second loop: the pairings that stay, and the keys of those that are deleted.
unfoldable pub sweep : ℕ → ℕ → List Pairing.Pairing → Map Pairing → Map Pairing × List Str
sweep now hold want [] = ([], [])
sweep now hold want ((key, p) ∷ ps) =
    let (ps', removed) = sweep now hold want ps in
    elim (sweep_one now hold want key p) [
      | none ↦ (ps', key ∷ removed)
      | some p' ↦ ((key, p') ∷ ps', removed)
    ]

unfoldable pub diff_pairings : Layout → ℕ → ℕ → List Pairing.Pairing → Map Pairing → Diff × List Str
diff_pairings layout now hold want pairings =
    let d = ensure_all layout want (record { pairings = pairings; added = []; changes = [] }) in
    let (swept, removed) = sweep now hold want d.pairings in
    (record d { pairings = swept }, removed)
