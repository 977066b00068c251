-- ===== src/Reconcile/Fill.antt =====
-- `fillSides`, `fillAnchors` and `fillDiverse` of internal/reconcile/reconcile.go.
pub mod Anchors
pub mod Diverse
pub mod Filled
pub mod Valid
use network_mesh_exporter.Base.{
  ℕ, ◌+◌, Bool, false, true, not, ◌&&◌, ◌||◌, List, [], ◌∷◌, ◌++◌, map, Option, none, some, length,
  keep, if◌then◌else◌, eqb,
}
use network_mesh_exporter.Base.Map.{Map, lookup, insert}
use network_mesh_exporter.Base.Sort.{sort}
use network_mesh_exporter.Base.Str.{Str, ◌==◌, str_ltb}
use network_mesh_exporter.Slot.{
  Class, anchor, diverse, Side, side_a, side_b, Rank, SlotsConfig, Candidates, new_candidates,
  use_host, pick, pick_anchor,
}
use network_mesh_exporter.State.{Slot, Pairing, host, set_host, is_live}
use network_mesh_exporter.Zone.{Index, members_of}
use network_mesh_exporter.Reconcile.{
  SideChange, Reason, new_slot, anchor_reset, class_eqb, assignment,
}

abbrev pub is_anchor : Slot → Bool
is_anchor s = class_eqb s.class anchor

abbrev pub opposite : Side → Side
opposite side_a = side_b
opposite side_b = side_a

-- The first host that an anchor slot holds on a side, or the empty string.
unfoldable pub anchor_host : Side → List Slot → Str
unfolding host
anchor_host side [] = []
anchor_host side (s ∷ ss) =
    if is_anchor s && not (host s side == []) then host s side else anchor_host side ss

-- Whether an anchor slot holds the host on a side.
unfoldable pub held_by_anchor : Side → List Slot → Str → Bool
unfolding host
held_by_anchor side [] id = false
held_by_anchor side (s ∷ ss) id =
    (is_anchor s && not (host s side == []) && host s side == id) || held_by_anchor side ss id

-- The loop that gives the host to every anchor slot whose side is empty.
unfoldable pub copy_anchor :
    Str
    → ℕ
    → Side
    → Str
    → Rank
    → Reason
    → List Slot
    → Candidates
    → List Slot × Candidates × List SideChange
unfolding host set_host
copy_anchor key now side id rank reason [] cand = ([], cand, [])
copy_anchor key now side id rank reason (s ∷ ss) cand =
    let open_side = is_anchor s && host s side == [] in
    let (ss', cand', changes) =
      copy_anchor key now side id rank reason ss (if open_side then use_host id cand else cand) in
    if open_side
    then (
      set_host side id rank now s ∷ ss',
      cand',
      assignment key s.index side anchor id reason rank ∷ changes,
    )
    else (s ∷ ss', cand', changes)

-- The closure `fillSide` of `fillAnchors`.
unfoldable pub fill_anchor_side :
    ℕ → Pairing → Str → Side → List Slot → Candidates → List Slot × Candidates × List SideChange
unfolding anchor_host copy_anchor
fill_anchor_side now p pk side slots cand =
    let current = anchor_host side slots in
    let exclude = λ (id : Str). p.intra && held_by_anchor (opposite side) slots id in
    let (id, rank) = pick_anchor pk cand exclude in
    let picked =
      if id == []
      then (slots, cand, [])
      else copy_anchor p.key now side id rank new_slot slots cand in
    if current == []
    then picked
    else copy_anchor p.key now side current Rank.min_use anchor_reset slots cand

unfoldable pub fill_anchors :
    ℕ
    → Pairing
    → Str
    → List Slot
    → Candidates
    → Candidates
    → List Slot × Candidates × Candidates × List SideChange
unfolding fill_anchor_side
fill_anchors now p pk slots cand_a cand_b =
    let (slots_a, cand_a', changes_a) = fill_anchor_side now p pk side_a slots cand_a in
    let (slots_b, cand_b', changes_b) = fill_anchor_side now p pk side_b slots_a cand_b in
    if eqb (length (keep is_anchor slots)) 0
    then (slots, cand_a, cand_b, [])
    else (slots_b, cand_a', cand_b', changes_a ++ changes_b)

-- One side of one diverse slot.
unfoldable pub fill_side :
    SlotsConfig → ℕ → Pairing → Str → Side → Slot → Candidates → Slot × Candidates × List SideChange
unfolding host set_host
fill_side scanner now p pk side s cand =
    let far = host s (opposite side) in
    let exclude = λ (id : Str). p.intra && not (far == []) && id == far in
    let (id, rank) = pick scanner pk cand exclude in
    if not (host s side == []) then (s, cand, []) else if id == [] then (s, cand, []) else (
      set_host side id rank now s,
      use_host id cand,
      assignment p.key s.index side s.class id new_slot rank ∷ [],
    )

unfoldable pub fill_slot :
    SlotsConfig
    → ℕ
    → Pairing
    → Str
    → Slot
    → Candidates
    → Candidates
    → Slot × Candidates × Candidates × List SideChange
unfolding fill_side
fill_slot scanner now p pk s cand_a cand_b =
    let (s1, cand_a', changes_a) = fill_side scanner now p pk side_a s cand_a in
    let (s2, cand_b', changes_b) = fill_side scanner now p pk side_b s1 cand_b in
    if class_eqb s.class diverse
    then (s2, cand_a', cand_b', changes_a ++ changes_b)
    else (s, cand_a, cand_b, [])

unfoldable pub fill_diverse :
    SlotsConfig
    → ℕ
    → Pairing
    → Str
    → List Slot
    → Candidates
    → Candidates
    → List Slot × List SideChange
fill_diverse scanner now p pk [] cand_a cand_b = ([], [])
fill_diverse scanner now p pk (s ∷ ss) cand_a cand_b =
    let (s', cand_a', cand_b', c) = fill_slot scanner now p pk s cand_a cand_b in
    let (ss', cs) = fill_diverse scanner now p pk ss cand_a' cand_b' in (s' ∷ ss', c ++ cs)

-- The use counts of the hosts that a pairing holds on a side.
unfoldable pub count_held : Side → List Slot → Candidates → Candidates
unfolding host
count_held side [] cand = cand
count_held side (s ∷ ss) cand =
    count_held side ss (if host s side == [] then cand else use_host (host s side) cand)

unfoldable pub fill_pairing :
    SlotsConfig → ℕ → (Str → Bool) → Index → Str → Pairing → Pairing × List SideChange
unfolding count_held fill_anchors fill_diverse
fill_pairing scanner now eligible idx key p =
    let cand_a =
      count_held side_a p.slots
        (new_candidates p.zone_a (members_of p.zone_a idx.members) (some eligible)) in
    let cand_b =
      count_held side_b p.slots
        (new_candidates p.zone_b (members_of p.zone_b idx.members) (some eligible)) in
    let (slots, cand_a', cand_b', c) = fill_anchors now p key p.slots cand_a cand_b in
    let (slots', cs) = fill_diverse scanner now p key slots cand_a' cand_b' in
    (record p { slots = slots' }, c ++ cs)

-- The keys of the pairings that are not marked for removal.
unfoldable pub live_keys : Map Pairing → List Str
live_keys [] = []
live_keys ((key, p) ∷ ps) = if is_live p then key ∷ live_keys ps else live_keys ps

-- The loop over the keys.
unfoldable pub fill_keys :
    SlotsConfig → ℕ → (Str → Bool) → Index → List Str → Map Pairing → Map Pairing × List SideChange
fill_keys scanner now eligible idx [] pairings = (pairings, [])
fill_keys scanner now eligible idx (key ∷ keys) pairings = elim (lookup key pairings) [
  | none ↦ fill_keys scanner now eligible idx keys pairings
  | some p ↦
      let (p', c) = fill_pairing scanner now eligible idx key p in
      let (ps, cs) = fill_keys scanner now eligible idx keys (insert key p' pairings) in
      (ps, c ++ cs)
]

unfoldable pub fill_sides :
    SlotsConfig → ℕ → (Str → Bool) → Index → Map Pairing → Map Pairing × List SideChange
fill_sides scanner now eligible idx pairings =
    fill_keys scanner now eligible idx (sort str_ltb (live_keys pairings)) pairings
