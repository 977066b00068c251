-- ===== src/State/Sides.antt =====
-- The two sides of a slot of internal/state/state.go.
use network_mesh_exporter.Base.{ℕ, ◌+◌, ◌≤◌, ◌≡◌, refl, List, [], ◌∷◌, arith, if◌then◌else◌, ◌≢◌}
use network_mesh_exporter.Base.Map.{Map}
use network_mesh_exporter.Base.Str.{Str}
use network_mesh_exporter.Slot.{Side, side_a, side_b, Rank}
use network_mesh_exporter.State.{
  Slot, Pairing, State, host, set_host, rank_of, is_filled, is_live, count_slots, counts_from,
  counts,
}

-- An assignment of one side shows on that side, leaves the other side as it was, and keeps the
-- index, the class and the super target.
pub record IsAssigned (side far : Side) (id : Str) (rank : Rank) (s t : Slot) : Type 0 where
  pub host_set : host t side ≡ id
  pub rank_set : rank_of t side ≡ rank
  pub far_host : host t far ≡ host s far
  pub far_rank : rank_of t far ≡ rank_of s far
  pub same_index : t.index ≡ s.index
  pub same_class : t.class ≡ s.class

pub set_host-sides :
    (side far : Side) (id : Str) (rank : Rank) (now : ℕ) (s : Slot)
    → side ≢ far
    → IsAssigned side far id rank s (set_host side id rank now s)
unfolding set_host host rank_of
set_host-sides side_a side_a id rank now s h = absurd (h refl)
set_host-sides side_a side_b id rank now s h = record {
  host_set = refl;
  rank_set = refl;
  far_host = refl;
  far_rank = refl;
  same_index = refl;
  same_class = refl;
}
set_host-sides side_b side_a id rank now s h = record {
  host_set = refl;
  rank_set = refl;
  far_host = refl;
  far_rank = refl;
  same_index = refl;
  same_class = refl;
}
set_host-sides side_b side_b id rank now s h = absurd (h refl)

count_slots-le :
    (n : ℕ × ℕ) (ss : List Slot) → n.1 ≤ n.0 → (count_slots n ss).1 ≤ (count_slots n ss).0
unfolding count_slots
count_slots-le (total, filled) [] h = h
count_slots-le (total, filled) (s ∷ ss) h =
    count_slots-le (total + 1, if is_filled s then filled + 1 else filled) ss (ground arith)

counts_from-le :
    (n : ℕ × ℕ) (ps : Map Pairing) → n.1 ≤ n.0 → (counts_from n ps).1 ≤ (counts_from n ps).0
unfolding counts_from
counts_from-le n [] h = h
counts_from-le n ((key, p) ∷ ps) h =
    counts_from-le (if is_live p then count_slots n p.slots else n) ps
      (ground (arith, count_slots-le n p.slots h))

-- No more slots are filled than there are.
pub counts-le : (s : State) → (counts s).1 ≤ (counts s).0
unfolding counts
counts-le s = counts_from-le (0, 0) s.pairings (omega arith)
