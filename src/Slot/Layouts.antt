-- ===== src/Slot/Layouts.antt =====
-- `ComputeLayout` and `ClassAt` of internal/slot/slot.go.
use network_mesh_exporter.Base.{ℕ, ◌+◌, ◌<◌, ◌≡◌, ◌↔◌, true, arith}
use network_mesh_exporter.Base.Int.{pos_part}
use network_mesh_exporter.Slot.{anchor, Layout, SlotsConfig, Float64, compute_layout, class_at}

-- What the layout of a configuration satisfies.
pub record IsLayout (fl : Float64) (cfg : SlotsConfig) (l : Layout) : Type 0 where
  pub of_count : l.total ≡ pos_part cfg.count
  pub adds_up : l.anchors + l.diverse ≡ l.total
  pub anchored : fl.gt_zero cfg.anchor_ratio ≡ true → 0 < l.total → 0 < l.anchors

-- Whatever the floating point operations compute, the total of the layout is the configured count,
-- or 0 where that is negative; the anchors and the diverse slots add up to the total; and a positive
-- anchor ratio gives a table that is not empty at least one anchor.
pub compute_layout-IsLayout :
    (fl : Float64) (cfg : SlotsConfig) → IsLayout fl cfg (compute_layout fl cfg)
unfolding compute_layout
compute_layout-IsLayout fl cfg = record {
  of_count = ground arith;
  adds_up = ground arith;
  anchored = ground arith;
}

-- An index is an anchor exactly when it lies below the anchor count.
pub class_at-anchor : (l : Layout) (i : ℕ) → (class_at l i ≡ anchor) ↔ (i < l.anchors)
unfolding class_at
class_at-anchor l i = ground arith
