-- ===== src/Reconcile.antt =====
-- internal/reconcile/reconcile.go: the types of one reconcile. Its phases are the modules below,
-- in the order in which `Reconcile` runs them. A phase returns the changes that the source appends
-- to the delta.
pub mod Resize
pub mod Diff
pub mod Validate
pub mod Super
pub mod Fill
pub mod Run
pub mod Loop
use network_mesh_exporter.Base.{
  ℕ, ◌+◌, Bool, false, true, ◌&&◌, List, [], ◌∷◌, ◌++◌, Option, none, some, length, if◌then◌else◌,
  eqb,
}
use network_mesh_exporter.Base.Int.{ℤ}
use network_mesh_exporter.Base.Map.{Map}
use network_mesh_exporter.Base.Str.{Str, ◌==◌}
use network_mesh_exporter.Inventory.{Snapshot}
use network_mesh_exporter.Pairing.{PairingsConfig, Filter, PathMatch}
use network_mesh_exporter.Slot.{
  Class, anchor, diverse, super, other, Side, side_a, side_b, Rank, SlotsConfig, Float64,
}
use network_mesh_exporter.State.{State, Slot}
use network_mesh_exporter.Zone.{Rule, Index}

pub data Reason : Type 0 where
  new_slot host_gone host_unhealthy zone_changed class_changed anchor_reset : Reason
  rebalance super_changed unfilled : Reason

pub record SideChange : Type 0 where
  pub pairing : Str
  pub slot : ℕ
  pub side : Side
  pub class : Class
  pub old : Str
  pub new : Str
  pub reason : Reason
  pub rank : Rank

pub record Delta : Type 0 where
  pub pairings_added : List Str
  pub pairings_removed : List Str
  pub sides_changed : List SideChange
  pub super_changed : List Str

unfoldable pub is_empty : Delta → Bool
is_empty d =
    eqb (length d.pairings_added) 0
    && eqb (length d.pairings_removed) 0
    && eqb (length d.sides_changed) 0
    && eqb (length d.super_changed) 0

pub record Input : Type 0 where
  pub snapshot : Snapshot
  pub pairings : PairingsConfig
  pub slots : SlotsConfig
  pub pairing_removal_hold : ℕ
  pub rule : Rule
  pub filter : Option Filter
  pub scanner : SlotsConfig
  pub eligible : Str → Bool
  pub current : Option State
  pub now : ℕ

-- What a reconcile calls of the standard library, beside strings and sorting: float64 arithmetic,
-- `path.Match`, and the `fmt.Sprintf` of the slot fingerprint, over the fields that it is given.
pub record Env : Type 0 where
  pub float64 : Float64
  pub path_match : PathMatch
  pub sprintf : ℤ → ℕ → Str → ℕ → ℕ → Bool → Str

-- `==` on class strings.
abbrev pub class_eqb : Class → Class → Bool
class_eqb anchor anchor = true
class_eqb diverse diverse = true
class_eqb super super = true
class_eqb (other a) (other b) = a == b
class_eqb _ _ = false

abbrev pub is_super : Slot → Bool
is_super s = class_eqb s.class super

-- The record that a phase appends for a side that loses its host.
abbrev pub removal : Str → ℕ → Side → Class → Str → Reason → SideChange
removal key index side class old reason = record {
  pairing = key;
  slot = index;
  side = side;
  class = class;
  old = old;
  new = [];
  reason = reason;
  rank = Rank.unfilled;
}

-- The record of a side that gains a host.
abbrev pub assignment : Str → ℕ → Side → Class → Str → Reason → Rank → SideChange
assignment key index side class host reason rank = record {
  pairing = key;
  slot = index;
  side = side;
  class = class;
  old = [];
  new = host;
  reason = reason;
  rank = rank;
}

-- The removal record, if the side held a host.
abbrev pub removal_if_held : Str → ℕ → Side → Class → Str → Reason → List SideChange
removal_if_held key index side class old reason =
    if old == [] then [] else removal key index side class old reason ∷ []
