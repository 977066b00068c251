-- ===== src/State.antt =====
-- internal/state/state.go: the slot tables and the persisted assignment. A deep copy of a value is
-- the value. Reading and writing the file is not modelled.
pub mod Sides
pub mod Store
pub mod Writer
use network_mesh_exporter.Base.{
  ℕ, suc, ◌+◌, Bool, false, true, not, ◌&&◌, List, [], ◌∷◌, Option, none, some, if◌then◌else◌, eqb,
}
use network_mesh_exporter.Base.Map.{Map}
use network_mesh_exporter.Base.Str.{Str, ◌==◌}
use network_mesh_exporter.Slot.{Class, Side, side_a, side_b, Rank}

-- The constant `Version`.
abbrev pub schema_version : ℕ
schema_version = 1

pub record Slot : Type 0 where
  pub index : ℕ
  pub class : Class
  pub host_a : Str
  pub host_b : Str
  pub rank_a : Rank
  pub rank_b : Rank
  pub assigned_a : ℕ
  pub assigned_b : ℕ
  pub super_target : Str

unfoldable pub is_filled : Slot → Bool
is_filled s = not (s.host_a == []) && not (s.host_b == [])

unfoldable pub host : Slot → Side → Str
host s side_b = s.host_b
host s side_a = s.host_a

unfoldable pub set_host : Side → Str → Rank → ℕ → Slot → Slot
set_host side_b id rank now s = record s { host_b = id; rank_b = rank; assigned_b = now }
set_host side_a id rank now s = record s { host_a = id; rank_a = rank; assigned_a = now }

unfoldable pub rank_of : Slot → Side → Rank
rank_of s side_b = s.rank_b
rank_of s side_a = s.rank_a

pub record Pairing : Type 0 where
  pub key : Str
  pub zone_a : Str
  pub zone_b : Str
  pub intra : Bool
  pub slots : List Slot
  pub remove_at : ℕ

pub record State : Type 0 where
  pub version : ℕ
  pub zone_rule : Str
  pub slots_config : Str
  pub updated_at : ℕ
  pub pairings : Map Pairing
  pub super_hosts : Map (List Str)

unfoldable pub new : Str → Str → State
new zone_fp slots_fp = record {
  version = schema_version;
  zone_rule = zone_fp;
  slots_config = slots_fp;
  updated_at = 0;
  pairings = [];
  super_hosts = [];
}

-- The zero time: the pairing is not marked for removal.
unfoldable pub is_live : Pairing → Bool
is_live p = eqb p.remove_at 0

unfoldable pub count_slots : ℕ × ℕ → List Slot → ℕ × ℕ
count_slots (total, filled) [] = (total, filled)
count_slots (total, filled) (s ∷ ss) =
    count_slots (total + 1, if is_filled s then filled + 1 else filled) ss

unfoldable pub counts_from : ℕ × ℕ → Map Pairing → ℕ × ℕ
counts_from n [] = n
counts_from n ((key, p) ∷ ps) = counts_from (if is_live p then count_slots n p.slots else n) ps

-- The slots in live pairings, and how many of them are filled.
unfoldable pub counts : State → ℕ × ℕ
counts s = counts_from (0, 0) s.pairings
