-- ===== src/Tests.antt =====
-- The values that the examples run on: a store of two providers, a rule, a slot table, a tracker.
pub mod Inventories
pub mod Loops
pub mod Zones
pub mod Pairings
pub mod Slots
pub mod Tables
pub mod Reconciles
pub mod Trackers
pub mod Configs
pub mod Probes
pub mod Runners
pub mod Writers
pub mod Nodes
pub mod Caches
pub mod Requests
use network_mesh_exporter.Base.{
  ℕ, ◌+◌, ◌*◌, ◌/◌, Bool, false, true, not, List, [], ◌∷◌, Option, none, some, if◌then◌else◌, eqb,
}
use network_mesh_exporter.Base.Int.{ℤ, pos}
use network_mesh_exporter.Base.Map.{Map}
use network_mesh_exporter.Base.Str.{Str, ◌==◌, bytes}
use network_mesh_exporter.Health.{HealthConfig, Status, first_status, pending}
use network_mesh_exporter.Inventory.{HostRecord, Set, Store, Snapshot, build_snapshot}
use network_mesh_exporter.Pairing.{PairingsConfig}
use network_mesh_exporter.Reconcile.{Env, Input}
use network_mesh_exporter.Slot.{
  Class, anchor, diverse, Rank, Layout, SlotsConfig, Float64, Candidates,
}
use network_mesh_exporter.State.{Slot, Pairing, State}
use network_mesh_exporter.State
use network_mesh_exporter.Zone.{Rule, exclude}

abbrev host_in : Str → Str → HostRecord
host_in id rack = record {
  id = id;
  address = id;
  attributes = (bytes "rack", rack) ∷ [];
  source = bytes "file";
  healthy = true;
  reason = [];
  seen_at = 1;
  priority = pos 1;
}

abbrev pub a1 : HostRecord
a1 = host_in (bytes "a1") (bytes "r1")

abbrev pub a2 : HostRecord
a2 = host_in (bytes "a2") (bytes "r1")

abbrev pub b1 : HostRecord
b1 = host_in (bytes "b1") (bytes "r2")

-- A host that the rule cannot place.
abbrev pub lost_host : HostRecord
lost_host = record a1 { id = bytes "c1"; attributes = [] }

abbrev pub set_of : Str → List HostRecord → Set
set_of source hosts = record {
  source = source;
  hosts = hosts;
  fetch_at = 1;
  stale = false;
  last_error = [];
}

abbrev pub sets : Map Set
sets =
    (bytes "file", set_of (bytes "file") (b1 ∷ a1 ∷ []))
    ∷ (bytes "http", set_of (bytes "http") (a2 ∷ a1 ∷ lost_host ∷ []))
    ∷ []

abbrev pub store : Store
store = record { sets = sets; gen = 2; snap = none }

abbrev pub snapshot : Snapshot
snapshot = build_snapshot 7 store

abbrev pub rule : Rule
rule = record {
  keys = record { key = bytes "rack"; transform = none; raw = bytes "rack" } ∷ [];
  sep = bytes "/";
  missing = exclude;
  literal = [];
  desc = bytes "rack";
  fp = bytes "zones";
}

abbrev pub pairings_config : PairingsConfig
pairings_config = record { intra_zone = true; include = []; exclude = []; max_pairings = 10 }

-- A ratio of hundredths stands for the floating point numbers.
abbrev pub float64 : Float64
float64 = record {
  of_int = λ n. n;
  mul = λ a b. a * b;
  floor = λ n. n / 100;
  ceil = λ n. (n + 99) / 100;
  to_int = λ n. pos n;
  gt_zero = λ n. not (eqb n 0);
}

abbrev pub slots_config : SlotsConfig
slots_config = record {
  count = pos 2;
  anchor_ratio = 50;
  anchor_rounding = bytes "down";
  super_hosts = 1;
  super_selector = [];
  super_max_targets = 0;
  allow_reuse = true;
}

abbrev pub env : Env
env = record {
  float64 = float64;
  path_match = λ pattern s. some (pattern == s);
  sprintf = λ count ratio rounding hosts targets reuse. bytes "slots";
}

abbrev pub layout : Layout
layout = record { total = 2; anchors = 1; diverse = 1 }

abbrev pub slot_of : ℕ → Class → Str → Str → Slot
slot_of index class a b = record {
  index = index;
  class = class;
  host_a = a;
  host_b = b;
  rank_a = Rank.unique;
  rank_b = Rank.unique;
  assigned_a = 1;
  assigned_b = 1;
  super_target = [];
}

-- The pairing of the two zones, with a slot that is filled and one that is half empty.
abbrev pub pair : Pairing
pair = record {
  key = bytes "r1|r2";
  zone_a = bytes "r1";
  zone_b = bytes "r2";
  intra = false;
  slots = slot_of 0 anchor (bytes "a1") (bytes "b1") ∷ slot_of 1 diverse (bytes "a2") [] ∷ [];
  remove_at = 0;
}

abbrev pub candidates : Candidates
candidates = record {
  zone = bytes "r1";
  hosts = bytes "a1" ∷ bytes "a2" ∷ [];
  use_count = λ id. if id == bytes "a1" then 1 else 0;
}

abbrev pub table : State
table = record {
  version = 1;
  zone_rule = bytes "zones";
  slots_config = bytes "slots";
  updated_at = 1;
  pairings = (bytes "r1|r2", pair) ∷ [];
  super_hosts = [];
}

abbrev pub given : Input
given = record {
  snapshot = snapshot;
  pairings = pairings_config;
  slots = slots_config;
  pairing_removal_hold = 10;
  rule = rule;
  filter = none;
  scanner = slots_config;
  eligible = λ id. not (id == bytes "a2");
  current = some table;
  now = 50;
}

abbrev pub health_config : HealthConfig
health_config = record {
  unhealthy_after = 3;
  release_hold = 30;
  healthy_after = 2;
  missing_grace = 20;
  dns_grace = 20;
  flap_threshold = 0;
  flap_window = pos 100;
  flap_cooldown = 100;
}

abbrev pub pending_status : Status
pending_status = record (first_status (bytes "a1") 1) {
  state = pending;
  fail_streak = 3;
  marked_at = 5;
  release_at = 35;
}
