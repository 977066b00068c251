-- ===== src/Inventory.antt =====
-- internal/inventory/inventory.go: host records, the provider sets and the merged snapshot.
-- A map is an association list and a range over it visits the entries in list order; a deep copy
-- of a value is the value. Times are nanoseconds since the zero `time.Time`, which is 0.
pub mod Best
pub mod Cache
pub mod Merge
pub mod Snap
use network_mesh_exporter.Base.{
  ℕ, suc, ◌+◌, ◌%◌, ◌^◌, Bool, false, true, List, [], ◌∷◌, map, Option, none, some, length,
  get_elem?, if◌then◌else◌, keep,
}
use network_mesh_exporter.Base.Int.{ℤ, ltb_ℤ}
use network_mesh_exporter.Base.Map.{Map, lookup, insert, erase}
use network_mesh_exporter.Base.Sort.{sort}
use network_mesh_exporter.Base.Str.{Str, str_ltb}

pub record HostRecord : Type 0 where
  pub id : Str
  pub address : Str
  pub attributes : Map Str
  pub source : Str
  pub healthy : Bool
  pub reason : Str
  pub seen_at : ℕ
  pub priority : ℤ

pub record Set : Type 0 where
  pub source : Str
  pub hosts : List HostRecord
  pub fetch_at : ℕ
  pub stale : Bool
  pub last_error : Str

pub record SourceStatus : Type 0 where
  pub source : Str
  pub hosts : ℕ
  pub fetch_at : ℕ
  pub stale : Bool
  pub last_error : Str

pub record Snapshot : Type 0 where
  pub hosts : List HostRecord
  pub by_id : Map ℕ
  pub generation : ℕ
  pub taken_at : ℕ
  pub collisions : ℕ
  pub sources : Map SourceStatus

-- The attribute value, and whether it was present.
unfoldable pub attr : HostRecord → Str → Option Str
attr h key = lookup key h.attributes

-- An index that is out of range, a panic in Go, is `none` as a missing host is.
unfoldable pub get : Snapshot → Str → Option HostRecord
get s id = elim (lookup id s.by_id) [ none ↦ none | some i ↦ get_elem? s.hosts i ]

unfoldable pub len : Snapshot → ℕ
len s = length s.hosts

unfoldable pub filter_hosts : (HostRecord → Bool) → Snapshot → List HostRecord
filter_hosts pred s = keep pred s.hosts

pub record Store : Type 0 where
  pub sets : Map Set
  pub gen : ℕ  -- uint64
  pub snap : Option Snapshot

unfoldable pub new_store : Store
new_store = record { sets = []; gen = 0; snap = none }

unfoldable pub replace : Set → Store → Store
replace s st = record { sets = insert s.source s st.sets; gen = (st.gen + 1) % 2 ^ 64; snap = none }

unfoldable pub remove : Str → Store → Store
remove source st = elim (lookup source st.sets) [
  | none ↦ st
  | some _ ↦ record { sets = erase source st.sets; gen = (st.gen + 1) % 2 ^ 64; snap = none }
]

-- The two variables of the loops of `merge`.
pub record Merged : Type 0 where
  pub by_id : Map HostRecord
  pub collisions : ℕ

unfoldable pub merge_host : Merged → HostRecord → Merged
merge_host m h = elim (lookup h.id m.by_id) [
  | none ↦ record m { by_id = insert h.id h m.by_id }
  | some prev ↦
      if ltb_ℤ prev.priority h.priority
      then record { by_id = insert h.id h m.by_id; collisions = m.collisions + 1 }
      else record m { collisions = m.collisions + 1 }
]

unfoldable pub merge_hosts : Merged → List HostRecord → Merged
merge_hosts m [] = m
merge_hosts m (h ∷ hs) = merge_hosts (merge_host m h) hs

unfoldable pub merge_sets : Merged → Map Set → Merged
merge_sets m [] = m
merge_sets m ((name, s) ∷ sets) = merge_sets (merge_hosts m s.hosts) sets

abbrev pub id_less : HostRecord → HostRecord → Bool
id_less a b = str_ltb a.id b.id

unfoldable pub merge : Map Set → List HostRecord × ℕ
merge sets =
    let m = merge_sets (record { by_id = []; collisions = 0 }) sets in
    (sort id_less (map (λ e. e.1) m.by_id), m.collisions)

-- `for i, h := range hosts { byID[h.ID] = i }`, from index `i` on.
unfoldable pub index_hosts : ℕ → List HostRecord → Map ℕ → Map ℕ
index_hosts i [] m = m
index_hosts i (h ∷ hs) m = index_hosts (suc i) hs (insert h.id i m)

unfoldable pub status_of : Str × Set → Str × SourceStatus
status_of (name, s) = (
  name,
  record {
    source = name;
    hosts = length s.hosts;
    fetch_at = s.fetch_at;
    stale = s.stale;
    last_error = s.last_error;
  },
)

unfoldable pub build_snapshot : ℕ → Store → Snapshot
build_snapshot now st =
    let (hosts, collisions) = merge st.sets in
    record {
      hosts = hosts;
      by_id = index_hosts 0 hosts [];
      generation = st.gen;
      taken_at = now;
      collisions = collisions;
      sources = map status_of st.sets;
    }

-- `Snapshot`: the cached view, or a new one that is cached.
unfoldable pub snapshot : ℕ → Store → Store × Snapshot
snapshot now st = elim st.snap [
  | some s ↦ (st, s)
  | none ↦ (record st { snap = some (build_snapshot now st) }, build_snapshot now st)
]
