-- ===== src/Zone.antt =====
-- internal/zone/zone.go: the rule that turns host attributes into a zone key, and the index of a
-- snapshot.
pub mod Compile
pub mod Rules
pub mod Members
pub mod HostZone
pub mod Zones
use network_mesh_exporter.Base.{
  ℕ, suc, zero, ◌+◌, ◌-◌, ◌<◌, Bool, false, true, ◌||◌, List, [], ◌∷◌, ◌++◌, map, Option, none,
  some, length, if◌then◌else◌, take, drop, leb, eqb,
}
use network_mesh_exporter.Base.Int.{ℤ, pos, negsuc, ltb_ℤ}
use network_mesh_exporter.Base.Map.{Map, lookup, insert}
use network_mesh_exporter.Base.Sort.{sort}
use network_mesh_exporter.Base.Str.{Str, str_ltb, ◌==◌, bytes}
use network_mesh_exporter.Inventory.{HostRecord, Snapshot}

pub data MissingPolicy : Type 0 where
  exclude empty literal : MissingPolicy

abbrev pub Transform : Type 0
Transform = Str → Str

pub record KeySpec : Type 0 where
  pub key : Str
  pub transform : Option Transform
  pub raw : Str

pub record Rule : Type 0 where
  pub keys : List KeySpec
  pub sep : Str
  pub missing : MissingPolicy
  pub literal : Str
  pub desc : Str
  pub fp : Str

-- `strings.Join`.
unfoldable pub join : Str → List Str → Str
join sep [] = []
join sep (p ∷ []) = p
join sep (p ∷ q ∷ ps) = p ++ (sep ++ join sep (q ∷ ps))

abbrev apply_transform : Option Transform → Str → Str
apply_transform none v = v
apply_transform (some t) v = t v

-- The part that an absent or empty attribute gives, before its transform.
abbrev substitute : Rule → Option Str
substitute r = elim r.missing [ exclude ↦ none | empty ↦ some [] | literal ↦ some r.literal ]

-- The value of one rule key, `none` where the host has no zone.
unfoldable pub key_value : Rule → HostRecord → KeySpec → Option Str
key_value r h ks =
    let value : Option Str = elim (lookup ks.key h.attributes) [
      | none ↦ substitute r
      | some v ↦ if v == [] then substitute r else some v
    ] in
    elim value [ none ↦ none | some v ↦ some (apply_transform ks.transform v) ]

-- The loop of `Apply`: the parts that are joined, in order.
unfoldable pub key_values : Rule → HostRecord → List KeySpec → Option (List Str)
unfolding key_value
key_values r h [] = some []
key_values r h (ks ∷ rest) =
    let tail = key_values r h rest in
    elim (key_value r h ks) [
      | none ↦ none
      | some v ↦ elim tail [ none ↦ none | some vs ↦ some (v ∷ vs) ]
    ]

unfoldable pub apply : Rule → HostRecord → Option Str
unfolding key_values
apply r h = elim (key_values r h r.keys) [ none ↦ none | some parts ↦ some (join r.sep parts) ]

missing_among : HostRecord → List KeySpec → Str
missing_among h [] = []
missing_among h (ks ∷ rest) =
    let next = missing_among h rest in
    elim (lookup ks.key h.attributes) [ none ↦ ks.key | some v ↦ if v == [] then ks.key else next ]

unfoldable pub missing_key : Rule → HostRecord → Str
unfolding missing_among
missing_key r h = missing_among h r.keys

pub record Unresolved : Type 0 where
  pub host_id : Str
  pub missing_key : Str

pub record Index : Type 0 where
  pub zones : List Str
  pub members : Map (List Str)
  pub host_zone : Map Str
  pub unresolved : List Unresolved

-- `m[k]` of a map of lists: nil where the key is absent.
unfoldable pub members_of : Str → Map (List Str) → List Str
members_of k m = elim (lookup k m) [ none ↦ [] | some l ↦ l ]

unfoldable pub add_host : Rule → HostRecord → Index → Index
add_host r h idx = elim (apply r h) [
  | none ↦ record idx {
    unresolved = idx.unresolved ++ record { host_id = h.id; missing_key = missing_key r h } ∷ [];
  }
  | some k ↦ record idx {
    members = insert k (members_of k idx.members ++ h.id ∷ []) idx.members;
    host_zone = insert h.id k idx.host_zone;
  }
]

unfoldable pub add_hosts : Rule → List HostRecord → Index → Index
add_hosts r [] idx = idx
add_hosts r (h ∷ hs) idx = add_hosts r hs (add_host r h idx)

unfoldable pub build : Rule → Snapshot → Index
build r snap =
    let idx =
      add_hosts r snap.hosts
        (record { zones = []; members = []; host_zone = []; unresolved = [] }) in
    record idx { zones = sort str_ltb (map (λ e. e.0) idx.members) }

unfoldable pub member_count : Index → Str → ℕ
member_count i k = length (members_of k i.members)

unfoldable pub zone_of : Index → Str → Option Str
zone_of i host_id = lookup host_id i.host_zone
