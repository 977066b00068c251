-- ===== src/Zone/HostZone.antt =====
-- `ZoneOf` of internal/zone/zone.go against the rule and against the member lists. The hosts of a
-- snapshot stand in strictly rising order of their IDs (`Inventory.Merge.merge-IsStrict`).
use network_mesh_exporter.Base.{
  ◌≡◌, ◌↔◌, refl, false, true, List, [], ◌∷◌, Option, none, some, All, arith,
}
use network_mesh_exporter.Base.Map.{lookup}
use network_mesh_exporter.Base.Sort.{IsStrict}
use network_mesh_exporter.Base.Str.{Str, ◌==◌, str_ltb, str_ltb_irrefl}
use network_mesh_exporter.Base.Strs.{contains}
use network_mesh_exporter.Inventory.{HostRecord, Snapshot, id_less}
use network_mesh_exporter.Inventory.Snap.{find}
use network_mesh_exporter.Zone.{Rule, apply, members_of, build, zone_of}
use network_mesh_exporter.Zone.Members.{ids_in, zone_in, host_zone-add_hosts, members-build}

find-above :
    (id : Str) (hs : List HostRecord) → All (λ h. str_ltb id h.id ≡ true) hs → find id hs ≡ none
unfolding find
find-above id [] a = refl
find-above id (h ∷ hs) a = ground (arith, find-above id hs a.1, str_ltb_irrefl id)

-- The zone of the host with an ID.
abbrev pub zone_by : Rule → Str → List HostRecord → Option Str
zone_by r id hs = elim (find id hs) [ none ↦ none | some h ↦ apply r h ]

zone_in-find :
    (r : Rule) (id : Str) (hs : List HostRecord)
    → IsStrict id_less hs
    → zone_in r id hs ≡ zone_by r id hs
unfolding zone_in find
zone_in-find r id [] s = refl
zone_in-find r id (h ∷ hs) s = ground (arith, zone_in-find r id hs s.1, find-above h.id hs s.0)

contains-ids_in :
    (r : Rule) (k id : Str) (hs : List HostRecord)
    → IsStrict id_less hs
    → contains id (ids_in r k hs) ≡ (elim (zone_by r id hs) [ none ↦ false | some z ↦ k == z ])
unfolding ids_in find contains
contains-ids_in r k id [] s = refl
contains-ids_in r k id (h ∷ hs) s =
    ground (arith, contains-ids_in r k id hs s.1, find-above h.id hs s.0)

-- On a snapshot in strict order of IDs, a host has the zone that the rule gives its record, and an ID
-- that the snapshot lacks has none.
pub zone_of-build :
    (r : Rule) (snap : Snapshot) (id : Str)
    → IsStrict id_less snap.hosts
    → zone_of (build r snap) id ≡ zone_by r id snap.hosts
unfolding zone_of build lookup
zone_of-build r snap id s = ground (
  arith,
  host_zone-add_hosts r id snap.hosts
      (record { zones = []; members = []; host_zone = []; unresolved = [] }),
  zone_in-find r id snap.hosts s,
)

-- On a snapshot in strict order of IDs, a host is a member of a zone exactly when that is its zone.
pub zone_of-iff-member :
    (r : Rule) (snap : Snapshot) (id k : Str)
    → IsStrict id_less snap.hosts
    → (zone_of (build r snap) id ≡ some k)
      ↔ (contains id (members_of k (build r snap).members) ≡ true)
zone_of-iff-member r snap id k s =
    ground (
      arith,
      zone_of-build r snap id s,
      members-build r snap k,
      contains-ids_in r k id snap.hosts s,
    )
