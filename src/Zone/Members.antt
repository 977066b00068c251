-- ===== src/Zone/Members.antt =====
-- `Build` of internal/zone/zone.go: the zones, their members and the zone of a host.
use network_mesh_exporter.Base.{
  ◌≡◌, refl, sym, ap, ◌∙◌, inl, inr, List, [], ◌∷◌, ◌++◌, Option, none, some, arith, if◌then◌else◌,
  Option-cases,
}
use network_mesh_exporter.Base.Map.{Map, lookup, insert, lookup-insert}
use network_mesh_exporter.Base.Str.{Str, ◌==◌}
use network_mesh_exporter.Inventory.{HostRecord, Snapshot}
use network_mesh_exporter.Zone.{Rule, Index, apply, members_of, add_host, add_hosts, build}
use mathlib.Core.List.{append_assoc, append-nil}

-- The IDs of the hosts that the rule puts into a zone, in the order of the list.
unfoldable pub ids_in : Rule → Str → List HostRecord → List Str
ids_in r k [] = []
ids_in r k (h ∷ hs) =
    let rest = ids_in r k hs in
    elim (apply r h) [ none ↦ rest | some z ↦ if k == z then h.id ∷ rest else rest ]

members_of-insert :
    (k z : Str) (l : List Str) (m : Map (List Str))
    → members_of k (insert z l m) ≡ (if k == z then l else members_of k m)
unfolding members_of
members_of-insert k z l m = ground (arith, lookup-insert z k l m)

members-add_host :
    (r : Rule) (k : Str) (h : HostRecord) (idx : Index)
    → members_of k (add_host r h idx).members ≡ members_of k idx.members ++ ids_in r k (h ∷ [])
unfolding add_host ids_in
members-add_host r k h idx = elim (Option-cases (apply r h)) [
  | inl e ↦ rw (e, add_host, ids_in) (sym (append-nil _))
  | inr (z, e) ↦ ground (
    arith,
    members_of-insert k z (members_of z idx.members ++ h.id ∷ []) idx.members,
    append-nil (members_of k idx.members),
  )
]

ids_in-cons :
    (r : Rule) (k : Str) (h : HostRecord) (hs : List HostRecord)
    → ids_in r k (h ∷ hs) ≡ ids_in r k (h ∷ []) ++ ids_in r k hs
unfolding ids_in
ids_in-cons r k h hs = ground arith

pub members-add_hosts :
    (r : Rule) (k : Str) (hs : List HostRecord) (idx : Index)
    → members_of k (add_hosts r hs idx).members ≡ members_of k idx.members ++ ids_in r k hs
unfolding add_hosts
members-add_hosts r k [] idx = unfold ids_in in sym (append-nil _)
members-add_hosts r k (h ∷ hs) idx =
    members-add_hosts r k hs (add_host r h idx)
    ∙ (ap (λ l. l ++ ids_in r k hs) (members-add_host r k h idx)
        ∙ (append_assoc (members_of k idx.members) (ids_in r k (h ∷ [])) (ids_in r k hs)
            ∙ ap (λ l. members_of k idx.members ++ l) (sym (ids_in-cons r k h hs))))

-- The members of a zone are the hosts that the rule puts there, in the order of the snapshot.
pub members-build :
    (r : Rule) (snap : Snapshot) (k : Str)
    → members_of k (build r snap).members ≡ ids_in r k snap.hosts
unfolding build lookup members_of
members-build r snap k =
    members-add_hosts r k snap.hosts
      (record { zones = []; members = []; host_zone = []; unresolved = [] })

-- The zone that the map of host zones ends with for an ID: the last host with the ID decides.
unfoldable pub zone_in : Rule → Str → List HostRecord → Option Str
zone_in r id [] = none
zone_in r id (h ∷ hs) =
    let rest = zone_in r id hs in
    elim rest [ some k ↦ some k | none ↦ if id == h.id then apply r h else none ]

pub host_zone-add_hosts :
    (r : Rule) (id : Str) (hs : List HostRecord) (idx : Index)
    → lookup id (add_hosts r hs idx).host_zone
      ≡ (elim (zone_in r id hs) [ none ↦ lookup id idx.host_zone | some k ↦ some k ])
unfolding add_hosts zone_in
host_zone-add_hosts r id [] idx = refl
host_zone-add_hosts r id (h ∷ hs) idx =
    ground (arith, host_zone-add_hosts r id hs (add_host r h idx), step)
  where
    step : lookup id (add_host r h idx).host_zone ≡ (
        if id == h.id
        then (elim (apply r h) [ none ↦ lookup id idx.host_zone | some k ↦ some k ])
        else lookup id idx.host_zone)
    step =
        unfold add_host in
        elim (Option-cases (apply r h)) [
          | inl e ↦ ground arith
          | inr (z, e) ↦ ground (arith, lookup-insert h.id id z idx.host_zone)
        ]
