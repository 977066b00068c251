-- ===== src/Zone/Zones.antt =====
-- The zone list of `Build` of internal/zone/zone.go.
use network_mesh_exporter.Base.{
  ◌≡◌, ◌≢◌, ◌↔◌, refl, inl, inr, false, true, List, [], ◌∷◌, ◌++◌, map, none, some, All, arith,
  Option-cases,
}
use network_mesh_exporter.Base.Map.{Map, lookup, Distinct, insert-Distinct, All-insert, All-lookup}
use network_mesh_exporter.Base.Sort.{IsStrict, Apart, AllApart, sort-IsStrict}
use network_mesh_exporter.Base.Str.{Str, str_ltb, str_ltb_trans, str_ltb-total}
use network_mesh_exporter.Base.Strs.{contains, contains-sort}
use network_mesh_exporter.Inventory.{HostRecord, Snapshot}
use network_mesh_exporter.Zone.{Rule, Index, apply, members_of, add_host, add_hosts, build}

-- Every key of the member map has a host.
record IsFilled (m : Map (List Str)) : Type 0 where
  distinct : Distinct m
  filled : All (λ e. e.1 ≢ []) m

snoc-ne-nil : (xs : List Str) (x : Str) → (xs ++ x ∷ []) ≢ []
snoc-ne-nil [] x e = cc
snoc-ne-nil (y ∷ xs) x e = cc

add_host-IsFilled :
    (r : Rule) (h : HostRecord) (idx : Index)
    → IsFilled idx.members
    → IsFilled (add_host r h idx).members
unfolding add_host
add_host-IsFilled r h idx v = elim (Option-cases (apply r h)) [
  | inl e ↦ rw (e, add_host) v
  | inr (k, e) ↦
      rw (e, add_host)
        (record {
          distinct = insert-Distinct k _ idx.members v.distinct;
          filled =
              All-insert (λ e. e.1 ≢ []) k _ idx.members
                (snoc-ne-nil (members_of k idx.members) h.id) v.filled;
        })
]

add_hosts-IsFilled :
    (r : Rule) (hs : List HostRecord) (idx : Index)
    → IsFilled idx.members
    → IsFilled (add_hosts r hs idx).members
unfolding add_hosts
add_hosts-IsFilled r [] idx v = v
add_hosts-IsFilled r (h ∷ hs) idx v =
    add_hosts-IsFilled r hs (add_host r h idx) (add_host-IsFilled r h idx v)

build-IsFilled : (r : Rule) (snap : Snapshot) → IsFilled (build r snap).members
unfolding build
build-IsFilled r snap =
    add_hosts-IsFilled r snap.hosts
      (record { zones = []; members = []; host_zone = []; unresolved = [] })
      (record { distinct = tt; filled = tt })

pub Apart-of_ne : (a b : Str) → a ≢ b → Apart str_ltb a b
Apart-of_ne a b h = elim (str_ltb-total a b) [
  | inl p ↦ inl p
  | inr (inl p) ↦ absurd (h p)
  | inr (inr p) ↦ inr p
]

keys-Apart :
    (k : Str) (m : Map (List Str)) → All (λ e. k ≢ e.0) m → All (Apart str_ltb k) (map (λ e. e.0) m)
keys-Apart k [] d = tt
keys-Apart k ((j, w) ∷ m) d = (Apart-of_ne k j d.0, keys-Apart k m d.1)

keys-AllApart : (m : Map (List Str)) → Distinct m → AllApart str_ltb (map (λ e. e.0) m)
keys-AllApart [] d = tt
keys-AllApart ((k, v) ∷ m) d = (keys-Apart k m d.0, keys-AllApart m d.1)

-- The zones are in strictly rising order.
pub zones-IsStrict : (r : Rule) (snap : Snapshot) → IsStrict str_ltb (build r snap).zones
unfolding build
zones-IsStrict r snap =
    sort-IsStrict str_ltb str_ltb_trans _ (keys-AllApart _ (build-IsFilled r snap).distinct)

contains-keys :
    (k : Str) (m : Map (List Str))
    → contains k (map (λ e. e.0) m) ≡ (elim (lookup k m) [ none ↦ false | some _ ↦ true ])
unfolding contains lookup
contains-keys k [] = refl
contains-keys k ((j, w) ∷ m) = ground (arith, contains-keys k m)

-- A zone is listed exactly when it has a member.
pub zones-iff-members :
    (r : Rule) (snap : Snapshot) (k : Str)
    → (contains k (build r snap).zones ≡ true) ↔ (members_of k (build r snap).members ≢ [])
unfolding build members_of
zones-iff-members r snap k =
    let m : Map (List Str) = (build r snap).members in
    let in_keys : contains k (build r snap).zones ≡ contains k (map (λ e. e.0) m) =
      contains-sort str_ltb k (map (λ e. e.0) m) in
    elim (Option-cases (lookup k m)) [
      | inl e ↦ ground (arith, in_keys, contains-keys k m)
      | inr (l, e) ↦
          let full : l ≢ [] = All-lookup (λ e. e.1 ≢ []) k m (build-IsFilled r snap).filled e in
          ground (arith, in_keys, contains-keys k m)
    ]
