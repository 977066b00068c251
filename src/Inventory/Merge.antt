-- ===== src/Inventory/Merge.antt =====
-- `merge` of internal/inventory/inventory.go: which records it keeps, and in which order.
use network_mesh_exporter.Base.{
  ◌+◌, ◌≡◌, ◌≢◌, refl, sym, ap, ◌∙◌, inl, inr, List, [], ◌∷◌, map, none, some, All, length,
  length-append, arith, if◌then◌else◌,
}
use network_mesh_exporter.Base.Map.{
  Map, lookup, insert, lookup-insert, Distinct, insert-Distinct, All-insert,
}
use network_mesh_exporter.Base.Sort.{sort-IsStrict, IsStrict, Apart, AllApart, length-sort}
use network_mesh_exporter.Base.Str.{Str, ◌==◌, str_ltb_trans, str_ltb-total}
use network_mesh_exporter.Inventory.{
  HostRecord, Set, Merged, merge_host, merge_hosts, merge_sets, merge, id_less,
}
use network_mesh_exporter.Inventory.Best.{prefer, best, all_hosts, prefer_assoc, best-append}

lookup-merge_host :
    (id : Str) (m : Merged) (h : HostRecord)
    → lookup id (merge_host m h).by_id
      ≡ (if id == h.id then prefer (lookup id m.by_id) (some h) else lookup id m.by_id)
unfolding merge_host
lookup-merge_host id m h = ground (arith, lookup-insert h.id id h m.by_id)

pub lookup-merge_hosts :
    (id : Str) (m : Merged) (hs : List HostRecord)
    → lookup id (merge_hosts m hs).by_id ≡ prefer (lookup id m.by_id) (best id hs)
unfolding merge_hosts best
lookup-merge_hosts id m [] = ground arith
lookup-merge_hosts id m (h ∷ hs) = ground (
  arith,
  lookup-merge_hosts id (merge_host m h) hs,
  lookup-merge_host id m h,
  prefer_assoc (lookup id m.by_id) (some h) (best id hs),
)

pub lookup-merge_sets :
    (id : Str) (m : Merged) (sets : Map Set)
    → lookup id (merge_sets m sets).by_id ≡ prefer (lookup id m.by_id) (best id (all_hosts sets))
unfolding merge_sets all_hosts best
lookup-merge_sets id m [] = ground arith
lookup-merge_sets id m ((name, s) ∷ sets) =
    lookup-merge_sets id (merge_hosts m s.hosts) sets
    ∙ (ap (λ o. prefer o (best id (all_hosts sets))) (lookup-merge_hosts id m s.hosts)
        ∙ (prefer_assoc (lookup id m.by_id) (best id s.hosts) (best id (all_hosts sets))
            ∙ ap (prefer (lookup id m.by_id)) (sym (best-append id s.hosts (all_hosts sets)))))

-- The map under construction: one entry for a key, under the ID of its record.
pub record IsKeyed (m : Map HostRecord) : Type 0 where
  pub distinct : Distinct m
  pub own_id : All (λ e. e.1.id ≡ e.0) m

insert-IsKeyed : (h : HostRecord) (m : Map HostRecord) → IsKeyed m → IsKeyed (insert h.id h m)
insert-IsKeyed h m v = record {
  distinct = insert-Distinct h.id h m v.distinct;
  own_id = All-insert (λ e. e.1.id ≡ e.0) h.id h m refl v.own_id;
}

merge_host-IsKeyed :
    (m : Merged) (h : HostRecord) → IsKeyed m.by_id → IsKeyed (merge_host m h).by_id
unfolding merge_host
merge_host-IsKeyed m h v = ground (arith, insert-IsKeyed h m.by_id v)

merge_hosts-IsKeyed :
    (m : Merged) (hs : List HostRecord) → IsKeyed m.by_id → IsKeyed (merge_hosts m hs).by_id
unfolding merge_hosts
merge_hosts-IsKeyed m [] v = v
merge_hosts-IsKeyed m (h ∷ hs) v =
    merge_hosts-IsKeyed (merge_host m h) hs (merge_host-IsKeyed m h v)

pub merge_sets-IsKeyed :
    (m : Merged) (sets : Map Set) → IsKeyed m.by_id → IsKeyed (merge_sets m sets).by_id
unfolding merge_sets
merge_sets-IsKeyed m [] v = v
merge_sets-IsKeyed m ((name, s) ∷ sets) v =
    merge_sets-IsKeyed (merge_hosts m s.hosts) sets (merge_hosts-IsKeyed m s.hosts v)

Apart-of_ne : (a b : HostRecord) → a.id ≢ b.id → Apart id_less a b
Apart-of_ne a b h = elim (str_ltb-total a.id b.id) [
  | inl p ↦ inl p
  | inr (inl p) ↦ absurd (h p)
  | inr (inr p) ↦ inr p
]

values-Apart :
    (k : Str) (v : HostRecord) (m : Map HostRecord)
    → v.id ≡ k
    → All (λ e. k ≢ e.0) m
    → All (λ e. e.1.id ≡ e.0) m
    → All (Apart id_less v) (map (λ e. e.1) m)
values-Apart k v [] p d o = tt
values-Apart k v ((j, w) ∷ m) p d o =
    (Apart-of_ne v w (λ e. d.0 (sym p ∙ (e ∙ o.0))), values-Apart k v m p d.1 o.1)

values_AllApart :
    (m : Map HostRecord)
    → Distinct m
    → All (λ e. e.1.id ≡ e.0) m
    → AllApart id_less (map (λ e. e.1) m)
values_AllApart [] d o = tt
values_AllApart ((k, v) ∷ m) d o = (values-Apart k v m o.0 d.0 o.1, values_AllApart m d.1 o.1)

-- The merged hosts are in strictly rising order of their IDs, so no ID occurs twice.
pub merge-IsStrict : (sets : Map Set) → IsStrict id_less (merge sets).0
unfolding merge
merge-IsStrict sets =
    let v : IsKeyed (merge_sets (record { by_id = []; collisions = 0 }) sets).by_id =
      merge_sets-IsKeyed (record { by_id = []; collisions = 0 }) sets
        (record { distinct = tt; own_id = tt }) in
    sort-IsStrict id_less (λ a b c. str_ltb_trans a.id b.id c.id) _
      (values_AllApart _ v.distinct v.own_id)

length-insert :
    (k : Str) (v : HostRecord) (m : Map HostRecord)
    → length (insert k v m) ≡ (elim (lookup k m) [ none ↦ length m + 1 | some _ ↦ length m ])
unfolding insert lookup
length-insert k v [] = omega arith
length-insert k v ((j, w) ∷ m) = ground (arith, length-insert k v m)

merge_host_count :
    (m : Merged) (h : HostRecord)
    → length (merge_host m h).by_id + (merge_host m h).collisions
      ≡ length m.by_id + m.collisions + 1
unfolding merge_host
merge_host_count m h = ground (arith, length-insert h.id h m.by_id)

merge_hosts_count :
    (m : Merged) (hs : List HostRecord)
    → length (merge_hosts m hs).by_id + (merge_hosts m hs).collisions
      ≡ length m.by_id + m.collisions + length hs
unfolding merge_hosts
merge_hosts_count m [] = omega arith
merge_hosts_count m (h ∷ hs) =
    omega (arith, merge_hosts_count (merge_host m h) hs, merge_host_count m h)

merge_sets_count :
    (m : Merged) (sets : Map Set)
    → length (merge_sets m sets).by_id + (merge_sets m sets).collisions
      ≡ length m.by_id + m.collisions + length (all_hosts sets)
unfolding merge_sets all_hosts
merge_sets_count m [] = omega arith
merge_sets_count m ((name, s) ∷ sets) = omega (
  arith,
  merge_sets_count (merge_hosts m s.hosts) sets,
  merge_hosts_count m s.hosts,
  length-append s.hosts (all_hosts sets),
)

length-values : (m : Map HostRecord) → length (map (λ e. e.1) m) ≡ length m
length-values [] = refl
length-values (e ∷ m) = omega (arith, length-values m)

-- The merged hosts and the collisions are together as many as the records of all provider sets.
pub merge_count :
    (sets : Map Set) → length (merge sets).0 + (merge sets).1 ≡ length (all_hosts sets)
unfolding merge
merge_count sets =
    let m : Merged = merge_sets (record { by_id = []; collisions = 0 }) sets in
    omega (
      arith,
      length-sort id_less (map (λ e. e.1) m.by_id),
      length-values m.by_id,
      merge_sets_count (record { by_id = []; collisions = 0 }) sets,
    )
