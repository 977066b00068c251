-- ===== src/Inventory/Snap.antt =====
-- `Store` and `Snapshot` of internal/inventory/inventory.go: lookups in the merged view, the cache
-- and the generation counter.
use network_mesh_exporter.Base.{
  ℕ, suc, ◌+◌, ◌≡◌, ◌⊎◌, refl, ◌∙◌, inl, inr, true, List, [], ◌∷◌, map, Option, none, some, All,
  get_elem?, arith, if◌then◌else◌,
}
use network_mesh_exporter.Base.Map.{Map, lookup, insert, lookup-insert}
use network_mesh_exporter.Base.Sort.{sort, insert_sorted, IsStrict}
use network_mesh_exporter.Base.Str.{Str, ◌==◌, str_dec, str_ltb, str_ltb_irrefl}
use network_mesh_exporter.Inventory.{
  HostRecord, Set, Store, Merged, merge_sets, merge, id_less, index_hosts, get, build_snapshot,
}
use network_mesh_exporter.Inventory.Best.{best, all_hosts}
use network_mesh_exporter.Inventory.Merge.{
  IsKeyed, merge_sets-IsKeyed, merge-IsStrict, lookup-merge_sets,
}

-- The first host with the ID.
unfoldable pub find : Str → List HostRecord → Option HostRecord
find id [] = none
find id (h ∷ hs) = if id == h.id then some h else find id hs

find-insert_sorted :
    (id : Str) (x : HostRecord) (xs : List HostRecord)
    → find id (insert_sorted id_less x xs) ≡ (if id == x.id then some x else find id xs)
unfolding find insert_sorted
find-insert_sorted id x [] = refl
find-insert_sorted id x (y ∷ ys) = ground (arith, find-insert_sorted id x ys, str_ltb_irrefl y.id)

find-sort : (id : Str) (xs : List HostRecord) → find id (sort id_less xs) ≡ find id xs
unfolding find sort
find-sort id [] = refl
find-sort id (x ∷ xs) = ground (arith, find-insert_sorted id x (sort id_less xs), find-sort id xs)

find-values :
    (id : Str) (m : Map HostRecord)
    → All (λ e. e.1.id ≡ e.0) m
    → find id (map (λ e. e.1) m) ≡ lookup id m
unfolding find lookup
find-values id [] o = refl
find-values id ((k, v) ∷ m) o = rw o.0 (ground (arith, find-values id m o.1))

-- The merged list holds, for each ID, the best record, and no other ID.
pub find-merge : (id : Str) (sets : Map Set) → find id (merge sets).0 ≡ best id (all_hosts sets)
unfolding merge lookup
find-merge id sets =
    let m : Merged = merge_sets (record { by_id = []; collisions = 0 }) sets in
    let v : IsKeyed m.by_id =
      merge_sets-IsKeyed (record { by_id = []; collisions = 0 }) sets
        (record { distinct = tt; own_id = tt }) in
    find-sort id (map (λ e. e.1) m.by_id)
    ∙ (find-values id m.by_id v.own_id
        ∙ lookup-merge_sets id (record { by_id = []; collisions = 0 }) sets)

-- The position of the first host with the ID, counted from `i`.
unfoldable position : Str → ℕ → List HostRecord → Option ℕ
position id i [] = none
position id i (h ∷ hs) = if id == h.id then some i else position id (suc i) hs

position-absent :
    (id : Str) (i : ℕ) (hs : List HostRecord)
    → All (λ h. str_ltb id h.id ≡ true) hs
    → position id i hs ≡ none
unfolding position
position-absent id i [] a = refl
position-absent id i (h ∷ hs) a =
    ground (arith, position-absent id (suc i) hs a.1, str_ltb_irrefl id)

lookup-index_hosts :
    (id : Str) (i : ℕ) (hs : List HostRecord) (m : Map ℕ)
    → IsStrict id_less hs
    → lookup id (index_hosts i hs m)
      ≡ (elim (position id i hs) [ none ↦ lookup id m | some j ↦ some j ])
unfolding index_hosts position
lookup-index_hosts id i [] m s = refl
lookup-index_hosts id i (h ∷ hs) m s = ground (
  arith,
  lookup-index_hosts id (suc i) hs (insert h.id i m) s.1,
  lookup-insert h.id id i m,
  position-absent h.id (suc i) hs s.0,
)

-- At the position stands the host that `find` finds.
position-find :
    (id : Str) (i : ℕ) (hs : List HostRecord)
    → ((find id hs ≡ none) × (position id i hs ≡ none))
      ⊎ ((h : HostRecord) × (k : ℕ) × (find id hs ≡ some h)
          × (position id i hs ≡ some (i + k))
          × (get_elem? hs k ≡ some h))
unfolding find position
position-find id i [] = inl (refl, refl)
position-find id i (h ∷ hs) = elim (str_dec id h.id) [
  | yes p ↦ inr (h, 0, ground arith, ground arith, refl)
  | no p ↦ elim (position-find id (suc i) hs) [
    | inl (f, q) ↦ inl (ground arith, ground arith)
    | inr (g, k, f, q, e) ↦ inr (g, suc k, ground arith, ground arith, e)
  ]
]

-- A lookup in a new snapshot gives the best record of the ID over all provider sets, and nothing
-- for an ID that no set holds.
pub get-build_snapshot :
    (now : ℕ) (st : Store) (id : Str) → get (build_snapshot now st) id ≡ best id (all_hosts st.sets)
unfolding get build_snapshot lookup
get-build_snapshot now st id =
    let hs : List HostRecord = (merge st.sets).0 in
    ground (
      arith,
      find-merge id st.sets,
      lookup-index_hosts id 0 hs [] (merge-IsStrict st.sets),
      position-find id 0 hs,
    )

-- Two providers that report one host with the same priority are merged in the order in which the
-- range over the map of sets visits them: each order keeps the record that it visits first, whichever it is.
pub merge_tie :
    (a b : Str) (s t : Set) (h k : HostRecord)
    → s.hosts ≡ h ∷ []
    → t.hosts ≡ k ∷ []
    → h.id ≡ k.id
    → h.priority ≡ k.priority
    → (find h.id (merge ((a, s) ∷ (b, t) ∷ [])).0 ≡ some h)
      × (find h.id (merge ((b, t) ∷ (a, s) ∷ [])).0 ≡ some k)
unfolding all_hosts best
merge_tie a b s t h k hs ks e p = (
  ground (arith, find-merge h.id ((a, s) ∷ (b, t) ∷ [])),
  ground (arith, find-merge h.id ((b, t) ∷ (a, s) ∷ [])),
)
