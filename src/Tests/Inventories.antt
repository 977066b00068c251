-- ===== src/Tests/Inventories.antt =====
-- Examples on internal/inventory/inventory.go.
use network_mesh_exporter.Base.{some, ◌≡◌, refl, [], ◌∷◌}
use network_mesh_exporter.Base.Str.{bytes}
use network_mesh_exporter.Inventory.{
  HostRecord, merge, get, Store, snapshot, replace, remove, new_store,
}
use network_mesh_exporter.Inventory.Cache.{
  stepped, started, replaced, viewed, removed, get-snapshot,
}
use network_mesh_exporter.Inventory.Best.{best, all_hosts}
use network_mesh_exporter.Inventory.Snap.{find, merge_tie}
use network_mesh_exporter.Tests.{a1, set_of}

-- The record of `a1` that another provider reports.
abbrev other_a1 : HostRecord
other_a1 = record a1 { address = bytes "elsewhere" }

merge_tie_example :
    (find a1.id
        (merge (
          (bytes "x", set_of (bytes "x") (a1 ∷ []))
          ∷ (bytes "y", set_of (bytes "y") (other_a1 ∷ []))
          ∷ [])).0
      ≡ some a1)
    × (find a1.id
          (merge (
            (bytes "y", set_of (bytes "y") (other_a1 ∷ []))
            ∷ (bytes "x", set_of (bytes "x") (a1 ∷ []))
            ∷ [])).0
        ≡ some other_a1)
merge_tie_example =
    merge_tie (bytes "x") (bytes "y") (set_of (bytes "x") (a1 ∷ []))
      (set_of (bytes "y") (other_a1 ∷ [])) a1 other_a1 refl refl refl refl

-- A store that was filled, viewed, and changed once more.
abbrev viewed_store : Store
viewed_store = (snapshot 5 (replace (set_of (bytes "x") (a1 ∷ [])) new_store)).0

get-snapshot_example :
    get (snapshot 9 (remove (bytes "y") viewed_store)).1 (bytes "a1")
    ≡ best (bytes "a1") (all_hosts (remove (bytes "y") viewed_store).sets)
get-snapshot_example = get-snapshot 9 (bytes "a1") (
    stepped
      (stepped (stepped started (replaced (set_of (bytes "x") (a1 ∷ [])) new_store))
        (viewed 5 (replace (set_of (bytes "x") (a1 ∷ [])) new_store)))
      (removed (bytes "y") viewed_store))
