-- ===== src/Inventory/Best.antt =====
-- The choice that `merge` of internal/inventory/inventory.go makes among the records of one host
-- ID, stated on the list of all records, with no map and no accumulator.
use network_mesh_exporter.Base.{
  ◌≡◌, refl, false, List, [], ◌∷◌, ◌++◌, Option, none, some, All, if◌then◌else◌, arith, inl, inr,
  Option-cases,
}
use network_mesh_exporter.Base.Int.{ltb_ℤ}
use network_mesh_exporter.Base.Map.{Map}
use network_mesh_exporter.Base.Str.{Str, ◌==◌}
use network_mesh_exporter.Inventory.{HostRecord, Set}

-- The first of two candidates stays unless the second has the higher priority.
abbrev pub prefer : Option HostRecord → Option HostRecord → Option HostRecord
prefer none b = b
prefer (some a) none = some a
prefer (some a) (some b) = if ltb_ℤ a.priority b.priority then some b else some a

-- The first record of the highest priority among those with this ID.
unfoldable pub best : Str → List HostRecord → Option HostRecord
best id [] = none
best id (h ∷ hs) = let rest = best id hs in if id == h.id then prefer (some h) rest else rest

-- Every record of every set, in the order of the loops.
unfoldable pub all_hosts : Map Set → List HostRecord
all_hosts [] = []
all_hosts ((name, s) ∷ sets) = s.hosts ++ all_hosts sets

pub prefer_assoc : (a b c : Option HostRecord) → prefer (prefer a b) c ≡ prefer a (prefer b c)
prefer_assoc none b c = refl
prefer_assoc (some a) none c = refl
prefer_assoc (some a) (some b) none = ground arith
prefer_assoc (some a) (some b) (some c) = ground arith

pub best-append :
    (id : Str) (xs ys : List HostRecord) → best id (xs ++ ys) ≡ prefer (best id xs) (best id ys)
unfolding best
best-append id [] ys = refl
best-append id (h ∷ xs) ys =
    ground (arith, best-append id xs ys, prefer_assoc (some h) (best id xs) (best id ys))

-- What `best` finds has the ID, and no record with the ID has a higher priority.
abbrev pub IsTop : Str → HostRecord → List HostRecord → Type 0
IsTop id b = All λ h. h.id ≡ id → ltb_ℤ b.priority h.priority ≡ false

pub best-id : (id : Str) (hs : List HostRecord) {b : HostRecord} → best id hs ≡ some b → b.id ≡ id
unfolding best
best-id id [] e = cc
best-id id (h ∷ hs) {b} e = elim (Option-cases (best id hs)) [
  | inl n ↦ ground arith
  | inr (c, f) ↦ let g = best-id id hs f in ground arith
]
