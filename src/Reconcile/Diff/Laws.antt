-- ===== src/Reconcile/Diff/Laws.antt =====
-- internal/reconcile/reconcile.go: which pairings `diffPairings` keeps.
use network_mesh_exporter.Base.{
  ℕ, ◌+◌, ◌≡◌, ◌≢◌, ◌⊎◌, refl, inl, inr, false, true, List, [], ◌∷◌, Option, none, some,
  if◌then◌else◌, eqb, leb, arith, All, Bool-cases,
}
use network_mesh_exporter.Base.Map.{Map, lookup, lookup-insert, Distinct, insert-Distinct}
use network_mesh_exporter.Base.Str.{Str, ◌==◌}
use network_mesh_exporter.Pairing
use network_mesh_exporter.Slot.{Layout}
use network_mesh_exporter.State.{Pairing, is_live}
use network_mesh_exporter.Reconcile.Diff.{
  Diff, ensure, ensure_all, is_wanted, sweep_one, sweep, diff_pairings, current_or_new,
}
use network_mesh_exporter.Reconcile.Resize.{resize_slots}

-- What the first loop puts into the table for a wanted pairing.
abbrev ensured : Layout → Pairing.Pairing → Diff → Pairing
ensured layout p d =
    (resize_slots layout (record (current_or_new (lookup p.key d.pairings) p) { remove_at = 0 })).0

ensure-lookup :
    (layout : Layout) (p : Pairing.Pairing) (d : Diff) (key : Str)
    → lookup key (ensure layout p d).pairings
      ≡ (if key == p.key then some (ensured layout p d) else lookup key d.pairings)
unfolding ensure
ensure-lookup layout p d key = lookup-insert p.key key (ensured layout p d) d.pairings

ensured-is_live :
    (layout : Layout) (p : Pairing.Pairing) (d : Diff) → is_live (ensured layout p d) ≡ true
unfolding resize_slots is_live
ensured-is_live layout p d = refl

-- The loop over the wanted pairings leaves every other pairing as it is.
ensure_all-lookup :
    (layout : Layout) (want : List Pairing.Pairing) (d : Diff) (key : Str)
    → is_wanted key want ≡ false
    → lookup key (ensure_all layout want d).pairings ≡ lookup key d.pairings
unfolding ensure_all is_wanted
ensure_all-lookup layout [] d key n = refl
ensure_all-lookup layout (p ∷ ps) d key n =
    ground
      (arith, ensure-lookup layout p d key, ensure_all-lookup layout ps (ensure layout p d) key)

ensure_all-Distinct :
    (layout : Layout) (want : List Pairing.Pairing) (d : Diff)
    → Distinct d.pairings
    → Distinct (ensure_all layout want d).pairings
unfolding ensure_all ensure
ensure_all-Distinct layout [] d h = h
ensure_all-Distinct layout (p ∷ ps) d h =
    ensure_all-Distinct layout ps (ensure layout p d) (insert-Distinct p.key _ d.pairings h)

-- A wanted pairing is in the table and is not marked for removal.
abbrev IsIn : Str → Map Pairing → Type 0
IsIn key m = (p : Pairing) × (lookup key m ≡ some p) × (is_live p ≡ true)

ensure-IsIn :
    (layout : Layout) (p : Pairing.Pairing) (d : Diff) (key : Str)
    → ((key == p.key) ≡ true) ⊎ IsIn key d.pairings
    → IsIn key (ensure layout p d).pairings
ensure-IsIn layout p d key w = elim (Bool-cases (key == p.key)) [
  | inl e ↦
      (ensured layout p d, ground (arith, ensure-lookup layout p d key), ensured-is_live layout p d)
  | inr e ↦ elim w [
    | inl t ↦ cc
    | inr (q, l, live) ↦ (q, ground (arith, ensure-lookup layout p d key), live)
  ]
]

ensure_all-IsIn :
    (layout : Layout) (want : List Pairing.Pairing) (d : Diff) (key : Str)
    → (is_wanted key want ≡ true) ⊎ IsIn key d.pairings
    → IsIn key (ensure_all layout want d).pairings
unfolding ensure_all is_wanted
ensure_all-IsIn layout [] d key (inl w) = cc
ensure_all-IsIn layout [] d key (inr w) = w
ensure_all-IsIn layout (p ∷ ps) d key (inr w) =
    ensure_all-IsIn layout ps _ key (inr (ensure-IsIn layout p d key (inr w)))
ensure_all-IsIn layout (p ∷ ps) d key (inl w) = elim (Bool-cases (key == p.key)) [
  | inl e ↦ ensure_all-IsIn layout ps _ key (inr (ensure-IsIn layout p d key (inl e)))
  | inr e ↦ ensure_all-IsIn layout ps _ key (inl (ground arith))
]

sweep-none :
    (now hold : ℕ) (want : List Pairing.Pairing) (m : Map Pairing) (key : Str)
    → All (λ e. key ≢ e.0) m
    → lookup key (sweep now hold want m).0 ≡ none
unfolding sweep lookup
sweep-none now hold want [] key h = refl
sweep-none now hold want ((k, p) ∷ m) key h =
    ground (arith, sweep-none now hold want m key h.1, h.0)

-- The sweep of one key.
abbrev pub swept : ℕ → ℕ → List Pairing.Pairing → Str → Option Pairing → Option Pairing
swept now hold want key none = none
swept now hold want key (some p) = sweep_one now hold want key p

sweep-lookup :
    (now hold : ℕ) (want : List Pairing.Pairing) (m : Map Pairing) (key : Str)
    → Distinct m
    → lookup key (sweep now hold want m).0 ≡ swept now hold want key (lookup key m)
unfolding sweep lookup
sweep-lookup now hold want [] key h = refl
sweep-lookup now hold want ((k, p) ∷ m) key h =
    ground (arith, sweep-lookup now hold want m key h.1, sweep-none now hold want m key)

-- In a table of distinct keys, a wanted pairing is in the table that the diff leaves, and is not
-- marked for removal.
pub diff_pairings_wanted :
    (layout : Layout) (now hold : ℕ) (want : List Pairing.Pairing) (m : Map Pairing) (key : Str)
    → Distinct m
    → is_wanted key want ≡ true
    → (p : Pairing) × (lookup key (diff_pairings layout now hold want m).0.pairings ≡ some p)
      × (is_live p ≡ true)
unfolding diff_pairings sweep_one
diff_pairings_wanted layout now hold want m key h w =
    let d : Diff = record { pairings = m; added = []; changes = [] } in
    let all = (ensure_all layout want d).pairings in
    let (p, l, live) = ensure_all-IsIn layout want d key (inl w) in
    let step : lookup key (sweep now hold want all).0 ≡ swept now hold want key (lookup key all) =
      sweep-lookup now hold want all key (ensure_all-Distinct layout want d h) in
    (p, rw (step, l, w) refl, live)

-- In a table of distinct keys, a pairing that is not wanted and not marked is marked for removal
-- when the hold from then on is over; one that is marked is deleted when that time has come, and
-- stays as it is until then.
pub diff_pairings_unwanted :
    (layout : Layout) (now hold : ℕ) (want : List Pairing.Pairing) (m : Map Pairing) (key : Str)
    (p : Pairing)
    → Distinct m
    → is_wanted key want ≡ false
    → lookup key m ≡ some p
    → lookup key (diff_pairings layout now hold want m).0.pairings ≡ (
        if eqb p.remove_at 0
        then some (record p { remove_at = now + hold })
        else if leb p.remove_at now
        then none
        else some p)
unfolding diff_pairings sweep_one
diff_pairings_unwanted layout now hold want m key p h w l =
    let d : Diff = record { pairings = m; added = []; changes = [] } in
    let all = (ensure_all layout want d).pairings in
    let step : lookup key (sweep now hold want all).0 ≡ swept now hold want key (lookup key all) =
      sweep-lookup now hold want all key (ensure_all-Distinct layout want d h) in
    let same : lookup key all ≡ some p = rw (ensure_all-lookup layout want d key w) l in
    rw (step, same, w) refl
