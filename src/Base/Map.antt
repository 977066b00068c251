-- ===== src/Base/Map.antt =====
-- Go maps with string keys: association lists, where a range loop visits the entries in list order.
use mathlib.Core.Path.{◌≡◌, refl}
use mathlib.Core.Logic.{◌≢◌}
use mathlib.Core.List.{List, [], ◌∷◌}
use mathlib.Core.Option.{Option, none, some}
use native.Mathlib.Omega.{arith}
use network_mesh_exporter.Base.Lists.{All}
use network_mesh_exporter.Base.Tests.{if◌then◌else◌}
use network_mesh_exporter.Base.Str.{Str, ◌==◌}

abbrev pub Map {ℓ} : Type ℓ → Type ℓ
Map V = List (Str × V)

module _ {ℓ} {V : Type ℓ} where
  unfoldable pub lookup : Str → Map V → Option V
  lookup k [] = none
  lookup k ((j, v) ∷ m) = if k == j then some v else lookup k m

  -- `m[k] = v`.
  unfoldable pub insert : Str → V → Map V → Map V
  insert k v [] = (k, v) ∷ []
  insert k v ((j, w) ∷ m) = if k == j then (j, v) ∷ m else (j, w) ∷ insert k v m

  -- `delete(m, k)`.
  unfoldable pub erase : Str → Map V → Map V
  erase k [] = []
  erase k ((j, w) ∷ m) = if k == j then erase k m else (j, w) ∷ erase k m

  pub lookup-insert :
      (k j : Str) (v : V) (m : Map V)
      → lookup j (insert k v m) ≡ (if j == k then some v else lookup j m)
  unfolding lookup insert
  lookup-insert k j v [] = refl
  lookup-insert k j v ((i, w) ∷ m) = ground (arith, lookup-insert k j v m)

  pub lookup-erase :
      (k j : Str) (m : Map V) → lookup j (erase k m) ≡ (if j == k then none else lookup j m)
  unfolding lookup erase
  lookup-erase k j [] = ground arith
  lookup-erase k j ((i, w) ∷ m) = ground (arith, lookup-erase k j m)

-- No two entries have one key, as in every Go map.
abbrev pub Distinct {ℓ} : {V : Type ℓ} → Map V → Type 0
Distinct [] = Unit
Distinct ((k, v) ∷ m) = All (λ e. k ≢ e.0) m × Distinct m

module _ {ℓ κ} {V : Type ℓ} (P : Str × V → Type κ) where
  pub All-insert : (k : Str) (v : V) (m : Map V) → P (k, v) → All P m → All P (insert k v m)
  unfolding insert
  All-insert k v [] p h = (p, tt)
  All-insert k v ((j, w) ∷ m) p h = ground (arith, All-insert k v m p h.1)

  pub All-erase : (k : Str) (m : Map V) → All P m → All P (erase k m)
  unfolding erase
  All-erase k [] h = tt
  All-erase k ((j, w) ∷ m) h = ground (arith, All-erase k m h.1)

  pub All-lookup : (k : Str) {v : V} (m : Map V) → All P m → lookup k m ≡ some v → P (k, v)
  unfolding lookup
  All-lookup k {v} [] h e = cc
  All-lookup k {v} ((j, w) ∷ m) h e = ground (arith, All-lookup k {v = v} m h.1)

module _ {ℓ} {V : Type ℓ} where
  pub insert-Distinct : (k : Str) (v : V) (m : Map V) → Distinct m → Distinct (insert k v m)
  unfolding insert
  insert-Distinct k v [] h = (tt, tt)
  insert-Distinct k v ((j, w) ∷ m) h =
      ground (arith, insert-Distinct k v m h.1, All-insert (λ e. j ≢ e.0) k v m)

  pub erase-Distinct : (k : Str) (m : Map V) → Distinct m → Distinct (erase k m)
  unfolding erase
  erase-Distinct k [] h = tt
  erase-Distinct k ((j, w) ∷ m) h =
      ground (arith, erase-Distinct k m h.1, All-erase (λ e. j ≢ e.0) k m h.0)
