-- ===== src/Provider.antt =====
-- internal/provider/provider.go: the manager of the discovery sources and the retry delay. The
-- configuration, the providers and their factories are parameters, and so is the fingerprint of a part
-- of the configuration. The goroutine of a provider and the reporter are not modelled.
pub mod Manage
pub mod Delay
pub mod File
pub mod K8s
pub mod Http
use network_mesh_exporter.Base.{
  ℕ, zero, suc, ◌+◌, ◌-◌, ◌*◌, ◌/◌, Bool, false, true, not, ◌&&◌, List, [], ◌∷◌, Option, none, some,
  map, if◌then◌else◌, ltb, eqb,
}
use network_mesh_exporter.Base.Int.{ℤ, pos, negsuc}
use network_mesh_exporter.Base.Map.{Map, lookup, insert, erase}
use network_mesh_exporter.Base.Str.{Str, ◌==◌}
use network_mesh_exporter.Inventory.{Store, remove}

-- `running`, less its goroutine.
pub record Running (P : Type 0) : Type 0 where
  pub prov : P
  pub fp : Str

-- The errors of `start`.
pub data Error : Type 0 where
  no_factory : Str → Error
  refused : Str → Error

-- `Manager`: a factory gives a provider or an error.
pub record Manager (C : Type 0) (P : Type 0) : Type 0 where
  pub store : Store
  pub active : Map (Running P)
  pub factories : Map (C → Option P)
  pub enabled : C → Str → Bool
  pub fingers : C → Str → Str

unfoldable pub new_manager : {C : Type 0} {P : Type 0} → Store → Manager C P
new_manager store = record {
  store = store;
  active = [];
  factories = [];
  enabled = λ cfg n. false;
  fingers = λ cfg n. [];
}

-- `firstErr`, after one more start.
abbrev pub first : Option Error → Option Error → Option Error
first none e = e
first (some x) e = some x

-- The names that `Refresh` polls; it fails where there is none.
unfoldable pub refreshed : {P : Type 0} → Str → Map (Running P) → List Str
refreshed source [] = []
refreshed source ((name, r) ∷ m) =
    let rest = refreshed source m in
    if not (source == []) && not (name == source) then rest else name ∷ rest

module _ {C : Type 0} {P : Type 0} where
  -- `sub` stands for the fingerprint of the part that the source reads.
  unfoldable pub register :
      Str → (C → Option P) → (C → Bool) → (C → Str) → Manager C P → Manager C P
  register name f enabled sub m = record m {
    factories = insert name f m.factories;
    enabled = λ cfg n. if n == name then enabled cfg else m.enabled cfg n;
    fingers = λ cfg n. if n == name then sub cfg else m.fingers cfg n;
  }

  unfoldable pub start : C → Str → Str → Manager C P → Option Error × Manager C P
  start cfg name fp m = elim (lookup name m.factories) [
    | none ↦ (some (no_factory name), m)
    | some f ↦ elim (f cfg) [
      | none ↦ (some (refused name), m)
      | some p ↦ (none, record m { active = insert name (record { prov = p; fp = fp }) m.active })
    ]
  ]

  unfoldable pub stop : Str → Manager C P → Manager C P
  stop name m = record m { active = erase name m.active }

  -- One round of the loop of `Apply`.
  unfoldable pub apply_one : C → Str → Option Error × Manager C P → Option Error × Manager C P
  unfolding start stop
  apply_one cfg name (e, m) =
      let fp = m.fingers cfg name in
      let fresh = start cfg name fp m in
      let restarted = start cfg name fp (stop name m) in
      let stopped = stop name m in
      if m.enabled cfg name
      then elim (lookup name m.active) [
        | none ↦ (first e fresh.0, fresh.1)
        | some cur ↦ if cur.fp == fp then (e, m) else (first e restarted.0, restarted.1)
      ]
      else elim (lookup name m.active) [
        | none ↦ (e, m)
        | some cur ↦ (e, record stopped { store = remove name stopped.store })
      ]

  unfoldable pub apply_all : C → List Str → Option Error × Manager C P → Option Error × Manager C P
  unfolding apply_one
  apply_all cfg [] out = out
  apply_all cfg (name ∷ names) out = apply_all cfg names (apply_one cfg name out)

  unfoldable pub apply : C → Manager C P → Option Error × Manager C P
  unfolding apply_all
  apply cfg m = apply_all cfg (map (λ e. e.0) m.factories) (none, m)

  unfoldable pub stop_all : List Str → Manager C P → Manager C P
  unfolding stop
  stop_all [] m = m
  stop_all (n ∷ ns) m = stop_all ns (stop n m)

  -- `Stop`.
  unfoldable pub stop_each : Manager C P → Manager C P
  unfolding stop_all
  stop_each m = stop_all (map (λ e. e.0) m.active) m

  unfoldable pub refresh : Str → Manager C P → Option (List Str)
  unfolding refreshed
  refresh source m = elim (refreshed source m.active) [ [] ↦ none | n ∷ ns ↦ some (n ∷ ns) ]

-- The loop of `Backoff`, from `i` to `attempt`.
unfoldable pub double : ℕ → ℕ → ℕ → ℕ
double zero max d = d
double (suc n) max d = let rest = double n max (d * 2) in if ltb d max then rest else d

-- `Backoff`; `int63n` is `rand.Int63n`, and durations stay below 2 ^ 62.
unfoldable pub backoff : (ℕ → ℕ) → ℤ → ℕ → ℕ → ℕ
unfolding double
backoff int63n attempt min max =
    let n : ℕ = elim attempt [ pos n ↦ n | negsuc _ ↦ 0 ] in
    let grown = double n max min in
    let d = if ltb max grown then max else grown in
    let jitter = int63n (d / 4 + 1) in d - d / 8 + jitter
