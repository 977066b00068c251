-- ===== src/Inventory/Cache.antt =====
-- The cached snapshot of the store of internal/inventory/inventory.go.
use network_mesh_exporter.Base.{
  ℕ, ◌≡◌, ◌∙◌, ap, sym, subst, inl, inr, none, some, arith, Option-cases,
}
use network_mesh_exporter.Base.Map.{lookup}
use network_mesh_exporter.Base.Str.{Str}
use network_mesh_exporter.Inventory.{
  Set, Store, Snapshot, new_store, replace, remove, get, build_snapshot, snapshot,
}
use network_mesh_exporter.Inventory.Best.{best, all_hosts}
use network_mesh_exporter.Inventory.Snap.{get-build_snapshot}

-- A store as its methods leave it: a cached view is the one that its sets give, at some time.
abbrev pub IsFresh : Store → Type 0
IsFresh st =
    (s : Snapshot) → st.snap ≡ some s → (t : ℕ) × (s ≡ build_snapshot t (record st { snap = none }))

-- The methods that change the store.
pub data Step : Store → Store → Type 0 where
  replaced : (set : Set) (st : Store) → Step st (replace set st)
  removed : (source : Str) (st : Store) → Step st (remove source st)
  viewed : (now : ℕ) (st : Store) → Step st (snapshot now st).0

pub data Reachable : Store → Type 0 where
  started : Reachable new_store
  stepped : {st next : Store} → Reachable st → Step st next → Reachable next

remove-IsFresh : (source : Str) (st : Store) → IsFresh st → IsFresh (remove source st)
unfolding remove
remove-IsFresh source st f = elim (Option-cases (lookup source st.sets)) [
  | inl e ↦ let step : remove source st ≡ st = ground arith in subst IsFresh (sym step) f
  | inr (set, e) ↦ λ s c. ground arith
]

snapshot-IsFresh : (now : ℕ) (st : Store) → IsFresh st → IsFresh (snapshot now st).0
unfolding snapshot build_snapshot
snapshot-IsFresh now st f = elim (Option-cases st.snap) [
  | inl e ↦
      let step : (snapshot now st).0 ≡ record st { snap = some (build_snapshot now st) } =
        ground arith in
      subst IsFresh (sym step) (λ s c. (now, cc))
  | inr (v, e) ↦ let step : (snapshot now st).0 ≡ st = ground arith in subst IsFresh (sym step) f
]

step-IsFresh : {st next : Store} → Step st next → IsFresh st → IsFresh next
unfolding replace
step-IsFresh (replaced set st) f = λ s c. cc
step-IsFresh (removed source st) f = remove-IsFresh source st f
step-IsFresh (viewed now st) f = snapshot-IsFresh now st f

Reachable-IsFresh : {st : Store} → Reachable st → IsFresh st
unfolding new_store
Reachable-IsFresh started = λ s c. cc
Reachable-IsFresh (stepped r s) = step-IsFresh s (Reachable-IsFresh r)

-- Whatever methods were called on a store that starts empty, the view that it gives, cached or not,
-- finds for every ID the best record over the provider sets that the store holds now.
pub get-snapshot :
    {st : Store} (now : ℕ) (id : Str)
    → Reachable st
    → get (snapshot now st).1 id ≡ best id (all_hosts st.sets)
unfolding snapshot
get-snapshot {st} now id r = elim (Option-cases st.snap) [
  | inl e ↦
      let step : (snapshot now st).1 ≡ build_snapshot now st = ground arith in
      ap (λ v. get v id) step ∙ get-build_snapshot now st id
  | inr (v, e) ↦
      let step : (snapshot now st).1 ≡ v = ground arith in
      let (t, fresh) = Reachable-IsFresh r v e in
      ap (λ w. get w id) (step ∙ fresh) ∙ get-build_snapshot t (record st { snap = none }) id
]
