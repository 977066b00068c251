-- ===== src/Reconcile/Super/Laws.antt =====
-- What `updateSuper` of internal/reconcile/reconcile.go leaves, and the pairs of `superPairs`.
use network_mesh_exporter.Base.{
  ℕ, suc, ◌≡◌, ◌⊎◌, refl, sym, subst, inl, inr, Bool, true, not, List, [], ◌∷◌, ◌++◌, All,
  All-append, All-keep, All-take, All-mono, Bool-cases, Option-cases, arith, take, drop, keep, eqb,
}
use network_mesh_exporter.Base.Map.{Map, lookup, insert, All-insert, All-lookup}
use network_mesh_exporter.Base.Str.{Str}
use network_mesh_exporter.Inventory.{Snapshot}
use network_mesh_exporter.Slot.{SlotsConfig, Layout}
use network_mesh_exporter.State.{Slot, Pairing, is_live}
use network_mesh_exporter.Zone.{Index}
use network_mesh_exporter.Reconcile.{is_super}
use network_mesh_exporter.Reconcile.Super.{
  SuperPair, super_pairs, drop_super, drop_supers, existing_supers, place_supers, pair_key,
  update_pairing, update_pairings, update_super,
}

existing_supers-super :
    (ss : List Slot) (m : Map Slot)
    → All (λ e. is_super e.1 ≡ true) m
    → All (λ e. is_super e.1 ≡ true) (existing_supers ss m)
unfolding existing_supers
existing_supers-super [] m h = h
existing_supers-super (s ∷ ss) m h = elim (Bool-cases (is_super s)) [
  | inl e ↦
      let m' : Map Slot = insert (pair_key s.host_a s.super_target) s m in
      let step : existing_supers (s ∷ ss) m ≡ existing_supers ss m' = ground arith in
      subst (All Super) (sym step)
        (existing_supers-super ss m' (All-insert Super (pair_key s.host_a s.super_target) s m e h))
  | inr e ↦
      let step : existing_supers (s ∷ ss) m ≡ existing_supers ss m = ground arith in
      subst (All Super) (sym step) (existing_supers-super ss m h)
]
  where
    Super : Str × Slot → Type 0
    Super e = is_super e.1 ≡ true

pub place_supers-super :
    (key : Str) (now : ℕ) (existing : Map Slot) (i : ℕ) (ws : List SuperPair)
    → All (λ e. is_super e.1 ≡ true) existing
    → All (λ s. is_super s ≡ true) (place_supers key now existing i ws).0
unfolding place_supers
place_supers-super key now existing i [] h = tt
place_supers-super key now existing i (w ∷ ws) h =
    elim (Option-cases (lookup (pair_key w.src w.dst) existing)) [
      | inl e ↦ rw (e, place_supers) (refl, place_supers-super key now existing (suc i) ws h)
      | inr (s, e) ↦
          rw (e, place_supers)
            (
              All-lookup (λ x. is_super x.1 ≡ true) (pair_key w.src w.dst) existing h e,
              place_supers-super key now existing (suc i) ws h,
            )
    ]

-- `updateSuper` adds super slots and takes some away: what it leaves of the other slots stood
-- before.
module _ (Q : Pairing → Slot → Type 0)
    (stable : (p : Pairing) (ss : List Slot) (s : Slot)
      → Q p s
      → Q (record p { slots = ss }) s) where
  abbrev pub AllLive : Str × Pairing → Type 0
  AllLive e = is_live e.1 ≡ true → All (Q e.1) e.1.slots

  abbrev pub AllLiveBase : Str × Pairing → Type 0
  AllLiveBase e = is_live e.1 ≡ true → All (λ s. (is_super s ≡ true) ⊎ Q e.1 s) e.1.slots

  restate :
      (p : Pairing) (ss ts : List Slot)
      → All (Q p) ss
      → All (λ s. (is_super s ≡ true) ⊎ Q (record p { slots = ts }) s) ss
  restate p ss ts h = All-mono (λ s q. inr (stable p ts s q)) ss h

  drop_supers-base : (ps : Map Pairing) → All AllLive ps → All AllLiveBase (drop_supers ps).0
  unfolding drop_supers drop_super is_live
  drop_supers-base [] h = tt
  drop_supers-base ((key, p) ∷ ps) h = (
    λ l.
        restate p (keep (λ s. not (is_super s)) p.slots) (keep (λ s. not (is_super s)) p.slots)
          (All-keep (Q p) (λ s. not (is_super s)) p.slots (h.0 l)),
    drop_supers-base ps h.1,
  )

  module _ (now : ℕ) (layout : Layout) (eligible : Str → Bool) (idx : Index) (max : ℕ)
      (hosts : Map (List Str)) where
    update_pairing-base :
        (key : Str) (p : Pairing)
        → AllLive (key, p)
        → AllLiveBase (key, (update_pairing now layout eligible idx max hosts p).0)
    unfolding update_pairing is_live
    update_pairing-base key p h l = elim (Bool-cases (is_live p)) [
      | inl e ↦
          let base : List Slot = take layout.total p.slots in
          let existing : Map Slot = existing_supers (drop layout.total p.slots) [] in
          let placed =
            place_supers p.key now existing layout.total (super_pairs eligible idx hosts p max) in
          let same : (update_pairing now layout eligible idx max hosts p).0
              ≡ record p { slots = base ++ placed.0 } =
            ground arith in
          rw same (
            All-append (λ s. (is_super s ≡ true) ⊎ Q (record p { slots = base ++ placed.0 }) s) base
              placed.0
              (restate p base (base ++ placed.0) (All-take (Q p) layout.total p.slots (h e)))
              (All-mono (λ s q. inl q) placed.0
                (place_supers-super p.key now existing layout.total _
                  (existing_supers-super (drop layout.total p.slots) [] tt))))
      | inr e ↦ absurd (ground arith)
    ]

    update_pairings-base :
        (ps : Map Pairing)
        → All AllLive ps
        → All AllLiveBase (update_pairings now layout eligible idx max hosts ps).0
    unfolding update_pairings
    update_pairings-base [] h = tt
    update_pairings-base ((key, p) ∷ ps) h =
        (update_pairing-base key p h.0, update_pairings-base ps h.1)

  pub update_super-base :
      (now : ℕ) (layout : Layout) (cfg scanner : SlotsConfig) (snap : Snapshot)
      (eligible : Str → Bool) (idx : Index) (ps : Map Pairing) (hosts : Map (List Str))
      → All AllLive ps
      → All AllLiveBase (update_super now layout cfg scanner snap eligible idx ps hosts).pairings
  unfolding update_super
  update_super-base now layout cfg scanner snap eligible idx ps hosts h =
      elim (Bool-cases (eqb cfg.super_hosts 0)) [
        | inl e ↦ rw (e, update_super) (drop_supers-base ps h)
        | inr e ↦
            rw (e, update_super)
              (update_pairings-base now layout eligible idx cfg.super_max_targets _ ps h)
      ]
