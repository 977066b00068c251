-- ===== src/Reconcile/Fill/Filled.antt =====
-- `fillDiverse` of internal/reconcile/reconcile.go: which sides it fills.
use network_mesh_exporter.Base.{
  ℕ, ◌<◌, ◌≡◌, ◌≢◌, ◌⊎◌, refl, inl, inr, Bool, true, false, not, ◌&&◌, List, [], ◌∷◌, All, length,
  arith, subst,
}
use network_mesh_exporter.Base.Str.{Str, ◌==◌}
use network_mesh_exporter.Base.Strs.{contains}
use network_mesh_exporter.Reconcile.Fill.{fill_side, fill_slot}
use network_mesh_exporter.Reconcile.Fill.Diverse.{fill_side-IsSideFill}
use network_mesh_exporter.Slot.{
  diverse, Side, side_a, side_b, Rank, unfilled, unique, min_use, any, SlotsConfig, Candidates,
  pick,
}
use network_mesh_exporter.Slot.Ranks.{pick-IsPick}
use network_mesh_exporter.State.{Slot, Pairing, is_filled, host, set_host}

unfilled_or_not : (r : Rank) → (r ≡ unfilled) ⊎ (r ≢ unfilled)
unfilled_or_not unfilled = inl refl
unfilled_or_not unique = inr (λ e. cc)
unfilled_or_not min_use = inr (λ e. cc)
unfilled_or_not any = inr (λ e. cc)

one_included :
    (exclude : Str → Bool) (hs : List Str)
    → ((id : Str) → exclude id ≡ false)
    → 0 < length hs
    → All (λ h. exclude h ≡ true) hs
    → ⊥
one_included exclude [] f n a = ground arith
one_included exclude (h ∷ hs) f n a = ground (arith, f h, a.0)

pick_found :
    (cfg : SlotsConfig) (pk : Str) (c : Candidates) (exclude : Str → Bool)
    → cfg.allow_reuse ≡ true
    → ((id : Str) → exclude id ≡ false)
    → 0 < length c.hosts
    → contains [] c.hosts ≡ false
    → (pick cfg pk c exclude).0 ≢ []
pick_found cfg pk c exclude reuse f n e blank =
    let found = pick-IsPick cfg pk c exclude in
    elim (unfilled_or_not (pick cfg pk c exclude).1) [
      | inl u ↦ one_included exclude c.hosts f n (found.none_left u reuse)
      | inr u ↦
          let (listed, _) = found.taken u in
          ground (arith, subst (λ x. contains x c.hosts ≡ true) blank listed)
    ]

-- In a pairing of two zones, where reuse is allowed, a side of a slot that has candidates, none with
-- the empty ID, holds a host after its fill.
fill_side_filled :
    (scanner : SlotsConfig) (now : ℕ) (p : Pairing) (pk : Str) (side : Side) (s : Slot)
    (c : Candidates)
    → p.intra ≡ false
    → scanner.allow_reuse ≡ true
    → 0 < length c.hosts
    → contains [] c.hosts ≡ false
    → host (fill_side scanner now p pk side s c).0 side ≢ []
unfolding fill_side host set_host
fill_side_filled scanner now p pk side_a s c i r n e = ground (
  arith,
  pick_found scanner pk c (λ (id : Str). p.intra && not (s.host_b == []) && id == s.host_b) r
      (λ id. ground arith) n e,
)
fill_side_filled scanner now p pk side_b s c i r n e = ground (
  arith,
  pick_found scanner pk c (λ (id : Str). p.intra && not (s.host_a == []) && id == s.host_a) r
      (λ id. ground arith) n e,
)

-- In a pairing of two zones, where reuse is allowed and both zones have candidates, none with the
-- empty ID, both sides of a diverse slot hold a host after the fill.
pub fill_slot_filled :
    (scanner : SlotsConfig) (now : ℕ) (p : Pairing) (pk : Str) (s : Slot) (ca cb : Candidates)
    → s.class ≡ diverse
    → p.intra ≡ false
    → scanner.allow_reuse ≡ true
    → 0 < length ca.hosts
    → 0 < length cb.hosts
    → contains [] ca.hosts ≡ false
    → contains [] cb.hosts ≡ false
    → is_filled (fill_slot scanner now p pk s ca cb).0 ≡ true
unfolding fill_slot is_filled host
fill_slot_filled scanner now p pk s ca cb d i r na nb ea eb =
    let s1 = (fill_side scanner now p pk side_a s ca).0 in
    let a = fill_side_filled scanner now p pk side_a s ca i r na ea in
    let b = fill_side_filled scanner now p pk side_b s1 cb i r nb eb in
    let far = (fill_side-IsSideFill scanner now p pk side_b s1 cb).far_side in
    rw d (ground (arith, a, b, far))
