-- ===== src/Reconcile/Fill/Valid.antt =====
-- `fillSides` of internal/reconcile/reconcile.go places no host that `checkSide` would clear.
use network_mesh_exporter.Base.{
  ℕ, ◌≡◌, ◌⊎◌, refl, sym, subst, inl, inr, Bool, true, ◌&&◌, List, [], ◌∷◌, none, some, All,
  Bool-cases, Option-cases, arith, if◌then◌else◌, keep, length, eqb,
}
use network_mesh_exporter.Base.Map.{Map, lookup, insert, All-insert, All-lookup}
use network_mesh_exporter.Base.Sort.{sort}
use network_mesh_exporter.Base.Str.{Str, ◌==◌, str_dec, str_ltb}
use network_mesh_exporter.Base.Strs.{contains, contains_self, All-contains}
use network_mesh_exporter.Inventory.{Snapshot}
use network_mesh_exporter.Slot.{
  Side, side_a, side_b, SlotsConfig, Candidates, new_candidates, use_host, pick_anchor,
}
use network_mesh_exporter.State.{Slot, Pairing, is_live, host}
use network_mesh_exporter.Zone.{Index, members_of}
use network_mesh_exporter.Reconcile.{is_super}
use network_mesh_exporter.Reconcile.Validate.{fault}
use network_mesh_exporter.Reconcile.Validate.Laws.{SideOk, SlotOk}
use network_mesh_exporter.Reconcile.Fill.{
  is_anchor, opposite, anchor_host, held_by_anchor, count_held, fill_anchor_side, fill_anchors,
  fill_pairing, fill_keys, fill_sides, live_keys,
}
use network_mesh_exporter.Reconcile.Fill.Anchors.{
  IsAnchorFill, Zipped-All, final_anchor, pick_anchor-taken, fill_anchor_side-Zipped,
  fill_anchor_side-candidates,
}
use network_mesh_exporter.Reconcile.Fill.Diverse.{IsSlotFill, fill_diverse-All}

module _ (snap : Snapshot) (eligible : Str → Bool) (idx : Index)
    (members_ok : (zone id : Str)
      → contains id (members_of zone idx.members) ≡ true
      → eligible id ≡ true
      → fault snap eligible idx zone id ≡ none) where
  -- A slot whose sides pass, or a super slot.
  abbrev pub BaseOk : Pairing → Slot → Type 0
  BaseOk p s = (is_super s ≡ true) ⊎ SlotOk snap eligible idx p s

  keep-fits :
      (zone : Str) (ids : List Str)
      → All (λ id. contains id (members_of zone idx.members) ≡ true) ids
      → All (λ id. fault snap eligible idx zone id ≡ none) (keep eligible ids)
  keep-fits zone [] h = tt
  keep-fits zone (id ∷ ids) h = ground (arith, members_ok zone id h.0, keep-fits zone ids h.1)

  candidates-fit :
      (zone : Str)
      → All
          (λ id. fault snap eligible idx zone id ≡ none)
          (new_candidates zone (members_of zone idx.members) (some eligible)).hosts
  unfolding new_candidates
  candidates-fit zone =
      keep-fits zone (members_of zone idx.members) (contains_self (members_of zone idx.members))

  count_held-hosts :
      (side : Side) (ss : List Slot) (c : Candidates) → (count_held side ss c).hosts ≡ c.hosts
  unfolding count_held use_host
  count_held-hosts side [] c = refl
  count_held-hosts side (s ∷ ss) c =
      ground (
        arith,
        count_held-hosts side ss (if host s side == [] then c else use_host (host s side) c),
      )

  side_zone : Pairing → Side → Str
  side_zone p side_a = p.zone_a
  side_zone p side_b = p.zone_b

  anchor_host-ok :
      (p : Pairing) (side : Side) (ss : List Slot)
      → All (BaseOk p) ss
      → SideOk snap eligible idx (side_zone p side) (anchor_host side ss)
  unfolding anchor_host side_zone host
  anchor_host-ok p side [] h = inl refl
  anchor_host-ok p side_a (s ∷ ss) h = ground (arith, anchor_host-ok p side_a ss h.1)
  anchor_host-ok p side_b (s ∷ ss) h = ground (arith, anchor_host-ok p side_b ss h.1)

  final_anchor-ok :
      (p : Pairing) (pk : Str) (side : Side) (ss : List Slot) (c : Candidates)
      → All (BaseOk p) ss
      → All (λ id. fault snap eligible idx (side_zone p side) id ≡ none) c.hosts
      → SideOk snap eligible idx (side_zone p side) (final_anchor p pk side ss c)
  unfolding final_anchor
  final_anchor-ok p pk side ss c h fits = elim (str_dec (anchor_host side ss) []) [
    | yes e ↦
        let id : Str =
          (pick_anchor pk c (λ (x : Str). p.intra && held_by_anchor (opposite side) ss x)).0 in
        let same : final_anchor p pk side ss c ≡ id = ground arith in
        rw same (elim (str_dec id []) [
          | yes q ↦ inl q
          | no q ↦ inr (
              All-contains (λ x. fault snap eligible idx (side_zone p side) x ≡ none) id c.hosts
                fits
                (pick_anchor-taken pk c
                  (λ (x : Str). p.intra && held_by_anchor (opposite side) ss x) q).0)
        ])
    | no e ↦
        let same : final_anchor p pk side ss c ≡ anchor_host side ss = ground arith in
        rw same (anchor_host-ok p side ss h)
  ]

  anchor_step :
      (p : Pairing) (side : Side) (id : Str) (s t : Slot)
      → SideOk snap eligible idx (side_zone p side) id
      → IsAnchorFill side id s t
      → BaseOk p s
      → BaseOk p t
  unfolding side_zone host
  anchor_step p side_a id s t ok f b = ground arith
  anchor_step p side_b id s t ok f b = ground arith

  fill_anchor_side-ok :
      (now : ℕ) (p : Pairing) (pk : Str) (side : Side) (ss : List Slot) (c : Candidates)
      → All (BaseOk p) ss
      → All (λ id. fault snap eligible idx (side_zone p side) id ≡ none) c.hosts
      → All (BaseOk p) (fill_anchor_side now p pk side ss c).0
  fill_anchor_side-ok now p pk side ss c h fits =
      let ok = final_anchor-ok p pk side ss c h fits in
      Zipped-All {R = IsAnchorFill side (final_anchor p pk side ss c)} (BaseOk p) (BaseOk p) ss _
        (λ s t f b. anchor_step p side (final_anchor p pk side ss c) s t ok f b)
        (fill_anchor_side-Zipped now p pk side ss c) h

  diverse_step :
      (p : Pairing) (ha hb : List Str) (s t : Slot)
      → All (λ id. fault snap eligible idx p.zone_a id ≡ none) ha
      → All (λ id. fault snap eligible idx p.zone_b id ≡ none) hb
      → IsSlotFill p s t ha hb
      → BaseOk p s
      → BaseOk p t
  diverse_step p ha hb s t fa fb f (inl e) = inl (rw f.same_class e)
  diverse_step p ha hb s t fa fb f (inr (a, b)) = inr (side_case a, side_case_b b)
    where
      side_case :
          SideOk snap eligible idx p.zone_a s.host_a → SideOk snap eligible idx p.zone_a t.host_a
      side_case o = elim (str_dec t.host_a s.host_a) [
        | yes e ↦ rw e o
        | no n ↦ inr (
            All-contains (λ x. fault snap eligible idx p.zone_a x ≡ none) t.host_a ha fa
              (f.placed_a n))
      ]

      side_case_b :
          SideOk snap eligible idx p.zone_b s.host_b → SideOk snap eligible idx p.zone_b t.host_b
      side_case_b o = elim (str_dec t.host_b s.host_b) [
        | yes e ↦ rw e o
        | no n ↦ inr (
            All-contains (λ x. fault snap eligible idx p.zone_b x ≡ none) t.host_b hb fb
              (f.placed_b n))
      ]

  -- The candidates of a side after the first count of the hosts held.
  abbrev counted : Side → Str → Pairing → Candidates
  counted side zone p =
      count_held side p.slots (new_candidates zone (members_of zone idx.members) (some eligible))

  counted-fit :
      (side : Side) (zone : Str) (p : Pairing)
      → All (λ id. fault snap eligible idx zone id ≡ none) (counted side zone p).hosts
  counted-fit side zone p =
      subst (All (λ id. fault snap eligible idx zone id ≡ none))
        (sym (
          count_held-hosts side p.slots
            (new_candidates zone (members_of zone idx.members) (some eligible))))
        (candidates-fit zone)

  fill_anchors-ok :
      (now : ℕ) (p : Pairing) (pk : Str) (ss : List Slot) (ca cb : Candidates)
      → All (BaseOk p) ss
      → All (λ id. fault snap eligible idx p.zone_a id ≡ none) ca.hosts
      → All (λ id. fault snap eligible idx p.zone_b id ≡ none) cb.hosts
      → All (BaseOk p) (fill_anchors now p pk ss ca cb).0
        × ((fill_anchors now p pk ss ca cb).1.hosts ≡ ca.hosts)
        × ((fill_anchors now p pk ss ca cb).2.hosts ≡ cb.hosts)
  unfolding fill_anchors side_zone
  fill_anchors-ok now p pk ss ca cb h fa fb =
      elim (Bool-cases (eqb (length (keep is_anchor ss)) 0)) [
        | inl e ↦ rw (e, fill_anchors) (h, refl, refl)
        | inr e ↦
            let sa : List Slot = (fill_anchor_side now p pk side_a ss ca).0 in
            let after_a = fill_anchor_side-ok now p pk side_a ss ca h fa in
            rw (e, fill_anchors)
              (
                fill_anchor_side-ok now p pk side_b sa cb after_a fb,
                fill_anchor_side-candidates now p pk side_a ss ca,
                fill_anchor_side-candidates now p pk side_b sa cb,
              )
      ]

  module _ (scanner : SlotsConfig) (now : ℕ) where
    pub fill_pairing-ok :
        (key : Str) (p : Pairing)
        → All (BaseOk p) p.slots
        → All (BaseOk p) (fill_pairing scanner now eligible idx key p).0.slots
    unfolding fill_pairing
    fill_pairing-ok key p h =
        let ca : Candidates = counted side_a p.zone_a p in
        let cb : Candidates = counted side_b p.zone_b p in
        let fa = counted-fit side_a p.zone_a p in
        let fb = counted-fit side_b p.zone_b p in
        let (anchored, same_a, same_b) = fill_anchors-ok now p key p.slots ca cb h fa fb in
        let fa' = subst (All (λ id. fault snap eligible idx p.zone_a id ≡ none)) (sym same_a) fa in
        let fb' = subst (All (λ id. fault snap eligible idx p.zone_b id ≡ none)) (sym same_b) fb in
        fill_diverse-All scanner now p key (BaseOk p) (fill_anchors now p key p.slots ca cb).0
          (fill_anchors now p key p.slots ca cb).1 (fill_anchors now p key p.slots ca cb).2
          (λ s t f b. diverse_step p _ _ s t fa' fb' f b) anchored

    -- Every slot of a pairing that is not marked for removal is a super slot or passes.
    abbrev pub PairingBaseOk : Str × Pairing → Type 0
    PairingBaseOk e = is_live e.1 ≡ true → All (BaseOk e.1) e.1.slots

    filled :
        (key : Str) (p : Pairing)
        → PairingBaseOk (key, p)
        → PairingBaseOk (key, (fill_pairing scanner now eligible idx key p).0)
    unfolding fill_pairing is_live
    filled key p h l = fill_pairing-ok key p (h l)

    fill_keys-ok :
        (keys : List Str) (ps : Map Pairing)
        → All PairingBaseOk ps
        → All PairingBaseOk (fill_keys scanner now eligible idx keys ps).0
    unfolding fill_keys
    fill_keys-ok [] ps h = h
    fill_keys-ok (key ∷ keys) ps h = elim (Option-cases (lookup key ps)) [
      | inl e ↦ rw (e, fill_keys) (fill_keys-ok keys ps h)
      | inr (p, e) ↦
          rw (e, fill_keys)
            (fill_keys-ok keys (insert key (fill_pairing scanner now eligible idx key p).0 ps) (
              All-insert PairingBaseOk key (fill_pairing scanner now eligible idx key p).0 ps
                (filled key p (All-lookup PairingBaseOk key ps h e)) h))
    ]

    pub fill_sides-ok :
        (ps : Map Pairing)
        → All PairingBaseOk ps
        → All PairingBaseOk (fill_sides scanner now eligible idx ps).0
    unfolding fill_sides
    fill_sides-ok ps h = fill_keys-ok (sort str_ltb (live_keys ps)) ps h
