-- ===== src/Reconcile/Fill/Diverse.antt =====
-- `fillDiverse` of internal/reconcile/reconcile.go.
use mathlib.Core.Path.{subst₂}
use network_mesh_exporter.Base.{
  ℕ, ◌≡◌, ◌≢◌, refl, inl, inr, true, not, ◌&&◌, List, [], ◌∷◌, All, Bool-cases, arith,
}
use network_mesh_exporter.Base.Str.{Str, ◌==◌, str_dec}
use network_mesh_exporter.Base.Strs.{contains}
use network_mesh_exporter.Slot.{Side, side_a, side_b, SlotsConfig, Candidates, use_host, diverse}
use network_mesh_exporter.Slot.Ranks.{pick-IsPick}
use network_mesh_exporter.State.{Slot, Pairing, host}
use network_mesh_exporter.Reconcile.{class_eqb}
use network_mesh_exporter.Reconcile.Fill.{opposite, fill_side, fill_slot, fill_diverse}

-- What the fill of one side does to a slot: nothing, or the empty side takes a candidate, which
-- differs from the host of the far side in a pairing of one zone.
pub record IsSideFill (p : Pairing) (side : Side) (s t : Slot) (c d : Candidates) : Type 0 where
  pub same_candidates : d.hosts ≡ c.hosts
  pub same_class : t.class ≡ s.class
  pub same_index : t.index ≡ s.index
  pub far_side : host t (opposite side) ≡ host s (opposite side)
  pub kept : host s side ≢ [] → t ≡ s
  pub placed : host t side ≢ host s side → contains (host t side) c.hosts ≡ true
  pub distinct :
      p.intra ≡ true → host s side ≡ [] → host t side ≢ [] → host t side ≢ host s (opposite side)

-- What the fill does to a slot of a pairing, on both sides.
pub record IsSlotFill (p : Pairing) (s t : Slot) (ha hb : List Str) : Type 0 where
  pub same_class : t.class ≡ s.class
  pub same_index : t.index ≡ s.index
  pub kept_a : s.host_a ≢ [] → t.host_a ≡ s.host_a
  pub kept_b : s.host_b ≢ [] → t.host_b ≡ s.host_b
  pub placed_a : t.host_a ≢ s.host_a → contains t.host_a ha ≡ true
  pub placed_b : t.host_b ≢ s.host_b → contains t.host_b hb ≡ true
  pub distinct :
      p.intra ≡ true → (s.host_a ≢ [] → s.host_a ≢ s.host_b) → t.host_a ≢ [] → t.host_a ≢ t.host_b

IsSlotFill-self : (p : Pairing) (s : Slot) (ha hb : List Str) → IsSlotFill p s s ha hb
IsSlotFill-self p s ha hb = record {
  same_class = refl;
  same_index = refl;
  kept_a = λ n. refl;
  kept_b = λ n. refl;
  placed_a = λ n. absurd (n refl);
  placed_b = λ n. absurd (n refl);
  distinct = λ i d. d;
}

module _ (scanner : SlotsConfig) (now : ℕ) (p : Pairing) (pk : Str) where
  pub fill_side-IsSideFill :
      (side : Side) (s : Slot) (c : Candidates)
      → IsSideFill p side s
          (fill_side scanner now p pk side s c).0
          c
          (fill_side scanner now p pk side s c).1
  unfolding fill_side use_host
  fill_side-IsSideFill side_a s c = ground (
    arith,
    pick-IsPick scanner pk c (λ (id : Str). p.intra && not (s.host_b == []) && id == s.host_b),
  )
  fill_side-IsSideFill side_b s c = ground (
    arith,
    pick-IsPick scanner pk c (λ (id : Str). p.intra && not (s.host_a == []) && id == s.host_a),
  )

  sides-IsSlotFill :
      (s s1 s2 : Slot) (ca ca' cb cb' : Candidates)
      → IsSideFill p side_a s s1 ca ca'
      → IsSideFill p side_b s1 s2 cb cb'
      → IsSlotFill p s s2 ca.hosts cb.hosts
  unfolding host
  sides-IsSlotFill s s1 s2 ca ca' cb cb' f g = record {
    same_class = ground arith;
    same_index = ground arith;
    kept_a = λ n. ground (arith, f.kept n);
    kept_b = λ n. ground arith;
    placed_a = λ n. ground arith;
    placed_b = λ n. ground arith;
    distinct = λ i d n e. elim (str_dec s.host_a []) [
      | yes was_empty ↦ elim (str_dec s1.host_b []) [
        | yes open_b ↦ g.distinct i open_b (ground arith) (ground arith)
        | no held_b ↦ f.distinct i was_empty (ground arith) (ground (arith, g.kept held_b))
      ]
      | no was_held ↦ elim (str_dec s1.host_b []) [
        | yes open_b ↦ g.distinct i open_b (ground arith) (ground arith)
        | no held_b ↦ d was_held (ground (arith, f.kept was_held, g.kept held_b))
      ]
    ];
  }

  -- The fill keeps the index, the class and the hosts that a slot holds; an empty side takes a
  -- candidate of its side or stays empty; and in a pairing of one zone the two sides differ
  -- afterwards, where the first side holds a host, if they differed or the first side was empty.
  pub fill_slot-IsSlotFill :
      (s : Slot) (ca cb : Candidates)
      → IsSlotFill p s (fill_slot scanner now p pk s ca cb).0 ca.hosts cb.hosts
  unfolding fill_slot fill_side
  fill_slot-IsSlotFill s ca cb = elim (Bool-cases (class_eqb s.class diverse)) [
    | inl e ↦
        let s1 : Slot = (fill_side scanner now p pk side_a s ca).0 in
        let filled =
          sides-IsSlotFill s s1 (fill_side scanner now p pk side_b s1 cb).0 ca
            (fill_side scanner now p pk side_a s ca).1 cb
            (fill_side scanner now p pk side_b s1 cb).1 (fill_side-IsSideFill side_a s ca)
            (fill_side-IsSideFill side_b s1 cb) in
        rw (e, fill_slot) filled
    | inr e ↦ rw (e, fill_slot) (IsSlotFill-self p s ca.hosts cb.hosts)
  ]

  fill_slot-candidates :
      (s : Slot) (ca cb : Candidates)
      → ((fill_slot scanner now p pk s ca cb).1.hosts ≡ ca.hosts)
        × ((fill_slot scanner now p pk s ca cb).2.hosts ≡ cb.hosts)
  unfolding fill_slot
  fill_slot-candidates s ca cb =
      let s1 : Slot = (fill_side scanner now p pk side_a s ca).0 in
      let f = fill_side-IsSideFill side_a s ca in
      let g = fill_side-IsSideFill side_b s1 cb in
      ground (arith, f.same_candidates, g.same_candidates)

  -- What each fill of a slot keeps, the fill of all slots keeps.
  pub fill_diverse-All :
      (Q : Slot → Type 0) (ss : List Slot) (ca cb : Candidates)
      → ((s t : Slot) → IsSlotFill p s t ca.hosts cb.hosts → Q s → Q t)
      → All Q ss
      → All Q (fill_diverse scanner now p pk ss ca cb).0
  unfolding fill_diverse
  fill_diverse-All Q [] ca cb step h = tt
  fill_diverse-All Q (s ∷ ss) ca cb step h =
      let same = fill_slot-candidates s ca cb in
      (
        step s _ (fill_slot-IsSlotFill s ca cb) h.0,
        fill_diverse-All Q ss (fill_slot scanner now p pk s ca cb).1
            (fill_slot scanner now p pk s ca cb).2
            (λ a b f. step a b (subst₂ (λ x y. IsSlotFill p a b x y) same.0 same.1 f)) h.1,
      )
