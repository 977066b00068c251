-- ===== src/Reconcile/Fill/Anchors.antt =====
-- `fillAnchors` of internal/reconcile/reconcile.go.
use mathlib.Core.Path.{subst₂}
use network_mesh_exporter.Base.{
  ℕ, ◌≡◌, ◌≢◌, ◌⊎◌, refl, sym, subst, inl, inr, Bool, false, true, ◌&&◌, List, [], ◌∷◌, All,
  All-mono, arith, if◌then◌else◌, length, Option-cases,
}
use network_mesh_exporter.Base.Str.{Str, ◌==◌, str_dec}
use network_mesh_exporter.Base.Strs.{contains}
use network_mesh_exporter.Slot.{
  Side, side_a, side_b, Rank, Candidates, use_host, pick_anchor, start_offset, scan, min_use,
}
use network_mesh_exporter.Slot.Picks.{scan-some}
use network_mesh_exporter.State.{Slot, Pairing, host, set_host}
use network_mesh_exporter.Reconcile.{Reason}
use network_mesh_exporter.Reconcile.Fill.{
  is_anchor, opposite, anchor_host, held_by_anchor, copy_anchor, fill_anchor_side,
}

-- `PickAnchor` returns a candidate that is not excluded, or the empty string.
pub pick_anchor-taken :
    (pk : Str) (c : Candidates) (exclude : Str → Bool)
    → (pick_anchor pk c exclude).0 ≢ []
    → (contains (pick_anchor pk c exclude).0 c.hosts ≡ true)
      × (exclude (pick_anchor pk c exclude).0 ≡ false)
unfolding pick_anchor
pick_anchor-taken pk c exclude n =
    elim (Option-cases (scan c (start_offset pk (length c.hosts)) exclude (λ h. true))) [
      | inl e ↦ ground arith
      | inr (id, e) ↦
          ground
            (arith, scan-some c (start_offset pk (length c.hosts)) exclude (λ h. true) {h = id} e)
    ]

-- What the fill of the anchors does to a slot on one side: nothing, or the empty side of an anchor
-- slot takes a host.
pub record IsAnchorFill (side : Side) (id : Str) (s t : Slot) : Type 0 where
  pub same_class : t.class ≡ s.class
  pub same_index : t.index ≡ s.index
  pub far_side : host t (opposite side) ≡ host s (opposite side)
  pub kept : host s side ≢ [] → t ≡ s
  pub taken : is_anchor s ≡ true → host s side ≡ [] → host t side ≡ id
  pub others : is_anchor s ≡ false → t ≡ s

-- Two lists of slots that stand in a relation, place by place.
abbrev pub Zipped : (Slot → Slot → Type 0) → List Slot → List Slot → Type 0
Zipped R [] [] = Unit
Zipped R [] (t ∷ ts) = ⊥
Zipped R (s ∷ ss) [] = ⊥
Zipped R (s ∷ ss) (t ∷ ts) = R s t × Zipped R ss ts

module _ (key : Str) (now : ℕ) (id : Str) (rank : Rank) (reason : Reason) where
  copy_one-IsAnchorFill :
      (side : Side) (s : Slot)
      → IsAnchorFill side id s
          (if is_anchor s && host s side == [] then set_host side id rank now s else s)
  unfolding host set_host
  copy_one-IsAnchorFill side_a s = ground arith
  copy_one-IsAnchorFill side_b s = ground arith

  -- Every anchor slot whose side is empty takes the host.
  copy_anchor-Zipped :
      (side : Side) (ss : List Slot) (c : Candidates)
      → Zipped (IsAnchorFill side id) ss (copy_anchor key now side id rank reason ss c).0
  unfolding copy_anchor
  copy_anchor-Zipped side [] c = tt
  copy_anchor-Zipped side (s ∷ ss) c =
      let c' : Candidates = if is_anchor s && host s side == [] then use_host id c else c in
      let step : (copy_anchor key now side id rank reason (s ∷ ss) c).0
          ≡ (if is_anchor s && host s side == [] then set_host side id rank now s else s)
            ∷ (copy_anchor key now side id rank reason ss c').0 =
        ground arith in
      subst (Zipped (IsAnchorFill side id) (s ∷ ss)) (sym step)
        (copy_one-IsAnchorFill side s, copy_anchor-Zipped side ss c')

  copy_anchor-candidates :
      (side : Side) (ss : List Slot) (c : Candidates)
      → (copy_anchor key now side id rank reason ss c).1.hosts ≡ c.hosts
  unfolding copy_anchor use_host
  copy_anchor-candidates side [] c = refl
  copy_anchor-candidates side (s ∷ ss) c = ground (
    arith,
    copy_anchor-candidates side ss (if is_anchor s && host s side == [] then use_host id c else c),
  )

IsAnchorFill-self :
    (side : Side) (id : Str) (s : Slot) → host s side ≡ id → IsAnchorFill side id s s
IsAnchorFill-self side id s e = record {
  same_class = refl;
  same_index = refl;
  far_side = refl;
  kept = λ n. refl;
  taken = λ a h. e;
  others = λ n. refl;
}

-- The host that a side of the anchor slots ends with: the first that one of them holds, or else
-- the one that is picked.
unfoldable pub final_anchor : Pairing → Str → Side → List Slot → Candidates → Str
final_anchor p pk side slots cand =
    if anchor_host side slots == []
    then (pick_anchor pk cand (λ (id : Str). p.intra && held_by_anchor (opposite side) slots id)).0
    else anchor_host side slots

Zipped-unfilled :
    (side : Side) (ss : List Slot) → anchor_host side ss ≡ [] → Zipped (IsAnchorFill side []) ss ss
unfolding anchor_host
Zipped-unfilled side [] e = tt
Zipped-unfilled side (s ∷ ss) e = (
  record {
    same_class = refl;
    same_index = refl;
    far_side = refl;
    kept = λ n. refl;
    taken = λ a h. h;
    others = λ n. refl;
  },
  Zipped-unfilled side ss (ground arith),
)

module _ (now : ℕ) (p : Pairing) (pk : Str) where
  -- On each side every anchor slot that was empty ends with the same host, and nothing else
  -- changes.
  pub fill_anchor_side-Zipped :
      (side : Side) (ss : List Slot) (c : Candidates)
      → Zipped
          (IsAnchorFill side (final_anchor p pk side ss c))
          ss
          (fill_anchor_side now p pk side ss c).0
  unfolding fill_anchor_side final_anchor
  fill_anchor_side-Zipped side ss c = elim (str_dec (anchor_host side ss) []) [
    | yes e ↦ elim (str_dec (pick_anchor pk c excluded).0 []) [
      | yes q ↦
          let f : final_anchor p pk side ss c ≡ [] = ground arith in
          let r : (fill_anchor_side now p pk side ss c).0 ≡ ss = ground arith in
          subst₂ (λ id ts. Zipped (IsAnchorFill side id) ss ts) (sym f) (sym r)
            (Zipped-unfilled side ss e)
      | no q ↦
          let (id, rank) = pick_anchor pk c excluded in
          let f : final_anchor p pk side ss c ≡ id = ground arith in
          let r : (fill_anchor_side now p pk side ss c).0
              ≡ (copy_anchor p.key now side id rank Reason.new_slot ss c).0 =
            ground arith in
          subst₂ (λ x ts. Zipped (IsAnchorFill side x) ss ts) (sym f) (sym r)
            (copy_anchor-Zipped p.key now id rank Reason.new_slot side ss c)
    ]
    | no e ↦
        let id : Str = anchor_host side ss in
        let f : final_anchor p pk side ss c ≡ id = ground arith in
        let r : (fill_anchor_side now p pk side ss c).0
            ≡ (copy_anchor p.key now side id min_use Reason.anchor_reset ss c).0 =
          ground arith in
        subst₂ (λ x ts. Zipped (IsAnchorFill side x) ss ts) (sym f) (sym r)
          (copy_anchor-Zipped p.key now id min_use Reason.anchor_reset side ss c)
  ]
    where
      excluded : Str → Bool
      excluded id = p.intra && held_by_anchor (opposite side) ss id

  pub fill_anchor_side-candidates :
      (side : Side) (ss : List Slot) (c : Candidates)
      → (fill_anchor_side now p pk side ss c).1.hosts ≡ c.hosts
  unfolding fill_anchor_side
  fill_anchor_side-candidates side ss c =
      let (id, rank) =
        pick_anchor pk c (λ (x : Str). p.intra && held_by_anchor (opposite side) ss x) in
      ground (
        arith,
        copy_anchor-candidates p.key now id rank Reason.new_slot side ss c,
        copy_anchor-candidates p.key now (anchor_host side ss) min_use Reason.anchor_reset side ss
            c,
      )

pub Zipped-All :
    {R : Slot → Slot → Type 0} (P Q : Slot → Type 0) (ss ts : List Slot)
    → ((s t : Slot) → R s t → P s → Q t)
    → Zipped R ss ts
    → All P ss
    → All Q ts
Zipped-All P Q [] [] f z h = tt
Zipped-All P Q [] (t ∷ ts) f z h = absurd z
Zipped-All P Q (s ∷ ss) [] f z h = absurd z
Zipped-All {R} P Q (s ∷ ss) (t ∷ ts) f z h = (f s t z.0 h.0, Zipped-All {R = R} P Q ss ts f z.1 h.1)

-- The anchor slots hold one host on a side, or none.
abbrev pub Agrees : Side → Str → Slot → Type 0
Agrees side id s = is_anchor s ≡ true → (host s side ≡ []) ⊎ (host s side ≡ id)

anchor_host-Agrees :
    (side : Side) (id : Str) (ss : List Slot)
    → All (Agrees side id) ss
    → anchor_host side ss ≢ []
    → anchor_host side ss ≡ id
unfolding anchor_host
anchor_host-Agrees side id [] h n = absurd (n refl)
anchor_host-Agrees side id (s ∷ ss) h n = ground (arith, anchor_host-Agrees side id ss h.1)

anchor_host-none :
    (side : Side) (ss : List Slot)
    → anchor_host side ss ≡ []
    → All (λ s. is_anchor s ≡ true → host s side ≡ []) ss
unfolding anchor_host
anchor_host-none side [] e = tt
anchor_host-none side (s ∷ ss) e = (λ a. ground arith, anchor_host-none side ss (ground arith))

-- Where the anchor slots of a side held one host, or none, they all hold the same host afterwards:
-- the one that they held, or else the one that is picked.
pub fill_anchor_side-uniform :
    (now : ℕ) (p : Pairing) (pk : Str) (side : Side) (id : Str) (ss : List Slot) (c : Candidates)
    → All (Agrees side id) ss
    → All
        (λ t. is_anchor t ≡ true → host t side ≡ final_anchor p pk side ss c)
        (fill_anchor_side now p pk side ss c).0
unfolding final_anchor
fill_anchor_side-uniform now p pk side id ss c h =
    let f : Str = final_anchor p pk side ss c in
    let agreed : All (Agrees side f) ss = elim (str_dec (anchor_host side ss) []) [
      | yes e ↦ All-mono (λ s k a. inl (k a)) ss (anchor_host-none side ss e)
      | no e ↦ let same : f ≡ id = ground (arith, anchor_host-Agrees side id ss h e) in rw same h
    ] in
    Zipped-All {R = IsAnchorFill side f} (Agrees side f) (λ t. is_anchor t ≡ true → host t side ≡ f)
      ss _ (λ s t r g a. settled s t r g a) (fill_anchor_side-Zipped now p pk side ss c) agreed
  where
    settled :
        (s t : Slot)
        → IsAnchorFill side (final_anchor p pk side ss c) s t
        → Agrees side (final_anchor p pk side ss c) s
        → is_anchor t ≡ true
        → host t side ≡ final_anchor p pk side ss c
    settled s t r g a =
        let was : is_anchor s ≡ true = rw (← r.same_class) a in
        elim (str_dec (host s side) []) [
          | yes e ↦ r.taken was e
          | no e ↦ ground (arith, r.kept e, g was)
        ]
