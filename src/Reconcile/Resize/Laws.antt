-- ===== src/Reconcile/Resize/Laws.antt =====
-- internal/reconcile/reconcile.go: the slot table that `resizeSlots` leaves.
use network_mesh_exporter.Base.{
  ℕ, suc, zero, ◌-◌, ◌≡◌, refl, false, true, not, List, [], ◌∷◌, ◌++◌, length, take, keep, All,
  All-mono, length-append, length-take, append-nil, take-all, drop-all, keep-append, keep-All,
  keep-none, arith, ap, sym,
}
use network_mesh_exporter.Base.Str.{Str}
use network_mesh_exporter.Slot.{Class, Layout, class_at}
use network_mesh_exporter.State.{Slot, Pairing}
use network_mesh_exporter.Reconcile.{class_eqb, is_super}
use network_mesh_exporter.Reconcile.Resize.{
  new_slots, cut_changes, reclass, reclass_all, resize_slots,
}

-- From index `i` on, each slot has its index and the class that the layout gives that index.
abbrev pub IsLaidOut : Layout → ℕ → List Slot → Type 0
IsLaidOut layout i [] = Unit
IsLaidOut layout i (s ∷ ss) =
    (s.index ≡ i) × (s.class ≡ class_at layout i) × IsLaidOut layout (suc i) ss

class_eqb_sound : (a b : Class) → class_eqb a b ≡ true → a ≡ b
class_eqb_sound a b e = ground arith

class_eqb_self : (a : Class) → class_eqb a a ≡ true
class_eqb_self a = ground arith

reclass-class :
    (key : Str) (layout : Layout) (i : ℕ) (s : Slot)
    → ((reclass key layout i s).0.index ≡ i)
      × ((reclass key layout i s).0.class ≡ class_at layout i)
unfolding reclass
reclass-class key layout i s = ground (arith, class_eqb_sound s.class (class_at layout i))

reclass_all-IsLaidOut :
    (key : Str) (layout : Layout) (i : ℕ) (ss : List Slot)
    → IsLaidOut layout i (reclass_all key layout i ss).0
unfolding reclass_all
reclass_all-IsLaidOut key layout i [] = tt
reclass_all-IsLaidOut key layout i (s ∷ ss) =
    let (index, class) = reclass-class key layout i s in
    (index, class, reclass_all-IsLaidOut key layout (suc i) ss)

length-reclass_all :
    (key : Str) (layout : Layout) (i : ℕ) (ss : List Slot)
    → length (reclass_all key layout i ss).0 ≡ length ss
unfolding reclass_all
length-reclass_all key layout i [] = refl
length-reclass_all key layout i (s ∷ ss) = ap suc (length-reclass_all key layout (suc i) ss)

length-new_slots : (n i : ℕ) → length (new_slots n i) ≡ n
unfolding new_slots
length-new_slots zero i = refl
length-new_slots (suc n) i = ap suc (length-new_slots n (suc i))

-- The table that a resize leaves: as many slots as the layout has, each with the index and the
-- class of its place, and then the super slots that were there, as they were.
pub resize_slots-IsLaidOut :
    (layout : Layout) (p : Pairing)
    → (base : List Slot) × ((resize_slots layout p).0.slots ≡ base ++ keep is_super p.slots)
      × (length base ≡ layout.total)
      × IsLaidOut layout 0 base
unfolding resize_slots
resize_slots-IsLaidOut layout p =
    let kept = keep (λ s. not (is_super s)) p.slots in
    let base = kept ++ new_slots (layout.total - length kept) (length kept) in
    let slots = (reclass_all p.key layout 0 (take layout.total base)).0 in
    (
      slots,
      refl,
      omega (
        arith,
        length-reclass_all p.key layout 0 (take layout.total base),
        length-take layout.total base,
        length-append kept (new_slots (layout.total - length kept) (length kept)),
        length-new_slots (layout.total - length kept) (length kept),
      ),
      reclass_all-IsLaidOut p.key layout 0 (take layout.total base),
    )

reclass-same :
    (key : Str) (layout : Layout) (i : ℕ) (s : Slot)
    → s.index ≡ i
    → s.class ≡ class_at layout i
    → reclass key layout i s ≡ (s, [])
unfolding reclass
reclass-same key layout i s e c =
    rw (c, class_eqb_self (class_at layout i))
      (ap (λ k. (record s { index = k; class = class_at layout i }, [])) (sym e))

reclass_all-same :
    (key : Str) (layout : Layout) (i : ℕ) (ss : List Slot)
    → IsLaidOut layout i ss
    → reclass_all key layout i ss ≡ (ss, [])
unfolding reclass_all
reclass_all-same key layout i [] h = refl
reclass_all-same key layout i (s ∷ ss) (e, c, h) =
    rw (reclass-same key layout i s e c, reclass_all-same key layout (suc i) ss h) refl

-- A table that has the layout already, as many slots that are no super slots as the layout has, each
-- with its index and class, and then super slots only, is left alone, and nothing is recorded.
pub resize_slots-same :
    (layout : Layout) (p : Pairing) (base supers : List Slot)
    → p.slots ≡ base ++ supers
    → All (λ s. is_super s ≡ false) base
    → All (λ s. is_super s ≡ true) supers
    → length base ≡ layout.total
    → IsLaidOut layout 0 base
    → resize_slots layout p ≡ (p, [])
unfolding resize_slots new_slots cut_changes
resize_slots-same layout p base supers e b s l h =
    let kept_base : keep (λ x. not (is_super x)) p.slots ≡ base =
      rw
        (
          e,
          keep-append (λ x. not (is_super x)) base supers,
          keep-All (λ x. not (is_super x)) base (All-mono (λ x q. ap not q) base b),
          keep-none (λ x. not (is_super x)) supers (All-mono (λ x q. ap not q) supers s),
        )
        (append-nil base) in
    let kept_supers : keep is_super p.slots ≡ supers =
      rw
        (e, keep-append is_super base supers, keep-none is_super base b, keep-All is_super supers s)
        refl in
    let full : layout.total - length base ≡ 0 = omega arith in
    rw
      (
        kept_base,
        kept_supers,
        full,
        append-nil base,
        take-all layout.total base l,
        drop-all layout.total base l,
        reclass_all-same p.key layout 0 base h,
        sym e,
      )
      refl
