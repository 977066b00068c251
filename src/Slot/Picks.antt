-- ===== src/Slot/Picks.antt =====
-- `Pick` and `PickAnchor` of internal/slot/slot.go: which host they return, and its rank.
use network_mesh_exporter.Base.{
  ℕ, ◌%◌, ◌<◌, ◌≡◌, ◌⊎◌, refl, inl, inr, Bool, false, true, List, [], ◌∷◌, none, some, length, take,
  drop, All, All-append, All-append_left, All-append_right, All-take-drop, All-take, All-drop,
  arith,
}
use network_mesh_exporter.Base.Str.{Str}
use network_mesh_exporter.Base.Strs.{contains, contains_self}
use network_mesh_exporter.Slot.{Candidates, scan, scan_from}
use network_mesh_exporter.Slot.Scans.{first, rotate, accepts, scan-rotate}

first-some :
    (P : Str → Type 0) (p : Str → Bool) (xs : List Str) {h : Str}
    → All P xs
    → first p xs ≡ some h
    → P h × (p h ≡ true)
unfolding first
first-some P p [] a e = cc
first-some P p (x ∷ xs) {h} a e = ground (arith, first-some P p xs {h = h} a.1)

first-none : (p : Str → Bool) (xs : List Str) → first p xs ≡ none → All (λ h. p h ≡ false) xs
unfolding first
first-none p [] e = tt
first-none p (x ∷ xs) e = (ground arith, first-none p xs (ground arith))

All-rotate : (P : Str → Type 0) (s : ℕ) (xs : List Str) → All P xs → All P (rotate s xs)
All-rotate P s xs h = All-append P (drop s xs) (take s xs) (All-drop P s xs h) (All-take P s xs h)

All-unrotate : (P : Str → Type 0) (s : ℕ) (xs : List Str) → All P (rotate s xs) → All P xs
All-unrotate P s xs h =
    All-take-drop P s xs (All-append_right P (drop s xs) (take s xs) h)
      (All-append_left P (drop s xs) (take s xs) h)

-- A host that a scan may return.
pub record IsFound (c : Candidates) (exclude pred : Str → Bool) (h : Str) : Type 0 where
  pub listed : contains h c.hosts ≡ true
  pub included : exclude h ≡ false
  pub passes : pred h ≡ true

scan_empty :
    (c : Candidates) (start : ℕ) (exclude pred : Str → Bool)
    → c.hosts ≡ []
    → scan c start exclude pred ≡ none
unfolding scan scan_from
scan_empty c start exclude pred e = rw e

scan-cases :
    (c : Candidates) (start : ℕ) (exclude pred : Str → Bool)
    → (c.hosts ≡ [])
      ⊎ (scan c start exclude pred
          ≡ first (accepts exclude pred) (rotate (start % length c.hosts) c.hosts))
scan-cases c start exclude pred = go c.hosts (λ h. scan-rotate c start exclude pred h)
  where
    go :
        (hosts : List Str)
        → (0 < length hosts
            → scan c start exclude pred
              ≡ first (accepts exclude pred) (rotate (start % length c.hosts) c.hosts))
        → (hosts ≡ [])
          ⊎ (scan c start exclude pred
              ≡ first (accepts exclude pred) (rotate (start % length c.hosts) c.hosts))
    go [] f = inl refl
    go (h ∷ hs) f = inr (f (omega arith))

-- A scan returns a candidate that is not excluded and passes the test.
pub scan-some :
    (c : Candidates) (start : ℕ) (exclude pred : Str → Bool) {h : Str}
    → scan c start exclude pred ≡ some h
    → IsFound c exclude pred h
scan-some c start exclude pred {h} e = elim (scan-cases c start exclude pred) [
  | inl empty ↦ let e' = scan_empty c start exclude pred empty in ground arith
  | inr same ↦
      let (listed, ok) =
        first-some (λ x. contains x c.hosts ≡ true) (accepts exclude pred)
          (rotate (start % length c.hosts) c.hosts) {h = h}
          (All-rotate (λ x. contains x c.hosts ≡ true) _ c.hosts (contains_self c.hosts))
          (ground arith) in
      record { listed = listed; included = ground arith; passes = ground arith }
]

-- A scan that returns nothing has no such candidate.
pub scan-none :
    (c : Candidates) (start : ℕ) (exclude pred : Str → Bool)
    → scan c start exclude pred ≡ none
    → All (λ h. accepts exclude pred h ≡ false) c.hosts
scan-none c start exclude pred e = elim (scan-cases c start exclude pred) [
  | inl empty ↦ rw empty tt
  | inr same ↦
      All-unrotate (λ h. accepts exclude pred h ≡ false) (start % length c.hosts) c.hosts
        (first-none (accepts exclude pred) _ (ground arith))
]
