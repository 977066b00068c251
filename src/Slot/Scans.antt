-- ===== src/Slot/Scans.antt =====
-- `scan` of internal/slot/slot.go against a search of the rotated candidate list.
use network_mesh_exporter.Base.{
  ℕ, suc, zero, ◌+◌, ◌-◌, ◌%◌, ◌≤◌, ◌<◌, ◌≡◌, refl, sym, ap, ◌∙◌, Bool, not, ◌&&◌, List, [], ◌∷◌,
  ◌++◌, Option, none, some, length, get_elem?, take, drop, arith, if◌then◌else◌,
}
use native.Mathlib.Nat.{mod-add-mod, mod_self, mod-lt, mod-eq_of_lt, suc-mod, add-zero, zero-add}
use network_mesh_exporter.Base.Str.{Str}
use network_mesh_exporter.Slot.{Candidates, scan_from, scan}

-- The first element that passes.
unfoldable pub first : (Str → Bool) → List Str → Option Str
first p [] = none
first p (h ∷ hs) = if p h then some h else first p hs

-- The list from a position on, then what stands before it.
abbrev pub rotate : ℕ → List Str → List Str
rotate s hosts = drop s hosts ++ take s hosts

orelse : Option Str → Option Str → Option Str
orelse none b = b
orelse (some a) b = some a

first-append :
    (p : Str → Bool) (xs ys : List Str) → first p (xs ++ ys) ≡ orelse (first p xs) (first p ys)
unfolding first orelse
first-append p [] ys = refl
first-append p (x ∷ xs) ys = ground (arith, first-append p xs ys)

module _ (hosts : List Str) (start : ℕ) (exclude pred : Str → Bool) where
  scan-add :
      (a b i : ℕ)
      → scan_from hosts start exclude pred i (a + b)
        ≡ orelse
            (scan_from hosts start exclude pred i a)
            (scan_from hosts start exclude pred (i + a) b)
  unfolding scan_from orelse
  scan-add zero b i =
      let e : zero + b ≡ b = omega arith in let d : i + zero ≡ i = omega arith in rw (e, d)
  scan-add (suc a) b i =
      let e : suc a + b ≡ suc (a + b) = omega arith in
      let d : i + suc a ≡ suc i + a = omega arith in
      rw (e, d) (ground (arith, scan-add a b (suc i)))

take-drop-cons :
    (p k : ℕ) (xs : List Str) {x : Str}
    → get_elem? xs p ≡ some x
    → take (suc k) (drop p xs) ≡ x ∷ take k (drop (suc p) xs)
take-drop-cons p k [] e = cc
take-drop-cons zero k (x ∷ xs) e = ground arith
take-drop-cons (suc p) k (x ∷ xs) e = take-drop-cons p k xs e

get_elem?-below : (p : ℕ) (xs : List Str) → p < length xs → (x : Str) × (get_elem? xs p ≡ some x)
get_elem?-below p [] h = absurd (omega arith)
get_elem?-below zero (x ∷ xs) h = (x, refl)
get_elem?-below (suc p) (x ∷ xs) h = get_elem?-below p xs (omega arith)

mod-next : (a n : ℕ) → a % n + 1 < n → suc a % n ≡ suc (a % n)
mod-next a n h = suc-mod a n ∙ mod-eq_of_lt {n = suc (a % n)} (omega arith)

take-drop_all : (s : ℕ) (xs : List Str) → take (length xs - s) (drop s xs) ≡ drop s xs
take-drop_all zero xs = let e : length xs - zero ≡ length xs = omega arith in rw e (all xs)
  where
    all : (ys : List Str) → take (length ys) ys ≡ ys
    all [] = refl
    all (y ∷ ys) = ap (◌∷◌ y) (all ys)
take-drop_all (suc s) [] = ground arith
take-drop_all (suc s) (x ∷ xs) =
    let e : suc (length xs) - suc s ≡ length xs - s = omega arith in rw e (take-drop_all s xs)

-- A host that is not excluded and that passes.
abbrev pub accepts : (Str → Bool) → (Str → Bool) → Str → Bool
accepts exclude pred h = not (exclude h) && pred h

module _ (hosts : List Str) (start : ℕ) (exclude pred : Str → Bool) where
  -- Rounds that do not wrap search a segment of the list.
  scan-segment :
      (k p i : ℕ)
      → (0 < k → (start + i) % length hosts ≡ p)
      → p + k ≤ length hosts
      → scan_from hosts start exclude pred i k
        ≡ first (accepts exclude pred) (take k (drop p hosts))
  unfolding scan_from first
  scan-segment zero p i at fits = refl
  scan-segment (suc k) p i at fits =
      let (h, e) = get_elem?-below p hosts (omega arith) in
      let here : (start + i) % length hosts ≡ p = at (omega arith) in
      let shift : start + suc i ≡ suc (start + i) = omega arith in
      let rest =
        scan-segment k (suc p) (suc i)
          (λ pos. rw (shift, mod-next (start + i) (length hosts) (rw here (omega arith)), here))
          (omega arith) in
      let at_pos : get_elem? hosts ((start + i) % length hosts) ≡ some h = rw here e in
      rw (at_pos, scan_from, take-drop-cons p k hosts e) (ground (arith, rest))

  wrap-around :
      start % length hosts < length hosts
      → (start + (length hosts - start % length hosts)) % length hosts ≡ 0
  wrap-around h =
      let n : ℕ = length hosts in
      let fill : start % n + (n - start % n) ≡ n = omega arith in
      sym (mod-add-mod start n (n - start % n)) ∙ (ap (λ k. k % n) fill ∙ mod_self n)

-- Of at least one candidate, the scan is a search of the list from the start position on, wrapping
-- once.
pub scan-rotate :
    (c : Candidates) (start : ℕ) (exclude pred : Str → Bool)
    → 0 < length c.hosts
    → scan c start exclude pred
      ≡ first (accepts exclude pred) (rotate (start % length c.hosts) c.hosts)
unfolding scan
scan-rotate c start exclude pred h =
    let hosts : List Str = c.hosts in
    let n : ℕ = length hosts in
    let s : ℕ = start % n in
    let lt : s < n = mod-lt start h in
    let whole : n ≡ (n - s) + s = omega arith in
    let go = scan_from hosts start exclude pred in
    ap (go 0) whole
    ∙ (scan-add hosts start exclude pred (n - s) s 0
        ∙ (rw
            (
              scan-segment hosts start exclude pred (n - s) s 0 (λ _. rw add-zero) (omega arith),
              scan-segment hosts start exclude pred s 0 (0 + (n - s))
                  (λ pos. rw zero-add (wrap-around hosts start exclude pred lt)) (omega arith),
              take-drop_all s hosts,
            )
            (sym (first-append (accepts exclude pred) (drop s hosts) (take s hosts)))))
