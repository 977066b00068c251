-- ===== src/Base/Sort.antt =====
-- `sort.Slice` and `sort.Strings`, as insertion sort by a Boolean `less`. On distinct keys every
-- sort gives this result.
use mathlib.Core.Path.{◌≡◌, refl}
use mathlib.Core.Bool.{Bool, true, false}
use mathlib.Core.List.{List, [], ◌∷◌, Perm}
use mathlib.Core.List.Perm
use native.Mathlib.Omega.{arith}
use network_mesh_exporter.Base.Tests.{if◌then◌else◌, Bool-cases}
use network_mesh_exporter.Base.Lists.{All, length}
use mathlib.Core.Logic.{◌⊎◌, inl, inr}

module _ {ℓ} {A : Type ℓ} (less : A → A → Bool) where
  unfoldable pub insert_sorted : A → List A → List A
  insert_sorted x [] = x ∷ []
  insert_sorted x (y ∷ ys) =
      let rest = insert_sorted x ys in if less y x then y ∷ rest else x ∷ y ∷ ys

  unfoldable pub sort : List A → List A
  unfolding insert_sorted
  sort [] = []
  sort (x ∷ xs) = insert_sorted x (sort xs)

  -- No later element is less than an earlier one.
  abbrev pub IsSorted : List A → Type 0
  IsSorted [] = Unit
  IsSorted (x ∷ xs) = All (λ y. less y x ≡ false) xs × IsSorted xs

module _ {ℓ κ} {A : Type ℓ} (less : A → A → Bool) (P : A → Type κ) where
  pub All-insert_sorted : (x : A) (xs : List A) → P x → All P xs → All P (insert_sorted less x xs)
  unfolding insert_sorted
  All-insert_sorted x [] p h = (p, tt)
  All-insert_sorted x (y ∷ ys) p h = ground (arith, All-insert_sorted x ys p h.1)

  pub All-sort : (xs : List A) → All P xs → All P (sort less xs)
  unfolding sort
  All-sort [] h = tt
  All-sort (x ∷ xs) h = All-insert_sorted x (sort less xs) h.0 (All-sort xs h.1)

module _ {ℓ} {A : Type ℓ} (less : A → A → Bool) where
  pub insert_sorted-perm : (x : A) (xs : List A) → Perm (insert_sorted less x xs) (x ∷ xs)
  unfolding insert_sorted
  insert_sorted-perm x [] = Perm.refl (x ∷ [])
  insert_sorted-perm x (y ∷ ys) = elim (Bool-cases (less y x)) [
    | inl e ↦ rw e (Perm.trans (Perm.cons y (insert_sorted-perm x ys)) (Perm.swap x y ys))
    | inr e ↦ rw e (Perm.refl (x ∷ y ∷ ys))
  ]

  pub sort-perm : (xs : List A) → Perm (sort less xs) xs
  unfolding sort
  sort-perm [] = Perm.refl []
  sort-perm (x ∷ xs) = Perm.trans (insert_sorted-perm x (sort less xs)) (Perm.cons x (sort-perm xs))

  pub length-insert_sorted :
      (x : A) (xs : List A) → length (insert_sorted less x xs) ≡ length (x ∷ xs)
  unfolding insert_sorted
  length-insert_sorted x [] = refl
  length-insert_sorted x (y ∷ ys) = ground (arith, length-insert_sorted x ys)

  pub length-sort : (xs : List A) → length (sort less xs) ≡ length xs
  unfolding sort
  length-sort [] = refl
  length-sort (x ∷ xs) = omega (arith, length-insert_sorted x (sort less xs), length-sort xs)

-- The result is in order when `less` is asymmetric and its negation is transitive.
module _ {ℓ} {A : Type ℓ} (less : A → A → Bool)
    (asym : (x y : A) → less x y ≡ true → less y x ≡ false)
    (negtrans : (x y z : A) → less y x ≡ false → less z y ≡ false → less z x ≡ false) where
  All-lower :
      (x y : A) (ys : List A)
      → less y x ≡ false
      → All (λ z. less z y ≡ false) ys
      → All (λ z. less z x ≡ false) ys
  All-lower x y [] h k = tt
  All-lower x y (z ∷ zs) h k = (negtrans x y z h k.0, All-lower x y zs h k.1)

  insert_sorted-IsSorted :
      (x : A) (xs : List A) → IsSorted less xs → IsSorted less (insert_sorted less x xs)
  unfolding insert_sorted
  insert_sorted-IsSorted x [] h = (tt, tt)
  insert_sorted-IsSorted x (y ∷ ys) h = elim (Bool-cases (less y x)) [
    | inl e ↦ rw e (
      All-insert_sorted less (λ z. less z y ≡ false) x ys (asym y x e) h.0,
      insert_sorted-IsSorted x ys h.1,
    )
    | inr e ↦ rw e ((e, All-lower x y ys e h.0), h)
  ]

  pub sort-IsSorted : (xs : List A) → IsSorted less (sort less xs)
  unfolding sort
  sort-IsSorted [] = tt
  sort-IsSorted (x ∷ xs) = insert_sorted-IsSorted x (sort less xs) (sort-IsSorted xs)

-- Where any two elements are ordered one way or the other, the result rises strictly.
module _ {ℓ} {A : Type ℓ} (less : A → A → Bool) where
  abbrev pub Apart : A → A → Type 0
  Apart x y = (less x y ≡ true) ⊎ (less y x ≡ true)

  abbrev pub AllApart : List A → Type 0
  AllApart [] = Unit
  AllApart (x ∷ xs) = All (Apart x) xs × AllApart xs

  abbrev pub IsStrict : List A → Type 0
  IsStrict [] = Unit
  IsStrict (x ∷ xs) = All (λ y. less x y ≡ true) xs × IsStrict xs

module _ {ℓ} {A : Type ℓ} (less : A → A → Bool)
    (trans : (x y z : A) → less x y ≡ true → less y z ≡ true → less x z ≡ true) where
  All-above :
      (x y : A) (ys : List A)
      → less x y ≡ true
      → All (λ z. less y z ≡ true) ys
      → All (λ z. less x z ≡ true) ys
  All-above x y [] h k = tt
  All-above x y (z ∷ zs) h k = (trans x y z h k.0, All-above x y zs h k.1)

  insert_sorted-IsStrict :
      (x : A) (xs : List A)
      → All (Apart less x) xs
      → IsStrict less xs
      → IsStrict less (insert_sorted less x xs)
  unfolding insert_sorted
  insert_sorted-IsStrict x [] a h = (tt, tt)
  insert_sorted-IsStrict x (y ∷ ys) a h = elim (Bool-cases (less y x)) [
    | inl e ↦ rw e (
      All-insert_sorted less (λ z. less y z ≡ true) x ys e h.0,
      insert_sorted-IsStrict x ys a.1 h.1,
    )
    | inr e ↦
        let lt : less x y ≡ true = ground (arith, a.0) in rw e ((lt, All-above x y ys lt h.0), h)
  ]

  pub sort-IsStrict : (xs : List A) → AllApart less xs → IsStrict less (sort less xs)
  unfolding sort
  sort-IsStrict [] h = tt
  sort-IsStrict (x ∷ xs) h =
      insert_sorted-IsStrict x (sort less xs) (All-sort less (Apart less x) xs h.0)
        (sort-IsStrict xs h.1)
