-- ===== src/Base/Strs.antt =====
-- Membership in lists of strings, as the code tests it, and a map of Booleans as a set.
use mathlib.Core.Path.{◌≡◌, refl}
use mathlib.Core.Bool.{Bool, true, false, ◌||◌, ◌&&◌}
use mathlib.Core.List.{List, [], ◌∷◌, ◌++◌}
use native.Mathlib.Omega.{arith}
use network_mesh_exporter.Base.Lists.{All, keep}
use network_mesh_exporter.Base.Sort.{sort, insert_sorted}
use network_mesh_exporter.Base.Str.{Str, ◌==◌}

unfoldable pub contains : Str → List Str → Bool
contains a [] = false
contains a (x ∷ xs) = a == x || contains a xs

pub contains-append :
    (a : Str) (xs ys : List Str) → contains a (xs ++ ys) ≡ contains a xs || contains a ys
unfolding contains
contains-append a [] ys = refl
contains-append a (x ∷ xs) ys = ground (arith, contains-append a xs ys)

pub contains-insert_sorted :
    (less : Str → Str → Bool) (a x : Str) (xs : List Str)
    → contains a (insert_sorted less x xs) ≡ (a == x || contains a xs)
unfolding contains insert_sorted
contains-insert_sorted less a x [] = refl
contains-insert_sorted less a x (y ∷ ys) = ground (arith, contains-insert_sorted less a x ys)

pub contains-sort :
    (less : Str → Str → Bool) (a : Str) (xs : List Str) → contains a (sort less xs) ≡ contains a xs
unfolding contains sort
contains-sort less a [] = refl
contains-sort less a (x ∷ xs) =
    ground (arith, contains-insert_sorted less a x (sort less xs), contains-sort less a xs)

pub contains-keep :
    (p : Str → Bool) (a : Str) (xs : List Str) → contains a (keep p xs) ≡ contains a xs && p a
unfolding contains
contains-keep p a [] = refl
contains-keep p a (x ∷ xs) = ground (arith, contains-keep p a xs)

pub All-contains {κ} :
    (P : Str → Type κ) (a : Str) (xs : List Str) → All P xs → contains a xs ≡ true → P a
unfolding contains
All-contains P a [] h e = cc
All-contains P a (x ∷ xs) h e = ground (arith, All-contains P a xs h.1)

contains-widen :
    (y : Str) (ys xs : List Str)
    → All (λ x. contains x ys ≡ true) xs
    → All (λ x. contains x (y ∷ ys) ≡ true) xs
unfolding contains
contains-widen y ys [] h = tt
contains-widen y ys (x ∷ xs) h = (ground arith, contains-widen y ys xs h.1)

pub contains_self : (xs : List Str) → All (λ x. contains x xs ≡ true) xs
unfolding contains
contains_self [] = tt
contains_self (x ∷ xs) = (ground arith, contains-widen x xs xs (contains_self xs))
