-- ===== src/Base/Str.antt =====
-- Go strings: lists of bytes, with equality and the lexicographic order of `<` on strings.
use Prim.Native.Char.{code}
use Prim.Native.Nat.{ℕ, compare, Ordering}
use Prim.Native.String.{String}
use mathlib.Core.Path.{◌≡◌, refl}
use mathlib.Core.Logic.{◌⊎◌, inl, inr}
use mathlib.Core.Bool.{Bool, true, false}
use mathlib.Core.List.{List, [], ◌∷◌}
use native.Mathlib.Decide.{ℕ_discrete}
use native.Mathlib.Omega.{arith}

abbrev pub Str : Type 0
Str = List ℕ

-- The bytes of a literal, which is ASCII in every use.
abbrev pub bytes : String → Str
bytes String.[] = []
bytes (String.◌∷◌ c s) = code c ∷ bytes s

unfoldable pub str_dec : Discrete Str
unfolding ℕ_discrete
str_dec [] [] = yes refl
str_dec [] (y ∷ ys) = no (λ e. cc)
str_dec (x ∷ xs) [] = no (λ e. cc)
str_dec (x ∷ xs) (y ∷ ys) = elim (ℕ_discrete x y) [
  | yes p ↦ elim (str_dec xs ys) [ yes q ↦ yes (cc) | no q ↦ no (λ e. q (cc)) ]
  | no p ↦ no (λ e. p (cc))
]

-- `==` on strings. A tactic that splits on it learns the equation.
infix 50 ◌==◌
abbrev pub ◌==◌ : Str → Str → Bool
a == b = elim (str_dec a b) [ yes _ ↦ true | no _ ↦ false ]

-- `<` on strings.
unfoldable pub str_ltb : Str → Str → Bool
str_ltb xs [] = false
str_ltb [] (y ∷ ys) = true
str_ltb (x ∷ xs) (y ∷ ys) = elim (compare x y) [
  | Ordering.lt ↦ true
  | Ordering.eq ↦ str_ltb xs ys
  | Ordering.gt ↦ false
]

pub str_ltb_irrefl : (a : Str) → str_ltb a a ≡ false
unfolding str_ltb
str_ltb_irrefl [] = refl
str_ltb_irrefl (x ∷ a) = ground (arith, str_ltb_irrefl a)

pub str_ltb_trans : (a b c : Str) → str_ltb a b ≡ true → str_ltb b c ≡ true → str_ltb a c ≡ true
unfolding str_ltb
str_ltb_trans [] [] c h k = cc
str_ltb_trans [] (y ∷ b) [] h k = cc
str_ltb_trans [] (y ∷ b) (z ∷ c) h k = refl
str_ltb_trans (x ∷ a) [] c h k = cc
str_ltb_trans (x ∷ a) (y ∷ b) [] h k = cc
str_ltb_trans (x ∷ a) (y ∷ b) (z ∷ c) h k = ground (arith, str_ltb_trans a b c)

pub str_ltb-total : (a b : Str) → (str_ltb a b ≡ true) ⊎ (a ≡ b) ⊎ (str_ltb b a ≡ true)
unfolding str_ltb
str_ltb-total [] [] = inr (inl refl)
str_ltb-total [] (y ∷ b) = inl refl
str_ltb-total (x ∷ a) [] = inr (inr refl)
str_ltb-total (x ∷ a) (y ∷ b) = ground (arith, str_ltb-total a b)
