-- ===== src/Pairing/Keys.antt =====
-- `MakeKey` and `Split` of internal/pairing/pairing.go.
use network_mesh_exporter.Base.{
  ◌≡◌, ◌≢◌, refl, inl, inr, Bool, false, true, ◌||◌, [], ◌∷◌, ◌++◌, none, some, arith,
  if◌then◌else◌, eqb, Option-cases,
}
use network_mesh_exporter.Base.Str.{
  Str, ◌==◌, str_ltb, str_ltb_irrefl, str_ltb_trans, str_ltb-total,
}
use network_mesh_exporter.Pairing.{separator, make_key, cut, split, is_intra}

-- Whether the separator occurs.
unfoldable pub has_sep : Str → Bool
has_sep [] = false
has_sep (c ∷ s) = eqb c separator || has_sep s

-- The key does not depend on the side that comes first.
pub make_key_comm : (a b : Str) → make_key a b ≡ make_key b a
unfolding make_key
make_key_comm a b = ground (arith, str_ltb-total a b, str_ltb_trans a b a, str_ltb_irrefl a)

cut-append : (a b : Str) → has_sep a ≡ false → cut (a ++ (separator ∷ b)) ≡ some (a, b)
unfolding cut has_sep
cut-append [] b h = refl
cut-append (c ∷ a) b h = ground (arith, cut-append a b)

-- The key of two zones splits into them, the lesser first, where neither holds the separator.
pub split-make_key :
    (a b : Str)
    → has_sep a ≡ false
    → has_sep b ≡ false
    → split (make_key a b) ≡ (if str_ltb b a then (b, a) else (a, b))
unfolding split make_key
split-make_key a b h k = ground (arith, cut-append a b h, cut-append b a k)

pub is_intra-make_key :
    (a b : Str) → has_sep a ≡ false → has_sep b ≡ false → is_intra (make_key a b) ≡ (a == b)
unfolding is_intra
is_intra-make_key a b h k = ground (arith, split-make_key a b h k)

cut-has_sep : (s : Str) {a b : Str} → cut s ≡ some (a, b) → has_sep a ≡ false
unfolding cut has_sep
cut-has_sep [] e = cc
cut-has_sep (c ∷ s) {a} {b} e = elim (Option-cases (cut s)) [
  | inl n ↦ ground arith
  | inr ((a', b'), n) ↦ let ih = cut-has_sep s n in ground arith
]

cut-ne-none : (a b : Str) → cut (a ++ (separator ∷ b)) ≢ none
unfolding cut
cut-ne-none [] b = ground arith
cut-ne-none (c ∷ a) b = ground (arith, cut-ne-none a b)

-- Where the lesser zone key holds the separator, the key does not split into its zones: the first
-- part is another string than that zone key.
split_wrong : (a b : Str) → has_sep a ≡ true → str_ltb b a ≡ false → (split (make_key a b)).0 ≢ a
unfolding split make_key
split_wrong a b h lt = elim (Option-cases (cut (a ++ (separator ∷ b)))) [
  | inl n ↦ absurd (cut-ne-none a b n)
  | inr ((x, y), n) ↦ let free = cut-has_sep (a ++ (separator ∷ b)) n in ground arith
]
