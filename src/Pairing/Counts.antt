-- ===== src/Pairing/Counts.antt =====
-- `Count` of internal/pairing/pairing.go against the list that `Build` makes.
use network_mesh_exporter.Base.{
  ℕ, zero, suc, ◌+◌, ◌*◌, ◌-◌, ◌/◌, ◌≤◌, ◌≡◌, Bool, false, List, [], ◌∷◌, ◌++◌, refl, Option, none,
  length, length-append, arith, if◌then◌else◌,
}
use network_mesh_exporter.Base.Str.{Str}
use network_mesh_exporter.Zone.{Index}
use network_mesh_exporter.Pairing.{
  PathMatch, PairingsConfig, Filter, matches, count, pair_with, intra_pairing, pair_all,
}

half_step : (m : ℕ) → suc (suc m) * suc m / 2 ≡ suc m * m / 2 + suc m
half_step m = omega arith

pub count-suc :
    (n : ℕ) (intra : Bool) → count (suc n) intra ≡ count n intra + n + (if intra then 1 else 0)
unfolding count
count-suc zero intra = ground arith
count-suc (suc m) intra =
    let e : suc (suc m) - 1 ≡ suc m = omega arith in
    let d : suc m - 1 ≡ m = omega arith in rw (e, d, half_step m) (ground arith)

module _ (path_match : PathMatch) (idx : Index) (cfg : PairingsConfig) (f : Option Filter) where
  length-pair_with-le :
      (a : Str) (zones : List Str) → length (pair_with path_match idx cfg f a zones) ≤ length zones
  unfolding pair_with
  length-pair_with-le a [] = omega arith
  length-pair_with-le a (b ∷ zones) = ground (arith, length-pair_with-le a zones)

  -- `Count` bounds the set before it is built, whatever the filter lets through.
  pub length-pair_all-le :
      (zones : List Str)
      → length (pair_all path_match idx cfg f zones) ≤ count (length zones) cfg.intra_zone
  unfolding pair_all
  length-pair_all-le [] = omega arith
  length-pair_all-le (a ∷ zones) = ground (
    arith,
    intra,
    count-suc (length zones) cfg.intra_zone,
    length-append (intra_pairing path_match idx cfg f a)
        (pair_with path_match idx cfg f a zones ++ pair_all path_match idx cfg f zones),
    length-append (pair_with path_match idx cfg f a zones) (pair_all path_match idx cfg f zones),
    length-pair_with-le a zones,
    length-pair_all-le zones,
  )
    where
      intra : length (intra_pairing path_match idx cfg f a) ≤ (if cfg.intra_zone then 1 else 0)
      intra = unfold intra_pairing in ground arith

length-pair_with :
    (path_match : PathMatch) (idx : Index) (cfg : PairingsConfig) (a : Str) (bs : List Str)
    → length (pair_with path_match idx cfg none a bs) ≡ length bs
unfolding pair_with matches
length-pair_with path_match idx cfg a [] = refl
length-pair_with path_match idx cfg a (b ∷ bs) =
    ground (arith, length-pair_with path_match idx cfg a bs)

-- With no filter and no intra-zone pairings `Count` is exact.
pub length-pair_all :
    (path_match : PathMatch) (idx : Index) (cfg : PairingsConfig) (zones : List Str)
    → cfg.intra_zone ≡ false
    → length (pair_all path_match idx cfg none zones) ≡ count (length zones) false
unfolding pair_all intra_pairing
length-pair_all path_match idx cfg [] e = unfold count in ground arith
length-pair_all path_match idx cfg (a ∷ zones) e = ground (
  arith,
  count-suc (length zones) false,
  length-append (pair_with path_match idx cfg none a zones)
      (pair_all path_match idx cfg none zones),
  length-pair_with path_match idx cfg a zones,
  length-pair_all path_match idx cfg zones,
)
