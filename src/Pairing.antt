-- ===== src/Pairing.antt =====
-- internal/pairing/pairing.go: pairing keys, the filter and the wanted pairing set. `path.Match`
-- is a parameter: a pattern and a name give whether they match, or none for a bad pattern.
pub mod Keys
pub mod Counts
pub mod Builds
use network_mesh_exporter.Base.{
  ℕ, zero, suc, ◌+◌, ◌-◌, ◌*◌, ◌/◌, Bool, false, true, not, ◌&&◌, List, [], ◌∷◌, ◌++◌, Option, none,
  some, length, if◌then◌else◌, ltb, leb, eqb,
}
use network_mesh_exporter.Base.Int.{ℤ, pos, negsuc, ltb_ℤ}
use network_mesh_exporter.Base.Sort.{sort}
use network_mesh_exporter.Base.Str.{Str, str_ltb, ◌==◌}
use network_mesh_exporter.Zone.{Index, member_count}

abbrev pub separator : ℕ
separator = b'|'

unfoldable pub make_key : Str → Str → Str
make_key a b = if str_ltb b a then b ++ (separator ∷ a) else a ++ (separator ∷ b)

-- `s[:i]` and `s[i+1:]` at the first separator.
unfoldable pub cut : Str → Option (Str × Str)
cut [] = none
cut (c ∷ s) =
    let rest : Option (Str × Str) = elim (cut s) [ none ↦ none | some (a, b) ↦ some (c ∷ a, b) ] in
    if eqb c separator then some ([], s) else rest

unfoldable pub split : Str → Str × Str
split k = elim (cut k) [ none ↦ (k, k) | some (a, b) ↦ (a, b) ]

unfoldable pub is_intra : Str → Bool
is_intra k = let (a, b) = split k in a == b

pub record Pairing : Type 0 where
  pub key : Str
  pub zone_a : Str
  pub zone_b : Str
  pub intra : Bool

pub data Error : Type 0 where
  too_many_pairings : Error
  bad_include bad_exclude : ℕ → Error

pub data Result {ℓ} (A : Type ℓ) : Type ℓ where
  ok : A → Result A
  err : Error → Result A

-- `config.PairingsConfig`; `max_pairings` stands for 0 where the source has a negative number,
-- which it treats alike.
pub record PairingsConfig : Type 0 where
  pub intra_zone : Bool
  pub include : List Str
  pub exclude : List Str
  pub max_pairings : ℕ

pub record Filter : Type 0 where
  pub include : List Str
  pub exclude : List Str

abbrev pub PathMatch : Type 0
PathMatch = Str → Str → Option Bool

-- The index of the first pattern that `path.Match` refuses.
unfoldable pub bad_pattern : PathMatch → ℕ → List Str → Option ℕ
bad_pattern path_match i [] = none
bad_pattern path_match i (p ∷ ps) =
    let rest = bad_pattern path_match (suc i) ps in
    elim (path_match p (b'x' ∷ [])) [ none ↦ some i | some _ ↦ rest ]

unfoldable pub new_filter : PathMatch → PairingsConfig → Result Filter
new_filter path_match cfg = elim (bad_pattern path_match 0 cfg.include) [
  | some i ↦ err (bad_include i)
  | none ↦ elim (bad_pattern path_match 0 cfg.exclude) [
    | some i ↦ err (bad_exclude i)
    | none ↦ ok (record { include = cfg.include; exclude = cfg.exclude })
  ]
]

-- Whether one of the patterns matches.
unfoldable pub any_match : PathMatch → List Str → Str → Bool
any_match path_match [] s = false
any_match path_match (p ∷ ps) s =
    let rest = any_match path_match ps s in
    elim (path_match p s) [ some true ↦ true | some false ↦ rest | none ↦ rest ]

-- `Match`; a nil filter is `none`.
unfoldable pub matches : PathMatch → Option Filter → Str → Bool
matches path_match none k = true
matches path_match (some f) k =
    if ltb 0 (length f.include) && not (any_match path_match f.include k)
    then false
    else not (any_match path_match f.exclude k)

-- `Count` at a number of zones that is not negative, as a length is.
unfoldable pub count : ℕ → Bool → ℕ
count zones intra = let n = zones * (zones - 1) / 2 in if intra then n + zones else n

module _ (path_match : PathMatch) (idx : Index) (cfg : PairingsConfig) (f : Option Filter) where
  -- The inner loop: one zone with each zone after it.
  unfoldable pub pair_with : Str → List Str → List Pairing
  pair_with a [] = []
  pair_with a (b ∷ zones) =
      let rest = pair_with a zones in
      let k = make_key a b in
      let (za, zb) = split k in
      if matches path_match f k
      then record { key = k; zone_a = za; zone_b = zb; intra = false } ∷ rest
      else rest

  unfoldable pub intra_pairing : Str → List Pairing
  intra_pairing a =
      if cfg.intra_zone && leb 2 (member_count idx a) && matches path_match f (make_key a a)
      then record { key = make_key a a; zone_a = a; zone_b = a; intra = true } ∷ []
      else []

  unfoldable pub pair_all : List Str → List Pairing
  pair_all [] = []
  pair_all (a ∷ zones) = intra_pairing a ++ (pair_with a zones ++ pair_all zones)

  abbrev pub key_less : Pairing → Pairing → Bool
  key_less p q = str_ltb p.key q.key

unfoldable pub build : PathMatch → Index → PairingsConfig → Option Filter → Result (List Pairing)
build path_match idx cfg f =
    let n = count (length idx.zones) cfg.intra_zone in
    let out = sort (λ p q. str_ltb p.key q.key) (pair_all path_match idx cfg f idx.zones) in
    if ltb 0 cfg.max_pairings && ltb cfg.max_pairings n
    then err too_many_pairings
    else if ltb 0 cfg.max_pairings && ltb cfg.max_pairings (length out)
    then err too_many_pairings
    else ok out
