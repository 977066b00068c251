-- ===== src/Pairing/Builds.antt =====
-- `Build` of internal/pairing/pairing.go: when it fails, and which pairings it returns.
use network_mesh_exporter.Base.{
  ◌≤◌, ◌<◌, ◌≡◌, ◌↔◌, refl, Bool, false, true, ◌||◌, List, [], ◌∷◌, ◌++◌, Option, All, All-append,
  length, arith,
}
use network_mesh_exporter.Base.Sort.{sort, insert_sorted, length-sort, All-sort, IsStrict}
use network_mesh_exporter.Base.Str.{Str, ◌==◌, str_ltb, str_ltb_irrefl, str_ltb_trans}
use network_mesh_exporter.Base.Strs.{contains, contains_self, All-contains}
use network_mesh_exporter.Zone.{Index, member_count}
use network_mesh_exporter.Pairing.{
  PathMatch, PairingsConfig, Filter, Pairing, ok, err, too_many_pairings, make_key, matches, count,
  pair_with, intra_pairing, pair_all, build,
}
use network_mesh_exporter.Pairing.Counts.{length-pair_all-le}
use network_mesh_exporter.Pairing.Keys.{has_sep, split-make_key}

-- Whether a list of pairings holds a key.
unfoldable pub has_key : Str → List Pairing → Bool
has_key k [] = false
has_key k (p ∷ ps) = k == p.key || has_key k ps

has_key-append :
    (k : Str) (ps qs : List Pairing) → has_key k (ps ++ qs) ≡ has_key k ps || has_key k qs
unfolding has_key
has_key-append k [] qs = refl
has_key-append k (p ∷ ps) qs = ground (arith, has_key-append k ps qs)

has_key-insert_sorted :
    (less : Pairing → Pairing → Bool) (k : Str) (p : Pairing) (ps : List Pairing)
    → has_key k (insert_sorted less p ps) ≡ (k == p.key || has_key k ps)
unfolding has_key insert_sorted
has_key-insert_sorted less k p [] = refl
has_key-insert_sorted less k p (q ∷ ps) = ground (arith, has_key-insert_sorted less k p ps)

has_key-sort :
    (less : Pairing → Pairing → Bool) (k : Str) (ps : List Pairing)
    → has_key k (sort less ps) ≡ has_key k ps
unfolding has_key sort
has_key-sort less k [] = refl
has_key-sort less k (p ∷ ps) =
    ground (arith, has_key-insert_sorted less k p (sort less ps), has_key-sort less k ps)

module _ (path_match : PathMatch) (idx : Index) (cfg : PairingsConfig) (f : Option Filter) where
  -- `Build` fails exactly when a limit is set and the count of zone pairs passes it; the second
  -- test, after the filter, never fails.
  pub build-eq-err_iff :
      (build path_match idx cfg f ≡ err too_many_pairings)
      ↔ ((0 < cfg.max_pairings) × (cfg.max_pairings < count (length idx.zones) cfg.intra_zone))
  unfolding build
  build-eq-err_iff = ground (
    arith,
    length-sort (λ (p q : Pairing). str_ltb p.key q.key) (pair_all path_match idx cfg f idx.zones),
    length-pair_all-le path_match idx cfg f idx.zones,
  )

  -- What `Build` says of a pairing: its key is that of its zones, which are zones of the index, the
  -- filter wants it, and it is of one zone with two members or of two zones in order.
  pub record IsWanted (zones : List Str) (p : Pairing) : Type 0 where
    pub own_key : p.key ≡ make_key p.zone_a p.zone_b
    pub zone_a_listed : contains p.zone_a zones ≡ true
    pub zone_b_listed : contains p.zone_b zones ≡ true
    pub passes : matches path_match f p.key ≡ true
    pub intra_case :
        p.intra ≡ true
        → (p.zone_a ≡ p.zone_b) × (cfg.intra_zone ≡ true) × (2 ≤ member_count idx p.zone_a)
    pub cross_case : p.intra ≡ false → str_ltb p.zone_a p.zone_b ≡ true

  intra_pairing-IsWanted :
      (zones : List Str) (a : Str)
      → contains a zones ≡ true
      → All (IsWanted zones) (intra_pairing path_match idx cfg f a)
  unfolding intra_pairing
  intra_pairing-IsWanted zones a h = ground arith

  pair_with-IsWanted :
      (zones : List Str) (a : Str) (bs : List Str)
      → contains a zones ≡ true
      → has_sep a ≡ false
      → All (λ b. contains b zones ≡ true) bs
      → All (λ b. has_sep b ≡ false) bs
      → All (λ b. str_ltb a b ≡ true) bs
      → All (IsWanted zones) (pair_with path_match idx cfg f a bs)
  unfolding pair_with
  pair_with-IsWanted zones a [] ha sa hb sb lt = tt
  pair_with-IsWanted zones a (b ∷ bs) ha sa hb sb lt = ground (
    arith,
    split-make_key a b sa sb.0,
    str_ltb_trans a b a lt.0,
    str_ltb_irrefl a,
    pair_with-IsWanted zones a bs ha sa hb.1 sb.1 lt.1,
  )

  pair_all-IsWanted :
      (zones zs : List Str)
      → All (λ b. contains b zones ≡ true) zs
      → All (λ b. has_sep b ≡ false) zs
      → IsStrict str_ltb zs
      → All (IsWanted zones) (pair_all path_match idx cfg f zs)
  unfolding pair_all
  pair_all-IsWanted zones [] h s lt = tt
  pair_all-IsWanted zones (a ∷ zs) h s lt =
      All-append (IsWanted zones) (intra_pairing path_match idx cfg f a) _
        (intra_pairing-IsWanted zones a h.0)
        (All-append (IsWanted zones) (pair_with path_match idx cfg f a zs) _
          (pair_with-IsWanted zones a zs h.0 s.0 h.1 s.1 lt.0)
          (pair_all-IsWanted zones zs h.1 s.1 lt.1))

  -- Over zones in strict order whose keys do not hold the separator, every pairing that `Build`
  -- returns has the key of its two zones, both listed, and passes the filter; the zones are in order
  -- unless the pairing is intra-zone, which it is only where that is configured and the zone has two
  -- members.
  pub build-IsWanted :
      {out : List Pairing}
      → IsStrict str_ltb idx.zones
      → All (λ z. has_sep z ≡ false) idx.zones
      → build path_match idx cfg f ≡ ok out
      → All (IsWanted idx.zones) out
  unfolding build
  build-IsWanted {out} lt s e =
      let all : All (IsWanted idx.zones)
          (sort (λ p q. str_ltb p.key q.key) (pair_all path_match idx cfg f idx.zones)) =
        All-sort (λ (p q : Pairing). str_ltb p.key q.key) (IsWanted idx.zones) _
          (pair_all-IsWanted idx.zones idx.zones (contains_self idx.zones) s lt) in
      let same : out ≡ sort (λ p q. str_ltb p.key q.key) (pair_all path_match idx cfg f idx.zones) =
        ground arith in
      rw same all

  has_key-pair_with :
      (a b : Str) (bs : List Str)
      → contains b bs ≡ true
      → matches path_match f (make_key a b) ≡ true
      → has_key (make_key a b) (pair_with path_match idx cfg f a bs) ≡ true
  unfolding has_key pair_with contains
  has_key-pair_with a b [] h m = cc
  has_key-pair_with a b (c ∷ bs) h m = ground (arith, has_key-pair_with a b bs)

  has_key-pair_all :
      (a b : Str) (zs : List Str)
      → IsStrict str_ltb zs
      → contains a zs ≡ true
      → contains b zs ≡ true
      → str_ltb a b ≡ true
      → matches path_match f (make_key a b) ≡ true
      → has_key (make_key a b) (pair_all path_match idx cfg f zs) ≡ true
  unfolding pair_all contains
  has_key-pair_all a b [] s ha hb lt m = cc
  has_key-pair_all a b (z ∷ zs) s ha hb lt m = ground (
    arith,
    has_key-append (make_key a b) (intra_pairing path_match idx cfg f z)
        (pair_with path_match idx cfg f z zs ++ pair_all path_match idx cfg f zs),
    has_key-append (make_key a b) (pair_with path_match idx cfg f z zs)
        (pair_all path_match idx cfg f zs),
    has_key-pair_with a b zs,
    has_key-pair_all a b zs s.1,
    str_ltb_irrefl a,
    str_ltb_trans a b a lt,
    All-contains (λ y. str_ltb z y ≡ true) a zs s.0,
  )

  -- Over zones in strict order, every two listed zones whose key passes the filter have a pairing in
  -- what `Build` returns.
  pub build_complete :
      (a b : Str) {out : List Pairing}
      → IsStrict str_ltb idx.zones
      → contains a idx.zones ≡ true
      → contains b idx.zones ≡ true
      → str_ltb a b ≡ true
      → matches path_match f (make_key a b) ≡ true
      → build path_match idx cfg f ≡ ok out
      → has_key (make_key a b) out ≡ true
  unfolding build
  build_complete a b {out} s ha hb lt m e = ground (
    arith,
    has_key-pair_all a b idx.zones s ha hb lt m,
    has_key-sort (λ (p q : Pairing). str_ltb p.key q.key) (make_key a b)
        (pair_all path_match idx cfg f idx.zones),
  )
