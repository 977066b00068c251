-- ===== src/Tests/Pairings.antt =====
-- Examples on internal/pairing/pairing.go.
use network_mesh_exporter.Base.{◌≡◌, ◌↔◌, ◌<◌, refl, true, false, List, [], ◌∷◌, none, All, length}
use network_mesh_exporter.Base.Sort.{IsStrict, sort}
use network_mesh_exporter.Base.Map.{lookup}
use network_mesh_exporter.Base.Str.{bytes, str_ltb, str_dec}
use network_mesh_exporter.Pairing
use network_mesh_exporter.Pairing.{make_key, split, pair_all, count, build, err, too_many_pairings}
use network_mesh_exporter.Pairing.Builds.{build-eq-err_iff, build-IsWanted, IsWanted}
use network_mesh_exporter.Pairing.Keys.{has_sep}
use network_mesh_exporter.Tests.{env, pairings_config}
use network_mesh_exporter.Zone.{Index, member_count, members_of}

abbrev idx : Index
idx = record {
  zones = bytes "r1" ∷ bytes "r2" ∷ [];
  members = (bytes "r1", bytes "a1" ∷ bytes "a2" ∷ []) ∷ (bytes "r2", bytes "b1" ∷ []) ∷ [];
  host_zone = (bytes "a1", bytes "r1") ∷ (bytes "a2", bytes "r1") ∷ (bytes "b1", bytes "r2") ∷ [];
  unresolved = [];
}

build-eq-err_iff_example :
    (build env.path_match idx pairings_config none ≡ err too_many_pairings)
    ↔ ((0 < 10) × (10 < count (length idx.zones) true))
build-eq-err_iff_example = build-eq-err_iff env.path_match idx pairings_config none

-- The pairings that the two zones have, in order of their keys.
abbrev wanted : List Pairing.Pairing
wanted =
    record { key = bytes "r1|r1"; zone_a = bytes "r1"; zone_b = bytes "r1"; intra = true }
    ∷ record { key = bytes "r1|r2"; zone_a = bytes "r1"; zone_b = bytes "r2"; intra = false }
    ∷ []

build_two_zones : build env.path_match idx pairings_config none ≡ Pairing.ok wanted
unfolding build count sort pair_all Pairing.intra_pairing member_count members_of lookup str_dec
    Pairing.matches Pairing.pair_with str_ltb make_key split Pairing.cut
build_two_zones = refl

zones_in_order : IsStrict str_ltb idx.zones
unfolding str_ltb
zones_in_order = ((refl, tt), (tt, tt))

no_separators : All (λ z. has_sep z ≡ false) idx.zones
unfolding has_sep
no_separators = (refl, (refl, tt))

build-IsWanted_example : All (IsWanted env.path_match idx pairings_config none idx.zones) wanted
build-IsWanted_example =
    build-IsWanted env.path_match idx pairings_config none zones_in_order no_separators
      build_two_zones
