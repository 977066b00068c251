-- ===== src/Zone/Rules.antt =====
-- `Apply` and `MissingKey` of internal/zone/zone.go.
use network_mesh_exporter.Base.{
  ◌≡◌, ◌≢◌, ◌↔◌, refl, Bool, true, List, [], ◌∷◌, Option, none, some, arith, if◌then◌else◌,
  Option-cases, inl, inr,
}
use network_mesh_exporter.Base.Map.{lookup}
use network_mesh_exporter.Base.Str.{◌==◌}
use network_mesh_exporter.Inventory.{HostRecord}
use network_mesh_exporter.Zone.{
  KeySpec, Rule, exclude, key_values, apply, missing_among, missing_key,
}

-- The host has no value, or the empty one, for a rule key.
abbrev pub lacks : HostRecord → KeySpec → Bool
lacks h ks = elim (lookup ks.key h.attributes) [ none ↦ true | some v ↦ v == [] ]

-- The first rule key that the host lacks.
unfoldable pub first_lacking : HostRecord → List KeySpec → Option KeySpec
first_lacking h [] = none
first_lacking h (ks ∷ rest) = if lacks h ks then some ks else first_lacking h rest

key_values-eq-none_iff :
    (r : Rule) (h : HostRecord) (keys : List KeySpec)
    → (key_values r h keys ≡ none) ↔ ((r.missing ≡ exclude) × (first_lacking h keys ≢ none))
unfolding key_values first_lacking
key_values-eq-none_iff r h [] = ground arith
key_values-eq-none_iff r h (ks ∷ rest) = ground (arith, key_values-eq-none_iff r h rest)

missing_among-first_lacking :
    (h : HostRecord) (keys : List KeySpec)
    → missing_among h keys ≡ (elim (first_lacking h keys) [ none ↦ [] | some ks ↦ ks.key ])
unfolding missing_among first_lacking
missing_among-first_lacking h [] = refl
missing_among-first_lacking h (ks ∷ rest) = ground (arith, missing_among-first_lacking h rest)

-- A host has no zone exactly when the policy is `exclude` and the host lacks a rule key.
pub apply-eq-none_iff :
    (r : Rule) (h : HostRecord)
    → (apply r h ≡ none) ↔ ((r.missing ≡ exclude) × (first_lacking h r.keys ≢ none))
unfolding apply
apply-eq-none_iff r h = ground (arith, key_values-eq-none_iff r h r.keys)

-- The key that is reported for a host with no zone is the first one of the rule that it lacks.
pub missing_key-apply :
    (r : Rule) (h : HostRecord)
    → apply r h ≡ none
    → (ks : KeySpec) × (first_lacking h r.keys ≡ some ks) × (missing_key r h ≡ ks.key)
unfolding missing_key
missing_key-apply r h e =
    let lacking : first_lacking h r.keys ≢ none = ((apply-eq-none_iff r h).0 e).1 in
    elim (Option-cases (first_lacking h r.keys)) [
      | inl f ↦ absurd (lacking f)
      | inr (ks, f) ↦ (ks, f, ground (arith, missing_among-first_lacking h r.keys))
    ]
