-- ===== src/Tests/Reconciles.antt =====
-- Examples on whole runs of internal/reconcile/reconcile.go and internal/reconcile/loop.go.
use network_mesh_exporter.Base.{◌≡◌, refl, false, true, List, [], ◌∷◌, some, none, All}
use network_mesh_exporter.Base.Str.{bytes, str_dec, str_ltb}
use network_mesh_exporter.Base.Sort.{sort, insert_sorted}
use network_mesh_exporter.Base.Map.{lookup, insert}
use network_mesh_exporter.Inventory.{build_snapshot, merge, merge_sets, merge_hosts, merge_host}
use network_mesh_exporter.Pairing
use network_mesh_exporter.Reconcile.{Input, is_empty}
use network_mesh_exporter.Reconcile.Run.{Output, output, reconcile, slots_fingerprint}
use network_mesh_exporter.Reconcile.Run.Members.{build_snapshot-IsMerged}
use network_mesh_exporter.Reconcile.Run.Rebuild.{reconcile-ok, reconcile_silent}
use network_mesh_exporter.Reconcile.Run.Valid.{EntryOk, reconcile-EntryOk}
use network_mesh_exporter.State
use network_mesh_exporter.Tests.{
  env, given, store, rule, snapshot, pairings_config, slots_config, table, health_config,
}
use network_mesh_exporter.Zone
use network_mesh_exporter.Reconcile.Loop.{Loop, Config}
use network_mesh_exporter.State.Store.{new_store}
use network_mesh_exporter.Health.Tracker.{new}

-- The pairings of the two zones of the inventory.
abbrev wanted : List Pairing.Pairing
wanted =
    record { key = bytes "r1|r1"; zone_a = bytes "r1"; zone_b = bytes "r1"; intra = true }
    ∷ record { key = bytes "r1|r2"; zone_a = bytes "r1"; zone_b = bytes "r2"; intra = false }
    ∷ []

two_zones :
    Pairing.build env.path_match (Zone.build rule snapshot) pairings_config none ≡ Pairing.ok wanted
unfolding Pairing.build Zone.build Pairing.count sort insert_sorted Zone.add_hosts build_snapshot
    merge merge_sets merge_hosts merge_host lookup insert str_dec str_ltb Zone.add_host Zone.apply
    Zone.join Pairing.pair_all Pairing.intra_pairing Pairing.any_match Pairing.cut Pairing.make_key
    Pairing.matches Pairing.pair_with Pairing.split Zone.key_value Zone.key_values Zone.member_count
    Zone.members_of Zone.missing_key
two_zones = refl

reconcile-EntryOk_example : All (EntryOk given) (output env given wanted).state.pairings
reconcile-EntryOk_example =
    reconcile-EntryOk env 50 given {out = output env given wanted} (build_snapshot-IsMerged 7 store)
      (reconcile-ok env 50 given wanted refl two_zones)

-- No pairing is wanted, and the slot table was made for another configuration.
abbrev dropped : Input
dropped = record given {
  pairings = record pairings_config { intra_zone = false; include = bytes "none" ∷ [] };
  filter = some (record { include = bytes "none" ∷ []; exclude = [] });
  slots = record slots_config { super_hosts = 0 };
  current = some (record table { slots_config = bytes "other" });
}

no_pairing :
    Pairing.build env.path_match (Zone.build rule snapshot) dropped.pairings dropped.filter
    ≡ Pairing.ok []
unfolding Pairing.build Zone.build Pairing.count sort insert_sorted Zone.add_hosts build_snapshot
    merge merge_sets merge_hosts merge_host lookup insert str_dec str_ltb Zone.add_host Zone.apply
    Zone.join Pairing.pair_all Pairing.intra_pairing Pairing.any_match Pairing.cut Pairing.make_key
    Pairing.matches Pairing.pair_with Pairing.split Zone.key_value Zone.key_values Zone.member_count
    Zone.members_of Zone.missing_key
no_pairing = refl

reconcile_silent_example :
    (out : Output) × (reconcile env 50 dropped ≡ Pairing.ok out)
    × (out.state ≡ State.new (bytes "zones") (slots_fingerprint env dropped.slots))
    × (is_empty out.delta ≡ true)
unfolding slots_fingerprint str_dec
reconcile_silent_example =
    reconcile_silent env 50 dropped (record table { slots_config = bytes "other" }) refl refl refl
      refl no_pairing

abbrev pub config : Config
config = record {
  pairings = dropped.pairings;
  slots = dropped.slots;
  pairing_removal_hold = 10;
  rule = rule;
  filter = dropped.filter;
  scanner = dropped.slots;
}

-- A loop over a table that was made for another configuration.
abbrev pub loop : Loop
loop = record {
  health = new health_config;
  store = new_store (some (record table { slots_config = bytes "other" })) none;
  published = [];
  last_delta = none;
  last_at = 0;
  last_err = none;
  last_gen = 0;
  ready = true;
}
