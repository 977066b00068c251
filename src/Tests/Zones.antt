-- ===== src/Tests/Zones.antt =====
-- Examples on internal/zone/zone.go.
use network_mesh_exporter.Base.{◌≡◌}
use network_mesh_exporter.Base.Sort.{IsStrict}
use network_mesh_exporter.Base.Str.{bytes}
use network_mesh_exporter.Inventory.Merge.{merge-IsStrict}
use network_mesh_exporter.Tests.{rule, snapshot, sets}
use network_mesh_exporter.Zone.{build, zone_of}
use network_mesh_exporter.Zone.HostZone.{zone_by, zone_of-build}
use network_mesh_exporter.Inventory.{id_less, build_snapshot}

snapshot-IsStrict : IsStrict id_less snapshot.hosts
unfolding build_snapshot
snapshot-IsStrict = merge-IsStrict sets

zone_of-build_example :
    zone_of (build rule snapshot) (bytes "a2") ≡ zone_by rule (bytes "a2") snapshot.hosts
zone_of-build_example = zone_of-build rule snapshot (bytes "a2") snapshot-IsStrict
