-- ===== src/Tests/Slots.antt =====
-- Examples on internal/slot/slot.go.
use network_mesh_exporter.Base.{
  ◌%◌, ◌≡◌, ◌<◌, Bool, false, true, List, [], ◌∷◌, Option, some, length, arith,
}
use network_mesh_exporter.Base.Sort.{sort}
use network_mesh_exporter.Base.Str.{Str, ◌==◌, bytes}
use network_mesh_exporter.Base.Strs.{contains}
use network_mesh_exporter.Slot.{keep_current, fill_up, scan, pick, pick_super}
use network_mesh_exporter.Slot.Ranks.{IsPick, pick-IsPick}
use network_mesh_exporter.Slot.Scans.{first, rotate, accepts, scan-rotate}
use network_mesh_exporter.Tests.{candidates, slots_config, snapshot}

abbrev nobody : Str → Bool
nobody id = false

abbrev anybody : Str → Bool
anybody id = true

scan-rotate_example :
    scan candidates 1 nobody anybody
    ≡ first (accepts nobody anybody) (rotate (1 % 2) candidates.hosts)
scan-rotate_example = scan-rotate candidates 1 nobody anybody (omega arith)

pick-IsPick_example :
    IsPick true candidates nobody (pick slots_config (bytes "r1|r2") candidates nobody)
pick-IsPick_example = pick-IsPick slots_config (bytes "r1|r2") candidates nobody

abbrev members : List Str
members = bytes "a1" ∷ bytes "a2" ∷ []

-- Only `a2` is eligible.
abbrev only_a2 : Option (Str → Bool)
only_a2 = some λ id. id == bytes "a2"

abbrev supers : List Str
supers = pick_super slots_config members snapshot (bytes "a2" ∷ []) only_a2

nobody_super : length (pick_super slots_config members snapshot [] (some nobody)) < 1
unfolding pick_super keep_current sort fill_up contains
nobody_super = omega arith
