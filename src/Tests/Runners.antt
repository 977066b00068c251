-- ===== src/Tests/Runners.antt =====
-- Examples on internal/runner/runner.go and internal/metrics/metrics.go.
use network_mesh_exporter.Base.{ℕ, ◌≡◌, refl, ◌+◌, true, List, [], ◌∷◌, ◌++◌, none, some}
use network_mesh_exporter.Base.Int.{pos}
use network_mesh_exporter.Base.Str.{bytes, str_dec, str_ltb}
use network_mesh_exporter.Base.Map.{lookup, insert}
use network_mesh_exporter.Base.Sort.{sort}
use network_mesh_exporter.Inventory.{
  get, build_snapshot, index_hosts, merge, merge_sets, merge_hosts, merge_host,
}
use network_mesh_exporter.Config.{ProbesConfig}
use network_mesh_exporter.Metrics.{Vecs, Registry, new_registry, sink}
use network_mesh_exporter.Metrics.Limit.{Reachable-Within}
use network_mesh_exporter.Metrics.Series.{IsBounded}
use network_mesh_exporter.Probe.{udp}
use network_mesh_exporter.Probe.Window.{Float64, new_window}
use network_mesh_exporter.Runner.{Task, TaskKey, Net, find, desired, probe_params}
use network_mesh_exporter.Runner.Apply.{Deps, Runner, apply_want, apply}
use network_mesh_exporter.Runner.Apply.Reach.{IsSound}
use network_mesh_exporter.Runner.Apply.Wants.{next_task, apply_want-next_task}
use network_mesh_exporter.Runner.Desired.{IsWanted, desired-IsWanted}
use network_mesh_exporter.Runner.Desired.Complete.{Has, desired-Has}
use network_mesh_exporter.Runner.States.{created, run, applied, Reachable-IsSound}
use network_mesh_exporter.State.{is_live, is_filled}
use network_mesh_exporter.Slot.{anchor, diverse, Rank}
use network_mesh_exporter.Tests.{b1, snapshot, table, pair, slot_of}
use network_mesh_exporter.Tests.Configs.{some_config}

abbrev probes : ProbesConfig
probes = some_config.probes

abbrev net : Net
net = record { join_host_port = λ address port. address ++ bytes ":9" }

abbrev deps : Deps ℕ
deps = record {
  node_id = bytes "a1";
  has_prober = λ k. true;
  metrics = none;
  net = net;
  clock = λ k. 9;
}

abbrev wanted : List Task
wanted = desired (bytes "a1") probes snapshot table

abbrev key : TaskKey
key = record { pairing = bytes "r1|r2"; slot = 0; kind = udp; forward = true }

-- A runner with a task whose destination moved.
abbrev stale : Task
stale = record {
  key = key;
  src = record { host_id = bytes "a1"; address = []; port = pos 0 };
  dst = record { host_id = bytes "b1"; address = bytes "old"; port = pos 9000 };
  zone_src = bytes "r1";
  zone_dst = bytes "r2";
  class = anchor;
  rank = Rank.unique;
  params = (probe_params probes udp).0;
  window = new_window 60;
  started_at = 3;
}

abbrev runner : Runner ℕ
runner = record { ready = true; tasks = stale ∷ []; sink = 0 }

apply_want-next_task_example :
    find key (apply_want deps wanted runner).tasks
    ≡ next_task deps (find key wanted) (find key runner.tasks)
apply_want-next_task_example = apply_want-next_task deps key wanted runner refl (tt, tt)

desired-IsWanted_example : IsWanted (bytes "a1") probes snapshot wanted
desired-IsWanted_example = desired-IsWanted (bytes "a1") probes snapshot table

desired-Has_example : Has key wanted
unfolding is_live is_filled str_dec get lookup build_snapshot index_hosts merge sort merge_sets
    merge_hosts merge_host insert str_ltb
desired-Has_example =
    desired-Has (bytes "a1") probes snapshot table [] (bytes "r1|r2") pair [] []
      (slot_of 0 anchor (bytes "a1") (bytes "b1")) (slot_of 1 diverse (bytes "a2") [] ∷ []) true b1
      udp refl refl refl refl refl refl refl

abbrev fl : Float64
fl = record { ratio = λ a b. 0; rank = λ q n. pos 0 }

abbrev idle : Runner ℕ
idle = record { ready = true; tasks = []; sink = 0 }

Reachable-IsSound_example : IsSound deps (apply deps some_config table snapshot idle)
Reachable-IsSound_example =
    Reachable-IsSound deps fl [] (apply deps some_config table snapshot idle)
      (applied some_config table snapshot idle (run _ created))

-- Vectors that count the writes.
abbrev vecs : Vecs ℕ
vecs = record { itoa = λ n. (b'0' + n) ∷ []; write = λ l c st n. n + 1; delete = λ l n. n }

abbrev exporting : Deps (Registry ℕ)
exporting = record {
  node_id = bytes "a1";
  has_prober = λ k. true;
  metrics = some (sink vecs);
  net = net;
  clock = λ k. 9;
}

abbrev empty_registry : Registry ℕ
empty_registry = new_registry 10 0

abbrev exporter : Runner (Registry ℕ)
exporter = record { ready = true; tasks = []; sink = empty_registry }

Reachable-Within_example :
    let r = apply exporting some_config table snapshot exporter in
    IsBounded r.sink × (r.sink.max_series ≡ 10)
Reachable-Within_example =
    Reachable-Within vecs exporting refl fl [] 10 0
      (apply exporting some_config table snapshot exporter)
      (applied some_config table snapshot exporter (run _ created))
