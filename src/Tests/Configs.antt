-- ===== src/Tests/Configs.antt =====
-- Examples on internal/config/load.go, internal/provider/provider.go and
-- internal/provider/file/file.go.
use network_mesh_exporter.Base.{
  ℕ, ◌≡◌, ◌≢◌, refl, Bool, false, true, [], ◌∷◌, map, none, some, All, if◌then◌else◌,
}
use network_mesh_exporter.Base.Int.{pos}
use network_mesh_exporter.Base.Map.{lookup, insert}
use network_mesh_exporter.Base.Str.{Str, bytes, str_dec}
use network_mesh_exporter.Base.Strs.{contains}
use network_mesh_exporter.Config.{Config}
use network_mesh_exporter.Config.Validate.{Outside, parse, accepted}
use network_mesh_exporter.Config.Validate.Checks.{IsReady, Le, parse-IsReady}
use network_mesh_exporter.Inventory.{Set}
use network_mesh_exporter.Provider.{Manager, apply}
use network_mesh_exporter.Provider.Manage.{apply-source, next_running, next_set}
use network_mesh_exporter.Provider.File.{HostEntry, Document, ok, split_site, digit_at}
use network_mesh_exporter.Provider.File
use network_mesh_exporter.Provider.File.Documents.{IsFrom, DistinctNames, parse-IsFrom}
use network_mesh_exporter.Zone.{join}
use network_mesh_exporter.Zone.Compile.{last_index}
use network_mesh_exporter.Tests.{store}

abbrev pub some_config : Config
some_config = record {
  node_id = bytes "a1";
  providers = record {
    file = record {
      enabled = true;
      path = bytes "hosts.json";
      interval = pos 60;
      priority = pos 1;
    };
    http = record { enabled = false; url = []; interval = pos 0; cache_path = [] };
    k8s = record { enabled = false; cluster_name = [] };
  };
  zone = record {
    keys = record { key = bytes "rack"; transform = [] } ∷ [];
    separator = [];
    missing = [];
  };
  pairings = record { intra_zone = true; include = []; exclude = []; max_pairings = 10 };
  slots = record {
    count = pos 2;
    anchor_ratio = 50;
    anchor_rounding = [];
    super_hosts = pos 0;
    super_selector = [];
    super_max_targets = pos 4;
    allow_reuse = true;
    rebalance_on_add = false;
  };
  health = record {
    unhealthy_after = pos 3;
    release_hold = pos 30;
    healthy_after = pos 2;
    initial_grace = pos 0;
    missing_grace = pos 20;
    dns_grace = pos 20;
    flap_threshold = pos 0;
    flap_window = pos 100;
    flap_cooldown = pos 100;
    pairing_removal_hold = pos 10;
    reclaim = false;
  };
  probes = record {
    cycle = pos 15;
    window = pos 60;
    icmp = record {
      enabled = false;
      interval = pos 1;
      count = pos 5;
      payload_bytes = pos 56;
      timeout = pos 1;
      ttl = pos 64;
      df = false;
    };
    udp = record {
      enabled = true;
      interval = pos 1;
      count = pos 5;
      payload_bytes = pos 64;
      port = pos 9000;
      timeout = pos 1;
    };
    tcp = record {
      enabled = false;
      interval = pos 1;
      count = pos 5;
      payload_bytes = pos 64;
      port = pos 9000;
      timeout = pos 1;
      mode = [];
    };
  };
  mesh_ping_path = [];
  persist = record { path = bytes "state.json"; debounce = pos 2; max_delay = pos 1 };
  api_listen = bytes ":9100";
  metrics = record { max_series = pos 1000; percentiles = [] };
}

abbrev outside : Outside
outside = record {
  hostname = none;
  lt_zero = λ x. false;
  gt_one = λ x. false;
  le_zero = λ x. false;
  ge_one = λ x. false;
}

-- The configuration with the values that are filled in.
abbrev filled_config : Config
filled_config = record some_config {
  zone = record some_config.zone { separator = bytes "/"; missing = bytes "exclude" };
  slots = record some_config.slots { anchor_rounding = bytes "up" };
  probes = record some_config.probes {
    tcp = record some_config.probes.tcp { mode = bytes "connect" };
  };
  persist = record some_config.persist { max_delay = pos 10 };
}

parsed : parse outside some_config ≡ accepted filled_config
unfolding parse str_dec
parsed = refl

parse-IsReady_example : IsReady filled_config × Le (pos 2) (pos 10)
parse-IsReady_example = parse-IsReady outside some_config filled_config parsed

-- A manager whose only source runs and is disabled.
abbrev manager : Manager Bool ℕ
manager = record {
  store = store;
  active = (bytes "file", record { prov = 1; fp = bytes "x" }) ∷ [];
  factories = (bytes "file", λ cfg. some 2) ∷ [];
  enabled = λ cfg n. cfg;
  fingers = λ cfg n. bytes "y";
}

apply-source_example :
    let n = (apply false manager).1 in
    (lookup (bytes "file") n.active ≡ (
      if contains (bytes "file") (bytes "file" ∷ [])
      then next_running false (bytes "file") manager
      else lookup (bytes "file") manager.active))
    × (lookup (bytes "file") n.store.sets ≡ (
        if contains (bytes "file") (bytes "file" ∷ [])
        then next_set false (bytes "file") manager
        else lookup (bytes "file") manager.store.sets))
apply-source_example = apply-source false (bytes "file") manager (tt, tt)

abbrev host : HostEntry
host = record {
  name = bytes "web-001.shop.sjc01";
  address = [];
  enabled = some false;
  attributes = [];
}

abbrev pub document : Document
document = record {
  version = pos 1;
  site_table = [];
  name_format = bytes "role_ordinal" ∷ bytes "site" ∷ [];
  hosts = host ∷ [];
}

-- The set of the document, of a source and at a time.
abbrev pub imported_from : Str → ℕ → Set
imported_from source now = record {
  source = source;
  hosts =
      record {
        id = host.name;
        address = host.name;
        attributes =
            (bytes "fqdn", host.name)
            ∷ (bytes "role", bytes "web")
            ∷ (bytes "ordinal", bytes "001")
            ∷ (bytes "site", bytes "shop")
            ∷ (bytes "domain", bytes "sjc01")
            ∷ (bytes "hostname", bytes "web-001")
            ∷ (bytes "metro", bytes "shop")
            ∷ [];
        source = source;
        healthy = false;
        reason = bytes "disabled in inventory document";
        seen_at = now;
        priority = pos 1;
      }
      ∷ [];
  fetch_at = now;
  stale = false;
  last_error = [];
}

abbrev imported : Set
imported = imported_from (bytes "file") 7

imports : File.parse (some document) (bytes "file") (pos 1) 7 ≡ ok imported
unfolding File.parse str_dec contains lookup insert last_index join
imports = refl

parse-IsFrom_example :
    (map (λ r. r.id) imported.hosts ≡ host.name ∷ [])
    × All (λ k. k ≢ []) (map (λ r. r.id) imported.hosts)
    × DistinctNames (map (λ r. r.id) imported.hosts)
    × All (IsFrom (bytes "file") (pos 1) 7) imported.hosts
    × (imported.hosts ≢ [])
parse-IsFrom_example = parse-IsFrom document (bytes "file") (pos 1) 7 imported imports
