-- ===== src/Config.antt =====
-- internal/config/config.go: the configuration. A duration is a number of nanoseconds, a float64 a bit
-- pattern. The parsing of YAML and JSON is not modelled.
pub mod Validate
use network_mesh_exporter.Base.{ℕ, Bool, List}
use network_mesh_exporter.Base.Int.{ℤ}
use network_mesh_exporter.Base.Map.{Map}
use network_mesh_exporter.Base.Str.{Str}
use network_mesh_exporter.Zone.Compile.{ZoneConfig}
use network_mesh_exporter.Pairing.{PairingsConfig}

pub record FileConfig : Type 0 where
  pub enabled : Bool
  pub path : Str
  pub interval : ℤ
  pub priority : ℤ

-- The fields that are read by the validation.
pub record HttpConfig : Type 0 where
  pub enabled : Bool
  pub url : Str
  pub interval : ℤ
  pub cache_path : Str

-- The fields that are read by the validation.
pub record K8sConfig : Type 0 where
  pub enabled : Bool
  pub cluster_name : Str

pub record ProvidersConfig : Type 0 where
  pub file : FileConfig
  pub http : HttpConfig
  pub k8s : K8sConfig

pub record SlotsConfig : Type 0 where
  pub count : ℤ
  pub anchor_ratio : ℕ
  pub anchor_rounding : Str
  pub super_hosts : ℤ
  pub super_selector : Map Str
  pub super_max_targets : ℤ
  pub allow_reuse : Bool
  pub rebalance_on_add : Bool

pub record HealthConfig : Type 0 where
  pub unhealthy_after : ℤ
  pub release_hold : ℤ
  pub healthy_after : ℤ
  pub initial_grace : ℤ
  pub missing_grace : ℤ
  pub dns_grace : ℤ
  pub flap_threshold : ℤ
  pub flap_window : ℤ
  pub flap_cooldown : ℤ
  pub pairing_removal_hold : ℤ
  pub reclaim : Bool

pub record IcmpConfig : Type 0 where
  pub enabled : Bool
  pub interval : ℤ
  pub count : ℤ
  pub payload_bytes : ℤ
  pub timeout : ℤ
  pub ttl : ℤ
  pub df : Bool

pub record UdpConfig : Type 0 where
  pub enabled : Bool
  pub interval : ℤ
  pub count : ℤ
  pub payload_bytes : ℤ
  pub port : ℤ
  pub timeout : ℤ

pub record TcpConfig : Type 0 where
  pub enabled : Bool
  pub interval : ℤ
  pub count : ℤ
  pub payload_bytes : ℤ
  pub port : ℤ
  pub timeout : ℤ
  pub mode : Str

pub record ProbesConfig : Type 0 where
  pub cycle : ℤ
  pub window : ℤ
  pub icmp : IcmpConfig
  pub udp : UdpConfig
  pub tcp : TcpConfig

pub record PersistConfig : Type 0 where
  pub path : Str
  pub debounce : ℤ
  pub max_delay : ℤ

pub record MetricsConfig : Type 0 where
  pub max_series : ℤ
  pub percentiles : List ℕ

-- `Config`, less the parts that neither the validation nor the runner reads.
pub record Config : Type 0 where
  pub node_id : Str
  pub providers : ProvidersConfig
  pub zone : ZoneConfig
  pub pairings : PairingsConfig
  pub slots : SlotsConfig
  pub health : HealthConfig
  pub probes : ProbesConfig
  pub mesh_ping_path : Str
  pub persist : PersistConfig
  pub api_listen : Str
  pub metrics : MetricsConfig
