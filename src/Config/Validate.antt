-- ===== src/Config/Validate.antt =====
-- internal/config/load.go: the values that are filled in, the checks, and the tests on a reload. The
-- problems are listed in the order in which they are joined into one error.
pub mod Checks
use network_mesh_exporter.Base.{
  ℕ, suc, ◌+◌, ◌*◌, Bool, false, true, not, ◌&&◌, ◌||◌, List, [], ◌∷◌, ◌++◌, Option, none, some,
  if◌then◌else◌,
}
use network_mesh_exporter.Base.Int.{ℤ, pos, negsuc, ltb_ℤ}
use network_mesh_exporter.Base.Str.{Str, ◌==◌, bytes}
use network_mesh_exporter.Config.{
  Config, FileConfig, HttpConfig, K8sConfig, ProvidersConfig, SlotsConfig, HealthConfig, IcmpConfig,
  UdpConfig, TcpConfig, ProbesConfig, PersistConfig, MetricsConfig,
}
use network_mesh_exporter.Pairing.{PairingsConfig}
use network_mesh_exporter.Probe.{Kind, icmp, udp, tcp}
use network_mesh_exporter.Zone.Compile.{ZoneConfig, ZoneKeySpec, cut_prefix}

-- What is read from outside: `os.Hostname`, and a float64 against 0 and 1: `< 0`, `> 1`, `<= 0`, `>= 1`.
pub record Outside : Type 0 where
  pub hostname : Option Str
  pub lt_zero : ℕ → Bool
  pub gt_one : ℕ → Bool
  pub le_zero : ℕ → Bool
  pub ge_one : ℕ → Bool

pub data Problem : Type 0 where
  no_node_id no_provider no_file_path no_http_url bad_http_url no_http_cache short_http_interval :
      Problem
  no_cluster_name no_zone_keys bad_missing bad_max_pairings bad_slot_count bad_anchor_ratio :
      Problem
  bad_anchor_rounding bad_super_hosts bad_super_targets bad_unhealthy_after bad_healthy_after :
      Problem
  bad_cycle short_window no_probe bad_udp_port bad_tcp_port bad_tcp_mode no_mesh_ping
        no_persist_path :
      Problem
  bad_debounce no_listen bad_max_series bad_percentile : Problem
  no_zone_key : ℕ → Problem
  bad_count bad_payload bad_timeout bad_interval : Kind → Problem

-- `5 * d`.
abbrev pub five_times : ℤ → ℤ
five_times (pos n) = pos (5 * n)
five_times (negsuc n) = negsuc (5 * n + 4)

abbrev pub or_else : Str → Str → Str
or_else d s = if s == [] then d else s

unfoldable pub normalise : Outside → Config → Config
normalise o c =
    let host = elim o.hostname as (λ _. Str) [ none ↦ [] | some h ↦ h ] in
    record c {
      node_id = or_else host c.node_id;
      zone = record c.zone {
        separator = or_else (bytes "/") c.zone.separator;
        missing = or_else (bytes "exclude") c.zone.missing;
      };
      slots = record c.slots { anchor_rounding = or_else (bytes "up") c.slots.anchor_rounding };
      probes = record c.probes {
        tcp = record c.probes.tcp { mode = or_else (bytes "connect") c.probes.tcp.mode };
      };
      persist = record c.persist {
        max_delay =
            if ltb_ℤ c.persist.max_delay c.persist.debounce
            then five_times c.persist.debounce
            else c.persist.max_delay;
      };
    }

abbrev pub check : Bool → Problem → List Problem
check b p = if b then p ∷ [] else []

-- `x <= 0`.
abbrev pub not_positive : ℤ → Bool
not_positive x = not (ltb_ℤ (pos 0) x)

-- `strings.HasPrefix`.
abbrev pub has_prefix : Str → Str → Bool
has_prefix p s = elim (cut_prefix p s) [ none ↦ false | some _ ↦ true ]

unfoldable pub check_providers : ProvidersConfig → List Problem
check_providers p =
    let url = p.http.url in
    check (not p.file.enabled && not p.http.enabled && not p.k8s.enabled) no_provider
    ++ (check (p.file.enabled && p.file.path == []) no_file_path
        ++ ((if p.http.enabled
              then (if url == []
                  then no_http_url ∷ []
                  else check
                      (not (has_prefix (bytes "http://") url)
                        && not (has_prefix (bytes "https://") url))
                      bad_http_url)
                ++ (check (p.http.cache_path == []) no_http_cache
                    ++ check (ltb_ℤ p.http.interval (pos 1000000000)) short_http_interval)
              else [])
            ++ check (p.k8s.enabled && p.k8s.cluster_name == []) no_cluster_name))

unfoldable pub check_keys : ℕ → List ZoneKeySpec → List Problem
check_keys i [] = []
check_keys i (k ∷ ks) = check (k.key == []) (no_zone_key i) ++ check_keys (suc i) ks

unfoldable pub check_zone : ZoneConfig → List Problem
unfolding check_keys
check_zone z =
    (elim z.keys as (λ _. List Problem) [ [] ↦ no_zone_keys ∷ [] | _ ∷ _ ↦ [] ])
    ++ (check_keys 0 z.keys
        ++ check
            (not (
              z.missing == bytes "exclude"
              || z.missing == bytes "empty"
              || has_prefix (bytes "literal:") z.missing))
            bad_missing)

unfoldable pub check_slots : Outside → SlotsConfig → List Problem
check_slots o s =
    check (not_positive s.count) bad_slot_count
    ++ (check (o.lt_zero s.anchor_ratio || o.gt_one s.anchor_ratio) bad_anchor_ratio
        ++ (check (not (s.anchor_rounding == bytes "up") && not (s.anchor_rounding == bytes "down"))
              bad_anchor_rounding
            ++ (check (ltb_ℤ s.super_hosts (pos 0)) bad_super_hosts
                ++ check (not_positive s.super_max_targets) bad_super_targets)))

unfoldable pub check_health : HealthConfig → List Problem
check_health h =
    check (not_positive h.unhealthy_after) bad_unhealthy_after
    ++ check (not_positive h.healthy_after) bad_healthy_after

-- The closure `validateProbe`.
unfoldable pub check_probe : Kind → Bool → ℤ → ℤ → ℤ → ℤ → List Problem
check_probe kind enabled count payload interval timeout =
    if enabled
    then check (not_positive count) (bad_count kind)
      ++ (check (ltb_ℤ payload (pos 8)) (bad_payload kind)
          ++ (check (not_positive timeout) (bad_timeout kind)
              ++ check (ltb_ℤ interval (pos 0)) (bad_interval kind)))
    else []

abbrev bad_port : ℤ → Bool
bad_port p = not_positive p || ltb_ℤ (pos 65535) p

unfoldable pub check_probes : ProbesConfig → List Problem
unfolding check_probe
check_probes p =
    check (not_positive p.cycle) bad_cycle
    ++ (check (ltb_ℤ p.window p.cycle) short_window
        ++ (check (not p.icmp.enabled && not p.udp.enabled && not p.tcp.enabled) no_probe
            ++ (check_probe icmp p.icmp.enabled p.icmp.count p.icmp.payload_bytes p.icmp.interval
                  p.icmp.timeout
                ++ (check_probe udp p.udp.enabled p.udp.count p.udp.payload_bytes p.udp.interval
                      p.udp.timeout
                    ++ (check_probe tcp p.tcp.enabled p.tcp.count p.tcp.payload_bytes p.tcp.interval
                          p.tcp.timeout
                        ++ (check (p.udp.enabled && bad_port p.udp.port) bad_udp_port
                            ++ (check (p.tcp.enabled && bad_port p.tcp.port) bad_tcp_port
                                ++ check
                                    (p.tcp.enabled
                                      && not (p.tcp.mode == bytes "connect")
                                      && not (p.tcp.mode == bytes "echo"))
                                    bad_tcp_mode)))))))

unfoldable pub check_persist : PersistConfig → List Problem
check_persist p =
    check (p.path == []) no_persist_path ++ check (not_positive p.debounce) bad_debounce

unfoldable pub check_percentiles : Outside → List ℕ → List Problem
check_percentiles o [] = []
check_percentiles o (q ∷ qs) =
    check (o.le_zero q || o.ge_one q) bad_percentile ++ check_percentiles o qs

-- The problems of one check after the other.
abbrev pub join_all : List (List Problem) → List Problem
join_all [] = []
join_all (ps ∷ pss) = ps ++ join_all pss

unfoldable pub checks : Outside → Config → List (List Problem)
unfolding check_providers check_zone check_slots check_health check_probes check_persist
    check_percentiles
checks o c =
    check (c.node_id == []) no_node_id
    ∷ check_providers c.providers
    ∷ check_zone c.zone
    ∷ check (not_positive (pos c.pairings.max_pairings)) bad_max_pairings
    ∷ check_slots o c.slots
    ∷ check_health c.health
    ∷ check_probes c.probes
    ∷ check (c.probes.icmp.enabled && c.mesh_ping_path == []) no_mesh_ping
    ∷ check_persist c.persist
    ∷ check (c.api_listen == []) no_listen
    ∷ check (not_positive c.metrics.max_series) bad_max_series
    ∷ check_percentiles o c.metrics.percentiles
    ∷ []

unfoldable pub validate : Outside → Config → List Problem
unfolding checks
validate o c = join_all (checks o c)

-- `Parse`, once the text is read over the defaults: the configuration, or the problems.
pub data Parsed : Type 0 where
  accepted : Config → Parsed
  rejected : List Problem → Parsed

unfoldable pub parse : Outside → Config → Parsed
unfolding normalise validate
parse o c =
    let n = normalise o c in elim (validate o n) [ [] ↦ accepted n | p ∷ ps ↦ rejected (p ∷ ps) ]
