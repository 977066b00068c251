-- ===== src/Config/Validate/Checks.antt =====
-- internal/config/load.go: what an accepted configuration satisfies.
use network_mesh_exporter.Base.{
  ℕ, suc, ◌+◌, ◌≤◌, ◌<◌, ◌≡◌, ◌≢◌, ◌⊎◌, refl, subst, Bool, false, true, List, [], ◌∷◌, ◌++◌, none,
  some, if◌then◌else◌, arith, All,
}
use network_mesh_exporter.Base.Int.{ℤ, pos, negsuc, ltb_ℤ, pos_part, neg_part}
use network_mesh_exporter.Base.Str.{Str, bytes}
use network_mesh_exporter.Config.{Config, ProbesConfig, ProvidersConfig, PersistConfig, SlotsConfig}
use network_mesh_exporter.Config.Validate.{
  Outside, Problem, normalise, five_times, or_else, check_providers, check_keys, check_zone,
  check_slots, check_probe, check_probes, check_persist, join_all, checks, validate, Parsed,
  accepted, rejected, parse,
}
use network_mesh_exporter.Probe.{Kind, icmp, udp, tcp}
use network_mesh_exporter.Runner.{kinds_of}
use network_mesh_exporter.Zone.Compile.{ZoneConfig, ZoneKeySpec}

append_empty {ℓ} : {A : Type ℓ} (xs ys : List A) → xs ++ ys ≡ [] → (xs ≡ []) × (ys ≡ [])
append_empty [] ys e = (refl, e)
append_empty (x ∷ xs) ys e = cc

join_all-empty : (pss : List (List Problem)) → join_all pss ≡ [] → All (λ ps. ps ≡ []) pss
join_all-empty [] e = tt
join_all-empty (ps ∷ pss) e =
    let both = append_empty ps (join_all pss) e in (both.0, join_all-empty pss both.1)

-- `a <= b`.
abbrev pub Le : ℤ → ℤ → Type 0
Le a b = pos_part a + neg_part b ≤ pos_part b + neg_part a

-- The settings of a kind that is enabled.
abbrev pub IsProbe : Bool → ℤ → ℤ → ℤ → ℤ → Type 0
IsProbe enabled count payload interval timeout =
    enabled ≡ true
    → Le (pos 1) count × Le (pos 8) payload × Le (pos 1) timeout × Le (pos 0) interval

abbrev pub IsPort : Bool → ℤ → Type 0
IsPort enabled port = enabled ≡ true → Le (pos 1) port × Le port (pos 65535)

pub record IsProbes (p : ProbesConfig) : Type 0 where
  pub cycle : Le (pos 1) p.cycle
  pub window : Le p.cycle p.window
  pub some_kind : kinds_of p ≢ []
  pub icmp_probe :
      IsProbe p.icmp.enabled p.icmp.count p.icmp.payload_bytes p.icmp.interval p.icmp.timeout
  pub udp_probe : IsProbe p.udp.enabled p.udp.count p.udp.payload_bytes p.udp.interval p.udp.timeout
  pub tcp_probe : IsProbe p.tcp.enabled p.tcp.count p.tcp.payload_bytes p.tcp.interval p.tcp.timeout
  pub udp_port : IsPort p.udp.enabled p.udp.port
  pub tcp_port : IsPort p.tcp.enabled p.tcp.port

check_probe-IsProbe :
    (kind : Kind) (enabled : Bool) (count payload interval timeout : ℤ)
    → check_probe kind enabled count payload interval timeout ≡ []
    → IsProbe enabled count payload interval timeout
unfolding check_probe
check_probe-IsProbe kind true count payload interval timeout e on = ground arith
check_probe-IsProbe kind false count payload interval timeout e on = cc

check_probes-IsProbes : (p : ProbesConfig) → check_probes p ≡ [] → IsProbes p
unfolding check_probes kinds_of
check_probes-IsProbes p e = record {
  cycle = ground arith;
  window = ground arith;
  some_kind = ground arith;
  icmp_probe =
      check_probe-IsProbe icmp p.icmp.enabled p.icmp.count p.icmp.payload_bytes p.icmp.interval
        p.icmp.timeout (ground arith);
  udp_probe =
      check_probe-IsProbe udp p.udp.enabled p.udp.count p.udp.payload_bytes p.udp.interval
        p.udp.timeout (ground arith);
  tcp_probe =
      check_probe-IsProbe tcp p.tcp.enabled p.tcp.count p.tcp.payload_bytes p.tcp.interval
        p.tcp.timeout (ground arith);
  udp_port = λ on. ground arith;
  tcp_port = λ on. ground arith;
}

-- What the validation guarantees: the node has a name, a provider is enabled, there is a zone key and
-- each has a name, the numbers of pairings, slots and series are positive, as is the debounce time,
-- and the probes have the bounds of `IsProbes`.
pub record IsReady (c : Config) : Type 0 where
  pub named : c.node_id ≢ []
  pub provider :
      (c.providers.file.enabled ≡ true)
      ⊎ (c.providers.http.enabled ≡ true)
      ⊎ (c.providers.k8s.enabled ≡ true)
  pub zoned : c.zone.keys ≢ []
  pub keys : All (λ (k : ZoneKeySpec). k.key ≢ []) c.zone.keys
  pub pairings : 0 < c.pairings.max_pairings
  pub slots : Le (pos 1) c.slots.count
  pub probes : IsProbes c.probes
  pub debounce : Le (pos 1) c.persist.debounce
  pub max_series : Le (pos 1) c.metrics.max_series

check_keys-All :
    (i : ℕ) (ks : List ZoneKeySpec)
    → check_keys i ks ≡ []
    → All (λ (k : ZoneKeySpec). k.key ≢ []) ks
unfolding check_keys
check_keys-All i [] e = tt
check_keys-All i (k ∷ ks) e = (ground arith, check_keys-All (suc i) ks (ground arith))

providers-some :
    (p : ProvidersConfig)
    → check_providers p ≡ []
    → (p.file.enabled ≡ true) ⊎ (p.http.enabled ≡ true) ⊎ (p.k8s.enabled ≡ true)
unfolding check_providers
providers-some p e = ground arith

zone-keys :
    (z : ZoneConfig)
    → check_zone z ≡ []
    → (z.keys ≢ []) × All (λ (k : ZoneKeySpec). k.key ≢ []) z.keys
unfolding check_zone
zone-keys z e = (ground arith, check_keys-All 0 z.keys (ground arith))

slots-count : (o : Outside) (s : SlotsConfig) → check_slots o s ≡ [] → Le (pos 1) s.count
unfolding check_slots
slots-count o s e = ground arith

persist-debounce : (p : PersistConfig) → check_persist p ≡ [] → Le (pos 1) p.debounce
unfolding check_persist
persist-debounce p e = ground arith

validate-IsReady : (o : Outside) (c : Config) → validate o c ≡ [] → IsReady c
unfolding validate checks
validate-IsReady o c e =
    let h = join_all-empty (checks o c) e in
    record {
      named = ground (arith, h.0);
      provider = providers-some c.providers h.1.0;
      zoned = (zone-keys c.zone h.1.1.0).0;
      keys = (zone-keys c.zone h.1.1.0).1;
      pairings = ground (arith, h.1.1.1.0);
      slots = slots-count o c.slots h.1.1.1.1.0;
      probes = check_probes-IsProbes c.probes h.1.1.1.1.1.1.0;
      debounce = persist-debounce c.persist h.1.1.1.1.1.1.1.1.0;
      max_series = ground (arith, h.1.1.1.1.1.1.1.1.1.1.0);
    }

outcome :
    (ps : List Problem) (n d : Config)
    → (elim ps as (λ _. Parsed) [ [] ↦ accepted n | q ∷ qs ↦ rejected (q ∷ qs) ]) ≡ accepted d
    → (ps ≡ []) × (n ≡ d)
outcome [] n d e = (refl, cc)
outcome (p ∷ ps) n d e = cc

parse_accepted :
    (o : Outside) (c d : Config)
    → parse o c ≡ accepted d
    → (validate o (normalise o c) ≡ []) × (normalise o c ≡ d)
unfolding parse
parse_accepted o c d e = outcome (validate o (normalise o c)) (normalise o c) d e

delay-Le :
    (debounce max_delay : ℤ)
    → Le (pos 1) debounce
    → Le debounce (if ltb_ℤ max_delay debounce then five_times debounce else max_delay)
delay-Le (pos n) max_delay h = ground arith
delay-Le (negsuc n) max_delay h = ground arith

or_else-or_else : (d s : Str) → or_else d (or_else d s) ≡ or_else d s
or_else-or_else d s = ground arith

within-same : (a b x : ℤ) → Le a b → (if ltb_ℤ b a then x else b) ≡ b
within-same a b x h = ground arith

delay-delay :
    (debounce max_delay : ℤ)
    → Le (pos 1) debounce
    → let m = if ltb_ℤ max_delay debounce then five_times debounce else max_delay in
      (if ltb_ℤ m debounce then five_times debounce else m) ≡ m
delay-delay debounce max_delay h =
    within-same debounce _ (five_times debounce) (delay-Le debounce max_delay h)

normalise-normalise :
    (o : Outside) (c : Config)
    → Le (pos 1) c.persist.debounce
    → normalise o (normalise o c) ≡ normalise o c
unfolding normalise
normalise-normalise o c h =
    let host : Str = elim o.hostname [ none ↦ [] | some n ↦ n ] in
    let a = or_else-or_else host c.node_id in
    let b = or_else-or_else (bytes "/") c.zone.separator in
    let d = or_else-or_else (bytes "exclude") c.zone.missing in
    let e = or_else-or_else (bytes "up") c.slots.anchor_rounding in
    let f = or_else-or_else (bytes "connect") c.probes.tcp.mode in
    let g = delay-delay c.persist.debounce c.persist.max_delay h in
    λ i. record c {
      node_id = a i;
      zone = record c.zone { separator = b i; missing = d i };
      slots = record c.slots { anchor_rounding = e i };
      probes = record c.probes { tcp = record c.probes.tcp { mode = f i } };
      persist = record c.persist { max_delay = g i };
    }

-- An accepted configuration names the node, enables a provider and a kind of probe, and has a zone key,
-- none of which is empty. Its numbers of pairings, slots and series and its debounce time are
-- positive, the longest delay of a write is not below the debounce time, and the window of the probes
-- is not shorter than their positive cycle. Each kind of probe that is enabled has a count and a
-- time-out above 0, a payload of 8 bytes at least, no negative interval, and a port in the range of
-- ports where it has one.
pub parse-IsReady :
    (o : Outside) (c d : Config)
    → parse o c ≡ accepted d
    → IsReady d × Le d.persist.debounce d.persist.max_delay
unfolding parse normalise
parse-IsReady o c d e =
    let (passed, same) = parse_accepted o c d e in
    let ready : IsReady (normalise o c) = validate-IsReady o (normalise o c) passed in
    subst (λ x. IsReady x × Le x.persist.debounce x.persist.max_delay) same
      (ready, delay-Le c.persist.debounce c.persist.max_delay ready.debounce)

-- An accepted configuration stays as it is when it is filled in again.
pub normalise-parse : (o : Outside) (c d : Config) → parse o c ≡ accepted d → normalise o d ≡ d
unfolding normalise
normalise-parse o c d e =
    let (passed, same) = parse_accepted o c d e in
    let ready : IsReady (normalise o c) = validate-IsReady o (normalise o c) passed in
    subst (λ x. normalise o x ≡ x) same (normalise-normalise o c ready.debounce)
