-- ===== src/Metrics.antt =====
-- internal/metrics/metrics.go: the series limit. The metric vectors of the prometheus library are a
-- parameter, and so is `strconv.Itoa`. A set (`map[string]bool`) is a list.
pub mod Series
pub mod Limit
use network_mesh_exporter.Base.{
  ℕ, suc, ◌+◌, Bool, false, true, not, ◌&&◌, List, [], ◌∷◌, ◌++◌, keep, length, if◌then◌else◌, ltb,
  leb,
}
use network_mesh_exporter.Base.Str.{Str, ◌==◌, bytes}
use network_mesh_exporter.Base.Strs.{contains}
use network_mesh_exporter.Probe.{Kind, icmp, udp, tcp, Cycle}
use network_mesh_exporter.Probe.Window.{Stats}
use network_mesh_exporter.Runner.{Task}
use network_mesh_exporter.Runner.Apply.{Sink}
use network_mesh_exporter.Slot.{
  Class, anchor, diverse, super, other, Rank, unfilled, unique, min_use, any,
}

-- `probeLabels`, with their values.
pub record Labels : Type 0 where
  pub zone_src : Str
  pub zone_dst : Str
  pub host_src : Str
  pub host_dst : Str
  pub slot : Str
  pub class : Str
  pub reuse_rank : Str
  pub probe : Str

-- The library: what `Observe` writes to the vectors, and what `Forget` deletes from them.
pub record Vecs (V : Type 0) : Type 0 where
  pub itoa : ℕ → Str
  pub write : Labels → Cycle → Stats → V → V
  pub delete : Labels → V → V

-- `Registry`; `max_series` is 0 where the configured number is not positive.
pub record Registry (V : Type 0) : Type 0 where
  pub max_series : ℕ
  pub seen : List Str
  pub series_count : ℕ
  pub series_dropped : ℕ
  pub vecs : V

unfoldable pub class_text : Class → Str
class_text anchor = bytes "anchor"
class_text diverse = bytes "diverse"
class_text super = bytes "super"
class_text (other s) = s

unfoldable pub rank_number : Rank → ℕ
rank_number unfilled = 0
rank_number unique = 1
rank_number min_use = 2
rank_number any = 3

unfoldable pub kind_text : Kind → Str
kind_text icmp = bytes "icmp"
kind_text udp = bytes "udp"
kind_text tcp = bytes "tcp"

unfoldable pub label_key : Labels → Str
label_key l =
    l.zone_src
    ++ (bytes "|"
        ++ (l.zone_dst
            ++ (bytes "|"
                ++ (l.host_src
                    ++ (bytes "|"
                        ++ (l.host_dst
                            ++ (bytes "|"
                                ++ (l.slot
                                    ++ (bytes "|"
                                        ++ (l.class
                                            ++ (bytes "|"
                                                ++ (l.reuse_rank
                                                    ++ (bytes "|" ++ l.probe)))))))))))))

unfoldable pub new_registry : {V : Type 0} → ℕ → V → Registry V
new_registry max v = record {
  max_series = max;
  seen = [];
  series_count = 0;
  series_dropped = 0;
  vecs = v;
}

module _ {V : Type 0} (lib : Vecs V) where
  unfoldable pub labels_for : Task → Labels
  labels_for t = record {
    zone_src = t.zone_src;
    zone_dst = t.zone_dst;
    host_src = t.src.host_id;
    host_dst = t.dst.host_id;
    slot = lib.itoa t.key.slot;
    class = class_text t.class;
    reuse_rank = lib.itoa (rank_number t.rank);
    probe = kind_text t.key.kind;
  }

  -- Whether the sample may be recorded, and the registry that is left.
  unfoldable pub admit : Str → Registry V → Bool × Registry V
  admit key r =
      if contains key r.seen
      then (true, r)
      else if ltb 0 r.max_series && leb r.max_series (length r.seen)
      then (false, r)
      else (true, record r { seen = key ∷ r.seen; series_count = suc (length r.seen) })

  unfoldable pub observe : Task → Cycle → Stats → Registry V → Registry V
  unfolding admit
  observe t c st r =
      let l = labels_for t in
      let out = admit (label_key l) r in
      if out.0
      then record (out.1) { vecs = lib.write l c st (out.1).vecs }
      else record (out.1) { series_dropped = (out.1).series_dropped + 1 }

  unfoldable pub forget : Task → Registry V → Registry V
  forget t r =
      let l = labels_for t in
      let left = keep (λ k. not (k == label_key l)) r.seen in
      record r { seen = left; series_count = length left; vecs = lib.delete l r.vecs }

  -- The registry as the sink of the runner.
  unfoldable pub sink : Sink (Registry V)
  unfolding observe forget
  sink = record { observe = observe; forget = forget }
