-- ===== src/Tests/Probes.antt =====
-- Examples on internal/probe/probe.go and internal/responder/responder.go.
use network_mesh_exporter.Base.{
  ℕ, ◌≡◌, ◌≤◌, ◌-◌, ◌+◌, true, List, [], ◌∷◌, none, some, arith, All, ◌⊎◌, length, drop,
}
use network_mesh_exporter.Base.Int.{pos}
use network_mesh_exporter.Base.Str.{bytes}
use network_mesh_exporter.PingProto.{err_none}
use network_mesh_exporter.Probe.{Cycle, udp}
use network_mesh_exporter.Probe.Header.{Header, ok, err, Error, magic, encode_header, decode_header}
use network_mesh_exporter.Probe.Header.Laws.{decode-encode_header}
use network_mesh_exporter.Probe.Window.{Entry, Stats, Float64, new_window, add, measured, stats}
use network_mesh_exporter.Probe.Window.Bounds.{IsWithin, measured-IsWithin}
use network_mesh_exporter.Probe.Window.Fresh.{IsFresh, at_start, measured_cycle}
use network_mesh_exporter.Probe.Window.Fresh.Reads.{in_date, stats-IsFresh}
use network_mesh_exporter.Responder.{serve_packet}
use network_mesh_exporter.Responder
use network_mesh_exporter.Responder.Laws.{IsReply, serve_packet_lem}

abbrev fl : Float64
fl = record { ratio = λ a b. 0; rank = λ q n. pos 0 }

abbrev cycle : Cycle
cycle = record {
  kind = udp;
  target = record { host_id = bytes "b1"; address = bytes "b1"; port = pos 9 };
  started_at = 100;
  sent = 3;
  received = 2;
  lost = 1;
  reordered = 0;
  rtt = 7 ∷ 5 ∷ [];
  connect_rtt = [];
  err = none;
  err_class = err_none;
}

stats-IsFresh_example :
    let w = add 105 cycle (new_window 60) in
    ((stats fl 130 [] w).0 ≡ (stats fl 130 [] (in_date 130 w)).0)
    × ((stats fl 130 [] w).0.samples ≡ length (in_date 130 w).samples)
    × ((stats fl 130 [] w).1 ≡ in_date 130 w)
    × IsFresh 130 (in_date 130 w)
unfolding new_window
stats-IsFresh_example =
    stats-IsFresh fl 100 130 [] (add 105 cycle (new_window 60))
      (measured_cycle 0 105 cycle (new_window 60) (at_start 60) (omega arith))

abbrev entry : ℕ → Entry
entry rtt = record { at = 100; rtt = rtt; connect = none }

abbrev no_stats : Stats
no_stats = record {
  samples = 2;
  sent = 3;
  received = 2;
  lost = 1;
  reordered = 0;
  loss_ratio = 0;
  min = 0;
  max = 0;
  mean = 0;
  jitter = 0;
  percentiles = λ x. none;
  connect_mean = 0;
  last_success = 100;
  errors = λ x. 0;
}

abbrev reported : Stats
reported = measured fl [] (entry 7) (entry 5 ∷ []) no_stats

measured-IsWithin_example :
    All (IsWithin reported.min reported.max) (entry 7 ∷ entry 5 ∷ [])
    × (reported.min ≤ reported.mean)
    × (reported.mean ≤ reported.max)
    × (reported.jitter ≤ reported.max - reported.min)
measured-IsWithin_example = measured-IsWithin fl [] (entry 7) (entry 5 ∷ []) no_stats

abbrev header : Header
header = record { magic = []; seq = 7; send_nanos = pos 1000 }

abbrev buffer : List ℕ
buffer = 0 ∷ 0 ∷ 0 ∷ 0 ∷ 0 ∷ 0 ∷ 0 ∷ 0 ∷ 0 ∷ 0 ∷ 0 ∷ 0 ∷ 0 ∷ 0 ∷ 0 ∷ 0 ∷ 1 ∷ 2 ∷ []

decode-encode_header_example :
    (out : List ℕ) × (encode_header buffer header 17 ≡ ok out)
    × (decode_header out ≡ ok (record header { magic = magic }))
    × (length out ≡ length buffer)
    × (drop 17 out ≡ drop 17 buffer)
decode-encode_header_example =
    decode-encode_header buffer header 17 (omega arith) (omega arith) (omega arith) (omega arith)

abbrev counters : Responder.Stats
counters = record { udp_packets = 0; udp_rejected = 0; tcp_conns = 0; tcp_rejected = 0 }

-- A packet without the magic value.
serve_packet_lem_example :
    ((h : Header) × (out : List ℕ) × (decode_header buffer ≡ ok h)
      × ((serve_packet (pos 5) true buffer counters).1 ≡ some out)
      × IsReply (pos 5) h buffer out)
    ⊎ ((e : Error) × (decode_header buffer ≡ err e)
        × (serve_packet (pos 5) true buffer counters
            ≡ (record counters { udp_rejected = 0 + 1 }, none)))
serve_packet_lem_example =
    serve_packet_lem (pos 5) true buffer counters (ground arith) (omega arith)
