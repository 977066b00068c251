-- ===== src/Responder.antt =====
-- internal/responder/responder.go: what the echo listeners do with one packet and with one
-- connection. Sockets, the context and the accept loops are left out: a packet is its bytes, a
-- connection the outcomes of its reads and writes.
pub mod Laws
use network_mesh_exporter.Base.{
  ℕ, ◌+◌, Bool, false, true, not, List, [], ◌∷◌, ◌++◌, Option, none, some, length, if◌then◌else◌,
  eqb,
}
use network_mesh_exporter.Base.Int.{ℤ}
use network_mesh_exporter.Probe.Header.{
  Header, Result, ok, err, decode_header, encode_header_prefix, magic,
}

-- The counters, which are uint64; 2 ^ 64 packets are not reached.
pub record Stats : Type 0 where
  pub udp_packets : ℕ
  pub udp_rejected : ℕ
  pub tcp_conns : ℕ
  pub tcp_rejected : ℕ

-- `stamp`, at the time `now`; the error of the encoder is ignored.
unfoldable pub stamp : ℤ → List ℕ → Header → List ℕ
stamp now buf h =
    elim (encode_header_prefix buf (record { magic = []; seq = h.seq; send_nanos = now })) [
      | ok out ↦ out
      | err _ ↦ buf
    ]

-- What the loop of `serveUDP` does with a packet: the reply that it sends. `sent` is whether the write
-- of the reply succeeds.
unfoldable pub serve_packet : ℤ → Bool → List ℕ → Stats → Stats × Option (List ℕ)
serve_packet now sent buf s = elim (decode_header buf) [
  | err _ ↦ (record s { udp_rejected = s.udp_rejected + 1 }, none)
  | ok h ↦
      (if sent then record s { udp_packets = s.udp_packets + 1 } else s, some (stamp now buf h))
]

-- One round of `handleConn`: the bytes that are read, and whether the read, the two deadlines and the
-- write fail.
pub record Round : Type 0 where
  pub now : ℤ
  pub bytes : List ℕ
  pub read_fails : Bool
  pub read_deadline_fails : Bool
  pub write_deadline_fails : Bool
  pub write_fails : Bool

-- `handleConn`, over the rounds until the context is cancelled: the replies, and the number of
-- rejections to count.
unfoldable pub handle_conn : List Round → List (List ℕ) × ℕ
handle_conn [] = ([], 0)
handle_conn (r ∷ rs) =
    let rest : List (List ℕ) × ℕ = if r.read_fails then ([], 0) else handle_conn rs in
    if r.read_deadline_fails
    then ([], 0)
    else if eqb (length r.bytes) 0
    then rest
    else elim (decode_header r.bytes) [
      | err _ ↦ ([], 1)
      | ok h ↦
          if r.write_deadline_fails
          then ([], 0)
          else if r.write_fails
          then ([], 0)
          else (stamp r.now r.bytes h ∷ rest.0, rest.1)
    ]

-- What accepting a connection and handling it does to the counters.
unfoldable pub serve_conn : List Round → Stats → Stats
serve_conn rs s = record s {
  tcp_conns = s.tcp_conns + 1;
  tcp_rejected = s.tcp_rejected + (handle_conn rs).1;
}
