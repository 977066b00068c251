-- ===== src/Responder/Laws.antt =====
-- internal/responder/responder.go: what a reply is.
use network_mesh_exporter.Base.{
  ℕ, ◌+◌, ◌^◌, ◌≤◌, ◌<◌, ◌≡◌, ◌⊎◌, refl, inl, inr, Bool, List, [], ◌∷◌, none, some, length, drop,
  arith, All, All-drop, sym, ap, ◌∙◌, subst,
}
use network_mesh_exporter.Base.Int.{ℤ}
use network_mesh_exporter.Probe.Header.{
  Header, Error, Result, ok, err, decode_header, magic, uint32,
}
use network_mesh_exporter.Probe.Header.Laws.{IsInt64, decode-encode_header_prefix}
use network_mesh_exporter.Responder.{Stats, stamp, serve_packet}

-- A reply to a payload: as long, the same behind the header, and with the header of the payload but
-- for the time, which is `now`.
pub record IsReply (now : ℤ) (h : Header) (buf out : List ℕ) : Type 0 where
  pub same_length : length out ≡ length buf
  pub same_rest : drop 16 out ≡ drop 16 buf
  pub stamped : decode_header out ≡ ok (record h { send_nanos = now })

uint32-lt : (bs : List ℕ) → All (λ b. b < 256) bs → uint32 bs < 2 ^ 32
uint32-lt [] h = omega arith
uint32-lt (a ∷ []) h = omega arith
uint32-lt (a ∷ b ∷ []) h = omega arith
uint32-lt (a ∷ b ∷ c ∷ []) h = omega arith
uint32-lt (a ∷ b ∷ c ∷ d ∷ r) h = omega arith

Result-cases {ℓ} :
    {A : Type ℓ} (r : Result A) → ((e : Error) × (r ≡ err e)) ⊎ ((a : A) × (r ≡ ok a))
Result-cases (err e) = inl (e, refl)
Result-cases (ok a) = inr (a, refl)

-- What a payload that decodes is.
decoded :
    (buf : List ℕ) {h : Header}
    → All (λ b. b < 256) buf
    → decode_header buf ≡ ok h
    → (16 ≤ length buf) × (h.magic ≡ magic) × (h.seq < 2 ^ 32)
unfolding decode_header
decoded buf {h} b e = ground (arith, uint32-lt (drop 4 buf) (All-drop (λ b. b < 256) 4 buf b))

stamp-IsReply :
    (now : ℤ) (buf : List ℕ) {h : Header}
    → All (λ b. b < 256) buf
    → IsInt64 now
    → decode_header buf ≡ ok h
    → IsReply now h buf (stamp now buf h)
unfolding stamp
stamp-IsReply now buf {h} b i e =
    let (long, m, s) = decoded buf {h = h} b e in
    let stamped : Header = record { magic = []; seq = h.seq; send_nanos = now } in
    let (out, enc, dec, len, rest) = decode-encode_header_prefix buf stamped long s i in
    let step : stamp now buf h ≡ out = ground arith in
    let same : ◌≡◌ {A = Header} (record stamped { magic = magic }) (record h { send_nanos = now }) =
      ap (λ k. record h { magic = k; send_nanos = now }) (sym m) in
    subst (λ (r : List ℕ). IsReply now h buf r) (sym step)
      (record { same_length = len; same_rest = rest; stamped = dec ∙ ap (λ k. ok k) same })

-- The UDP listener answers a packet exactly when its header decodes, with a packet of the same length
-- that differs from it in the time of the header only, and counts the others as rejected.
pub serve_packet_lem :
    (now : ℤ) (sent : Bool) (buf : List ℕ) (s : Stats)
    → All (λ b. b < 256) buf
    → IsInt64 now
    → ((h : Header) × (out : List ℕ) × (decode_header buf ≡ ok h)
        × ((serve_packet now sent buf s).1 ≡ some out)
        × IsReply now h buf out)
      ⊎ ((e : Error) × (decode_header buf ≡ err e)
          × (serve_packet now sent buf s ≡ (record s { udp_rejected = s.udp_rejected + 1 }, none)))
unfolding serve_packet
serve_packet_lem now sent buf s b i = elim (Result-cases (decode_header buf)) [
  | inl (e, r) ↦ inr (e, r, ground arith)
  | inr (h, r) ↦ inl (h, stamp now buf h, r, ground arith, stamp-IsReply now buf {h = h} b i r)
]
