-- ===== src/Probe/Header/Laws.antt =====
-- internal/probe/probe.go: a header that is written is read back.
use network_mesh_exporter.Base.{
  ℕ, suc, zero, ◌+◌, ◌-◌, ◌*◌, ◌/◌, ◌%◌, ◌^◌, ◌≤◌, ◌<◌, ◌≡◌, refl, ap, ◌∙◌, false, List, ◌++◌,
  length, drop, ltb, arith, length-append, length-drop, drop-append, length-drop, drop-append,
}
use network_mesh_exporter.Base.Int.{ℤ, pos, negsuc}
use network_mesh_exporter.Base.Str.{str_dec}
use network_mesh_exporter.Probe.Header.{
  Header, ok, magic, to_uint64, to_int64, uint32, uint64, put_uint32, put_uint64, padding,
  header_bytes, encode_header, decode_header, encode_header_prefix,
}

uint32-put : (v : ℕ) (rest : List ℕ) → v < 2 ^ 32 → uint32 (put_uint32 v ++ rest) ≡ v
uint32-put v rest h = omega arith

uint64-put : (v : ℕ) (rest : List ℕ) → v < 2 ^ 64 → uint64 (put_uint64 v ++ rest) ≡ v
uint64-put v rest h =
    let hi : ℕ = v / 2 ^ 32 % 2 ^ 32 in
    let lo : ℕ = v % 2 ^ 32 in
    let a : uint32 (put_uint32 hi ++ (put_uint32 lo ++ rest)) ≡ hi =
      uint32-put hi (put_uint32 lo ++ rest) (omega arith) in
    let b : uint32 (put_uint32 lo ++ rest) ≡ lo = uint32-put lo rest (omega arith) in
    ap (λ (x : ℕ). x * 2 ^ 32 + uint32 (put_uint32 lo ++ rest)) a
    ∙ (ap (λ (y : ℕ). hi * 2 ^ 32 + y) b ∙ omega arith)

-- The numbers that an int64 holds.
abbrev pub IsInt64 : ℤ → Type 0
IsInt64 (pos n) = n < 2 ^ 63
IsInt64 (negsuc n) = n < 2 ^ 63

to_int64-to_uint64 : (x : ℤ) → IsInt64 x → to_int64 (to_uint64 x) ≡ x
to_int64-to_uint64 (pos n) h = ground arith
to_int64-to_uint64 (negsuc n) h = ground arith

to_uint64-lt : (x : ℤ) → to_uint64 x < 2 ^ 64
to_uint64-lt (pos n) = omega arith
to_uint64-lt (negsuc n) = omega arith

-- What is read from the bytes of a header, whatever follows them.
decode-header_bytes :
    (h : Header) (rest : List ℕ)
    → h.seq < 2 ^ 32
    → IsInt64 h.send_nanos
    → decode_header (header_bytes h ++ rest) ≡ ok (record h { magic = magic })
unfolding decode_header str_dec
decode-header_bytes h rest s n =
    let body : List ℕ = put_uint64 (to_uint64 h.send_nanos) ++ rest in
    let seq : uint32 (put_uint32 h.seq ++ body) ≡ h.seq = uint32-put h.seq body s in
    let nanos : to_int64 (uint64 body) ≡ h.send_nanos =
      ap to_int64 (uint64-put (to_uint64 h.send_nanos) rest (to_uint64-lt h.send_nanos))
      ∙ to_int64-to_uint64 h.send_nanos n in
    let long : ltb (length (header_bytes h ++ rest)) 16 ≡ false = ground arith in
    let shape : decode_header (header_bytes h ++ rest)
        ≡ ok (record {
          magic = magic;
          seq = uint32 (put_uint32 h.seq ++ body);
          send_nanos = to_int64 (uint64 body);
        }) =
      rw long refl in
    shape
    ∙ (ap (λ k. ok (record { magic = magic; seq = k; send_nanos = to_int64 (uint64 body) })) seq
        ∙ ap (λ k. ok (record { magic = magic; seq = h.seq; send_nanos = k })) nanos)

length-padding : (n i : ℕ) → length (padding n i) ≡ n
unfolding padding
length-padding zero i = refl
length-padding (suc n) i = ap suc (length-padding n (suc i))

-- A payload of at least 16 bytes that fits the buffer is written, and the header is read back from it
-- with the magic value; the buffer keeps its length and what it holds behind the payload.
pub decode-encode_header :
    (buf : List ℕ) (h : Header) (n : ℕ)
    → 16 ≤ n
    → n ≤ length buf
    → h.seq < 2 ^ 32
    → IsInt64 h.send_nanos
    → (out : List ℕ) × (encode_header buf h n ≡ ok out)
      × (decode_header out ≡ ok (record h { magic = magic }))
      × (length out ≡ length buf)
      × (drop n out ≡ drop n buf)
unfolding encode_header
decode-encode_header buf h n lo hi s i =
    let pad : List ℕ = padding (n - 16) 16 in
    let tail : List ℕ = pad ++ drop n buf in
    (
      header_bytes h ++ tail,
      ground arith,
      decode-header_bytes h tail s i,
      omega (arith, length-append pad (drop n buf), length-padding (n - 16) 16, length-drop n buf),
      drop-append n (header_bytes h ++ pad) (drop n buf)
          (omega (arith, length-padding (n - 16) 16)),
    )

-- Writing a header over a buffer that holds one keeps the length and all bytes behind the header, and
-- the new header is read back.
pub decode-encode_header_prefix :
    (buf : List ℕ) (h : Header)
    → 16 ≤ length buf
    → h.seq < 2 ^ 32
    → IsInt64 h.send_nanos
    → (out : List ℕ) × (encode_header_prefix buf h ≡ ok out)
      × (decode_header out ≡ ok (record h { magic = magic }))
      × (length out ≡ length buf)
      × (drop 16 out ≡ drop 16 buf)
unfolding encode_header_prefix
decode-encode_header_prefix buf h lo s i = (
  header_bytes h ++ drop 16 buf,
  ground arith,
  decode-header_bytes h (drop 16 buf) s i,
  omega (arith, length-drop 16 buf),
  refl,
)
