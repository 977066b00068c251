-- ===== src/Probe/Header.antt =====
-- internal/probe/probe.go and internal/probe/header.go: the header of a UDP or TCP payload. A buffer is
-- a list of bytes; a function that writes to a buffer returns it.
pub mod Laws
use network_mesh_exporter.Base.{
  ℕ, suc, zero, ◌+◌, ◌-◌, ◌*◌, ◌/◌, ◌%◌, ◌^◌, Bool, false, true, not, List, [], ◌∷◌, ◌++◌, Option,
  none, some, length, take, drop, if◌then◌else◌, ltb,
}
use network_mesh_exporter.Base.Int.{ℤ, pos, negsuc}
use network_mesh_exporter.Base.Str.{Str, ◌==◌}

-- `Magic`, the bytes of "mesh".
abbrev pub magic : List ℕ
magic = 0x6d ∷ 0x65 ∷ 0x73 ∷ 0x68 ∷ []

abbrev pub header_size : ℕ
header_size = 16

-- `Seq` is a uint32 and `SendNanos` an int64.
pub record Header : Type 0 where
  pub magic : List ℕ
  pub seq : ℕ
  pub send_nanos : ℤ

-- The conversions `uint64(x)` and `int64(x)`.
abbrev pub to_uint64 : ℤ → ℕ
to_uint64 (pos n) = n % 2 ^ 64
to_uint64 (negsuc n) = 2 ^ 64 - 1 - n % 2 ^ 64

abbrev pub to_int64 : ℕ → ℤ
to_int64 u = if ltb u (2 ^ 63) then pos u else negsuc (2 ^ 64 - 1 - u)

-- `binary.BigEndian.PutUint32` and `PutUint64`.
abbrev pub put_uint32 : ℕ → List ℕ
put_uint32 v = v / 2 ^ 24 % 256 ∷ v / 2 ^ 16 % 256 ∷ v / 2 ^ 8 % 256 ∷ v % 256 ∷ []

abbrev pub put_uint64 : ℕ → List ℕ
put_uint64 v = put_uint32 (v / 2 ^ 32 % 2 ^ 32) ++ put_uint32 (v % 2 ^ 32)

-- `binary.BigEndian.Uint32` and `Uint64`, on the first bytes of a list.
abbrev pub uint32 : List ℕ → ℕ
uint32 (a ∷ b ∷ c ∷ d ∷ _) = a * 2 ^ 24 + b * 2 ^ 16 + c * 2 ^ 8 + d
uint32 _ = 0

abbrev pub uint64 : List ℕ → ℕ
uint64 bs = uint32 bs * 2 ^ 32 + uint32 (drop 4 bs)

-- The bytes `byte(i)` from `i` on.
unfoldable pub padding : ℕ → ℕ → List ℕ
padding zero i = []
padding (suc n) i = i % 256 ∷ padding n (suc i)

pub data Error : Type 0 where
  below_header short_buffer short_payload bad_magic : Error

pub data Result {ℓ} (A : Type ℓ) : Type ℓ where
  ok : A → Result A
  err : Error → Result A

abbrev pub header_bytes : Header → List ℕ
header_bytes h = magic ++ (put_uint32 h.seq ++ put_uint64 (to_uint64 h.send_nanos))

-- `EncodeHeader`, for a payload of `n` bytes.
unfoldable pub encode_header : List ℕ → Header → ℕ → Result (List ℕ)
encode_header buf h n =
    if ltb n header_size
    then err below_header
    else if ltb (length buf) n
    then err short_buffer
    else ok (header_bytes h ++ (padding (n - header_size) header_size ++ drop n buf))

-- `DecodeHeader`.
unfoldable pub decode_header : List ℕ → Result Header
decode_header buf =
    if ltb (length buf) header_size
    then err short_payload
    else if not (take 4 buf == magic)
    then err bad_magic
    else ok (record {
      magic = take 4 buf;
      seq = uint32 (drop 4 buf);
      send_nanos = to_int64 (uint64 (drop 8 buf));
    })

-- `EncodeHeaderPrefix`.
unfoldable pub encode_header_prefix : List ℕ → Header → Result (List ℕ)
encode_header_prefix buf h =
    if ltb (length buf) header_size
    then err short_buffer
    else ok (header_bytes h ++ drop header_size buf)
