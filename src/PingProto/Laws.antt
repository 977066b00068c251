-- ===== src/PingProto/Laws.antt =====
-- pkg/pingproto/proto.go: which requests are valid.
use network_mesh_exporter.Base.{
  ℕ, ◌≤◌, ◌≡◌, ◌≢◌, ◌↔◌, refl, Bool, false, not, keep, length, eqb, List, [], ◌∷◌, Option, none,
  some, arith,
}
use network_mesh_exporter.Base.Int.{ℤ, pos, negsuc}
use network_mesh_exporter.Base.Str.{Str}
use network_mesh_exporter.PingProto.{
  Request, outside, validate, Envelope, End, Next, message, bad_line, ended, next_line,
}

-- The value is a number of the range.
abbrev pub Within : ℕ → ℕ → ℤ → Type 0
Within lo hi x = (n : ℕ) × (x ≡ pos n) × (lo ≤ n) × (n ≤ hi)

pub record InRange (r : Request) : Type 0 where
  pub id : r.id ≢ []
  pub target : r.target ≢ []
  pub count : Within 1 1000 r.count
  pub interval : Within 0 60000 r.interval_ms
  pub timeout : Within 1 60000 r.timeout_ms
  pub payload : Within 8 65000 r.payload_bytes
  pub ttl : Within 0 255 r.ttl

outside-Within : (lo hi : ℕ) (x : ℤ) → outside (pos lo) (pos hi) x ≡ false → Within lo hi x
outside-Within lo hi (pos n) h = (n, refl, ground arith, ground arith)
outside-Within lo hi (negsuc n) h = ground arith

inside : (lo hi : ℕ) (x : ℤ) → Within lo hi x → outside (pos lo) (pos hi) x ≡ false
inside lo hi x (n, e, a, b) = rw e (ground arith)

-- A request passes exactly when its ID and its target are not empty and its numbers lie in the ranges.
pub validate-eq-none_iff : (r : Request) → (validate r ≡ none) ↔ InRange r
unfolding validate
validate-eq-none_iff r = (
  λ v. record {
    id = ground arith;
    target = ground arith;
    count = outside-Within 1 1000 r.count (ground arith);
    interval = outside-Within 0 60000 r.interval_ms (ground arith);
    timeout = outside-Within 1 60000 r.timeout_ms (ground arith);
    payload = outside-Within 8 65000 r.payload_bytes (ground arith);
    ttl = outside-Within 0 255 r.ttl (ground arith);
  },
  λ v. ground (
    arith,
    inside 1 1000 r.count v.count,
    inside 0 60000 r.interval_ms v.interval,
    inside 1 60000 r.timeout_ms v.timeout,
    inside 8 65000 r.payload_bytes v.payload,
    inside 0 255 r.ttl v.ttl,
  ),
)

-- What a line that is not empty reads as.
abbrev read_line : (Str → Option Envelope) → Str → Next
read_line decode line = elim (decode line) [ none ↦ bad_line line | some env ↦ message line env ]

-- What the first of some lines reads as, and the lines after it.
abbrev read_first : (Str → Option Envelope) → End → List Str → Next × List Str
read_first decode e [] = (ended e, [])
read_first decode e (line ∷ lines) = (read_line decode line, lines)

abbrev full : Str → Bool
full line = not (eqb (length line) 0)

-- `Next` reads the first line that is not empty, and where there is none it reports how the stream
-- ended; the lines that are left hold the further lines that are not empty.
pub next-keep :
    (decode : Str → Option Envelope) (e : End) (lines : List Str)
    → ((next_line decode e lines).0, keep full (next_line decode e lines).1)
      ≡ read_first decode e (keep full lines)
unfolding next_line
next-keep decode e [] = refl
next-keep decode e (line ∷ lines) = ground (arith, next-keep decode e lines)
