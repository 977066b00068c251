-- ===== src/Probe.antt =====
-- internal/probe/probe.go: what a probe is given and what it yields. A round trip time is a number of
-- nanoseconds; the clock that measures it is monotonic.
pub mod Header
pub mod Icmp
pub mod Window
use network_mesh_exporter.Base.{
  ℕ, Bool, false, true, List, [], ◌∷◌, ◌++◌, Option, none, some, if◌then◌else◌, ltb,
}
use network_mesh_exporter.Base.Int.{ℤ}
use network_mesh_exporter.Base.Str.{Str}
use network_mesh_exporter.PingProto.{
  ErrClass, err_none, err_timeout, err_resolve, err_unreachable, err_refused, err_permission,
  err_internal,
}

pub data Kind : Type 0 where
  icmp udp tcp : Kind

pub record Target : Type 0 where
  pub host_id : Str
  pub address : Str
  pub port : ℤ

pub record Params : Type 0 where
  pub kind : Kind
  pub count : ℤ
  pub interval : ℤ
  pub timeout : ℤ
  pub payload_bytes : ℤ
  pub port : ℤ
  pub mode : Str
  pub ttl : ℤ
  pub df : Bool

-- What `errors.As` and `errors.Is` say of an error: a `net.DNSError`, a `net.Error` that timed out, and
-- the error numbers.
pub record Failure : Type 0 where
  pub dns : Bool
  pub timeout : Bool
  pub refused : Bool
  pub unreachable : Bool
  pub denied : Bool

unfoldable pub classify : Option Failure → ErrClass
classify none = err_none
classify (some e) =
    if e.dns
    then err_resolve
    else if e.timeout
    then err_timeout
    else if e.refused
    then err_refused
    else if e.unreachable
    then err_unreachable
    else if e.denied
    then err_permission
    else err_internal

-- A cycle, where a count is not negative.
pub record Cycle : Type 0 where
  pub kind : Kind
  pub target : Target
  pub started_at : ℕ
  pub sent : ℕ
  pub received : ℕ
  pub lost : ℕ
  pub reordered : ℕ
  pub rtt : List ℕ
  pub connect_rtt : List ℕ
  pub err : Option Failure
  pub err_class : ErrClass

-- `Cycle.OK`.
abbrev pub is_ok : Cycle → Bool
is_ok c = ltb 0 c.received
