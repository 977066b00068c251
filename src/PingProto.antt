-- ===== src/PingProto.antt =====
-- pkg/pingproto/proto.go: the messages between meshd and the helper meshping, the bounds of a
-- request, and the reading of one line. JSON is a parameter, as `bufio.Scanner` is: what it yields is
-- a list of lines, and the error with which it ends.
pub mod Laws
use network_mesh_exporter.Base.{
  ℕ, Bool, false, true, ◌&&◌, ◌||◌, List, [], ◌∷◌, Option, none, some, if◌then◌else◌, ltb, eqb,
  length,
}
use network_mesh_exporter.Base.Int.{ℤ, pos, ltb_ℤ}
use network_mesh_exporter.Base.Str.{Str, ◌==◌}

-- `MsgType`; any other string is `other_type`.
pub data MsgType : Type 0 where
  hello ping result cancel error shutdown : MsgType
  other_type : Str → MsgType

-- `ErrClass`; the empty string is `err_none`.
pub data ErrClass : Type 0 where
  err_none err_timeout err_resolve err_unreachable err_refused err_permission err_internal :
      ErrClass

pub record Request : Type 0 where
  pub id : Str
  pub target : Str
  pub count : ℤ
  pub interval_ms : ℤ
  pub payload_bytes : ℤ
  pub timeout_ms : ℤ
  pub ttl : ℤ
  pub df : Bool
  pub ipv6 : Bool

pub data Error : Type 0 where
  empty_id empty_target bad_count bad_interval bad_timeout bad_payload bad_ttl : Error

-- `x < lo || x > hi`.
abbrev pub outside : ℤ → ℤ → ℤ → Bool
outside lo hi x = ltb_ℤ x lo || ltb_ℤ hi x

-- `Request.Validate`; no error is `none`. `x <= 0` is `x < 1`.
unfoldable pub validate : Request → Option Error
validate r =
    if r.id == []
    then some empty_id
    else if r.target == []
    then some empty_target
    else if outside (pos 1) (pos 1000) r.count
    then some bad_count
    else if outside (pos 0) (pos 60000) r.interval_ms
    then some bad_interval
    else if outside (pos 1) (pos 60000) r.timeout_ms
    then some bad_timeout
    else if outside (pos 8) (pos 65000) r.payload_bytes
    then some bad_payload
    else if outside (pos 0) (pos 255) r.ttl
    then some bad_ttl
    else none

pub record Envelope : Type 0 where
  pub type : MsgType
  pub id : Str

-- How the scanner ends: at the end of the stream, at a line above the bound, or with another error.
pub data End : Type 0 where
  eof too_long failed : End

-- The lines that a scanner still yields, without their ends, and how it ends.
pub record Scanner : Type 0 where
  pub lines : List Str
  pub end : End

pub data Next : Type 0 where
  message : Str → Envelope → Next
  bad_line : Str → Next
  ended : End → Next

-- The loop of `Decoder.Next`, over the lines that are left.
unfoldable pub next_line : (Str → Option Envelope) → End → List Str → Next × List Str
next_line decode e [] = (ended e, [])
next_line decode e (line ∷ lines) =
    let rest = next_line decode e lines in
    if eqb (length line) 0
    then rest
    else elim (decode line) [ none ↦ (bad_line line, lines) | some env ↦ (message line env, lines) ]

-- `Decoder.Next`, where `decode` is `json.Unmarshal` into an envelope.
unfoldable pub next : (Str → Option Envelope) → Scanner → Next × Scanner
next decode s = let (n, lines) = next_line decode s.end s.lines in (n, record s { lines = lines })
