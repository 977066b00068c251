-- ===== src/Probe/Icmp.antt =====
-- internal/probe/icmp/client.go: the requests of the ICMP client and the messages of its helper. A
-- waiter is named by the number of its request, and what was sent on its channel is in `inbox`. The
-- number of a request is written by `decimal`, for `fmt.Sprintf`; the process, its pipes and the
-- encoder are not modelled, nor is the greeting that is kept for `Priv`.
pub mod Routed
use network_mesh_exporter.Base.{
  ℕ, zero, suc, ◌+◌, ◌-◌, ◌*◌, Bool, false, true, not, ◌||◌, List, [], ◌∷◌, ◌++◌, Option, none,
  some, if◌then◌else◌, eqb, ltb, ◌≡◌,
}
use network_mesh_exporter.Base.Int.{ℤ, pos, negsuc}
use network_mesh_exporter.Base.Map.{Map, lookup, insert, erase}
use network_mesh_exporter.Base.Str.{Str, ◌==◌}
use network_mesh_exporter.Probe.{Failure, Cycle}
use network_mesh_exporter.PingProto.{ErrClass, err_internal}

-- `pingproto.Result`, where a count is not negative.
pub record Result : Type 0 where
  pub id : Str
  pub sent : ℕ
  pub received : ℕ
  pub lost : ℕ
  pub reordered : ℕ
  pub rtt_micros : List ℕ
  pub error : Str
  pub error_class : ErrClass

-- The fields of `pingproto.Hello` that are read here; `Priv` reads the last one.
pub record Hello : Type 0 where
  pub version : Str
  pub permitted : Bool

-- A message that was decoded; none where JSON refuses the rest of it.
pub data Message : Type 0 where
  hello : Option Hello → Message
  result : Option Result → Message
  error : Option (Str × Str × ErrClass) → Message
  other : Message

pub record Client : Type 0 where
  pub waiting : Map ℕ
  pub inbox : ℕ → List Result
  pub seq : ℕ
  pub connected : Bool
  pub available : Bool
  pub fatal : Bool

-- `New`.
unfoldable pub new : Client
new = record {
  waiting = [];
  inbox = λ n. [];
  seq = 0;
  connected = false;
  available = false;
  fatal = false;
}

abbrev pub send_once : Result → List Result → List Result
send_once r [] = r ∷ []
send_once r (s ∷ rs) = s ∷ rs

-- `deliver`, to the waiter of a request.
unfoldable pub deliver : ℕ → Result → (ℕ → List Result) → ℕ → List Result
deliver w r inbox n = if eqb n w then send_once r (inbox n) else inbox n

abbrev pub failed_result : Str → Str → ErrClass → Result
failed_result id text class = record {
  id = id;
  sent = 0;
  received = 0;
  lost = 0;
  reordered = 0;
  rtt_micros = [];
  error = text;
  error_class = class;
}

-- A result for the waiter with its ID, in `readLoop`.
unfoldable pub route : Result → Client → Client
route r c = record c {
  waiting = erase r.id c.waiting;
  inbox = elim (lookup r.id c.waiting) [ none ↦ c.inbox | some w ↦ deliver w r c.inbox ];
}

-- How the loop of `readLoop` goes on: it reads the next message, or it ends with an error.
pub data Goes : Type 0 where
  reads_on refused no_permission bad_version : Goes

-- A round of `readLoop`, with the version of the protocol.
unfoldable pub read_one : Str → Message → Client → Client × Goes
read_one version (hello none) c = (c, refused)
read_one version (hello (some h)) c =
    if not h.permitted
    then (record c { fatal = true }, no_permission)
    else if not (h.version == version)
    then (record c { fatal = true }, bad_version)
    else (record c { available = true }, reads_on)
read_one version (result none) c = (c, reads_on)
read_one version (result (some r)) c = (route r c, reads_on)
read_one version (error none) c = (c, reads_on)
read_one version (error (some (id, text, class))) c =
    (route (failed_result id text class) c, reads_on)
read_one version other c = (c, reads_on)

-- The loop of `failAllWaiters`, with the text of its error.
unfoldable pub fail_each : Str → Map ℕ → (ℕ → List Result) → ℕ → List Result
fail_each text [] inbox = inbox
fail_each text ((id, w) ∷ m) inbox =
    fail_each text m (deliver w (failed_result id text err_internal) inbox)

-- `failAllWaiters`, after `Run` has marked the client as not available.
unfoldable pub fail_all : Str → Client → Client
fail_all text c = record c {
  waiting = [];
  inbox = fail_each text c.waiting c.inbox;
  available = false;
}

-- The start of a session, which sets the encoder.
unfoldable pub connect : Client → Client
connect c = record c { connected = true }

-- The part of `Probe` before the request is sent.
unfoldable pub register : (ℕ → Str) → Client → Client
register decimal c =
    if not c.available
    then c
    else if not c.connected
    then record c { seq = c.seq + 1 }
    else record c { seq = c.seq + 1; waiting = insert (decimal (c.seq + 1)) (c.seq + 1) c.waiting }

-- `abandon`, and what `Probe` does where the request was not sent.
unfoldable pub abandon : Str → Client → Client
abandon id c = record c { waiting = erase id c.waiting }

abbrev durations : List ℕ → List ℕ
durations [] = []
durations (us ∷ rest) = us * 1000 ∷ durations rest

-- An error with a text only.
abbrev plain : Failure
plain = record {
  dns = false;
  timeout = false;
  refused = false;
  unreachable = false;
  denied = false;
}

-- The end of `Probe`, with the result that came.
unfoldable pub complete : Result → Cycle → Cycle
complete r cyc =
    let seen : Cycle = record cyc {
      sent = r.sent;
      received = r.received;
      lost = r.lost;
      reordered = r.reordered;
      rtt = cyc.rtt ++ durations r.rtt_micros;
    } in
    if r.error == [] then seen else record seen { err = some plain; err_class = r.error_class }

-- `backoff`.
abbrev positive_or : ℕ → ℤ → ℕ
positive_or d (pos n) = if eqb n 0 then d else n
positive_or d (negsuc n) = d

unfoldable pub double : ℕ → ℕ → ℕ → ℕ
double zero max d = d
double (suc n) max d = let rest = double n max (2 * d) in if ltb d max then rest else d

unfoldable pub backoff : ℕ → ℤ → ℤ → ℕ
backoff attempt min max =
    let top = positive_or 30000000000 max in
    let d = double (attempt - 1) top (positive_or 1000000000 min) in if ltb top d then top else d

-- The steps of the callers, of the reader and of `Run`.
pub data Reachable (decimal : ℕ → Str) : Client → Type 0 where
  created : Reachable decimal new
  connects : {c : Client} → Reachable decimal c → Reachable decimal (connect c)
  registers : {c : Client} → Reachable decimal c → Reachable decimal (register decimal c)
  reads :
      {c : Client} (version : Str) (m : Message)
      → Reachable decimal c
      → Reachable decimal (read_one version m c).0
  abandons : {c : Client} (id : Str) → Reachable decimal c → Reachable decimal (abandon id c)
  fails : {c : Client} (text : Str) → Reachable decimal c → Reachable decimal (fail_all text c)
