-- ===== src/Runner.antt =====
-- internal/runner/runner.go: the set of running measurements. The map of tasks is the list of its
-- tasks, one for each key. The metrics sink is a parameter.
pub mod Apply
pub mod Desired
pub mod States
pub mod Cycle
use network_mesh_exporter.Base.{
  ℕ, suc, ◌+◌, Bool, false, true, not, ◌&&◌, ◌||◌, List, [], ◌∷◌, ◌++◌, Option, none, some,
  if◌then◌else◌, eqb, ℕ_discrete,
}
use network_mesh_exporter.Base.Int.{ℤ, pos, negsuc}
use network_mesh_exporter.Base.Map.{Map}
use network_mesh_exporter.Base.Str.{Str, ◌==◌, bytes, str_dec}
use network_mesh_exporter.Config.{Config, ProbesConfig}
use network_mesh_exporter.Inventory.{HostRecord, Snapshot, get}
use network_mesh_exporter.Probe.{Kind, icmp, udp, tcp, Target, Params}
use network_mesh_exporter.Probe.Window.{Window, Stats, new_window}
use network_mesh_exporter.Slot.{Class, Rank}
use network_mesh_exporter.State.{State, Slot, Pairing, is_filled, is_live}

pub record TaskKey : Type 0 where
  pub pairing : Str
  pub slot : ℕ
  pub kind : Kind
  pub forward : Bool

unfoldable pub Kind_discrete : Discrete Kind
Kind_discrete = hlevel

unfoldable pub TaskKey_discrete : Discrete TaskKey
TaskKey_discrete = hlevel (str_dec, ℕ_discrete, Kind_discrete)

unfoldable pub Int_discrete : Discrete ℤ
Int_discrete = hlevel (ℕ_discrete)

unfoldable pub Params_discrete : Discrete Params
Params_discrete = hlevel (str_dec, Kind_discrete, Int_discrete)

abbrev pub same_key : TaskKey → TaskKey → Bool
same_key a b = elim (TaskKey_discrete a b) [ yes _ ↦ true | no _ ↦ false ]

abbrev pub same_params : Params → Params → Bool
same_params a b = elim (Params_discrete a b) [ yes _ ↦ true | no _ ↦ false ]

-- A task, less its goroutine: a task of the set has one, which stops when the task leaves the set.
pub record Task : Type 0 where
  pub key : TaskKey
  pub src : Target
  pub dst : Target
  pub zone_src : Str
  pub zone_dst : Str
  pub class : Class
  pub rank : Rank
  pub params : Params
  pub window : Window
  pub started_at : ℕ

-- The library calls: `net.JoinHostPort` of an address and the text of a port.
pub record Net : Type 0 where
  pub join_host_port : Str → ℤ → Str

unfoldable pub addr : Net → Target → Str
addr net t = net.join_host_port t.address t.port

unfoldable pub ident : Net → Task → Str
ident net t = t.src.host_id ++ (bytes ">" ++ (t.dst.host_id ++ (bytes "@" ++ addr net t.dst)))

unfoldable pub find : TaskKey → List Task → Option Task
find k [] = none
find k (t ∷ ts) = let rest = find k ts in if same_key k t.key then some t else rest

-- `out[k] = t`, by the key of the task.
unfoldable pub put : Task → List Task → List Task
put t [] = t ∷ []
put t (u ∷ us) = let rest = put t us in if same_key t.key u.key then t ∷ us else u ∷ rest

-- `delete(r.tasks, k)`.
unfoldable pub drop_task : TaskKey → List Task → List Task
drop_task k [] = []
drop_task k (t ∷ ts) = let rest = drop_task k ts in if same_key k t.key then rest else t ∷ rest

unfoldable pub kinds_of : ProbesConfig → List Kind
kinds_of cfg =
    (if cfg.icmp.enabled then icmp ∷ [] else [])
    ++ ((if cfg.udp.enabled then udp ∷ [] else []) ++ (if cfg.tcp.enabled then tcp ∷ [] else []))

-- The settings of a kind, and the port.
unfoldable pub probe_params : ProbesConfig → Kind → Params × ℤ
probe_params cfg icmp = (
  record {
    kind = icmp;
    count = cfg.icmp.count;
    interval = cfg.icmp.interval;
    timeout = cfg.icmp.timeout;
    payload_bytes = cfg.icmp.payload_bytes;
    port = pos 0;
    mode = [];
    ttl = cfg.icmp.ttl;
    df = cfg.icmp.df;
  },
  pos 0,
)
probe_params cfg udp = (
  record {
    kind = udp;
    count = cfg.udp.count;
    interval = cfg.udp.interval;
    timeout = cfg.udp.timeout;
    payload_bytes = cfg.udp.payload_bytes;
    port = cfg.udp.port;
    mode = [];
    ttl = pos 0;
    df = false;
  },
  cfg.udp.port,
)
probe_params cfg tcp = (
  record {
    kind = tcp;
    count = cfg.tcp.count;
    interval = cfg.tcp.interval;
    timeout = cfg.tcp.timeout;
    payload_bytes = cfg.tcp.payload_bytes;
    port = cfg.tcp.port;
    mode = cfg.tcp.mode;
    ttl = pos 0;
    df = false;
  },
  cfg.tcp.port,
)

-- One of the two directions of a slot.
pub record Direction : Type 0 where
  pub forward : Bool
  pub src : Str
  pub dst : Str
  pub zs : Str
  pub zd : Str
  pub rank : Rank

unfoldable pub directions : Pairing → Slot → List Direction
directions p s =
    record {
      forward = true;
      src = s.host_a;
      dst = s.host_b;
      zs = p.zone_a;
      zd = p.zone_b;
      rank = s.rank_a;
    }
    ∷ record {
      forward = false;
      src = s.host_b;
      dst = s.host_a;
      zs = p.zone_b;
      zd = p.zone_a;
      rank = s.rank_b;
    }
    ∷ []

abbrev pub nanos : ℤ → ℕ
nanos (pos n) = n
nanos (negsuc n) = 0

unfoldable pub task_of : ProbesConfig → Str → Slot → Direction → HostRecord → Kind → Task
task_of cfg key s d dst kind = record {
  key = record { pairing = key; slot = s.index; kind = kind; forward = d.forward };
  src = record { host_id = d.src; address = []; port = pos 0 };
  dst = record { host_id = d.dst; address = dst.address; port = (probe_params cfg kind).1 };
  zone_src = d.zs;
  zone_dst = d.zd;
  class = s.class;
  rank = d.rank;
  params = (probe_params cfg kind).0;
  window = new_window (nanos cfg.window);
  started_at = 0;
}

unfoldable pub add_kinds :
    ProbesConfig → Str → Slot → Direction → HostRecord → List Kind → List Task → List Task
add_kinds cfg key s d dst [] out = out
add_kinds cfg key s d dst (kind ∷ kinds) out =
    add_kinds cfg key s d dst kinds (put (task_of cfg key s d dst kind) out)

module _ (node : Str) (cfg : ProbesConfig) (snap : Snapshot) where
  unfoldable pub add_directions : Str → Slot → List Direction → List Task → List Task
  unfolding add_kinds
  add_directions key s [] out = out
  add_directions key s (d ∷ ds) out =
      let next : List Task = elim (get snap d.dst) [
        | none ↦ out
        | some dst ↦ add_kinds cfg key s d dst (kinds_of cfg) out
      ] in
      add_directions key s ds (if d.src == node then next else out)

  unfoldable pub add_slots : Str → Pairing → List Slot → List Task → List Task
  unfolding add_directions
  add_slots key p [] out = out
  add_slots key p (s ∷ ss) out =
      add_slots key p ss (if is_filled s then add_directions key s (directions p s) out else out)

  unfoldable pub add_pairings : Map Pairing → List Task → List Task
  unfolding add_slots
  add_pairings [] out = out
  add_pairings ((key, p) ∷ ps) out =
      add_pairings ps (if is_live p then add_slots key p p.slots out else out)

  unfoldable pub desired : State → List Task
  unfolding add_pairings
  desired st = add_pairings st.pairings []
