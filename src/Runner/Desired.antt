-- ===== src/Runner/Desired.antt =====
-- internal/runner/runner.go: the tasks that a node wants.
pub mod Complete
use network_mesh_exporter.Base.{
  ◌≡◌, ◌≢◌, refl, sym, Bool, false, true, not, List, [], ◌∷◌, ◌++◌, Option, none, some,
  if◌then◌else◌, arith, All, Bool-cases, Option-cases, inl, inr,
}
use network_mesh_exporter.Base.Int.{ℤ, pos}
use network_mesh_exporter.Base.Map.{Map}
use network_mesh_exporter.Base.Str.{Str, ◌==◌}
use network_mesh_exporter.Config.{ProbesConfig}
use network_mesh_exporter.Inventory.{HostRecord, Snapshot, get}
use network_mesh_exporter.Probe.{Kind, icmp, udp, tcp, Params}
use network_mesh_exporter.Runner.{
  Task, TaskKey, Direction, same_key, find, put, probe_params, kinds_of, task_of, directions,
  add_kinds, add_directions, add_slots, add_pairings, desired,
}
use network_mesh_exporter.Runner.Apply.Keys.{DistinctKeys, put-DistinctKeys, All-put, find-put}
use network_mesh_exporter.State.{State, Slot, Pairing, is_filled, is_live}

-- The settings of a kind in the configuration, as a probe is given them.
pub record IsSettings (p : Params) (kind : Kind) (count interval timeout payload_bytes port : ℤ)
    : Type 0 where
  pub same_kind : p.kind ≡ kind
  pub same_count : p.count ≡ count
  pub same_interval : p.interval ≡ interval
  pub same_timeout : p.timeout ≡ timeout
  pub same_payload : p.payload_bytes ≡ payload_bytes
  pub same_port : p.port ≡ port

-- Each kind takes its own section of the configuration: only ICMP has the hop limit and the flag
-- against fragments, and only TCP has a mode; ICMP has the port 0.
abbrev pub IsConfigured : ProbesConfig → Kind → Params → Type 0
IsConfigured cfg icmp p =
    IsSettings p icmp cfg.icmp.count cfg.icmp.interval cfg.icmp.timeout cfg.icmp.payload_bytes
      (pos 0)
    × (p.mode ≡ [])
    × (p.ttl ≡ cfg.icmp.ttl)
    × (p.df ≡ cfg.icmp.df)
IsConfigured cfg udp p =
    IsSettings p udp cfg.udp.count cfg.udp.interval cfg.udp.timeout cfg.udp.payload_bytes
      cfg.udp.port
    × (p.mode ≡ [])
    × (p.ttl ≡ pos 0)
    × (p.df ≡ false)
IsConfigured cfg tcp p =
    IsSettings p tcp cfg.tcp.count cfg.tcp.interval cfg.tcp.timeout cfg.tcp.payload_bytes
      cfg.tcp.port
    × (p.mode ≡ cfg.tcp.mode)
    × (p.ttl ≡ pos 0)
    × (p.df ≡ false)

probe_params-IsConfigured :
    (cfg : ProbesConfig) (kind : Kind)
    → IsConfigured cfg kind (probe_params cfg kind).0
      × ((probe_params cfg kind).1 ≡ (probe_params cfg kind).0.port)
unfolding probe_params
probe_params-IsConfigured cfg icmp = (
  (
    record {
      same_kind = refl;
      same_count = refl;
      same_interval = refl;
      same_timeout = refl;
      same_payload = refl;
      same_port = refl;
    },
    refl,
    refl,
    refl,
  ),
  refl,
)
probe_params-IsConfigured cfg udp = (
  (
    record {
      same_kind = refl;
      same_count = refl;
      same_interval = refl;
      same_timeout = refl;
      same_payload = refl;
      same_port = refl;
    },
    refl,
    refl,
    refl,
  ),
  refl,
)
probe_params-IsConfigured cfg tcp = (
  (
    record {
      same_kind = refl;
      same_count = refl;
      same_interval = refl;
      same_timeout = refl;
      same_payload = refl;
      same_port = refl;
    },
    refl,
    refl,
    refl,
  ),
  refl,
)

module _ (node : Str) (cfg : ProbesConfig) (snap : Snapshot) where
  -- The node is the source, the snapshot has the destination and gives its address, the settings are
  -- those of the kind in the configuration, and the port is the one of the settings.
  pub record IsOwn (t : Task) : Type 0 where
    pub from_node : t.src.host_id ≡ node
    pub target : HostRecord
    pub known : get snap t.dst.host_id ≡ some target
    pub address : t.dst.address ≡ target.address
    pub port : t.dst.port ≡ t.params.port
    pub settings : IsConfigured cfg t.key.kind t.params

  pub record IsWanted (ts : List Task) : Type 0 where
    pub distinct : DistinctKeys ts
    pub own : All IsOwn ts

  put-IsWanted : (t : Task) (ts : List Task) → IsOwn t → IsWanted ts → IsWanted (put t ts)
  put-IsWanted t ts o h = record {
    distinct = put-DistinctKeys t ts h.distinct;
    own = All-put IsOwn t ts o h.own;
  }

  add_kinds-IsWanted :
      (key : Str) (s : Slot) (d : Direction) (dst : HostRecord) (kinds : List Kind)
      (out : List Task)
      → d.src ≡ node
      → get snap d.dst ≡ some dst
      → IsWanted out
      → IsWanted (add_kinds cfg key s d dst kinds out)
  unfolding add_kinds task_of
  add_kinds-IsWanted key s d dst [] out e g h = h
  add_kinds-IsWanted key s d dst (kind ∷ kinds) out e g h =
      add_kinds-IsWanted key s d dst kinds (put (task_of cfg key s d dst kind) out) e g (
        put-IsWanted (task_of cfg key s d dst kind) out
          (record {
            from_node = e;
            target = dst;
            known = g;
            address = refl;
            port = (probe_params-IsConfigured cfg kind).1;
            settings = (probe_params-IsConfigured cfg kind).0;
          })
          h)

  add_directions-IsWanted :
      (key : Str) (s : Slot) (ds : List Direction) (out : List Task)
      → IsWanted out
      → IsWanted (add_directions node cfg snap key s ds out)
  unfolding add_directions
  add_directions-IsWanted key s [] out h = h
  add_directions-IsWanted key s (d ∷ ds) out h =
      add_directions-IsWanted key s ds _ (elim (Bool-cases (d.src == node)) [
        | inr e ↦ rw e h
        | inl e ↦ rw e (elim (Option-cases (get snap d.dst)) [
          | inl g ↦ rw g h
          | inr (dst, g) ↦
              rw g (add_kinds-IsWanted key s d dst (kinds_of cfg) out (ground arith) g h)
        ])
      ])

  add_slots-IsWanted :
      (key : Str) (p : Pairing) (ss : List Slot) (out : List Task)
      → IsWanted out
      → IsWanted (add_slots node cfg snap key p ss out)
  unfolding add_slots
  add_slots-IsWanted key p [] out h = h
  add_slots-IsWanted key p (s ∷ ss) out h =
      add_slots-IsWanted key p ss _ (elim (Bool-cases (is_filled s)) [
        | inr e ↦ rw e h
        | inl e ↦ rw e (add_directions-IsWanted key s (directions p s) out h)
      ])

  add_pairings-IsWanted :
      (ps : Map Pairing) (out : List Task)
      → IsWanted out
      → IsWanted (add_pairings node cfg snap ps out)
  unfolding add_pairings
  add_pairings-IsWanted [] out h = h
  add_pairings-IsWanted ((key, p) ∷ ps) out h =
      add_pairings-IsWanted ps _ (elim (Bool-cases (is_live p)) [
        | inr e ↦ rw e h
        | inl e ↦ rw e (add_slots-IsWanted key p p.slots out h)
      ])

  -- No two of the tasks that a node wants have one key. Each has the node as its source and a host of
  -- the snapshot as its destination, whose address it takes. Its settings and its port are those of the section of
  -- the configuration for its kind.
  pub desired-IsWanted : (st : State) → IsWanted (desired node cfg snap st)
  unfolding desired
  desired-IsWanted st = add_pairings-IsWanted st.pairings [] (record { distinct = tt; own = tt })
