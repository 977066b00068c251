-- ===== src/Runner/Desired/Complete.antt =====
-- internal/runner/runner.go: a node wants a task for every slot that it is the source of.
use network_mesh_exporter.Base.{
  ◌≡◌, ◌≢◌, sym, subst, Bool, false, true, List, [], ◌∷◌, ◌++◌, none, some, if◌then◌else◌, arith,
  Bool-cases, Option-cases, inl, inr,
}
use network_mesh_exporter.Base.Map.{Map}
use network_mesh_exporter.Base.Str.{Str, ◌==◌}
use network_mesh_exporter.Config.{ProbesConfig}
use network_mesh_exporter.Inventory.{HostRecord, Snapshot, get}
use network_mesh_exporter.Probe.{Kind, icmp, udp, tcp}
use network_mesh_exporter.Runner.{
  Task, TaskKey, Direction, find, put, kinds_of, task_of, directions, add_kinds, add_directions,
  add_slots, add_pairings, desired,
}
use network_mesh_exporter.Runner.Apply.Keys.{find-put}
use network_mesh_exporter.State.{State, Slot, Pairing, is_filled, is_live}

-- A task is there at a key.
abbrev pub Has : TaskKey → List Task → Type 0
Has k ts = find k ts ≢ none

put-Has : (k : TaskKey) (t : Task) (ts : List Task) → Has k ts → Has k (put t ts)
put-Has k t ts h = ground (arith, find-put k t ts)

put-Has_self : (t : Task) (ts : List Task) → Has t.key (put t ts)
put-Has_self t ts = ground (arith, find-put t.key t ts)

abbrev pub is_enabled : ProbesConfig → Kind → Bool
is_enabled cfg icmp = cfg.icmp.enabled
is_enabled cfg udp = cfg.udp.enabled
is_enabled cfg tcp = cfg.tcp.enabled

abbrev kind_eqb : Kind → Kind → Bool
kind_eqb icmp icmp = true
kind_eqb udp udp = true
kind_eqb tcp tcp = true
kind_eqb _ _ = false

abbrev has_kind : Kind → List Kind → Bool
has_kind k [] = false
has_kind k (j ∷ js) = let rest = has_kind k js in if kind_eqb j k then true else rest

kind_eqb-eq : (a b : Kind) → kind_eqb a b ≡ true → a ≡ b
kind_eqb-eq a b e = ground arith

has_kind-kinds_of :
    (cfg : ProbesConfig) (k : Kind) → is_enabled cfg k ≡ true → has_kind k (kinds_of cfg) ≡ true
unfolding kinds_of
has_kind-kinds_of cfg k e = ground arith

abbrev forward_of : Pairing → Slot → Direction
forward_of p s = record {
  forward = true;
  src = s.host_a;
  dst = s.host_b;
  zs = p.zone_a;
  zd = p.zone_b;
  rank = s.rank_a;
}

abbrev backward_of : Pairing → Slot → Direction
backward_of p s = record {
  forward = false;
  src = s.host_b;
  dst = s.host_a;
  zs = p.zone_b;
  zd = p.zone_a;
  rank = s.rank_b;
}

module _ (node : Str) (cfg : ProbesConfig) (snap : Snapshot) where
  add_kinds-Has :
      (k : TaskKey) (key : Str) (s : Slot) (d : Direction) (dst : HostRecord) (kinds : List Kind)
      (out : List Task)
      → Has k out
      → Has k (add_kinds cfg key s d dst kinds out)
  unfolding add_kinds
  add_kinds-Has k key s d dst [] out h = h
  add_kinds-Has k key s d dst (kind ∷ kinds) out h =
      add_kinds-Has k key s d dst kinds (put (task_of cfg key s d dst kind) out)
        (put-Has k (task_of cfg key s d dst kind) out h)

  add_directions-Has :
      (k : TaskKey) (key : Str) (s : Slot) (ds : List Direction) (out : List Task)
      → Has k out
      → Has k (add_directions node cfg snap key s ds out)
  unfolding add_directions
  add_directions-Has k key s [] out h = h
  add_directions-Has k key s (d ∷ ds) out h =
      add_directions-Has k key s ds _ (elim (Bool-cases (d.src == node)) [
        | inr e ↦ rw e h
        | inl e ↦ rw e (elim (Option-cases (get snap d.dst)) [
          | inl g ↦ rw g h
          | inr (dst, g) ↦ rw g (add_kinds-Has k key s d dst (kinds_of cfg) out h)
        ])
      ])

  add_slots-Has :
      (k : TaskKey) (key : Str) (p : Pairing) (ss : List Slot) (out : List Task)
      → Has k out
      → Has k (add_slots node cfg snap key p ss out)
  unfolding add_slots
  add_slots-Has k key p [] out h = h
  add_slots-Has k key p (s ∷ ss) out h =
      add_slots-Has k key p ss _ (elim (Bool-cases (is_filled s)) [
        | inr e ↦ rw e h
        | inl e ↦ rw e (add_directions-Has k key s (directions p s) out h)
      ])

  add_pairings-Has :
      (k : TaskKey) (ps : Map Pairing) (out : List Task)
      → Has k out
      → Has k (add_pairings node cfg snap ps out)
  unfolding add_pairings
  add_pairings-Has k [] out h = h
  add_pairings-Has k ((key, p) ∷ ps) out h =
      add_pairings-Has k ps _ (elim (Bool-cases (is_live p)) [
        | inr e ↦ rw e h
        | inl e ↦ rw e (add_slots-Has k key p p.slots out h)
      ])

  -- The key of a task, of a pairing, a slot, a direction and a kind.
  abbrev pub key_of : Str → Slot → Bool → Kind → TaskKey
  key_of key s forward kind = record {
    pairing = key;
    slot = s.index;
    kind = kind;
    forward = forward;
  }

  add_kinds-Has_new :
      (key : Str) (s : Slot) (d : Direction) (dst : HostRecord) (kind : Kind) (kinds : List Kind)
      (out : List Task)
      → has_kind kind kinds ≡ true
      → Has (key_of key s d.forward kind) (add_kinds cfg key s d dst kinds out)
  unfolding add_kinds task_of
  add_kinds-Has_new key s d dst kind [] out e = cc
  add_kinds-Has_new key s d dst kind (j ∷ js) out e = elim (Bool-cases (kind_eqb j kind)) [
    | inl same ↦
        subst (λ i. Has (key_of key s d.forward i) (add_kinds cfg key s d dst (j ∷ js) out))
          (kind_eqb-eq j kind same)
          (add_kinds-Has (key_of key s d.forward j) key s d dst js
            (put (task_of cfg key s d dst j) out) (put-Has_self (task_of cfg key s d dst j) out))
    | inr other ↦
        add_kinds-Has_new key s d dst kind js (put (task_of cfg key s d dst j) out) (ground arith)
  ]

  add_direction-Has_new :
      (key : Str) (s : Slot) (d : Direction) (ds : List Direction) (dst : HostRecord) (kind : Kind)
      (out : List Task)
      → is_enabled cfg kind ≡ true
      → (d.src == node) ≡ true
      → get snap d.dst ≡ some dst
      → Has (key_of key s d.forward kind) (add_directions node cfg snap key s (d ∷ ds) out)
  unfolding add_directions
  add_direction-Has_new key s d ds dst kind out e f g =
      add_directions-Has (key_of key s d.forward kind) key s ds _ (
        rw (f, g)
          (add_kinds-Has_new key s d dst kind (kinds_of cfg) out (has_kind-kinds_of cfg kind e)))

  -- The source and the destination of a direction of a slot.
  abbrev pub source_of : Slot → Bool → Str
  source_of s forward = if forward then s.host_a else s.host_b

  abbrev pub target_of : Slot → Bool → Str
  target_of s forward = if forward then s.host_b else s.host_a

  add_slot-Has_new :
      (key : Str) (p : Pairing) (s : Slot) (forward : Bool) (dst : HostRecord) (kind : Kind)
      (out : List Task)
      → is_enabled cfg kind ≡ true
      → (source_of s forward == node) ≡ true
      → get snap (target_of s forward) ≡ some dst
      → Has (key_of key s forward kind) (add_directions node cfg snap key s (directions p s) out)
  unfolding add_directions directions
  add_slot-Has_new key p s true dst kind out e f g =
      add_direction-Has_new key s (forward_of p s) (backward_of p s ∷ []) dst kind out e f g
  add_slot-Has_new key p s false dst kind out e f g =
      add_direction-Has_new key s (backward_of p s) [] dst kind _ e f g

  add_slots-Has_new :
      (key : Str) (p : Pairing) (before : List Slot) (s : Slot) (after : List Slot) (forward : Bool)
      (dst : HostRecord) (kind : Kind) (out : List Task)
      → is_enabled cfg kind ≡ true
      → is_filled s ≡ true
      → (source_of s forward == node) ≡ true
      → get snap (target_of s forward) ≡ some dst
      → Has (key_of key s forward kind) (add_slots node cfg snap key p (before ++ s ∷ after) out)
  unfolding add_slots
  add_slots-Has_new key p [] s after forward dst kind out e l f g =
      add_slots-Has (key_of key s forward kind) key p after _
        (rw l (add_slot-Has_new key p s forward dst kind out e f g))
  add_slots-Has_new key p (x ∷ xs) s after forward dst kind out e l f g =
      add_slots-Has_new key p xs s after forward dst kind _ e l f g

  add_pairings-Has_new :
      (before : Map Pairing) (key : Str) (p : Pairing) (after : Map Pairing) (earlier : List Slot)
      (s : Slot) (later : List Slot) (forward : Bool) (dst : HostRecord) (kind : Kind)
      (out : List Task)
      → is_enabled cfg kind ≡ true
      → is_live p ≡ true
      → p.slots ≡ earlier ++ s ∷ later
      → is_filled s ≡ true
      → (source_of s forward == node) ≡ true
      → get snap (target_of s forward) ≡ some dst
      → Has
          (key_of key s forward kind)
          (add_pairings node cfg snap (before ++ (key, p) ∷ after) out)
  unfolding add_pairings
  add_pairings-Has_new [] key p after earlier s later forward dst kind out e v q l f g =
      add_pairings-Has (key_of key s forward kind) after _ (
        rw v (
          subst (λ ss. Has (key_of key s forward kind) (add_slots node cfg snap key p ss out))
            (sym q) (add_slots-Has_new key p earlier s later forward dst kind out e l f g)))
  add_pairings-Has_new (x ∷ xs) key p after earlier s later forward dst kind out e v q l f g =
      add_pairings-Has_new xs key p after earlier s later forward dst kind _ e v q l f g

  -- Wherever a pairing that is not marked for removal has a slot that is filled, the node is the source
  -- of one of its directions and the snapshot has the destination, the node wants a task at the key of
  -- that direction for each kind that is enabled.
  pub desired-Has :
      (st : State) (before : Map Pairing) (key : Str) (p : Pairing) (after : Map Pairing)
      (earlier : List Slot) (s : Slot) (later : List Slot) (forward : Bool) (dst : HostRecord)
      (kind : Kind)
      → st.pairings ≡ before ++ (key, p) ∷ after
      → is_enabled cfg kind ≡ true
      → is_live p ≡ true
      → p.slots ≡ earlier ++ s ∷ later
      → is_filled s ≡ true
      → source_of s forward ≡ node
      → get snap (target_of s forward) ≡ some dst
      → Has (key_of key s forward kind) (desired node cfg snap st)
  unfolding desired
  desired-Has st before key p after earlier s later forward dst kind r e v q l f g =
      let same : (source_of s forward == node) ≡ true = ground arith in
      subst (λ ps. Has (key_of key s forward kind) (add_pairings node cfg snap ps [])) (sym r)
        (add_pairings-Has_new before key p after earlier s later forward dst kind [] e v q l same g)
