-- ===== src/Provider/K8s.antt =====
-- internal/provider/k8s/k8s.go: how a node of a cluster becomes a host record. A node holds the fields of
-- `corev1.Node` that are read; the client, the informer and `strings.EqualFold` are parameters.
pub mod Nodes
use network_mesh_exporter.Base.{
  ℕ, Bool, false, true, not, ◌&&◌, ◌||◌, List, [], ◌∷◌, ◌++◌, map, Option, none, some, length,
  if◌then◌else◌, eqb,
}
use network_mesh_exporter.Base.Int.{ℤ}
use network_mesh_exporter.Base.Map.{Map, lookup, insert}
use network_mesh_exporter.Base.Str.{Str, ◌==◌, bytes}
use network_mesh_exporter.Base.Strs.{contains}
use network_mesh_exporter.Inventory.{HostRecord, Set}

-- The fields of `config.K8sConfig` that the conversion reads.
pub record K8sConfig : Type 0 where
  pub cluster_name : Str
  pub address_order : List Str
  pub taint_deny : List Str
  pub annotation_allow : List Str
  pub priority : ℤ

pub record Address : Type 0 where
  pub type : Str
  pub address : Str

pub record Condition : Type 0 where
  pub type : Str
  pub status : Str

-- A node, with the keys of its taints.
pub record Node : Type 0 where
  pub name : Str
  pub labels : Map Str
  pub annotations : Map Str
  pub deleted : Bool
  pub unschedulable : Bool
  pub taints : List Str
  pub provider_id : Str
  pub addresses : List Address
  pub conditions : List Condition
  pub kubelet_version : Str

-- The fields of `Provider` that the conversion reads.
pub record Provider : Type 0 where
  pub cfg : K8sConfig
  pub taint_deny : List Str
  pub ann_allow : List Str

abbrev pub well_known_labels : Map Str
well_known_labels =
    (bytes "topology.kubernetes.io/region", bytes "k8s.region")
    ∷ (bytes "topology.kubernetes.io/zone", bytes "k8s.zone")
    ∷ (bytes "node.kubernetes.io/instance-type", bytes "k8s.instance-type")
    ∷ (bytes "kubernetes.io/arch", bytes "k8s.arch")
    ∷ (bytes "kubernetes.io/os", bytes "k8s.os")
    ∷ (bytes "kubernetes.io/hostname", bytes "k8s.hostname")
    ∷ []

abbrev pub default_taint_deny : List Str
default_taint_deny =
    bytes "node.kubernetes.io/unreachable"
    ∷ bytes "node.kubernetes.io/not-ready"
    ∷ bytes "node.kubernetes.io/unschedulable"
    ∷ []

-- The part of `New` that reads the configuration.
unfoldable pub new_provider : K8sConfig → Provider
new_provider cfg = record {
  cfg = cfg;
  taint_deny = if eqb (length cfg.taint_deny) 0 then default_taint_deny else cfg.taint_deny;
  ann_allow = cfg.annotation_allow;
}

-- `strings.NewReplacer("/", "_", ".", "_", " ", "_").Replace`.
unfoldable pub sanitize_key : Str → Str
sanitize_key s = map (λ c. if eqb c b'/' || eqb c b'.' || eqb c b' ' then b'_' else c) s

unfoldable pub host_id : Provider → Str → Str
host_id p name = bytes "k8s://" ++ (p.cfg.cluster_name ++ (bytes "/" ++ name))

-- The loop over the labels.
unfoldable pub add_labels : Map Str → Map Str → Map Str
unfolding sanitize_key
add_labels [] m = m
add_labels ((k, v) ∷ ls) m =
    let one = insert (bytes "k8s.label." ++ sanitize_key k) v m in
    add_labels ls
      (elim (lookup k well_known_labels) [ none ↦ one | some short ↦ insert short v one ])

unfoldable pub add_annotations : List Str → Map Str → Map Str → Map Str
unfolding sanitize_key
add_annotations allow [] m = m
add_annotations allow ((k, v) ∷ anns) m =
    add_annotations allow anns
      (if contains k allow then insert (bytes "k8s.annotation." ++ sanitize_key k) v m else m)

abbrev insert_filled : Str → Str → Map Str → Map Str
insert_filled k v m = if v == [] then m else insert k v m

unfoldable pub attributes : Provider → Node → Map Str
unfolding add_labels add_annotations
attributes p n =
    let base = (bytes "k8s.cluster", p.cfg.cluster_name) ∷ (bytes "k8s.node", n.name) ∷ [] in
    insert_filled (bytes "k8s.kubelet") n.kubelet_version (
      insert_filled (bytes "k8s.provider-id") n.provider_id
        (add_annotations p.ann_allow n.annotations (add_labels n.labels base)))

module _ (equal_fold : Str → Str → Bool) where
  -- The inner loop of `address`.
  unfoldable pub address_of : Str → List Address → Option Str
  address_of want [] = none
  address_of want (a ∷ addrs) =
      let rest = address_of want addrs in
      if equal_fold a.type want && not (a.address == []) then some a.address else rest

  unfoldable pub first_address : List Str → List Address → Option Str
  unfolding address_of
  first_address [] addrs = none
  first_address (want ∷ wants) addrs =
      let rest = first_address wants addrs in
      elim (address_of want addrs) [ none ↦ rest | some a ↦ some a ]

  -- No address is an error.
  unfoldable pub address : Provider → Node → Option Str
  unfolding first_address
  address p n =
      first_address
        (if eqb (length p.cfg.address_order) 0
          then bytes "InternalIP" ∷ bytes "Hostname" ∷ []
          else p.cfg.address_order)
        n.addresses

-- The loop over the taints: the first one that is denied.
unfoldable pub denied_taint : List Str → List Str → Option Str
denied_taint deny [] = none
denied_taint deny (t ∷ ts) =
    let rest = denied_taint deny ts in if contains t deny then some t else rest

-- The loop over the conditions.
unfoldable pub ready_health : List Condition → Bool × Str
ready_health [] = (false, bytes "node has no Ready condition")
ready_health (c ∷ cs) =
    let rest = ready_health cs in
    if c.type == bytes "Ready"
    then if c.status == bytes "True" then (true, []) else (false, bytes "node is not ready")
    else rest

unfoldable pub health : Provider → Node → Bool × Str
unfolding denied_taint ready_health
health p n =
    if n.deleted
    then (false, bytes "node is being deleted")
    else if n.unschedulable
    then (false, bytes "node is unschedulable")
    else elim (denied_taint p.taint_deny n.taints) [
      | some t ↦ (false, bytes "denied taint " ++ t)
      | none ↦ ready_health n.conditions
    ]

module _ (equal_fold : Str → Str → Bool) where
  unfoldable pub convert : Provider → Node → Option HostRecord
  unfolding address health host_id attributes
  convert p n = elim (address equal_fold p n) [
    | none ↦ none
    | some a ↦ some (record {
      id = host_id p n.name;
      address = a;
      attributes = attributes p n;
      source = bytes "k8s";
      healthy = (health p n).0;
      reason = (health p n).1;
      seen_at = 0;
      priority = p.cfg.priority;
    })
  ]

  -- The loop of `build`, which leaves out the nodes without an address.
  unfoldable pub build_hosts : Provider → ℕ → List Node → List HostRecord
  unfolding convert
  build_hosts p now [] = []
  build_hosts p now (n ∷ ns) =
      let rest = build_hosts p now ns in
      elim (convert p n) [ none ↦ rest | some r ↦ record r { seen_at = now } ∷ rest ]

  unfoldable pub build : Provider → ℕ → List Node → Set
  unfolding build_hosts
  build p now nodes = record {
    source = bytes "k8s";
    hosts = build_hosts p now nodes;
    fetch_at = now;
    stale = false;
    last_error = [];
  }
