-- ===== src/Tests/Nodes.antt =====
-- Examples on internal/provider/k8s/k8s.go.
use network_mesh_exporter.Base.{◌≡◌, ◌↔◌, true, false, [], ◌∷◌, All}
use network_mesh_exporter.Base.Int.{pos}
use network_mesh_exporter.Base.Str.{bytes}
use network_mesh_exporter.Base.Strs.{contains}
use network_mesh_exporter.Provider.K8s.{Provider, Node, health}
use network_mesh_exporter.Provider.K8s.Nodes.{IsReady, health_iff}

abbrev provider : Provider
provider = record {
  cfg = record {
    cluster_name = bytes "east";
    address_order = [];
    taint_deny = [];
    annotation_allow = [];
    priority = pos 1;
  };
  taint_deny = bytes "drained" ∷ [];
  ann_allow = [];
}

abbrev node : Node
node = record {
  name = bytes "n1";
  labels = (bytes "kubernetes.io/os", bytes "linux") ∷ [];
  annotations = [];
  deleted = false;
  unschedulable = false;
  taints = bytes "gpu" ∷ [];
  provider_id = [];
  addresses = record { type = bytes "InternalIP"; address = bytes "10.0.0.1" } ∷ [];
  conditions = record { type = bytes "Ready"; status = bytes "True" } ∷ [];
  kubelet_version = [];
}

health_iff_example : ((health provider node).0 ≡ true) ↔ (
    (node.deleted ≡ false)
    × (node.unschedulable ≡ false)
    × All (λ t. contains t provider.taint_deny ≡ false) node.taints
    × IsReady node.conditions)
health_iff_example = health_iff provider node
