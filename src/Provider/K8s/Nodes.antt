-- ===== src/Provider/K8s/Nodes.antt =====
-- internal/provider/k8s/k8s.go: which nodes become hosts, and which hosts are healthy.
use network_mesh_exporter.Base.{
  ℕ, ◌≡◌, ◌≢◌, ◌↔◌, ◌⊎◌, refl, inl, inr, Bool, false, true, List, [], ◌∷◌, none, some, arith, All,
  Bool-cases, Option-cases,
}
use network_mesh_exporter.Base.Str.{Str, ◌==◌, bytes}
use network_mesh_exporter.Base.Strs.{contains}
use network_mesh_exporter.Inventory.{HostRecord}
use network_mesh_exporter.Provider.K8s.{
  Node, Condition, Address, Provider, address_of, first_address, address, denied_taint,
  ready_health, health, convert, build_hosts, build,
}

-- The first condition of type Ready says True.
abbrev pub IsReady : List Condition → Type 0
IsReady [] = ⊥
IsReady (c ∷ cs) =
    ((c.type ≡ bytes "Ready") × (c.status ≡ bytes "True")) ⊎ ((c.type ≢ bytes "Ready") × IsReady cs)

ready_health_iff : (cs : List Condition) → ((ready_health cs).0 ≡ true) ↔ IsReady cs
unfolding ready_health
ready_health_iff [] = (λ e. cc, λ h. elim h [ ])
ready_health_iff (c ∷ cs) =
    let (there, back) = ready_health_iff cs in
    elim (Bool-cases (c.type == bytes "Ready")) [
      | inl e ↦ (λ h. ground (arith, e, h), λ h. ground (arith, e, h))
      | inr e ↦ (λ h. ground (arith, e, h, there), λ h. ground (arith, e, h, back))
    ]

denied_taint_iff :
    (deny taints : List Str)
    → (denied_taint deny taints ≡ none) ↔ All (λ t. contains t deny ≡ false) taints
unfolding denied_taint
denied_taint_iff deny [] = (λ e. tt, λ h. refl)
denied_taint_iff deny (t ∷ ts) =
    let (there, back) = denied_taint_iff deny ts in
    (λ e. ground (arith, e, there), λ h. ground (arith, h, back))

-- A node is healthy exactly when it is not being deleted, may be scheduled to, carries no taint that
-- is denied, and its first condition of type Ready says True.
pub health_iff :
    (p : Provider) (n : Node)
    → ((health p n).0 ≡ true) ↔ (
        (n.deleted ≡ false)
        × (n.unschedulable ≡ false)
        × All (λ t. contains t p.taint_deny ≡ false) n.taints
        × IsReady n.conditions)
unfolding health
health_iff p n =
    let (taints, clean) = denied_taint_iff p.taint_deny n.taints in
    let (ready, ok) = ready_health_iff n.conditions in
    (λ e. ground (arith, e, taints, ready), λ h. ground (arith, h, clean, ok))

-- The host of a node: an address, the time of the set, and a reason exactly when it is not healthy.
pub record IsNodeHost (now : ℕ) (r : HostRecord) : Type 0 where
  pub reachable : r.address ≢ []
  pub seen : r.seen_at ≡ now
  pub explained : (r.healthy ≡ false) ↔ (r.reason ≢ [])

ready_reason : (cs : List Condition) → ((ready_health cs).0 ≡ false) ↔ ((ready_health cs).1 ≢ [])
unfolding ready_health
ready_reason [] = (λ e. λ f. cc, λ h. refl)
ready_reason (c ∷ cs) =
    let (there, back) = ready_reason cs in
    (λ e. ground (arith, e, there), λ h. ground (arith, h, back))

reason_iff : (p : Provider) (n : Node) → ((health p n).0 ≡ false) ↔ ((health p n).1 ≢ [])
unfolding health
reason_iff p n =
    let conditions = ready_reason n.conditions in
    (λ e. ground (arith, e, conditions), λ h. ground (arith, h, conditions))

address_of-filled :
    (equal_fold : Str → Str → Bool) (want : Str) (addrs : List Address) (a : Str)
    → address_of equal_fold want addrs ≡ some a
    → a ≢ []
unfolding address_of
address_of-filled equal_fold want [] a e = cc
address_of-filled equal_fold want (x ∷ xs) a e =
    ground (arith, address_of-filled equal_fold want xs a)

first_address-filled :
    (equal_fold : Str → Str → Bool) (wants : List Str) (addrs : List Address) (a : Str)
    → first_address equal_fold wants addrs ≡ some a
    → a ≢ []
unfolding first_address
first_address-filled equal_fold [] addrs a e = cc
first_address-filled equal_fold (want ∷ wants) addrs a e = ground (
  arith,
  e,
  address_of-filled equal_fold want addrs a,
  first_address-filled equal_fold wants addrs a,
)

chosen-filled :
    (equal_fold : Str → Str → Bool) (p : Provider) (n : Node) (a : Str)
    → address equal_fold p n ≡ some a
    → a ≢ []
unfolding address
chosen-filled equal_fold p n a e = first_address-filled equal_fold _ n.addresses a e

build_hosts-IsNodeHost :
    (equal_fold : Str → Str → Bool) (p : Provider) (now : ℕ) (nodes : List Node)
    → All (IsNodeHost now) (build_hosts equal_fold p now nodes)
unfolding build_hosts convert
build_hosts-IsNodeHost equal_fold p now [] = tt
build_hosts-IsNodeHost equal_fold p now (n ∷ ns) = elim (Option-cases (address equal_fold p n)) [
  | inl e ↦ rw (e, All) (build_hosts-IsNodeHost equal_fold p now ns)
  | inr (a, e) ↦
      let filled : a ≢ [] = chosen-filled equal_fold p n a e in
      rw (e, All)
        (
          record { reachable = filled; seen = refl; explained = reason_iff p n },
          build_hosts-IsNodeHost equal_fold p now ns,
        )
]

-- Every host of a node set has an address and the time of the set, and a reason exactly where it is
-- not healthy.
pub build-IsNodeHost :
    (equal_fold : Str → Str → Bool) (p : Provider) (now : ℕ) (nodes : List Node)
    → All (IsNodeHost now) (build equal_fold p now nodes).hosts
unfolding build
build-IsNodeHost equal_fold p now nodes = build_hosts-IsNodeHost equal_fold p now nodes
