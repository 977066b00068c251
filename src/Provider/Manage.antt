-- ===== src/Provider/Manage.antt =====
-- internal/provider/provider.go: what `Apply` makes of each source.
use network_mesh_exporter.Base.{
  ◌≡◌, ◌≢◌, refl, sym, ap, ◌∙◌, Bool, false, true, List, [], ◌∷◌, map, Option, none, some,
  if◌then◌else◌, arith, All, Bool-cases, Option-cases, inl, inr,
}
use network_mesh_exporter.Base.Map.{lookup, lookup-insert, lookup-erase}
use network_mesh_exporter.Base.Str.{Str, ◌==◌}
use network_mesh_exporter.Base.Strs.{contains}
use network_mesh_exporter.Inventory.{Set, remove}
use network_mesh_exporter.Provider.{
  Running, Manager, Error, start, stop, apply_one, apply_all, apply,
}

abbrev pub DistinctNames : List Str → Type 0
DistinctNames [] = Unit
DistinctNames (n ∷ ns) = All (λ k. n ≢ k) ns × DistinctNames ns

apart-contains : (n : Str) (ns : List Str) → All (λ k. n ≢ k) ns → contains n ns ≡ false
unfolding contains
apart-contains n [] h = refl
apart-contains n (k ∷ ks) h = ground (arith, h.0, apart-contains n ks h.1)

-- What one round does to the entry of a source, and then the rounds of the others.
fold_step :
    {A : Type 0} (l x x1 xn y y1 : A) (k name : Str) (names : List Str)
    → DistinctNames (name ∷ names)
    → l ≡ (if contains k names then x1 else y1)
    → y1 ≡ (if k == name then xn else y)
    → ((k == name) ≡ false → x1 ≡ x)
    → (k ≡ name → xn ≡ x)
    → l ≡ (if contains k (name ∷ names) then x else y)
unfolding contains
fold_step l x x1 xn y y1 k name names h rest one other here = elim (Bool-cases (k == name)) [
  | inl same ↦
      let at : k ≡ name = ground (arith, same) in
      let absent : contains k names ≡ false = rw at (apart-contains name names h.0) in
      ground (arith, same, absent, rest, one, here at)
  | inr apart ↦ ground (arith, apart, rest, one, other apart)
]

module _ {C : Type 0} {P : Type 0} (cfg : C) where
  -- What a start of a source gives, of its factory and the fingerprint.
  unfoldable pub made_of : Option (C → Option P) → Str → Option (Running P)
  made_of none fp = none
  made_of (some f) fp = elim (f cfg) [ none ↦ none | some p ↦ some (record { prov = p; fp = fp }) ]

  -- What is to run: nothing where the source is disabled, what runs where its fingerprint is that of the
  -- configuration, and otherwise what a start gives.
  unfoldable pub decide_source :
      Bool → Str → Option (Running P) → Option (Running P) → Option (Running P)
  decide_source false fp fresh cur = none
  decide_source true fp fresh none = fresh
  decide_source true fp fresh (some cur) = if cur.fp == fp then some cur else fresh

  -- The hosts of a source that ran and is disabled are removed.
  unfoldable pub decide_set : Bool → Option (Running P) → Option Set → Option Set
  decide_set true cur set = set
  decide_set false none set = set
  decide_set false (some _) set = none

  -- What `Apply` promises of one source.
  abbrev pub next_running : Str → Manager C P → Option (Running P)
  next_running name m =
      decide_source (m.enabled cfg name) (m.fingers cfg name)
        (made_of (lookup name m.factories) (m.fingers cfg name)) (lookup name m.active)

  abbrev pub next_set : Str → Manager C P → Option Set
  next_set name m =
      decide_set (m.enabled cfg name) (lookup name m.active) (lookup name m.store.sets)

  apply_one-setup :
      (name : Str) (e : Option Error) (m : Manager C P)
      → let n = (apply_one cfg name (e, m)).1 in
        (n.factories ≡ m.factories) × (n.enabled ≡ m.enabled) × (n.fingers ≡ m.fingers)
  unfolding apply_one start stop
  apply_one-setup name e m = ground arith

  start-active :
      (k name : Str) (m : Manager C P)
      → lookup k (start cfg name (m.fingers cfg name) m).1.active ≡ (
          if k == name
          then elim (made_of (lookup name m.factories) (m.fingers cfg name))
              as (λ _. Option (Running P)) [ none ↦ lookup k m.active | some r ↦ some r ]
          else lookup k m.active)
  unfolding start made_of
  start-active k name m = elim (Option-cases (lookup name m.factories)) [
    | inl l ↦ ground (arith, l)
    | inr (f, l) ↦ elim (Option-cases (f cfg)) [
      | inl g ↦ ground (arith, l, g)
      | inr (p, g) ↦
          let r : Running P = record { prov = p; fp = m.fingers cfg name } in
          ground (arith, l, g, lookup-insert name k r m.active)
    ]
  ]

  apply_one-active :
      (k name : Str) (e : Option Error) (m : Manager C P)
      → lookup k (apply_one cfg name (e, m)).1.active
        ≡ (if k == name then next_running name m else lookup k m.active)
  unfolding apply_one stop decide_source
  apply_one-active k name e m = ground (
    arith,
    lookup-erase name k m.active,
    start-active k name m,
    start-active k name (stop name m),
  )

  apply_one-sets :
      (k name : Str) (e : Option Error) (m : Manager C P)
      → lookup k (apply_one cfg name (e, m)).1.store.sets
        ≡ (if k == name then next_set name m else lookup k m.store.sets)
  unfolding apply_one stop start remove decide_set
  apply_one-sets k name e m = ground (arith, lookup-erase name k m.store.sets)

  -- What is promised of a source reads only its own entries.
  next_running-same :
      (k : Str) (n m : Manager C P)
      → (n.factories ≡ m.factories) × (n.enabled ≡ m.enabled) × (n.fingers ≡ m.fingers)
      → lookup k n.active ≡ lookup k m.active
      → next_running k n ≡ next_running k m
  next_running-same k n m (f, e, g) a =
      let enabled : n.enabled cfg k ≡ m.enabled cfg k = ap (λ x. x cfg k) e in
      let finger : n.fingers cfg k ≡ m.fingers cfg k = ap (λ x. x cfg k) g in
      let factory : lookup k n.factories ≡ lookup k m.factories = ap (lookup k) f in cc

  next_set-same :
      (k : Str) (n m : Manager C P)
      → n.enabled ≡ m.enabled
      → lookup k n.active ≡ lookup k m.active
      → lookup k n.store.sets ≡ lookup k m.store.sets
      → next_set k n ≡ next_set k m
  next_set-same k n m e a b =
      let enabled : n.enabled cfg k ≡ m.enabled cfg k = ap (λ x. x cfg k) e in cc

  apply_all-active :
      (k : Str) (names : List Str) (e : Option Error) (m : Manager C P)
      → DistinctNames names
      → lookup k (apply_all cfg names (e, m)).1.active
        ≡ (if contains k names then next_running k m else lookup k m.active)
  unfolding apply_all contains
  apply_all-active k [] e m h = refl
  apply_all-active k (name ∷ names) e m h =
      let out : Option Error × Manager C P = apply_one cfg name (e, m) in
      let one = apply_one-active k name e m in
      fold_step _ _ _ _ _ _ k name names h (apply_all-active k names out.0 out.1 h.1) one
        (λ kept. next_running-same k out.1 m (apply_one-setup name e m) (one ∙ rw kept refl))
        (λ here. ap (λ j. next_running j m) (sym here))

  apply_all-sets :
      (k : Str) (names : List Str) (e : Option Error) (m : Manager C P)
      → DistinctNames names
      → lookup k (apply_all cfg names (e, m)).1.store.sets
        ≡ (if contains k names then next_set k m else lookup k m.store.sets)
  unfolding apply_all contains
  apply_all-sets k [] e m h = refl
  apply_all-sets k (name ∷ names) e m h =
      let out : Option Error × Manager C P = apply_one cfg name (e, m) in
      let one = apply_one-sets k name e m in
      fold_step _ _ _ _ _ _ k name names h (apply_all-sets k names out.0 out.1 h.1) one
        (λ kept.
          next_set-same k out.1 m (apply_one-setup name e m).1
            (apply_one-active k name e m ∙ rw kept refl) (one ∙ rw kept refl))
        (λ here. ap (λ j. next_set j m) (sym here))

  -- `Apply` treats each registered source by itself. A disabled one does not run, an enabled one that
  -- runs with the fingerprint of the configuration goes on, and any other runs anew where its factory
  -- allows it and otherwise not at all; the hosts of a disabled source that ran are removed. A source
  -- that is not registered keeps its provider and its hosts, and no hosts of an enabled one are removed.
  pub apply-source :
      (k : Str) (m : Manager C P)
      → DistinctNames (map (λ e. e.0) m.factories)
      → let n = (apply cfg m).1 in
        (lookup k n.active ≡ (
          if contains k (map (λ e. e.0) m.factories) then next_running k m else lookup k m.active))
        × (lookup k n.store.sets ≡ (
            if contains k (map (λ e. e.0) m.factories)
            then next_set k m
            else lookup k m.store.sets))
  unfolding apply
  apply-source k m h = (
    apply_all-active k (map (λ e. e.0) m.factories) none m h,
    apply_all-sets k (map (λ e. e.0) m.factories) none m h,
  )
