-- ===== src/Slot/Supers.antt =====
-- `PickSuper` of internal/slot/slot.go.
use network_mesh_exporter.Base.{
  ℕ, ◌+◌, ◌≤◌, ◌<◌, ◌≡◌, sym, subst, Bool, true, not, ◌&&◌, List, [], ◌∷◌, ◌++◌, Option, length,
  length-append, All, All-append, arith, if◌then◌else◌, ltb, leb, eqb, All-mono, Bool-cases, inl,
  inr,
}
use network_mesh_exporter.Base.Sort.{length-sort, All-sort}
use network_mesh_exporter.Base.Str.{Str, str_ltb}
use network_mesh_exporter.Base.Strs.{contains, contains-append, contains-sort, contains_self}
use network_mesh_exporter.Inventory.{Snapshot}
use network_mesh_exporter.Slot.{SlotsConfig, passes, keep_current, fill_up, selected, pick_super}

module _ (P : Str → Type 0) (want : ℕ) (test : Str → Bool) where
  All-snoc : (xs : List Str) (x : Str) → All P xs → P x → All P (xs ++ x ∷ [])
  All-snoc xs x h p = All-append P xs (x ∷ []) h (p, tt)

  keep_current-All :
      (out ids : List Str)
      → ((id : Str) → test id ≡ true → P id)
      → All P out
      → All P (keep_current want test out ids)
  unfolding keep_current
  keep_current-All out [] f h = h
  keep_current-All out (id ∷ ids) f h = ground (
    arith,
    keep_current-All (if test id then out ++ id ∷ [] else out) ids f,
    All-snoc out id h,
    f id,
  )

  fill_up-All :
      (out ids : List Str)
      → All (λ id. test id ≡ true → P id) ids
      → All P out
      → All P (fill_up want test out ids)
  unfolding fill_up
  fill_up-All out [] f h = h
  fill_up-All out (id ∷ ids) f h = ground (
    arith,
    fill_up-All (if not (contains id out) && test id then out ++ id ∷ [] else out) ids f.1,
    All-snoc out id h,
  )

contains-snoc : (a : Str) (xs : List Str) → contains a (xs ++ a ∷ []) ≡ true
unfolding contains
contains-snoc a [] = ground arith
contains-snoc a (x ∷ xs) = ground (arith, contains-snoc a xs)

module _ (want : ℕ) (test : Str → Bool) where
  length-keep_current :
      (out ids : List Str) → length out ≤ want → length (keep_current want test out ids) ≤ want
  unfolding keep_current
  length-keep_current out [] h = h
  length-keep_current out (id ∷ ids) h = ground (
    arith,
    length-append out (id ∷ []),
    length-keep_current (if test id then out ++ id ∷ [] else out) ids,
  )

  length-fill_up :
      (out ids : List Str) → length out ≤ want → length (fill_up want test out ids) ≤ want
  unfolding fill_up
  length-fill_up out [] h = h
  length-fill_up out (id ∷ ids) h = ground (
    arith,
    length-append out (id ∷ []),
    length-fill_up (if not (contains id out) && test id then out ++ id ∷ [] else out) ids,
  )

  fill_up-keeps :
      (out ids : List Str) (a : Str)
      → contains a out ≡ true
      → contains a (fill_up want test out ids) ≡ true
  unfolding fill_up
  fill_up-keeps out [] a h = h
  fill_up-keeps out (id ∷ ids) a h = ground (
    arith,
    contains-append a out (id ∷ []),
    fill_up-keeps (if not (contains id out) && test id then out ++ id ∷ [] else out) ids a,
  )

  -- What is not full holds every element that passes.
  fill_up-full :
      (out ids : List Str)
      → length (fill_up want test out ids) < want
      → All (λ a. test a ≡ true → contains a (fill_up want test out ids) ≡ true) ids
  unfolding fill_up
  fill_up-full out [] h = tt
  fill_up-full out (id ∷ ids) h = elim (Bool-cases (leb want (length out))) [
    | inl e ↦ absurd (ground arith)
    | inr e ↦
        let next : List Str = if not (contains id out) && test id then out ++ id ∷ [] else out in
        let step : fill_up want test out (id ∷ ids) ≡ fill_up want test next ids = ground arith in
        let held : test id ≡ true → contains id next ≡ true =
          λ t. ground (arith, contains-snoc id out) in
        subst (λ r. All (λ a. test a ≡ true → contains a r ≡ true) (id ∷ ids)) (sym step)
          ((λ t. fill_up-keeps next ids id (held t)), fill_up-full next ids (ground arith))
  ]

  keep_current-keeps :
      (out ids : List Str) (a : Str)
      → contains a out ≡ true
      → contains a (keep_current want test out ids) ≡ true
  unfolding keep_current
  keep_current-keeps out [] a h = h
  keep_current-keeps out (id ∷ ids) a h = ground (
    arith,
    contains-append a out (id ∷ []),
    keep_current-keeps (if test id then out ++ id ∷ [] else out) ids a,
  )

  -- Where there is room for all, everything that passes is kept.
  keep_current-All' :
      (out ids : List Str)
      → length out + length ids ≤ want
      → All (λ a. test a ≡ true → contains a (keep_current want test out ids) ≡ true) ids
  unfolding keep_current
  keep_current-All' out [] h = tt
  keep_current-All' out (id ∷ ids) h =
      let next : List Str = if test id then out ++ id ∷ [] else out in
      let step : keep_current want test out (id ∷ ids) ≡ keep_current want test next ids =
        ground arith in
      let room : length next + length ids ≤ want = ground (arith, length-append out (id ∷ [])) in
      let held : test id ≡ true → contains id next ≡ true =
        λ t. ground (arith, contains-snoc id out) in
      subst (λ r. All (λ a. test a ≡ true → contains a r ≡ true) (id ∷ ids)) (sym step)
        ((λ t. keep_current-keeps next ids id (held t)), keep_current-All' next ids room)

module _ (cfg : SlotsConfig) (members : List Str) (snap : Snapshot) (current : List Str)
    (eligible : Option (Str → Bool)) where
  -- A host that may be a super host: a member of the zone that is eligible.
  abbrev pub MaySuper : Str → Type 0
  MaySuper id = (contains id members ≡ true) × (passes eligible id ≡ true)

  abbrev kept : List Str
  kept = keep_current cfg.super_hosts (λ id. contains id members && passes eligible id) [] current

  abbrev chosen : List Str
  chosen =
      if ltb 0 (length cfg.super_selector)
      then fill_up cfg.super_hosts (λ id. passes eligible id && selected snap cfg.super_selector id)
          kept members
      else kept

  kept-MaySuper : All MaySuper kept
  kept-MaySuper = keep_current-All MaySuper cfg.super_hosts _ [] current (λ id h. ground arith) tt

  fill-MaySuper :
      (test : Str → Bool) (out : List Str)
      → ((id : Str) → test id ≡ true → passes eligible id ≡ true)
      → All MaySuper out
      → All MaySuper (fill_up cfg.super_hosts test out members)
  fill-MaySuper test out f h =
      fill_up-All MaySuper cfg.super_hosts test out members
        (All-mono (λ id m t. (m, f id t)) members (contains_self members)) h

  chosen-MaySuper : All MaySuper chosen
  chosen-MaySuper = elim (Bool-cases (ltb 0 (length cfg.super_selector))) [
    | inl e ↦ rw e (fill-MaySuper _ kept (λ id t. ground arith) kept-MaySuper)
    | inr e ↦ rw e kept-MaySuper
  ]

  -- Every super host of a zone is an eligible member of the zone.
  pub pick_super-MaySuper : All MaySuper (pick_super cfg members snap current eligible)
  unfolding pick_super
  pick_super-MaySuper = ground (
    arith,
    kept-MaySuper,
    All-sort str_ltb MaySuper (fill_up cfg.super_hosts (passes eligible) chosen members)
        (fill-MaySuper (passes eligible) chosen (λ id t. t) chosen-MaySuper),
  )

  length-kept : length kept ≤ cfg.super_hosts
  length-kept = length-keep_current cfg.super_hosts _ [] current (omega arith)

  length-chosen : length chosen ≤ cfg.super_hosts
  length-chosen = elim (Bool-cases (ltb 0 (length cfg.super_selector))) [
    | inl e ↦ rw e (length-fill_up cfg.super_hosts _ kept members length-kept)
    | inr e ↦ rw e length-kept
  ]

  -- A zone has at most the configured number of super hosts.
  pub length-pick_super : length (pick_super cfg members snap current eligible) ≤ cfg.super_hosts
  unfolding pick_super
  length-pick_super = ground (
    arith,
    length-kept,
    length-sort str_ltb (fill_up cfg.super_hosts (passes eligible) chosen members),
    length-fill_up cfg.super_hosts (passes eligible) chosen members length-chosen,
  )

  -- A zone that has fewer super hosts than configured has no eligible member left over.
  pub pick_super-full :
      length (pick_super cfg members snap current eligible) < cfg.super_hosts
      → All
          (λ id.
            passes eligible id ≡ true
            → contains id (pick_super cfg members snap current eligible) ≡ true)
          members
  unfolding pick_super
  pick_super-full h = elim (Bool-cases (eqb cfg.super_hosts 0)) [
    | inl z ↦ absurd (ground arith)
    | inr z ↦ elim (Bool-cases (leb cfg.super_hosts (length kept))) [
      | inl full ↦ absurd (ground arith)
      | inr room ↦
          let filled : List Str = fill_up cfg.super_hosts (passes eligible) chosen members in
          let short : length filled < cfg.super_hosts =
            ground (arith, length-sort str_ltb filled) in
          let all = fill_up-full cfg.super_hosts (passes eligible) chosen members short in
          rw (z, room, pick_super)
            (All-mono (λ id f t. rw (contains-sort str_ltb id filled) (f t)) members all)
    ]
  ]

  chosen-keeps : (a : Str) → contains a kept ≡ true → contains a chosen ≡ true
  chosen-keeps a h = ground (
    arith,
    fill_up-keeps cfg.super_hosts (λ id. passes eligible id && selected snap cfg.super_selector id)
        kept members a h,
  )

  pick_super-keeps :
      (a : Str)
      → 0 < cfg.super_hosts
      → contains a kept ≡ true
      → contains a (pick_super cfg members snap current eligible) ≡ true
  unfolding pick_super
  pick_super-keeps a z h = ground (
    arith,
    contains-sort str_ltb a (fill_up cfg.super_hosts (passes eligible) chosen members),
    fill_up-keeps cfg.super_hosts (passes eligible) chosen members a (chosen-keeps a h),
  )

  -- A super host that is still an eligible member of the zone stays a super host, where super hosts
  -- are configured and the previous selection is not larger than the configured number.
  pub pick_super_sticky :
      0 < cfg.super_hosts
      → length current ≤ cfg.super_hosts
      → All
          (λ id. MaySuper id → contains id (pick_super cfg members snap current eligible) ≡ true)
          current
  pick_super_sticky z fits =
      All-mono (λ id f m. pick_super-keeps id z (f (ground arith))) current
        (keep_current-All' cfg.super_hosts (λ id. contains id members && passes eligible id) []
          current (omega arith))
