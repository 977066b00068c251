-- ===== src/Slot.antt =====
-- internal/slot/slot.go: the class layout of a slot table and the scans that choose hosts.
-- A set of hosts (`map[string]bool`) is a Boolean function, as is the map of use counts a function
-- into numbers. Go strings are byte lists, so an empty ID is `[]`.
pub mod Layouts
pub mod Scans
pub mod Picks
pub mod Least
pub mod Ranks
pub mod Supers
use Prim.Native.Nat.{bit_xor}
use network_mesh_exporter.Base.{
  ℕ, suc, zero, ◌+◌, ◌-◌, ◌*◌, ◌%◌, ◌^◌, Bool, false, true, not, ◌&&◌, ◌||◌, List, [], ◌∷◌, ◌++◌,
  Option, none, some, length, get_elem?, keep, if◌then◌else◌, ltb, leb, eqb,
}
use network_mesh_exporter.Base.Int.{ℤ, pos, negsuc, pos_part, neg_part, ltb_ℤ}
use network_mesh_exporter.Base.Map.{Map, lookup}
use network_mesh_exporter.Base.Sort.{sort}
use network_mesh_exporter.Base.Str.{Str, ◌==◌, str_ltb, bytes}
use network_mesh_exporter.Base.Strs.{contains}
use network_mesh_exporter.Inventory.{HostRecord, Snapshot, get}

-- The class string of a slot: one of the three constants, or any other, such as the empty one of
-- a slot that is new.
pub data Class : Type 0 where
  anchor diverse super : Class
  other : Str → Class

pub data Side : Type 0 where
  side_a side_b : Side

pub data Rank : Type 0 where
  unfilled unique min_use any : Rank

pub record Layout : Type 0 where
  pub total : ℕ
  pub anchors : ℕ
  pub diverse : ℕ

-- `config.SlotsConfig`. The ratio is the bit pattern of a float64. The two numbers of super hosts
-- stand for 0 where the source has a negative number, which it treats alike.
pub record SlotsConfig : Type 0 where
  pub count : ℤ
  pub anchor_ratio : ℕ
  pub anchor_rounding : Str
  pub super_hosts : ℕ
  pub super_selector : Map Str
  pub super_max_targets : ℕ
  pub allow_reuse : Bool

-- The float64 operations that are used, on bit patterns: conversion from an int, product, floor,
-- ceiling, conversion to an int, and `x > 0`.
pub record Float64 : Type 0 where
  pub of_int : ℕ → ℕ
  pub mul : ℕ → ℕ → ℕ
  pub floor : ℕ → ℕ
  pub ceil : ℕ → ℕ
  pub to_int : ℕ → ℤ
  pub gt_zero : ℕ → Bool

unfoldable pub compute_layout : Float64 → SlotsConfig → Layout
compute_layout fl cfg =
    let total = if ltb_ℤ cfg.count (pos 0) then 0 else pos_part cfg.count in
    let raw = fl.mul (fl.of_int total) cfg.anchor_ratio in
    let rounded =
      if cfg.anchor_rounding == bytes "down"
      then fl.to_int (fl.floor raw)
      else fl.to_int (fl.ceil raw) in
    let capped = if ltb_ℤ (pos total) rounded then pos total else rounded in
    let clamped = if ltb_ℤ capped (pos 0) then 0 else pos_part capped in
    let anchors =
      if eqb clamped 0 && (fl.gt_zero cfg.anchor_ratio && ltb 0 total) then 1 else clamped in
    record { total = total; anchors = anchors; diverse = total - anchors }

unfoldable pub class_at : Layout → ℕ → Class
class_at l i = if ltb i l.anchors then anchor else diverse

pub record Candidates : Type 0 where
  pub zone : Str
  pub hosts : List Str
  pub use_count : Str → ℕ

-- A nil predicate is `none`.
abbrev pub passes : Option (Str → Bool) → Str → Bool
passes none id = true
passes (some eligible) id = eligible id

unfoldable pub new_candidates : Str → List Str → Option (Str → Bool) → Candidates
new_candidates z members eligible = record {
  zone = z;
  hosts = keep (passes eligible) members;
  use_count = λ id. 0;
}

unfoldable pub use_host : Str → Candidates → Candidates
use_host id c = record c { use_count = λ h. if h == id then c.use_count h + 1 else c.use_count h }

-- The subtraction is exact, since it is made above 0 only.
unfoldable pub release_host : Str → Candidates → Candidates
release_host id c = record c {
  use_count = λ h. if h == id && ltb 0 (c.use_count h) then c.use_count h - 1 else c.use_count h;
}

unfoldable pub has_host : Str → Candidates → Bool
has_host id c = contains id c.hosts

-- The loop of `minUse`, where `none` is the start value `math.MaxInt`.
unfoldable pub least_use : (Str → ℕ) → Option ℕ → List Str → Option ℕ
least_use use_count least [] = least
least_use use_count least (h ∷ hs) =
    let lower : Bool = elim least [ none ↦ true | some n ↦ ltb (use_count h) n ] in
    least_use use_count (if lower then some (use_count h) else least) hs

unfoldable pub min_use_count : Candidates → ℕ
min_use_count c = elim (least_use c.use_count none c.hosts) [ none ↦ 0 | some n ↦ n ]

-- `fnv.New32a`: the FNV-1a hash of 32 bits.
unfoldable pub fnv32a_from : ℕ → Str → ℕ
fnv32a_from h [] = h
fnv32a_from h (b ∷ s) = fnv32a_from (bit_xor h b * 16_777_619 % 2 ^ 32) s

unfoldable pub start_offset : Str → ℕ → ℕ
unfolding fnv32a_from
start_offset pk n = if eqb n 0 then 0 else fnv32a_from 2_166_136_261 pk % (n % 2 ^ 32)

-- The loop of `scan` from round `i` on, with `left` rounds to go.
unfoldable pub scan_from : List Str → ℕ → (Str → Bool) → (Str → Bool) → ℕ → ℕ → Option Str
scan_from hosts start exclude pred i zero = none
scan_from hosts start exclude pred i (suc left) =
    let rest = scan_from hosts start exclude pred (suc i) left in
    elim (get_elem? hosts ((start + i) % length hosts)) [
      | none ↦ rest
      | some h ↦ if exclude h then rest else if pred h then some h else rest
    ]

unfoldable pub scan : Candidates → ℕ → (Str → Bool) → (Str → Bool) → Option Str
scan c start exclude pred = scan_from c.hosts start exclude pred 0 (length c.hosts)

-- The third rank of `Pick`.
pick_any : Candidates → ℕ → (Str → Bool) → Str × Rank
pick_any c start exclude = elim (scan c start exclude (λ h. true)) [
  | some id ↦ (id, any)
  | none ↦ ([], unfilled)
]

-- The second rank, at the lowest use count.
pick_least : Candidates → ℕ → (Str → Bool) → Str × Rank
unfolding pick_any
pick_least c start exclude =
    elim (scan c start exclude (λ h. eqb (c.use_count h) (min_use_count c))) [
      | some id ↦ (id, min_use)
      | none ↦ pick_any c start exclude
    ]

unfoldable pub pick : SlotsConfig → Str → Candidates → (Str → Bool) → Str × Rank
unfolding pick_least
pick cfg pk c exclude =
    let start = start_offset pk (length c.hosts) in
    let found : Str × Rank = elim (scan c start exclude (λ h. eqb (c.use_count h) 0)) [
      | some id ↦ (id, unique)
      | none ↦ if cfg.allow_reuse then pick_least c start exclude else ([], unfilled)
    ] in
    if eqb (length c.hosts) 0 then ([], unfilled) else found

unfoldable pub pick_anchor : Str → Candidates → (Str → Bool) → Str × Rank
pick_anchor pk c exclude =
    let found : Str × Rank = elim (scan c (start_offset pk (length c.hosts)) exclude (λ h. true)) [
      | some id ↦ (id, if ltb 0 (c.use_count id) then min_use else unique)
      | none ↦ ([], unfilled)
    ] in
    if eqb (length c.hosts) 0 then ([], unfilled) else found

unfoldable pub match_selector : HostRecord → Map Str → Bool
match_selector h [] = true
match_selector h ((k, want) ∷ sel) =
    let rest = match_selector h sel in
    elim (lookup k h.attributes) [ none ↦ false | some got ↦ if got == want then rest else false ]

-- The first loop of `PickSuper`: the previous selection, as far as it is still valid.
unfoldable pub keep_current : ℕ → (Str → Bool) → List Str → List Str → List Str
keep_current want valid out [] = out
keep_current want valid out (id ∷ ids) =
    let next = if valid id then out ++ id ∷ [] else out in
    if leb want (length out) then out else keep_current want valid next ids

-- The second and third loop: members that satisfy a test and are not chosen yet. The list `out`
-- is what the source's map `chosen` holds, beside the list itself.
unfoldable pub fill_up : ℕ → (Str → Bool) → List Str → List Str → List Str
fill_up want test out [] = out
fill_up want test out (id ∷ ids) =
    let next = if not (contains id out) && test id then out ++ id ∷ [] else out in
    if leb want (length out) then out else fill_up want test next ids

unfoldable pub selected : Snapshot → Map Str → Str → Bool
selected snap sel id = elim (get snap id) [ none ↦ false | some h ↦ match_selector h sel ]

unfoldable pub pick_super :
    SlotsConfig → List Str → Snapshot → List Str → Option (Str → Bool) → List Str
pick_super cfg members snap current eligible =
    let want = cfg.super_hosts in
    let kept = keep_current want (λ id. contains id members && passes eligible id) [] current in
    let chosen =
      if ltb 0 (length cfg.super_selector)
      then fill_up want (λ id. passes eligible id && selected snap cfg.super_selector id) kept
          members
      else kept in
    let filled = fill_up want (passes eligible) chosen members in
    if eqb want 0 then [] else if leb want (length kept) then kept else sort str_ltb filled
