-- ===== src/Reconcile/Run/Valid.antt =====
-- What `Reconcile` of internal/reconcile/reconcile.go promises of the state that it returns.
use network_mesh_exporter.Base.{
  ℕ, ◌≡◌, ◌⊎◌, refl, inl, inr, true, List, All, All-mono, arith, eqb, subst, sym, Bool-cases,
}
use network_mesh_exporter.Base.Str.{Str}
use network_mesh_exporter.Base.Strs.{contains}
use network_mesh_exporter.Pairing
use network_mesh_exporter.Slot.{compute_layout}
use network_mesh_exporter.State.{State, Slot, is_live}
use network_mesh_exporter.State
use network_mesh_exporter.Zone
use network_mesh_exporter.Zone.{Index}
use network_mesh_exporter.Reconcile.{Input, Env, is_super}
use network_mesh_exporter.Reconcile.Diff.{diff_pairings}
use network_mesh_exporter.Reconcile.Fill.Valid.{fill_sides-ok}
use network_mesh_exporter.Reconcile.Run.{Output, assign, starting_state, output, timed, reconcile}
use network_mesh_exporter.Reconcile.Run.Members.{IsMerged, member-fault}
use network_mesh_exporter.Reconcile.Super.Laws.{update_super-base}
use network_mesh_exporter.Reconcile.Validate.{validate_sides}
use network_mesh_exporter.Reconcile.Validate.Laws.{
  SlotOk, IsSettled, SlotOk-IsSettled, validate_sides-PairingOk,
}

-- Each side of a slot is empty or holds a host that is in the inventory, eligible, and in the zone
-- of that side of the pairing. A super slot is left out: its hosts may stand on the other sides.
abbrev pub EntryOk : Input → Str × State.Pairing → Type 0
EntryOk i e =
    is_live e.1 ≡ true
    → All
        (λ s.
          (is_super s ≡ true)
          ⊎ IsSettled i.snapshot i.eligible (Zone.build i.rule i.snapshot) e.1 s)
        e.1.slots

-- The same, by the test of the code.
abbrev Passes : Input → Str × State.Pairing → Type 0
Passes i e =
    is_live e.1 ≡ true
    → All
        (λ s.
          (is_super s ≡ true) ⊎ SlotOk i.snapshot i.eligible (Zone.build i.rule i.snapshot) e.1 s)
        e.1.slots

Passes-EntryOk : (i : Input) (e : Str × State.Pairing) → Passes i e → EntryOk i e
Passes-EntryOk i e h l =
    All-mono
      (λ s p. elim p [
        | inl x ↦ inl x
        | inr y ↦
            inr (SlotOk-IsSettled i.snapshot i.eligible (Zone.build i.rule i.snapshot) e.1 s y)
      ])
      e.1.slots (h l)

pub assign-EntryOk :
    (env : Env) (i : Input) (want : List Pairing.Pairing) (next : State)
    → IsMerged i.snapshot
    → All (EntryOk i) (assign env i (Zone.build i.rule i.snapshot) want next).0.pairings
unfolding assign
assign-EntryOk env i want next merged =
    let idx : Index = Zone.build i.rule i.snapshot in
    let layout = compute_layout env.float64 i.slots in
    let d = diff_pairings layout i.now i.pairing_removal_hold want next.pairings in
    let checked = (validate_sides i.snapshot i.eligible idx d.0.pairings).0 in
    let members_ok =
      λ (zone id : Str) (c : contains id (Zone.members_of zone idx.members) ≡ true)
          (e : i.eligible id ≡ true).
        member-fault i.rule i.snapshot i.eligible zone id merged c e in
    All-mono (Passes-EntryOk i) (assign env i idx want next).0.pairings (
      fill_sides-ok i.snapshot i.eligible idx members_ok i.scanner i.now _ (
        update_super-base (SlotOk i.snapshot i.eligible idx) (λ p ss s q. q) i.now layout i.slots
          i.scanner i.snapshot i.eligible idx checked next.super_hosts
          (validate_sides-PairingOk i.snapshot i.eligible idx d.0.pairings)))

Result-cases {ℓ} :
    {A : Type ℓ} (r : Pairing.Result A)
    → ((x : Pairing.Error) × (r ≡ Pairing.err x)) ⊎ ((a : A) × (r ≡ Pairing.ok a))
Result-cases (Pairing.err x) = inl (x, refl)
Result-cases (Pairing.ok a) = inr (a, refl)

-- A result of a reconcile is the output of the phases.
pub reconcile-output :
    (env : Env) (clock : ℕ) (given : Input) {out : Output}
    → reconcile env clock given ≡ Pairing.ok out
    → (want : List Pairing.Pairing) × (out ≡ output env (timed clock given) want)
unfolding reconcile
reconcile-output env clock given e =
    let i = timed clock given in
    elim (Result-cases
      (Pairing.build env.path_match (Zone.build i.rule i.snapshot) i.pairings i.filter)) [
        | inl (x, xe) ↦ ground arith
        | inr (want, we) ↦ (want, ground arith)
      ]

output-EntryOk :
    (env : Env) (i : Input) (want : List Pairing.Pairing)
    → IsMerged i.snapshot
    → All (EntryOk i) (output env i want).state.pairings
unfolding output
output-EntryOk env i want merged = assign-EntryOk env i want (starting_state env i) merged

timed-EntryOk :
    (env : Env) (clock : ℕ) (given : Input) (want : List Pairing.Pairing)
    → IsMerged given.snapshot
    → All (EntryOk given) (output env (timed clock given) want).state.pairings
unfolding timed
timed-EntryOk env clock given want merged = elim (Bool-cases (eqb given.now 0)) [
  | inl z ↦ rw z (output-EntryOk env (record given { now = clock }) want merged)
  | inr z ↦ rw z (output-EntryOk env given want merged)
]

-- After a reconcile on a snapshot that is sorted by ID and finds each host under its ID, whatever
-- the current table was: in every pairing that is not marked for removal, every side of a slot that
-- is no super slot is empty or holds a host that is in the inventory, eligible, and in the zone of
-- that side.
pub reconcile-EntryOk :
    (env : Env) (clock : ℕ) (given : Input) {out : Output}
    → IsMerged given.snapshot
    → reconcile env clock given ≡ Pairing.ok out
    → All (EntryOk given) out.state.pairings
reconcile-EntryOk env clock given merged e =
    let (want, oe) = reconcile-output env clock given e in
    subst (λ o. All (EntryOk given) o.state.pairings) (sym oe)
      (timed-EntryOk env clock given want merged)
