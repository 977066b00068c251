-- ===== src/Reconcile/Loop.antt =====
-- internal/reconcile/loop.go: one run of the loop. The observer of the metrics, logging, and the
-- trigger that is only their label are left out. `now` is the time at which the run reads the clock.
pub mod Wakes
use network_mesh_exporter.Base.{
  ℕ, Bool, false, true, not, ◌&&◌, ◌||◌, List, [], ◌∷◌, ◌++◌, Option, none, some, if◌then◌else◌,
}
use network_mesh_exporter.Base.Str.{Str, ◌==◌}
use network_mesh_exporter.Health.Tracker.{Tracker, observe, tick, eligible, mark_assigned}
use network_mesh_exporter.Inventory.{Snapshot}
use network_mesh_exporter.Pairing
use network_mesh_exporter.Pairing.{PairingsConfig, Filter}
use network_mesh_exporter.Slot.{SlotsConfig}
use network_mesh_exporter.State.{State}
use network_mesh_exporter.State.Store.{Store, update}
use network_mesh_exporter.Zone.{Rule}
use network_mesh_exporter.Reconcile.{SideChange, Delta, Input, Env, is_empty}
use network_mesh_exporter.Reconcile.Run.{Stats, Output, reconcile}

-- What the functions of `Deps` return at a run: the configuration that the run reads.
pub record Config : Type 0 where
  pub pairings : PairingsConfig
  pub slots : SlotsConfig
  pub pairing_removal_hold : ℕ
  pub rule : Rule
  pub filter : Option Filter
  pub scanner : SlotsConfig

-- The state of the loop and of what it changes: the tracker, the store, the calls of `OnDelta` so
-- far, and the fields of `Loop`.
pub record Loop : Type 0 where
  pub health : Tracker
  pub store : Store
  pub published : List (Delta × State)
  pub last_delta : Option Delta
  pub last_at : ℕ
  pub last_err : Option Pairing.Error
  pub last_gen : ℕ
  pub ready : Bool

unfoldable pub input : Config → Snapshot → ℕ → Tracker → State → Input
input cfg snap now health current = record {
  snapshot = snap;
  pairings = cfg.pairings;
  slots = cfg.slots;
  pairing_removal_hold = cfg.pairing_removal_hold;
  rule = cfg.rule;
  filter = cfg.filter;
  scanner = cfg.scanner;
  eligible = eligible health;
  current = some current;
  now = now;
}

unfoldable pub mark_all : ℕ → List SideChange → Tracker → Tracker
mark_all now [] t = t
mark_all now (c ∷ cs) t = mark_all now cs (if c.new == [] then t else mark_assigned now c.new t)

-- What a run does with the output of the reconcile.
unfoldable pub apply_output : ℕ → Snapshot → Output → Loop → Loop
apply_output now snap out l =
    let ended = record l {
      last_delta = some out.delta;
      last_at = now;
      last_err = none;
      last_gen = snap.generation;
      ready = true;
    } in
    if not (is_empty out.delta)
    then record ended {
      store = update now out.state l.store;
      health = mark_all now out.delta.sides_changed l.health;
      published = l.published ++ (out.delta, out.state) ∷ [];
    }
    else if not l.ready
    then record ended { published = l.published ++ (out.delta, out.state) ∷ [] }
    else ended

-- The tracker that a run reconciles with.
unfoldable pub observed : Snapshot → ℕ → Loop → Tracker
observed snap now l = (tick now (observe now snap l.health)).0

-- What a run does with the result of the reconcile.
unfoldable pub conclude : ℕ → Snapshot → Loop → Pairing.Result Output → Loop
conclude now snap l (Pairing.err e) = record l { last_err = some e; last_at = now }
conclude now snap l (Pairing.ok out) = apply_output now snap out l

unfoldable pub run_once : Env → Config → Snapshot → ℕ → Loop → Loop
run_once env cfg snap now l =
    let seen = record l { health = observed snap now l } in
    conclude now snap seen (reconcile env now (input cfg snap now seen.health l.store.cur))
