-- ===== src/Reconcile/Loop/Wakes.antt =====
-- internal/reconcile/loop.go: the select loop of `Run` and the channel of triggers. A case of the
-- select is one step, at one time of the clock. The timer is the time at which it fires, or none
-- while it is not armed, and `runs` are the triggers of the runs so far, as the observer sees them.
pub mod Served
use network_mesh_exporter.Base.{
  ℕ, ◌+◌, ◌-◌, Bool, false, true, not, List, [], ◌∷◌, ◌++◌, Option, none, some, if◌then◌else◌, ltb,
  eqb, ◌≤◌, ◌≡◌,
}
use network_mesh_exporter.Health.Tracker.{Tracker, tick, next_deadline}
use network_mesh_exporter.Inventory.{Snapshot}
use network_mesh_exporter.Reconcile.{Env}
use network_mesh_exporter.Reconcile.Loop.{Loop, Config, run_once}

pub data Trigger : Type 0 where
  by_provider : Trigger
  by_config : Trigger
  by_health : Trigger
  by_timer : Trigger
  by_tick : Trigger
  by_api : Trigger
  by_start : Trigger

-- What a wake reads: the clock, the configuration, the generation of the inventory at the test of
-- `inventoryChanged`, and the snapshot that the run takes.
pub record Reads : Type 0 where
  pub now : ℕ
  pub cfg : Config
  pub generation : ℕ
  pub snap : Snapshot

-- The loop with its channel, which holds at most one trigger, and the variables of `Run`.
pub record Waits : Type 0 where
  pub loop : Loop
  pub requested : Option Trigger
  pub deadline : Option ℕ
  pub runs : List Trigger

-- `NewLoop`, before `Run`.
unfoldable pub new_waits : Loop → Waits
new_waits l = record { loop = l; requested = none; deadline = none; runs = [] }

-- The send that does not block; a trigger that is in the channel absorbs the new one.
abbrev pub offer : Trigger → Option Trigger → Option Trigger
offer t none = some t
offer t (some u) = some u

-- `Trigger`.
unfoldable pub request : Trigger → Waits → Waits
request t w = record w { requested = offer t w.requested }

-- The closure `armDeadline`; the deadline is at least 50 milliseconds away.
unfoldable pub arm_deadline : ℕ → Waits → Waits
arm_deadline now w =
    let at = next_deadline w.loop.health in
    let d = if ltb (at - now) 50000000 then 50000000 else at - now in
    record w { deadline = if eqb at 0 then none else some (now + d) }

-- `RunNow`, and every run of the loop.
unfoldable pub run_now : Env → Trigger → Reads → Waits → Waits
run_now env t r w = record w {
  loop = run_once env r.cfg r.snap r.now w.loop;
  runs = w.runs ++ t ∷ [];
}

-- The start of `Run`.
unfoldable pub begin : Env → Reads → Waits → Waits
begin env r w = arm_deadline r.now (run_now env by_start r w)

-- The case of the channel, where it holds `t`.
unfoldable pub receive : Env → Trigger → Reads → Waits → Waits
receive env t r w = arm_deadline r.now (run_now env t r (record w { requested = none }))

abbrev pub is_none : {A : Type 0} → List A → Bool
is_none [] = true
is_none (x ∷ xs) = false

abbrev pub advance : Tracker → Waits → Waits
advance h w = record w { loop = record w.loop { health = h } }

unfoldable pub inventory_changed : ℕ → Loop → Bool
inventory_changed generation l = not (eqb generation l.last_gen)

-- The case of the ticker.
unfoldable pub ticked : Env → Reads → Waits → Waits
ticked env r w =
    let (h, changed) = tick r.now w.loop.health in
    let v = advance h w in
    let t =
      if not (is_none changed)
      then by_health
      else if inventory_changed r.generation v.loop
      then by_provider
      else by_tick in
    arm_deadline r.now (run_now env t r v)

-- The case of the timer, which has fired.
unfoldable pub expired : Env → Reads → Waits → Waits
expired env r w =
    let (h, changed) = tick r.now w.loop.health in
    let v = record (advance h w) { deadline = none } in
    arm_deadline r.now (if is_none changed then v else run_now env by_timer r v)

-- The calls of `Trigger`, as its callers see them: how many there were, how many of them a run took
-- from the channel, the time of the last step, and the time of the latest call.
pub record Requests : Type 0 where
  pub made : ℕ
  pub taken : ℕ
  pub clock : ℕ
  pub latest : ℕ

-- The steps of `Run`, of the callers of `Trigger` and `RunNow`, and of what else changes the tracker.
-- The clock does not go back.
pub data Step (env : Env) : Requests → Waits → Requests → Waits → Type 0 where
  requests :
      (q : Requests) (w : Waits) (t : Trigger) (now : ℕ)
      → q.clock ≤ now
      → Step env q w (record q { made = q.made + 1; clock = now; latest = now }) (request t w)
  receives :
      (q : Requests) (w : Waits) (t : Trigger) (r : Reads)
      → q.clock ≤ r.now
      → w.requested ≡ some t
      → Step env q w (record q { taken = q.taken + 1; clock = r.now }) (receive env t r w)
  ticks :
      (q : Requests) (w : Waits) (r : Reads)
      → q.clock ≤ r.now
      → Step env q w (record q { clock = r.now }) (ticked env r w)
  expires :
      (q : Requests) (w : Waits) (r : Reads) (d : ℕ)
      → q.clock ≤ r.now
      → w.deadline ≡ some d
      → d ≤ r.now
      → Step env q w (record q { clock = r.now }) (expired env r w)
  runs_now :
      (q : Requests) (w : Waits) (t : Trigger) (r : Reads)
      → q.clock ≤ r.now
      → Step env q w (record q { clock = r.now }) (run_now env t r w)
  reports : (q : Requests) (w : Waits) (h : Tracker) → Step env q w q (advance h w)

-- The states after the start of `Run`.
pub data Reachable (env : Env) : Requests → Waits → Type 0 where
  started :
      (l : Loop) (r : Reads)
      → Reachable env
          (record { made = 0; taken = 0; clock = r.now; latest = 0 })
          (begin env r (new_waits l))
  stepped :
      {q p : Requests} {v w : Waits} → Reachable env q v → Step env q v p w → Reachable env p w
