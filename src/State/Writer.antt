-- ===== src/State/Writer.antt =====
-- internal/state/store.go: the debounced writes of `Run`. The timer is the time at which it fires, or
-- none while it is not armed, and the channel `kick` holds a message or not. A write is one step.
pub mod Bounded
use network_mesh_exporter.Base.{
  ℕ, ◌+◌, ◌-◌, ◌*◌, Bool, false, true, not, ◌&&◌, ◌||◌, Option, none, some, if◌then◌else◌, ltb, leb,
  eqb, ◌≤◌, ◌≡◌, ◌<◌,
}
use network_mesh_exporter.Base.Int.{ℤ, pos, negsuc, ltb_ℤ}
use network_mesh_exporter.State.{State}
use network_mesh_exporter.State.Store.{Store, new_store, update, flush}

-- The variables of `Run`, with the store and the channel.
pub record Writer : Type 0 where
  pub debounce : ℕ
  pub max_delay : ℕ
  pub timer : Option ℕ
  pub kick : Bool
  pub store : Store

-- `debounce` with its default of 60 seconds.
abbrev pub debounce_of : ℤ → ℕ
debounce_of (pos n) = if eqb n 0 then 60000000000 else n
debounce_of (negsuc n) = 60000000000

abbrev nanos : ℤ → ℕ
nanos (pos n) = n
nanos (negsuc n) = 0

-- The start of `Run`, with the two delays of the configuration.
unfoldable pub start : ℤ → ℤ → Store → Writer
start debounce max_delay s =
    let d = debounce_of debounce in
    record {
      debounce = d;
      max_delay = if ltb (nanos max_delay) d then 5 * d else nanos max_delay;
      timer = none;
      kick = false;
      store = s;
    }

-- `Update`, which sends to the channel.
unfoldable pub put : ℕ → State → Writer → Writer
put now st w = record w { store = update now st w.store; kick = true }

-- How long the timer is set to.
abbrev pub wait_for : ℕ → Writer → ℕ
wait_for now w =
    let first = w.store.first_dirty in
    let remain = w.max_delay - (now - first) in
    if eqb first 0 then w.debounce else if ltb remain w.debounce then remain else w.debounce

abbrev pub is_armed : Option ℕ → Bool
is_armed none = false
is_armed (some d) = true

-- The case of the channel.
unfoldable pub kicked : ℕ → Writer → Writer
kicked now w =
    let first = w.store.first_dirty in
    if is_armed w.timer && not (eqb first 0) && leb w.max_delay (now - first)
    then record w { kick = false }
    else record w { kick = false; timer = some (now + wait_for now w) }

-- The case of the timer, where `saved` is whether the write succeeds.
unfoldable pub fired : ℕ → Bool → Writer → Writer
fired now saved w =
    let store = (flush now saved w.store).0 in
    if w.store.dirty && not saved
    then record w { store = store; timer = some (now + w.debounce) }
    else record w { store = store; timer = none }

-- A write from elsewhere, or at the end of `Run`.
unfoldable pub flushed : ℕ → Bool → Writer → Writer
flushed now saved w = record w { store = (flush now saved w.store).0 }

-- Since when a change waits to be written, or 0 where none does: since the first change after the last
-- write, or since the last write where that failed.
abbrev pub asked : ℕ → ℕ → ℕ
asked now since = if eqb since 0 then now else since

abbrev pub tried : ℕ → Bool → ℕ → ℕ
tried now saved since = if eqb since 0 || saved then 0 else now

-- What can happen at a time, after an earlier one, and since when a change waits before and after.
pub data Step : ℕ → ℕ → Writer → ℕ → ℕ → Writer → Type 0 where
  updates :
      (earlier now since : ℕ) (st : State) (w : Writer)
      → earlier ≤ now
      → Step earlier since w now (asked now since) (put now st w)
  kicks :
      (earlier now since : ℕ) (w : Writer)
      → earlier ≤ now
      → w.kick ≡ true
      → Step earlier since w now since (kicked now w)
  fires :
      (earlier now since d : ℕ) (saved : Bool) (w : Writer)
      → earlier ≤ now
      → w.timer ≡ some d
      → d ≤ now
      → Step earlier since w now (tried now saved since) (fired now saved w)
  flushes :
      (earlier now since : ℕ) (saved : Bool) (w : Writer)
      → earlier ≤ now
      → Step earlier since w now (tried now saved since) (flushed now saved w)

pub data Reachable (debounce max_delay : ℤ) : ℕ → ℕ → Writer → Type 0 where
  started :
      (now : ℕ) (s : Store)
      → 0 < now
      → s.dirty ≡ false
      → s.first_dirty ≡ 0
      → Reachable debounce max_delay now 0 (start debounce max_delay s)
  stepped :
      {earlier now since later : ℕ} {v w : Writer}
      → Reachable debounce max_delay earlier since v
      → Step earlier since v now later w
      → Reachable debounce max_delay now later w
