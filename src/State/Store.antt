-- ===== src/State/Store.antt =====
-- internal/state/store.go: the state in memory and whether it waits to be written. The timer that
-- calls `Flush`, the channel and the locks are left out; each method is one step.
use network_mesh_exporter.Base.{
  ℕ, ◌+◌, ◌≡◌, Bool, false, true, not, Option, none, some, if◌then◌else◌, arith, [],
}
use network_mesh_exporter.State.{State}
use network_mesh_exporter.State

-- The fields of the store, with what is on disk.
pub record Store : Type 0 where
  pub cur : State
  pub dirty : Bool
  pub first_dirty : ℕ
  pub writes : ℕ
  pub failures : ℕ
  pub disk : Option State

unfoldable pub new_store : Option State → Option State → Store
new_store initial disk = record {
  cur = elim initial [ none ↦ State.new [] [] | some st ↦ st ];
  dirty = false;
  first_dirty = 0;
  writes = 0;
  failures = 0;
  disk = disk;
}

unfoldable pub update : ℕ → State → Store → Store
update now st s =
    if s.dirty
    then record s { cur = st }
    else record s { cur = st; dirty = true; first_dirty = now }

-- `Flush`, where `saved` is whether `Save` succeeds. A `Save` that fails leaves the file.
unfoldable pub flush : ℕ → Bool → Store → Store × Bool
flush now saved s =
    if not s.dirty
    then (s, false)
    else if saved
    then (
      record s { dirty = false; first_dirty = 0; writes = s.writes + 1; disk = some s.cur },
      true,
    )
    else (record s { dirty = true; first_dirty = now; failures = s.failures + 1 }, false)

-- Updates, and writes that succeed or fail.
pub data Step : Store → Store → Type 0 where
  updated : (now : ℕ) (st : State) (s : Store) → Step s (update now st s)
  flushed : (now : ℕ) (saved : Bool) (s : Store) → Step s (flush now saved s).0

pub data Steps : Store → Store → Type 0 where
  done : (s : Store) → Steps s s
  more : {s t u : Store} → Steps s t → Step t u → Steps s u

abbrev pub IsSynced : Store → Type 0
IsSynced s = s.dirty ≡ false → s.disk ≡ some s.cur

step-IsSynced : {s t : Store} → Step s t → IsSynced s → IsSynced t
unfolding update flush
step-IsSynced (updated now st s) h = λ e. ground (arith, h)
step-IsSynced (flushed now saved s) h = λ e. ground (arith, h)

-- A store whose state is on disk unless it is dirty remains so through every sequence of updates and
-- of writes that succeed or fail.
pub Steps-IsSynced : {s t : Store} → Steps s t → IsSynced s → IsSynced t
Steps-IsSynced (done s) h = h
Steps-IsSynced (more r x) h = step-IsSynced x (Steps-IsSynced r h)
