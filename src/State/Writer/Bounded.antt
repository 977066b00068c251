-- ===== src/State/Writer/Bounded.antt =====
-- internal/state/store.go: no change waits for longer than the longest delay.
use network_mesh_exporter.Base.{
  ℕ, ◌+◌, ◌≤◌, ◌<◌, ◌≡◌, ◌⊎◌, refl, subst, inl, inr, Bool, false, true, Option, none, some, arith,
}
use network_mesh_exporter.Base.Int.{ℤ}
use network_mesh_exporter.State.{State}
use network_mesh_exporter.State.Store.{Store, update, flush}
use network_mesh_exporter.State.Writer.{
  Writer, start, put, is_armed, kicked, fired, Step, updates, kicks, fires, flushes, flushed,
  Reachable, started, stepped,
}

-- A time at which the timer fires is no later than the longest delay after `first`, or has passed.
abbrev pub IsDue : ℕ → ℕ → ℕ → Type 0
IsDue limit now d = (d ≤ limit) ⊎ (d ≤ now)

abbrev TimerIs {κ} : (ℕ → Type κ) → Option ℕ → Type κ
TimerIs P none = Unit
TimerIs P (some d) = P d

-- What holds at every time: the delays, the timer, and the mark of a change.
record IsTimed (now : ℕ) (w : Writer) : Type 0 where
  positive : 0 < w.debounce
  delays : w.debounce ≤ w.max_delay
  clock : 0 < now
  near : TimerIs (λ d. d ≤ now + w.debounce) w.timer
  clean : w.store.dirty ≡ false → w.store.first_dirty ≡ 0
  marked : w.store.dirty ≡ true → (0 < w.store.first_dirty) × (w.store.first_dirty ≤ now)
  due : w.store.dirty ≡ true → TimerIs (IsDue (w.store.first_dirty + w.max_delay) now) w.timer
  pending : w.store.dirty ≡ true → (w.kick ≡ true) ⊎ (is_armed w.timer ≡ true)

start-IsTimed :
    (debounce max_delay : ℤ) (now : ℕ) (s : Store)
    → 0 < now
    → s.dirty ≡ false
    → s.first_dirty ≡ 0
    → IsTimed now (start debounce max_delay s)
unfolding start
start-IsTimed debounce max_delay now s c d f = record {
  positive = ground arith;
  delays = ground arith;
  clock = c;
  near = tt;
  clean = λ e. f;
  marked = λ e. ground (arith, d, e);
  due = λ e. tt;
  pending = λ e. ground (arith, d, e);
}

put-IsTimed :
    (earlier now : ℕ) (st : State) (w : Writer)
    → earlier ≤ now
    → IsTimed earlier w
    → IsTimed now (put now st w)
unfolding put update
put-IsTimed earlier now st w l h = record {
  positive = ground arith;
  delays = ground arith;
  clock = ground arith;
  near = ground arith;
  clean = λ e. ground arith;
  marked = λ e. ground arith;
  due = λ e. ground arith;
  pending = λ e. ground arith;
}

kicked-IsTimed :
    (earlier now : ℕ) (w : Writer) → earlier ≤ now → IsTimed earlier w → IsTimed now (kicked now w)
unfolding kicked
kicked-IsTimed earlier now w l h = record {
  positive = ground arith;
  delays = ground arith;
  clock = ground arith;
  near = ground arith;
  clean = λ e. ground arith;
  marked = λ e. ground arith;
  due = λ e. ground arith;
  pending = λ e. ground arith;
}

fired-IsTimed :
    (earlier now : ℕ) (saved : Bool) (w : Writer)
    → earlier ≤ now
    → IsTimed earlier w
    → IsTimed now (fired now saved w)
unfolding fired flush
fired-IsTimed earlier now saved w l h = record {
  positive = ground arith;
  delays = ground arith;
  clock = ground arith;
  near = ground arith;
  clean = λ e. ground arith;
  marked = λ e. ground arith;
  due = λ e. ground arith;
  pending = λ e. ground arith;
}

flushed-IsTimed :
    (earlier now : ℕ) (saved : Bool) (w : Writer)
    → earlier ≤ now
    → IsTimed earlier w
    → IsTimed now (flushed now saved w)
unfolding flushed flush
flushed-IsTimed earlier now saved w l h = record {
  positive = ground arith;
  delays = ground arith;
  clock = ground arith;
  near = ground arith;
  clean = λ e. ground arith;
  marked = λ e. ground arith;
  due = λ e. ground arith;
  pending = λ e. ground arith;
}

step-IsTimed :
    {earlier now since later : ℕ} {v w : Writer}
    → Step earlier since v now later w
    → IsTimed earlier v
    → IsTimed now w
step-IsTimed (updates earlier now since st v l) h = put-IsTimed earlier now st v l h
step-IsTimed (kicks earlier now since v l k) h = kicked-IsTimed earlier now v l h
step-IsTimed (fires earlier now since d saved v l t p) h = fired-IsTimed earlier now saved v l h
step-IsTimed (flushes earlier now since saved v l) h = flushed-IsTimed earlier now saved v l h

-- The mark of the store is since when a change waits.
step-since :
    {earlier now since later : ℕ} {v w : Writer}
    → Step earlier since v now later w
    → IsTimed earlier v
    → v.store.first_dirty ≡ since
    → w.store.first_dirty ≡ later
unfolding put kicked fired flushed update flush
step-since (updates earlier now since st v l) h e = ground (arith, h.clean, h.marked, e)
step-since (kicks earlier now since v l k) h e = ground (arith, e)
step-since (fires earlier now since d saved v l t p) h e = ground (arith, h.clean, h.marked, e)
step-since (flushes earlier now since saved v l) h e = ground (arith, h.clean, h.marked, e)

Reachable-IsTimed :
    {debounce max_delay : ℤ} {now since : ℕ} {w : Writer}
    → Reachable debounce max_delay now since w
    → IsTimed now w × (w.store.first_dirty ≡ since)
unfolding start
Reachable-IsTimed {debounce} {max_delay} (started now s c d f) =
    (start-IsTimed debounce max_delay now s c d f, f)
Reachable-IsTimed (stepped r x) =
    let (timed, same) = Reachable-IsTimed r in (step-IsTimed x timed, step-since x timed same)

armed-IsDue :
    (limit now : ℕ) (timer : Option ℕ)
    → TimerIs (IsDue limit now) timer
    → is_armed timer ≡ true
    → (d : ℕ) × (timer ≡ some d) × IsDue limit now d
armed-IsDue limit now none h e = cc
armed-IsDue limit now (some d) h e = (d, refl, h)

-- At every time at which a change waits to be written, the loop has a message to read, or its timer
-- fires at a time that is no later than the longest delay after the first change since the last write,
-- or after the last write where that failed, or that has passed: however many changes follow, they do
-- not postpone the write any further.
pub Reachable-IsDue :
    {debounce max_delay : ℤ} {now since : ℕ} {w : Writer}
    → Reachable debounce max_delay now since w
    → 0 < since
    → (w.kick ≡ true) ⊎ ((d : ℕ) × (w.timer ≡ some d) × IsDue (since + w.max_delay) now d)
Reachable-IsDue {debounce} {max_delay} {now} {since} {w} r p =
    let (h, same) = Reachable-IsTimed r in
    let e : w.store.dirty ≡ true = ground (arith, h.clean, same, p) in
    let due = subst (λ t. TimerIs (IsDue (t + w.max_delay) now) w.timer) same (h.due e) in
    elim (h.pending e) [
      | inl k ↦ inl k
      | inr a ↦ inr (armed-IsDue (since + w.max_delay) now w.timer due a)
    ]
