-- ===== src/Probe/Window/Fresh.antt =====
-- internal/probe/probe.go: the window holds no sample that is out of date.
pub mod Reads
use network_mesh_exporter.Base.{
  ℕ, ◌+◌, ◌≤◌, ◌≡◌, refl, Bool, List, [], ◌∷◌, ◌++◌, length, if◌then◌else◌, ltb, eqb, arith, All,
  All-mono, All-append, Bool-cases, inl, inr, leb, keep, keep-All, ap, sym, subst, ◌∙◌, false, true,
}
use network_mesh_exporter.Probe.{Cycle}
use network_mesh_exporter.Probe.Window.{
  new_window, reset, stats, Stats, counted, measured, count, Float64, Entry, CounterEntry, Window,
  entries, is_old, drop_old, expire, add,
}

-- Times that do not fall from one entry to the next.
abbrev pub IsOrdered {ℓ} : {A : Type ℓ} → (A → ℕ) → List A → Type 0
IsOrdered time [] = Unit
IsOrdered time (x ∷ xs) = All (λ y. time x ≤ time y) xs × IsOrdered time xs

-- What is left of an ordered list is not out of date.
module _ {ℓ} {A : Type ℓ} (time : A → ℕ) (dur now : ℕ) where
  All-fresh :
      (x : A) (xs : List A)
      → now ≤ time x + dur
      → All (λ y. time x ≤ time y) xs
      → All (λ y. now ≤ time y + dur) xs
  All-fresh x [] h k = tt
  All-fresh x (y ∷ ys) h k = (omega (arith, h, k.0), All-fresh x ys h k.1)

  drop_old-All :
      (xs : List A)
      → IsOrdered time xs
      → All (λ x. now ≤ time x + dur) (drop_old (λ x. is_old dur now (time x)) xs)
        × IsOrdered time (drop_old (λ x. is_old dur now (time x)) xs)
  unfolding drop_old
  drop_old-All [] h = (tt, tt)
  drop_old-All (x ∷ xs) h = elim (Bool-cases (is_old dur now (time x))) [
    | inl e ↦ rw e (drop_old-All xs h.1)
    | inr e ↦
        let young : now ≤ time x + dur = ground (arith, e) in
        rw e (((young, All-fresh x xs young h.0), h))
  ]

  abbrev is_in_date : A → Bool
  is_in_date x = leb now (time x + dur)

  -- What is left of an ordered list is what is in date.
  pub drop_old-keep :
      (xs : List A)
      → IsOrdered time xs
      → drop_old (λ x. is_old dur now (time x)) xs ≡ keep is_in_date xs
  unfolding drop_old
  drop_old-keep [] h = refl
  drop_old-keep (x ∷ xs) h = elim (Bool-cases (is_old dur now (time x))) [
    | inl e ↦
        let out : is_in_date x ≡ false = ground (arith, e) in rw (e, out) (drop_old-keep xs h.1)
    | inr e ↦
        let young : now ≤ time x + dur = ground (arith, e) in
        let same : is_in_date x ≡ true = ground (arith, young) in
        rw (e, same)
          (ap (λ ys. x ∷ ys)
            (sym (
              keep-All is_in_date xs
                (All-mono (λ y p. ground (arith, p)) xs (All-fresh x xs young h.0)))))
  ]

  pub All-keep-fresh : (xs : List A) → All (λ x. now ≤ time x + dur) (keep is_in_date xs)
  All-keep-fresh [] = tt
  All-keep-fresh (x ∷ xs) = ground (arith, All-keep-fresh xs)

  -- Nothing that is in date is dropped.
  pub drop_old_fresh :
      (xs : List A)
      → All (λ x. now ≤ time x + dur) xs
      → drop_old (λ x. is_old dur now (time x)) xs ≡ xs
  unfolding drop_old
  drop_old_fresh [] h = refl
  drop_old_fresh (x ∷ xs) h = ground (arith, h.0)

All-drop_old {ℓ κ} :
    {A : Type ℓ} (P : A → Type κ) (old : A → Bool) (xs : List A)
    → All P xs
    → All P (drop_old old xs)
unfolding drop_old
All-drop_old P old [] h = tt
All-drop_old P old (x ∷ xs) h = ground (arith, All-drop_old P old xs h.1)

module _ {ℓ} {A : Type ℓ} (time : A → ℕ) where
  IsOrdered-append :
      (xs ys : List A) (at : ℕ)
      → IsOrdered time xs
      → All (λ x. time x ≤ at) xs
      → All (λ y. time y ≡ at) ys
      → IsOrdered time (xs ++ ys)
  IsOrdered-append [] [] at h k l = tt
  IsOrdered-append [] (y ∷ ys) at h k l =
      (All-mono (λ z e. omega (arith, e, l.0)) ys l.1, IsOrdered-append [] ys at tt tt l.1)
  IsOrdered-append (x ∷ xs) ys at h k l = (
    All-append (λ y. time x ≤ time y) xs ys h.0 (All-mono (λ z e. omega (arith, e, k.0)) ys l),
    IsOrdered-append xs ys at h.1 k.1 l,
  )

entries-All : (at : ℕ) (rtts conns : List ℕ) → All (λ e. e.at ≡ at) (entries at rtts conns)
unfolding entries
entries-All at [] conns = tt
entries-All at (r ∷ rs) [] = (refl, entries-All at rs [])
entries-All at (r ∷ rs) (c ∷ cs) = (refl, entries-All at rs cs)

length-entries : (at : ℕ) (rtts conns : List ℕ) → length (entries at rtts conns) ≡ length rtts
unfolding entries
length-entries at [] conns = refl
length-entries at (r ∷ rs) [] = ground (arith, length-entries at rs [])
length-entries at (r ∷ rs) (c ∷ cs) = ground (arith, length-entries at rs cs)

-- The samples and the counters stand in the order of their times, none later than `now`.
pub record IsTimed (now : ℕ) (w : Window) : Type 0 where
  pub samples_ordered : IsOrdered (λ (e : Entry). e.at) w.samples
  pub counters_ordered : IsOrdered (λ (c : CounterEntry). c.at) w.counters
  pub samples_past : All (λ (e : Entry). e.at ≤ now) w.samples
  pub counters_past : All (λ (c : CounterEntry). c.at ≤ now) w.counters

-- No entry is older than the window is long.
pub record IsFresh (now : ℕ) (w : Window) : Type 0 where
  pub samples_fresh : All (λ (e : Entry). now ≤ e.at + w.dur) w.samples
  pub counters_fresh : All (λ (c : CounterEntry). now ≤ c.at + w.dur) w.counters

-- When the cycle started, as `add` takes it.
abbrev pub start_of : ℕ → Cycle → ℕ
start_of now c = if eqb c.started_at 0 then now else c.started_at

expire-IsTimed : (last now : ℕ) (w : Window) → IsTimed last w → IsTimed last (expire now w)
unfolding expire
expire-IsTimed last now w h = record {
  samples_ordered = (drop_old-All (λ (e : Entry). e.at) w.dur now w.samples h.samples_ordered).1;
  counters_ordered =
      (drop_old-All (λ (c : CounterEntry). c.at) w.dur now w.counters h.counters_ordered).1;
  samples_past =
      All-drop_old (λ (e : Entry). e.at ≤ last) (λ e. is_old w.dur now e.at) w.samples
        h.samples_past;
  counters_past =
      All-drop_old (λ (c : CounterEntry). c.at ≤ last) (λ c. is_old w.dur now c.at) w.counters
        h.counters_past;
}

pub expire-IsFresh : (last now : ℕ) (w : Window) → IsTimed last w → IsFresh now (expire now w)
unfolding expire
expire-IsFresh last now w h = record {
  samples_fresh = (drop_old-All (λ (e : Entry). e.at) w.dur now w.samples h.samples_ordered).0;
  counters_fresh =
      (drop_old-All (λ (c : CounterEntry). c.at) w.dur now w.counters h.counters_ordered).0;
}

add-IsTimed :
    (last now : ℕ) (c : Cycle) (w : Window)
    → last ≤ start_of now c
    → IsTimed last w
    → IsTimed (start_of now c) (add now c w)
unfolding add
add-IsTimed last now c w l h =
    let at : ℕ = start_of now c in
    let es : List Entry = entries at c.rtt c.connect_rtt in
    let same = entries-All at c.rtt c.connect_rtt in
    let older : All (λ (e : Entry). e.at ≤ at) w.samples =
      All-mono (λ e p. omega (arith, p, l)) w.samples h.samples_past in
    let older_counters : All (λ (c : CounterEntry). c.at ≤ at) w.counters =
      All-mono (λ c p. omega (arith, p, l)) w.counters h.counters_past in
    let grown : Window = record w {
      samples = w.samples ++ es;
      counters =
          w.counters
          ++ record {
            at = at;
            sent = c.sent;
            received = c.received;
            lost = c.lost;
            reordered = c.reordered;
            class = c.err_class;
          }
            ∷ [];
      last_ok = if ltb 0 c.received then at else w.last_ok;
    } in
    let timed : IsTimed at grown = record {
      samples_ordered =
          IsOrdered-append (λ (e : Entry). e.at) w.samples es at h.samples_ordered older same;
      counters_ordered =
          IsOrdered-append (λ (c : CounterEntry). c.at) w.counters _ at h.counters_ordered
            older_counters (refl, tt);
      samples_past =
          All-append (λ (e : Entry). e.at ≤ at) w.samples es older
            (All-mono (λ e p. omega (arith, p)) es same);
      counters_past =
          All-append (λ (c : CounterEntry). c.at ≤ at) w.counters _ older_counters
            (omega arith, tt);
    } in
    expire-IsTimed at now grown timed

-- The windows of a task, whose cycles start one after the other, and when the last one started.
pub data Reached (fl : Float64) : ℕ → Window → Type 0 where
  at_start : (d : ℕ) → Reached fl 0 (new_window d)
  measured_cycle :
      (last now : ℕ) (c : Cycle) (w : Window)
      → Reached fl last w
      → last ≤ start_of now c
      → Reached fl (start_of now c) (add now c w)
  read_out :
      (last now : ℕ) (qs : List ℕ) (w : Window)
      → Reached fl last w
      → Reached fl last ((stats fl now qs w).1)
  cleared : (last : ℕ) (w : Window) → Reached fl last w → Reached fl last (reset w)

pub Reached-IsTimed : {fl : Float64} (last : ℕ) (w : Window) → Reached fl last w → IsTimed last w
unfolding new_window reset stats
Reached-IsTimed last w (at_start d) = record {
  samples_ordered = tt;
  counters_ordered = tt;
  samples_past = tt;
  counters_past = tt;
}
Reached-IsTimed last w (measured_cycle before now c v r l) =
    add-IsTimed before now c v l (Reached-IsTimed before v r)
Reached-IsTimed last w (read_out before now qs v r) =
    expire-IsTimed before now v (Reached-IsTimed before v r)
Reached-IsTimed last w (cleared before v r) = record {
  samples_ordered = tt;
  counters_ordered = tt;
  samples_past = tt;
  counters_past = tt;
}

-- Nothing that is in date is lost: where the samples of a window and those of the cycle are not older
-- than the window is long, the window holds the samples it had and then those of the cycle.
pub add-samples :
    (now : ℕ) (c : Cycle) (w : Window)
    → All (λ (e : Entry). now ≤ e.at + w.dur) w.samples
    → now ≤ start_of now c + w.dur
    → (add now c w).samples ≡ w.samples ++ entries (start_of now c) c.rtt c.connect_rtt
unfolding add expire
add-samples now c w h l =
    let es : List Entry = entries (start_of now c) c.rtt c.connect_rtt in
    let young : All (λ (e : Entry). now ≤ e.at + w.dur) es =
      All-mono (λ e p. omega (arith, p, l)) es (entries-All (start_of now c) c.rtt c.connect_rtt) in
    drop_old_fresh (λ (e : Entry). e.at) w.dur now (w.samples ++ es)
      (All-append (λ (e : Entry). now ≤ e.at + w.dur) w.samples es h young)
