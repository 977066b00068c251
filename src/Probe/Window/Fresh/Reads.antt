-- ===== src/Probe/Window/Fresh/Reads.antt =====
-- internal/probe/probe.go: what the statistics read.
use network_mesh_exporter.Base.{
  ℕ, ◌+◌, ◌≡◌, refl, Bool, List, [], ◌∷◌, length, if◌then◌else◌, leb, keep, ap, sym, subst, ◌∙◌,
  false, true,
}
use network_mesh_exporter.Probe.Window.{
  stats, Stats, counted, measured, count, Float64, Entry, CounterEntry, Window, expire,
}
use network_mesh_exporter.Probe.Window.Fresh.{
  IsTimed, IsFresh, Reached, Reached-IsTimed, expire-IsFresh, drop_old-keep, drop_old_fresh,
  All-keep-fresh,
}

-- The window with those entries only that are not older than it is long.
abbrev pub in_date : ℕ → Window → Window
in_date now w = record w {
  samples = keep (λ (e : Entry). leb now (e.at + w.dur)) w.samples;
  counters = keep (λ (c : CounterEntry). leb now (c.at + w.dur)) w.counters;
}

expire-in_date : (last now : ℕ) (w : Window) → IsTimed last w → expire now w ≡ in_date now w
unfolding expire
expire-in_date last now w h =
    let samples = drop_old-keep (λ (e : Entry). e.at) w.dur now w.samples h.samples_ordered in
    let counters =
      drop_old-keep (λ (c : CounterEntry). c.at) w.dur now w.counters h.counters_ordered in
    λ i. record w { samples = samples i; counters = counters i }

in_date_again : (now : ℕ) (w : Window) → expire now (in_date now w) ≡ in_date now w
unfolding expire
in_date_again now w =
    let samples =
      drop_old_fresh (λ (e : Entry). e.at) w.dur now _
        (All-keep-fresh (λ (e : Entry). e.at) w.dur now w.samples) in
    let counters =
      drop_old_fresh (λ (c : CounterEntry). c.at) w.dur now _
        (All-keep-fresh (λ (c : CounterEntry). c.at) w.dur now w.counters) in
    λ i. record w { samples = samples i; counters = counters i }

abbrev summary : Float64 → List ℕ → Window → Stats
summary fl qs left = elim left.samples [
  | [] ↦ counted fl left
  | s ∷ ss ↦ measured fl qs s ss (counted fl left)
]

count-samples : (cs : List CounterEntry) (st : Stats) → (count st cs).samples ≡ st.samples
unfolding count
count-samples [] st = refl
count-samples (c ∷ cs) st = count-samples cs _

ratio-samples :
    (some_sent : Bool) (r : ℕ) (st : Stats)
    → (if some_sent then record st { loss_ratio = r } else st).samples ≡ st.samples
ratio-samples true r st = refl
ratio-samples false r st = refl

counted-samples : (fl : Float64) (w : Window) → (counted fl w).samples ≡ length w.samples
unfolding counted
counted-samples fl w = ratio-samples _ _ _ ∙ count-samples w.counters _

measured-samples :
    (fl : Float64) (qs : List ℕ) (es : List Entry) (st : Stats)
    → (elim es as (λ _. Stats) [ [] ↦ st | s ∷ ss ↦ measured fl qs s ss st ]).samples ≡ st.samples
unfolding measured
measured-samples fl qs [] st = refl
measured-samples fl qs (s ∷ ss) st = refl

summary-samples :
    (fl : Float64) (qs : List ℕ) (w : Window) → (summary fl qs w).samples ≡ length w.samples
summary-samples fl qs w = measured-samples fl qs w.samples (counted fl w) ∙ counted-samples fl w

-- Whatever cycles, readings and resets a window went through, where no cycle started before the last
-- one: the statistics are those of the window without its samples and counters that are older than
-- the window is long, they count the samples of that window, and it is the window that is left, in
-- which no sample and no counter is older.
pub stats-IsFresh :
    (fl : Float64) (last now : ℕ) (qs : List ℕ) (w : Window)
    → Reached fl last w
    → ((stats fl now qs w).0 ≡ (stats fl now qs (in_date now w)).0)
      × ((stats fl now qs w).0.samples ≡ length (in_date now w).samples)
      × ((stats fl now qs w).1 ≡ in_date now w)
      × IsFresh now (in_date now w)
unfolding stats
stats-IsFresh fl last now qs w r =
    let timed = Reached-IsTimed last w r in
    let same = expire-in_date last now w timed in
    let again = in_date_again now w in
    (
      ap (λ left. summary fl qs left) (same ∙ sym again),
      summary-samples fl qs (expire now w) ∙ ap (λ (v : Window). length v.samples) same,
      same,
      subst (IsFresh now) same (expire-IsFresh last now w timed),
    )
