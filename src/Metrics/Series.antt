-- ===== src/Metrics/Series.antt =====
-- internal/metrics/metrics.go: the series limit holds whatever the runner does.
use network_mesh_exporter.Base.{
  suc, ◌+◌, ◌≤◌, ◌<◌, ◌≡◌, ◌⊎◌, inl, inr, refl, Bool, false, true, not, ◌&&◌, List, [], ◌∷◌, keep,
  length, ltb, leb, arith, Bool-cases, length-keep-le,
}
use network_mesh_exporter.Base.Str.{Str, ◌==◌}
use network_mesh_exporter.Base.Strs.{contains, contains-keep}
use network_mesh_exporter.Probe.{Cycle}
use network_mesh_exporter.Probe.Window.{Stats}
use network_mesh_exporter.Runner.{Task}
use network_mesh_exporter.Metrics.{Vecs, Registry, label_key, labels_for, admit, observe, forget}

-- The limit, where there is one, is kept, no key is listed twice, and the gauge shows the number.
abbrev pub Unlisted : Str → List Str → Type 0
Unlisted k ks = contains k ks ≡ false

abbrev pub Once : List Str → Type 0
Once [] = Unit
Once (k ∷ ks) = Unlisted k ks × Once ks

pub record IsBounded {V : Type 0} (r : Registry V) : Type 0 where
  pub limited : (r.max_series ≡ 0) ⊎ (length r.seen ≤ r.max_series)
  pub once : Once r.seen
  pub counted : r.series_count ≡ length r.seen

keep-Once : (p : Str → Bool) (ks : List Str) → Once ks → Once (keep p ks)
keep-Once p [] h = tt
keep-Once p (k ∷ ks) h = ground (arith, h.0, keep-Once p ks h.1, contains-keep p k ks)

module _ {V : Type 0} (lib : Vecs V) where
  pub observe-IsBounded :
      (t : Task) (c : Cycle) (st : Stats) (r : Registry V)
      → IsBounded r
      → IsBounded (observe lib t c st r)
  unfolding observe admit
  observe-IsBounded t c st r h =
      let key = label_key (labels_for lib t) in
      elim (Bool-cases (contains key r.seen)) [
        | inl e ↦
            rw (e, observe) (record { limited = h.limited; once = h.once; counted = h.counted })
        | inr e ↦ elim (Bool-cases (ltb 0 r.max_series && leb r.max_series (length r.seen))) [
          | inl f ↦
              rw (e, f, observe)
                (record { limited = h.limited; once = h.once; counted = h.counted })
          | inr f ↦
              let limited : (r.max_series ≡ 0) ⊎ (suc (length r.seen) ≤ r.max_series) =
                ground (arith, f) in
              rw (e, f, observe) (record { limited = limited; once = (e, h.once); counted = refl })
        ]
      ]

  pub forget-IsBounded : (t : Task) (r : Registry V) → IsBounded r → IsBounded (forget lib t r)
  unfolding forget
  forget-IsBounded t r h =
      let p : Str → Bool = λ k. not (k == label_key (labels_for lib t)) in
      let less = length-keep-le p r.seen in
      let limited : (r.max_series ≡ 0) ⊎ (length (keep p r.seen) ≤ r.max_series) = elim h.limited [
        | inl z ↦ inl z
        | inr l ↦ inr (omega (arith, l, less))
      ] in
      record { limited = limited; once = keep-Once p r.seen h.once; counted = refl }

  -- A sample is either written to the vectors, and then its label set is counted, or it changes nothing
  -- but the number of dropped samples, which happens when the limit is reached and the label set is new.
  pub observe_cases :
      (t : Task) (c : Cycle) (st : Stats) (r : Registry V)
      → let l = labels_for lib t in
        ((observe lib t c st r).vecs ≡ lib.write l c st r.vecs)
          × (contains (label_key l) (observe lib t c st r).seen ≡ true)
          × ((observe lib t c st r).series_dropped ≡ r.series_dropped)
        ⊎ (observe lib t c st r ≡ record r { series_dropped = r.series_dropped + 1 })
          × (contains (label_key l) r.seen ≡ false)
          × (0 < r.max_series)
          × (r.max_series ≤ length r.seen)
  unfolding observe admit contains
  observe_cases t c st r = ground arith

  -- Forgetting a task frees its label set and no other one.
  pub contains-forget :
      (t : Task) (k : Str) (r : Registry V)
      → contains k (forget lib t r).seen
        ≡ (contains k r.seen && not (k == label_key (labels_for lib t)))
  unfolding forget
  contains-forget t k r = contains-keep (λ k. not (k == label_key (labels_for lib t))) k r.seen
