-- ===== src/Probe/Window/Bounds.antt =====
-- internal/probe/probe.go: where the statistics of the samples lie.
use native.Mathlib.Nat.{le-div_iff_mul-le, div-le_of_le-mul}
use network_mesh_exporter.Base.{
  ℕ, suc, zero, ◌+◌, ◌-◌, ◌*◌, ◌/◌, ◌≤◌, ◌<◌, ◌≡◌, List, [], ◌∷◌, map, Option, none, some, length,
  get_elem?, if◌then◌else◌, ltb, leb, eqb, arith, All, Bool-cases, inl, inr, subst,
}
use network_mesh_exporter.Base.Int.{pos, negsuc}
use network_mesh_exporter.Base.Sort.{sort, All-sort, length-sort}
use network_mesh_exporter.Probe.Window.{
  Entry, Totals, Stats, Float64, distance, total_one, total_all, quantile, quantiles, measured,
}

abbrev pub IsWithin : ℕ → ℕ → Entry → Type 0
IsWithin lo hi e = (lo ≤ e.rtt) × (e.rtt ≤ hi)

total_all-min : (prev : Option ℕ) (ss : List Entry) (t : Totals) → (total_all prev ss t).min ≤ t.min
unfolding total_all total_one
total_all-min prev [] t = omega arith
total_all-min prev (s ∷ ss) t = ground (arith, total_all-min (some s.rtt) ss (total_one prev s t))

total_all-max : (prev : Option ℕ) (ss : List Entry) (t : Totals) → t.max ≤ (total_all prev ss t).max
unfolding total_all total_one
total_all-max prev [] t = omega arith
total_all-max prev (s ∷ ss) t = ground (arith, total_all-max (some s.rtt) ss (total_one prev s t))

-- The running extremes enclose every sample.
total_all-IsWithin :
    (prev : Option ℕ) (ss : List Entry) (t : Totals)
    → All (IsWithin (total_all prev ss t).min (total_all prev ss t).max) ss
unfolding total_all total_one
total_all-IsWithin prev [] t = tt
total_all-IsWithin prev (s ∷ ss) t = ground (
  arith,
  total_all-min (some s.rtt) ss (total_one prev s t),
  total_all-max (some s.rtt) ss (total_one prev s t),
  total_all-IsWithin (some s.rtt) ss (total_one prev s t),
)

-- The running extremes do not leave what encloses them and the samples.
total_all-extremes :
    (lo hi : ℕ) (prev : Option ℕ) (ss : List Entry) (t : Totals)
    → lo ≤ t.min
    → t.max ≤ hi
    → All (IsWithin lo hi) ss
    → (lo ≤ (total_all prev ss t).min) × ((total_all prev ss t).max ≤ hi)
unfolding total_all total_one
total_all-extremes lo hi prev [] t a b h = (a, b)
total_all-extremes lo hi prev (s ∷ ss) t a b h =
    total_all-extremes lo hi (some s.rtt) ss (total_one prev s t) (ground (arith, h.0))
      (ground (arith, h.0)) h.1

total_all-total :
    (lo hi : ℕ) (prev : Option ℕ) (ss : List Entry) (t : Totals)
    → All (IsWithin lo hi) ss
    → (t.total + lo * length ss ≤ (total_all prev ss t).total)
      × ((total_all prev ss t).total ≤ t.total + length ss * hi)
unfolding total_all total_one
total_all-total lo hi prev [] t h = (omega arith, omega arith)
total_all-total lo hi prev (s ∷ ss) t h =
    let rest = total_all-total lo hi (some s.rtt) ss (total_one prev s t) h.1 in
    (ground (arith, rest.0, h.0.0), ground (arith, rest.1, h.0.1))

distance-le : (lo hi a b : ℕ) → lo ≤ a → a ≤ hi → lo ≤ b → b ≤ hi → distance a b ≤ hi - lo
distance-le lo hi a b p q r s = ground arith

-- One more sample after a sample adds one distance.
total_all-jitter :
    (lo hi p : ℕ) (ss : List Entry) (t : Totals)
    → lo ≤ p
    → p ≤ hi
    → All (IsWithin lo hi) ss
    → (total_all (some p) ss t).jitter_sum ≤ t.jitter_sum + length ss * (hi - lo)
unfolding total_all total_one
total_all-jitter lo hi p [] t a b h = omega arith
total_all-jitter lo hi p (s ∷ ss) t a b h =
    let d = distance-le lo hi s.rtt p h.0.0 h.0.1 a b in
    let rest = total_all-jitter lo hi s.rtt ss (total_one (some p) s t) h.0.0 h.0.1 h.1 in
    ground (arith, rest, d)

jitter-le : (n sum d : ℕ) → sum ≤ n * d → (if ltb 1 (suc n) then sum / (suc n - 1) else 0) ≤ d
jitter-le zero sum d h = omega arith
jitter-le (suc n) sum d h =
    let one : suc (suc n) - 1 ≡ suc n = omega arith in
    let below : sum / suc n ≤ d = div-le_of_le-mul (suc n) h in
    let there : sum / (suc (suc n) - 1) ≤ d = rw one below in ground (arith, there)

-- The smallest and the largest sample that the statistics report enclose every sample, the mean lies
-- between them, and the jitter is at most their distance.
pub measured-IsWithin :
    (fl : Float64) (qs : List ℕ) (s : Entry) (ss : List Entry) (st : Stats)
    → let r = measured fl qs s ss st in
      All (IsWithin r.min r.max) (s ∷ ss)
      × (r.min ≤ r.mean)
      × (r.mean ≤ r.max)
      × (r.jitter ≤ r.max - r.min)
unfolding measured total_all total_one
measured-IsWithin fl qs s ss st =
    let t0 : Totals = record {
      total = 0;
      jitter_sum = 0;
      conn_total = 0;
      conn_count = 0;
      min = s.rtt;
      max = s.rtt;
    } in
    let t : Totals = total_all none (s ∷ ss) t0 in
    let within : All (IsWithin t.min t.max) (s ∷ ss) = total_all-IsWithin none (s ∷ ss) t0 in
    let total = total_all-total t.min t.max none (s ∷ ss) t0 within in
    let jitter : t.jitter_sum ≤ length ss * (t.max - t.min) = omega (
      arith,
      total_all-jitter t.min t.max s.rtt ss (total_one none s t0) within.0.0 within.0.1 within.1,
    ) in
    let some_sample : 0 < suc (length ss) = omega arith in
    let below : t.min * suc (length ss) ≤ t.total = omega (arith, total.0) in
    let above : t.total ≤ suc (length ss) * t.max = omega (arith, total.1) in
    (
      within,
      (le-div_iff_mul-le some_sample).1 below,
      div-le_of_le-mul (suc (length ss)) above,
      jitter-le (length ss) t.jitter_sum (t.max - t.min) jitter,
    )

clamp-lt : (n i : ℕ) → (if leb (suc n) i then suc n - 1 else i) < suc n
clamp-lt n i = ground arith

-- A quantile is one of the samples: what holds of all of them holds of it.
module _ {κ} (P : ℕ → Type κ) where
  All-get :
      (i : ℕ) (xs : List ℕ)
      → All P xs
      → i < length xs
      → P (elim (get_elem? xs i) [ none ↦ 0 | some d ↦ d ])
  All-get i [] h l = ground arith
  All-get zero (x ∷ xs) h l = h.0
  All-get (suc i) (x ∷ xs) h l = All-get i xs h.1 (omega arith)

  pub quantile-All :
      (fl : Float64) (x : ℕ) (xs : List ℕ) (q : ℕ) → All P (x ∷ xs) → P (quantile fl (x ∷ xs) q)
  unfolding quantile
  quantile-All fl x xs q h =
      let i : ℕ = elim (fl.rank q (suc (length xs) - 1)) [ pos i ↦ i | negsuc _ ↦ 0 ] in
      let j : ℕ = if leb (suc (length xs)) i then suc (length xs) - 1 else i in
      let got = All-get j (x ∷ xs) h (clamp-lt (length xs) i) in ground (arith, got)

All-rtt :
    (lo hi : ℕ) (es : List Entry)
    → All (IsWithin lo hi) es
    → All (λ d. (lo ≤ d) × (d ≤ hi)) (map (λ e. e.rtt) es)
All-rtt lo hi [] h = tt
All-rtt lo hi (e ∷ es) h = (h.0, All-rtt lo hi es h.1)

quantiles-All {κ} :
    (P : ℕ → Type κ) (fl : Float64) (xs : List ℕ) (qs : List ℕ) (x d : ℕ)
    → All P xs
    → 0 < length xs
    → quantiles fl xs qs x ≡ some d
    → P d
unfolding quantiles
quantiles-All P fl [] qs x d h l e = ground arith
quantiles-All P fl (y ∷ ys) [] x d h l e = cc
quantiles-All P fl (y ∷ ys) (q ∷ qs) x d h l e =
    let rest = quantiles-All P fl (y ∷ ys) qs x d h l in
    let this = quantile-All P fl y ys q h in
    elim (Bool-cases (eqb x q)) [
      | inl yes_q ↦ let same : quantile fl (y ∷ ys) q ≡ d = ground arith in subst P same this
      | inr no_q ↦ rest (ground arith)
    ]

-- Every percentile that the statistics report lies between the smallest and the largest sample that
-- they report.
pub percentiles-IsBetween :
    (fl : Float64) (qs : List ℕ) (s : Entry) (ss : List Entry) (st : Stats) (q d : ℕ)
    → (measured fl qs s ss st).percentiles q ≡ some d
    → ((measured fl qs s ss st).min ≤ d) × (d ≤ (measured fl qs s ss st).max)
unfolding measured
percentiles-IsBetween fl qs s ss st q d e =
    let r : Stats = measured fl qs s ss st in
    let rtts : List ℕ = map (λ e. e.rtt) (s ∷ ss) in
    let within : All (λ d. (r.min ≤ d) × (d ≤ r.max)) rtts =
      All-rtt r.min r.max (s ∷ ss) (measured-IsWithin fl qs s ss st).0 in
    quantiles-All (λ d. (r.min ≤ d) × (d ≤ r.max)) fl (sort ltb rtts) qs q d
      (All-sort ltb (λ d. (r.min ≤ d) × (d ≤ r.max)) rtts within)
      (omega (arith, length-sort ltb rtts)) e
