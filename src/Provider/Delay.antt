-- ===== src/Provider/Delay.antt =====
-- internal/provider/provider.go: how long a retry waits.
use native.Mathlib.Nat.{pow-suc}
use Prim.Native.Nat.{min}
use network_mesh_exporter.Base.{
  ℕ, zero, suc, ◌+◌, ◌-◌, ◌*◌, ◌/◌, ◌^◌, ◌≤◌, ◌<◌, ◌≡◌, refl, ◌∙◌, subst, sym, if◌then◌else◌, ltb,
  arith, Bool-cases, inl, inr,
}
use network_mesh_exporter.Base.Int.{ℤ, pos, negsuc}
use network_mesh_exporter.Provider.{double, backoff}

-- `d` where it does not exceed `max`.
abbrev clamp : ℕ → ℕ → ℕ
clamp max d = if ltb max d then max else d

pow-grows : (d n : ℕ) → d ≤ d * 2 ^ n
pow-grows d zero = omega arith
pow-grows d (suc n) =
    let step : d * 2 ^ suc n ≡ d * 2 ^ n * 2 = rw (pow-suc 2 n) (omega arith) in
    omega (arith, step, pow-grows d n)

double-pow : (d n : ℕ) → d * 2 ^ suc n ≡ d * 2 * 2 ^ n
double-pow d n = rw (pow-suc 2 n) (omega arith)

clamp-double : (n max d : ℕ) → clamp max (double n max d) ≡ min (d * 2 ^ n) max
unfolding double
clamp-double zero max d = ground arith
clamp-double (suc n) max d = elim (Bool-cases (ltb d max)) [
  | inl e ↦
      let rest : clamp max (double n max (d * 2)) ≡ min (d * 2 * 2 ^ n) max =
        clamp-double n max (d * 2) in
      rw (e, double-pow d n) rest
  | inr e ↦
      let above : max ≤ d = ground (arith, e) in
      let grown : d ≤ d * 2 ^ suc n = pow-grows d (suc n) in
      let top : clamp max d ≡ max = ground (arith, above) in
      let least : min (d * 2 ^ suc n) max ≡ max = omega (arith, above, grown) in
      rw (e, top, least) refl
]

-- The number of attempts, where a negative number counts as 0.
abbrev pub attempts : ℤ → ℕ
attempts (pos n) = n
attempts (negsuc n) = 0

exceeds :
    (attempt : ℤ) (low high : ℕ)
    → let d = clamp high (double (attempts attempt) high low) in
      high < d - d / 8 + (d / 4 + 1 - 1) → high < backoff (λ n. n - 1) attempt low high
unfolding backoff
exceeds (pos n) low high h = h
exceeds (negsuc n) low high h = h

-- Where the random number is the largest one and the delay has reached `max`, of eight at least,
-- `Backoff` waits for longer than `max`.
pub backoff-exceeds :
    (attempt : ℤ) (low high : ℕ)
    → 8 ≤ high
    → high ≤ low
    → high < backoff (λ n. n - 1) attempt low high
unfolding backoff
backoff-exceeds attempt low high h k =
    let grown : low ≤ low * 2 ^ attempts attempt = pow-grows low (attempts attempt) in
    let full : min (low * 2 ^ attempts attempt) high ≡ high = omega (arith, grown, k) in
    let at : clamp high (double (attempts attempt) high low) ≡ high =
      clamp-double (attempts attempt) high low ∙ full in
    exceeds attempt low high
      (subst (λ x. high < x - x / 8 + (x / 4 + 1 - 1)) (sym at) (omega (arith, h)))
