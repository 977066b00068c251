-- ===== src/Slot/Least.antt =====
-- `minUse` of internal/slot/slot.go: the lowest use count.
use network_mesh_exporter.Base.{
  ℕ, ◌≤◌, ◌≡◌, ◌≢◌, subst, refl, inl, inr, true, List, [], ◌∷◌, Option, none, some, All, arith,
  if◌then◌else◌, ltb, Option-cases,
}
use network_mesh_exporter.Base.Str.{Str}
use network_mesh_exporter.Base.Strs.{contains, All-contains}
use network_mesh_exporter.Slot.{Candidates, least_use, min_use_count}

abbrev StartsAbove : ℕ → Option ℕ → Type 0
StartsAbove m none = Unit
StartsAbove m (some n) = m ≤ n

least_use-some :
    (f : Str → ℕ) (least : Option ℕ) (hs : List Str) (m : ℕ)
    → least_use f least hs ≡ some m
    → All (λ h. m ≤ f h) hs × StartsAbove m least
unfolding least_use
least_use-some f least [] m e = (tt, go least e)
  where
    go : (o : Option ℕ) → o ≡ some m → StartsAbove m o
    go none e = tt
    go (some n) e = ground arith
least_use-some f none (h ∷ hs) m e =
    let ih = least_use-some f (some (f h)) hs m e in ((ih.1, ih.0), tt)
least_use-some f (some n) (h ∷ hs) m e =
    let ih = least_use-some f (if ltb (f h) n then some (f h) else some n) hs m e in ground arith

least_use-ne-none : (f : Str → ℕ) (n : ℕ) (hs : List Str) → least_use f (some n) hs ≢ none
unfolding least_use
least_use-ne-none f n [] e = cc
least_use-ne-none f n (h ∷ hs) e =
    ground (arith, least_use-ne-none f n hs, least_use-ne-none f (f h) hs)

least_use-none : (f : Str → ℕ) (hs : List Str) → least_use f none hs ≡ none → hs ≡ []
unfolding least_use
least_use-none f [] e = refl
least_use-none f (h ∷ hs) e = absurd (least_use-ne-none f (f h) hs e)

-- A number that no candidate is below is not above the lowest use count.
least_use-ge :
    (f : Str → ℕ) (least : Option ℕ) (hs : List Str) (n m : ℕ)
    → All (λ h. n ≤ f h) hs
    → StartsAbove n least
    → least_use f least hs ≡ some m
    → n ≤ m
unfolding least_use
least_use-ge f none [] n m a s e = cc
least_use-ge f (some k) [] n m a s e = ground (arith, s, e)
least_use-ge f none (h ∷ hs) n m a s e = least_use-ge f (some (f h)) hs n m a.1 a.0 e
least_use-ge f (some k) (h ∷ hs) n m a s e =
    least_use-ge f (if ltb (f h) k then some (f h) else some k) hs n m a.1 (ground (arith, a.0, s))
      e

-- The lowest use count is one that no candidate is below.
pub min_use_count-le : (c : Candidates) → All (λ h. min_use_count c ≤ c.use_count h) c.hosts
unfolding min_use_count
min_use_count-le c = elim (Option-cases (least_use c.use_count none c.hosts)) [
  | inl e ↦ rw (least_use-none c.use_count c.hosts e) tt
  | inr (m, e) ↦
      let same : min_use_count c ≡ m = rw (e, min_use_count) in
      rw same (least_use-some c.use_count none c.hosts m e).0
]

-- A candidate whose use count is the lowest one.
abbrev pub IsLeast : Candidates → Str → Type 0
IsLeast c id = All (λ h. c.use_count id ≤ c.use_count h) c.hosts

-- It has the lowest use count as the code finds it.
pub IsLeast-min_use_count :
    (c : Candidates) (id : Str)
    → contains id c.hosts ≡ true
    → IsLeast c id
    → c.use_count id ≡ min_use_count c
unfolding min_use_count contains
IsLeast-min_use_count c id m l = elim (Option-cases (least_use c.use_count none c.hosts)) [
  | inl e ↦
      let gone : contains id [] ≡ true =
        subst (λ hs. contains id hs ≡ true) (least_use-none c.use_count c.hosts e) m in
      cc
  | inr (n, e) ↦
      let above = least_use-ge c.use_count none c.hosts (c.use_count id) n l tt e in
      let below =
        All-contains (λ h. n ≤ c.use_count h) id c.hosts
          (least_use-some c.use_count none c.hosts n e).0 m in
      ground (arith, above, below, e)
]
