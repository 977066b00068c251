-- ===== src/Slot/Ranks.antt =====
-- The ranks that `Pick` and `PickAnchor` of internal/slot/slot.go give.
use network_mesh_exporter.Base.{
  ℕ, ◌<◌, ◌≡◌, ◌≢◌, ◌⊎◌, refl, inl, inr, Bool, false, true, List, [], ◌∷◌, none, some, length, All,
  All-mono, arith, if◌then◌else◌, eqb, Option-cases, Bool-cases,
}
use network_mesh_exporter.Base.Str.{Str}
use network_mesh_exporter.Base.Strs.{contains, All-contains}
use network_mesh_exporter.Slot.{
  Rank, unfilled, unique, min_use, any, Candidates, SlotsConfig, min_use_count, scan, pick,
  pick_least, pick_any, start_offset,
}
use network_mesh_exporter.Slot.Least.{IsLeast, IsLeast-min_use_count, min_use_count-le}
use network_mesh_exporter.Slot.Scans.{accepts}
use network_mesh_exporter.Slot.Picks.{IsFound, scan-some, scan-none}

-- What a choice means. A host is chosen among the candidates that are not excluded; its rank says
-- how good the choice is, and no better one existed.
pub record IsPick (reuse : Bool) (c : Candidates) (exclude : Str → Bool) (r : Str × Rank)
    : Type 0 where
  pub taken : r.1 ≢ unfilled → (contains r.0 c.hosts ≡ true) × (exclude r.0 ≡ false)
  pub fresh : r.1 ≡ unique → c.use_count r.0 ≡ 0
  pub no_fresh : r.1 ≢ unique → All (λ h. (exclude h ≡ true) ⊎ (0 < c.use_count h)) c.hosts
  pub least : r.1 ≡ min_use → IsLeast c r.0
  pub none_least :
      r.1 ≡ any → (h : Str) → contains h c.hosts ≡ true → exclude h ≡ false → ¬ IsLeast c h
  pub guarded : reuse ≡ false → (r.1 ≡ unique) ⊎ (r.1 ≡ unfilled)
  pub blank : r.1 ≡ unfilled → r.0 ≡ []
  pub none_left : r.1 ≡ unfilled → reuse ≡ true → All (λ h. exclude h ≡ true) c.hosts

module _ (c : Candidates) (exclude : Str → Bool) where
  no_fresh_left :
      (start : ℕ)
      → scan c start exclude (λ h. eqb (c.use_count h) 0) ≡ none
      → All (λ h. (exclude h ≡ true) ⊎ (0 < c.use_count h)) c.hosts
  no_fresh_left start e =
      All-mono (λ h p. ground arith) c.hosts
        (scan-none c start exclude (λ h. eqb (c.use_count h) 0) e)

  All-excluded :
      (start : ℕ) → scan c start exclude (λ h. true) ≡ none → All (λ h. exclude h ≡ true) c.hosts
  All-excluded start e =
      All-mono (λ h p. ground arith) c.hosts (scan-none c start exclude (λ h. true) e)

  found :
      (start : ℕ) (pred : Str → Bool) (h : Str)
      → scan c start exclude pred ≡ some h
      → IsFound c exclude pred h
  found start pred h e = scan-some c start exclude pred e

  lowest_excluded :
      (start : ℕ)
      → scan c start exclude (λ h. eqb (c.use_count h) (min_use_count c)) ≡ none
      → (h : Str) → contains h c.hosts ≡ true
      → exclude h ≡ false
      → ¬ IsLeast c h
  lowest_excluded start e h m x l =
      let low = IsLeast-min_use_count c h m l in
      let passed =
        All-contains (λ k. accepts exclude (λ i. eqb (c.use_count i) (min_use_count c)) k ≡ false) h
          c.hosts (scan-none c start exclude (λ i. eqb (c.use_count i) (min_use_count c)) e) m in
      ground (arith, low, passed, x)

  pick_any-IsPick :
      (start : ℕ)
      → ((h : Str) → contains h c.hosts ≡ true → exclude h ≡ false → ¬ IsLeast c h)
      → All (λ h. (exclude h ≡ true) ⊎ (0 < c.use_count h)) c.hosts
      → IsPick true c exclude (pick_any c start exclude)
  unfolding pick_any
  pick_any-IsPick start low busy = elim (Option-cases (scan c start exclude (λ h. true))) [
    | inl e ↦
        rw (e, pick_any)
          (record {
            taken = λ n. absurd (n refl);
            fresh = λ n. cc;
            no_fresh = λ _. busy;
            least = λ n. cc;
            none_least = λ _. low;
            guarded = λ n. cc;
            blank = λ _. refl;
            none_left = λ _ _. All-excluded start e;
          })
    | inr (id, e) ↦
        rw (e, pick_any)
          (record {
            taken = λ _. let f = found start (λ h. true) id e in (f.listed, f.included);
            fresh = λ n. cc;
            no_fresh = λ _. busy;
            least = λ n. cc;
            none_least = λ _. low;
            guarded = λ n. cc;
            blank = λ n. cc;
            none_left = λ n _. cc;
          })
  ]

  pick_least-IsPick :
      (start : ℕ)
      → All (λ h. (exclude h ≡ true) ⊎ (0 < c.use_count h)) c.hosts
      → IsPick true c exclude (pick_least c start exclude)
  unfolding pick_least
  pick_least-IsPick start busy =
      elim (Option-cases (scan c start exclude (λ h. eqb (c.use_count h) (min_use_count c)))) [
        | inl e ↦ rw (e, pick_least) (pick_any-IsPick start (lowest_excluded start e) busy)
        | inr (id, e) ↦
            let f = found start (λ h. eqb (c.use_count h) (min_use_count c)) id e in
            let at_least : c.use_count id ≡ min_use_count c = ground (arith, f.passes) in
            rw (e, pick_least)
              (record {
                taken = λ _. (f.listed, f.included);
                fresh = λ n. cc;
                no_fresh = λ _. busy;
                least = λ _. rw at_least (min_use_count-le c);
                none_least = λ n. cc;
                guarded = λ n. cc;
                blank = λ n. cc;
                none_left = λ n _. cc;
              })
      ]

-- `Pick` takes an unused candidate that is not excluded where there is one. Else, where reuse is
-- allowed, it takes one that has the lowest use count of all candidates, and another one only where
-- no such candidate is free of exclusion; where reuse is not allowed, it fails to choose. With reuse
-- it fails to choose only where every candidate is excluded. No branch returns an excluded host or
-- one that is no candidate.
pub pick-IsPick :
    (cfg : SlotsConfig) (pk : Str) (c : Candidates) (exclude : Str → Bool)
    → IsPick cfg.allow_reuse c exclude (pick cfg pk c exclude)
unfolding pick
pick-IsPick cfg pk c exclude = go c.hosts refl
  where
    start : ℕ
    start = start_offset pk (length c.hosts)

    Goal : Str × Rank → Type 0
    Goal r = IsPick cfg.allow_reuse c exclude r

    no_hosts : c.hosts ≡ [] → Goal ([], unfilled)
    no_hosts e = record {
      taken = λ n. absurd (n refl);
      fresh = λ n. cc;
      no_fresh = λ _. rw e tt;
      least = λ n. cc;
      none_least = λ n. cc;
      guarded = λ _. inr refl;
      blank = λ _. refl;
      none_left = λ _ _. rw e tt;
    }

    rejected :
        All (λ h. (exclude h ≡ true) ⊎ (0 < c.use_count h)) c.hosts
        → Goal (if cfg.allow_reuse then pick_least c start exclude else ([], unfilled))
    rejected busy = elim (Bool-cases cfg.allow_reuse) [
      | inl e ↦ rw e (pick_least-IsPick c exclude start busy)
      | inr e ↦ rw e (record {
        taken = λ n. absurd (n refl);
        fresh = λ n. cc;
        no_fresh = λ _. busy;
        least = λ n. cc;
        none_least = λ n. cc;
        guarded = λ _. inr refl;
        blank = λ _. refl;
        none_left = λ _ r. cc;
      })
    ]

    some_hosts : eqb (length c.hosts) 0 ≡ false → Goal (pick cfg pk c exclude)
    some_hosts n = elim (Option-cases (scan c start exclude (λ h. eqb (c.use_count h) 0))) [
      | inl e ↦ rw (n, e, pick) (rejected (no_fresh_left c exclude start e))
      | inr (id, e) ↦
          let f = found c exclude start (λ h. eqb (c.use_count h) 0) id e in
          rw (n, e, pick)
            (record {
              taken = λ _. (f.listed, f.included);
              fresh = λ _. ground (arith, f.passes);
              no_fresh = λ u. absurd (u refl);
              least = λ u. cc;
              none_least = λ u. cc;
              guarded = λ _. inl refl;
              blank = λ u. cc;
              none_left = λ u _. cc;
            })
    ]

    go : (hosts : List Str) → c.hosts ≡ hosts → Goal (pick cfg pk c exclude)
    go [] e =
        let none_at : pick cfg pk c exclude ≡ ([], unfilled) = rw (e, pick) in
        rw none_at (no_hosts e)
    go (h ∷ hs) e = some_hosts (rw e (ground arith))
