-- ===== src/Runner/Apply/Keys.antt =====
-- internal/runner/runner.go: the map of tasks, by key.
use network_mesh_exporter.Base.{
  ◌≡◌, ◌≢◌, refl, sym, true, List, [], ◌∷◌, ◌++◌, Option, none, some, if◌then◌else◌, arith, All,
  Bool-cases, inl, inr, subst,
}
use network_mesh_exporter.Runner.{Task, TaskKey, same_key, find, put, drop_task}

-- No two tasks have one key, as in the map.
abbrev pub DistinctKeys : List Task → Type 0
DistinctKeys [] = Unit
DistinctKeys (t ∷ ts) = All (λ (u : Task). t.key ≢ u.key) ts × DistinctKeys ts

pub find-key : (k : TaskKey) {t : Task} (ts : List Task) → find k ts ≡ some t → t.key ≡ k
unfolding find
find-key k {t} [] e = cc
find-key k {t} (u ∷ us) e = ground (arith, find-key k {t = t} us)

pub find-none : (k : TaskKey) (ts : List Task) → All (λ (u : Task). k ≢ u.key) ts → find k ts ≡ none
unfolding find
find-none k [] h = refl
find-none k (u ∷ us) h = ground (arith, h.0, find-none k us h.1)

pub find-append :
    (k : TaskKey) (ts us : List Task)
    → find k (ts ++ us)
      ≡ elim (find k ts) as (λ _. Option Task) [ none ↦ find k us | some t ↦ some t ]
unfolding find
find-append k [] us = refl
find-append k (t ∷ ts) us = ground (arith, find-append k ts us)

pub find-put :
    (k : TaskKey) (t : Task) (ts : List Task)
    → find k (put t ts) ≡ (if same_key k t.key then some t else find k ts)
unfolding find put
find-put k t [] = refl
find-put k t (u ∷ us) = ground (arith, find-put k t us)

pub find-drop_task :
    (k j : TaskKey) (ts : List Task)
    → find k (drop_task j ts) ≡ (if same_key k j then none else find k ts)
unfolding find drop_task
find-drop_task k j [] = ground arith
find-drop_task k j (u ∷ us) = ground (arith, find-drop_task k j us)

module _ {κ} (P : Task → Type κ) where
  pub All-put : (t : Task) (ts : List Task) → P t → All P ts → All P (put t ts)
  unfolding put
  All-put t [] p h = (p, tt)
  All-put t (u ∷ us) p h = ground (arith, p, h, All-put t us p h.1)

  pub All-drop_task : (k : TaskKey) (ts : List Task) → All P ts → All P (drop_task k ts)
  unfolding drop_task
  All-drop_task k [] h = tt
  All-drop_task k (u ∷ us) h = ground (arith, All-drop_task k us h.1)

  pub All-find : (k : TaskKey) {t : Task} (ts : List Task) → All P ts → find k ts ≡ some t → P t
  unfolding find
  All-find k {t} [] h e = cc
  All-find k {t} (u ∷ us) h e = ground (arith, h.0, All-find k {t = t} us h.1)

pub same_key-eq : (a b : TaskKey) → same_key a b ≡ true → a ≡ b
same_key-eq a b e = ground arith

pub put-DistinctKeys : (t : Task) (ts : List Task) → DistinctKeys ts → DistinctKeys (put t ts)
unfolding put
put-DistinctKeys t [] h = (tt, tt)
put-DistinctKeys t (u ∷ us) h = elim (Bool-cases (same_key t.key u.key)) [
  | inl e ↦
      rw e
        (subst (λ k. All (λ (v : Task). k ≢ v.key) us) (sym (same_key-eq t.key u.key e)) h.0, h.1)
  | inr e ↦
      let apart : u.key ≢ t.key = ground (arith, e) in
      rw e (All-put (λ (v : Task). u.key ≢ v.key) t us apart h.0, put-DistinctKeys t us h.1)
]

pub drop_task-DistinctKeys :
    (k : TaskKey) (ts : List Task) → DistinctKeys ts → DistinctKeys (drop_task k ts)
unfolding drop_task
drop_task-DistinctKeys k [] h = tt
drop_task-DistinctKeys k (u ∷ us) h =
    ground
      (arith, drop_task-DistinctKeys k us h.1, All-drop_task (λ (v : Task). u.key ≢ v.key) k us h.0)
