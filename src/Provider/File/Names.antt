-- ===== src/Provider/File/Names.antt =====
-- internal/provider/file/file.go: how names are taken apart.
use network_mesh_exporter.Base.{
  ℕ, zero, suc, ◌+◌, ◌-◌, ◌≤◌, ◌<◌, ◌≡◌, ◌≢◌, ◌⊎◌, ◌↔◌, refl, sym, ap, inl, inr, false, true, List,
  [], ◌∷◌, ◌++◌, some, length, take, drop, eqb, arith, Bool-cases, Option-cases, length-take, subst,
}
use network_mesh_exporter.Base.Str.{Str}
use network_mesh_exporter.Provider.File.{
  split_dots, digit_at, before_digits, split_digits, split_ordinal, split_site, too_short,
  parse_name,
}
use network_mesh_exporter.Zone.{join}
use network_mesh_exporter.Zone.Compile.{last_index}

take-append-drop {ℓ} : {A : Type ℓ} (n : ℕ) (xs : List A) → take n xs ++ drop n xs ≡ xs
take-append-drop zero xs = refl
take-append-drop (suc n) [] = refl
take-append-drop (suc n) (x ∷ xs) = ap (λ ys. x ∷ ys) (take-append-drop n xs)

append_nil : (xs : Str) → xs ++ [] ≡ xs
append_nil [] = refl
append_nil (x ∷ xs) = ap (λ ys. x ∷ ys) (append_nil xs)

before_digits-le : (s : Str) (j : ℕ) → before_digits s j ≤ j
unfolding before_digits
before_digits-le s zero = omega arith
before_digits-le s (suc j) = ground (arith, before_digits-le s j)

-- The loop passes digits only, and stops at the start or behind a byte that is none.
before_digits-digit : (s : Str) (j i : ℕ) → before_digits s j ≤ i → i < j → digit_at s i ≡ true
unfolding before_digits
before_digits-digit s zero i h l = ground arith
before_digits-digit s (suc j) i h l = elim (Bool-cases (digit_at s j)) [
  | inr e ↦ ground (arith, e)
  | inl e ↦ elim (Bool-cases (eqb i j)) [
    | inl same ↦
        let at : i ≡ j = ground (arith, same) in subst (λ n. digit_at s n ≡ true) (sym at) e
    | inr apart ↦ before_digits-digit s j i (ground (arith, e)) (ground arith)
  ]
]

before_digits-stop :
    (s : Str) (j : ℕ) → (before_digits s j ≡ 0) ⊎ (digit_at s (before_digits s j - 1) ≡ false)
unfolding before_digits
before_digits-stop s zero = inl refl
before_digits-stop s (suc j) = elim (Bool-cases (digit_at s j)) [
  | inl e ↦ rw e (before_digits-stop s j)
  | inr e ↦
      let at : j ≡ suc j - 1 = omega arith in
      let stop : digit_at s (suc j - 1) ≡ false = subst (λ n. digit_at s n ≡ false) at e in
      rw e (inr stop)
]

length-split_site : (site : Str) → length (split_site site).0 ≡ before_digits site (length site)
unfolding split_site
length-split_site site =
    let j : ℕ = before_digits site (length site) in
    let le : j ≤ length site = before_digits-le site (length site) in
    let cut : length (take j site) ≡ j = omega (arith, length-take j site, le) in
    ground (arith, cut)

-- The metro and the instance of a site are the token, cut in two. The instance holds digits only, and
-- the metro does not end in one.
pub split_site-append :
    (site : Str)
    → ((split_site site).0 ++ (split_site site).1 ≡ site)
      × ((i : ℕ) → length (split_site site).0 ≤ i → i < length site → digit_at site i ≡ true)
      × ((length (split_site site).0 ≡ 0)
          ⊎ (digit_at site (length (split_site site).0 - 1) ≡ false))
unfolding split_site
split_site-append site =
    let cut : length (split_site site).0 ≡ before_digits site (length site) =
      length-split_site site in
    (
      ground (arith, append_nil site, take-append-drop (before_digits site (length site)) site),
      λ i h l. before_digits-digit site (length site) i (omega (arith, cut, h)) l,
      subst (λ n. (n ≡ 0) ⊎ (digit_at site (n - 1) ≡ false)) (sym cut)
          (before_digits-stop site (length site)),
    )

split_digits-append : (label : Str) → (split_digits label).0 ++ (split_digits label).1 ≡ label
unfolding split_digits
split_digits-append label =
    ground (arith, append_nil label, take-append-drop (before_digits label (length label)) label)

last_index-drop :
    (b : ℕ) (s : Str) (i : ℕ) → last_index b s ≡ some i → take i s ++ (b ∷ drop (i + 1) s) ≡ s
unfolding last_index
last_index-drop b [] i e = cc
last_index-drop b (c ∷ s) i e = elim (Option-cases (last_index b s)) [
  | inl none_later ↦
      let first : i ≡ 0 = ground (arith, none_later) in
      let same : b ≡ c = ground (arith, none_later) in
      subst (λ n. take n (c ∷ s) ++ (b ∷ drop (n + 1) (c ∷ s)) ≡ c ∷ s) (sym first)
        (ap (λ x. x ∷ s) same)
  | inr (j, later) ↦
      let at : i ≡ suc j = ground (arith, later) in
      let rest = last_index-drop b s j later in
      let next : suc (j + 1) ≡ suc j + 1 = omega arith in
      subst (λ n. take n (c ∷ s) ++ (b ∷ drop (n + 1) (c ∷ s)) ≡ c ∷ s) (sym at)
        (subst (λ n. c ∷ (take j s ++ (b ∷ drop n (c ∷ s))) ≡ c ∷ s) next (ap (λ ys. c ∷ ys) rest))
]

-- The role and the ordinal of a label are the label, cut in two, or cut at the dash between them.
pub split_ordinal-append :
    (label : Str)
    → ((split_ordinal label).0 ++ (split_ordinal label).1 ≡ label)
      ⊎ ((split_ordinal label).0 ++ (b'-' ∷ (split_ordinal label).1) ≡ label)
unfolding split_ordinal
split_ordinal-append label = elim (Option-cases (last_index b'-' label)) [
  | inl e ↦ ground (arith, e, split_digits-append label)
  | inr (i, e) ↦ ground (arith, e, split_digits-append label, last_index-drop b'-' label i e)
]

split_dots_cons : (s : Str) → split_dots s ≢ []
unfolding split_dots
split_dots_cons [] e = cc
split_dots_cons (c ∷ s) e = ground arith

join-step :
    (c : ℕ) (s : Str) (ls : List Str)
    → split_dots s ≡ ls
    → join (b'.' ∷ []) (split_dots s) ≡ s
    → join (b'.' ∷ []) (split_dots (c ∷ s)) ≡ c ∷ s
unfolding join split_dots
join-step c s [] e h = ground (arith, split_dots_cons s e)
join-step c s (l ∷ []) e h = ground (arith, e, h)
join-step c s (l ∷ m ∷ ms) e h = ground (arith, e, h)

-- The labels of a name, joined by dots, are the name.
pub join-split_dots : (name : Str) → join (b'.' ∷ []) (split_dots name) ≡ name
unfolding join split_dots
join-split_dots [] = refl
join-split_dots (c ∷ s) = join-step c s (split_dots s) refl (join-split_dots s)

-- A name is refused where it has no more labels than the format has fields, and in no other case.
pub parse_name-eq-too_short_iff :
    (name : Str) (format : List Str)
    → (parse_name name format ≡ too_short (length (split_dots name)) (length format))
      ↔ (length (split_dots name) ≤ length format)
unfolding parse_name
parse_name-eq-too_short_iff name format = (λ e. ground arith, λ h. ground arith)
