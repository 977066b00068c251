-- ===== src/Provider/File/Documents.antt =====
-- internal/provider/file/file.go: what a document is turned into.
use network_mesh_exporter.Base.{
  ℕ, suc, ◌≡◌, ◌≢◌, ◌⊎◌, refl, sym, ap, subst, ◌∙◌, false, true, List, [], ◌∷◌, map, none, some,
  length, if◌then◌else◌, eqb, arith, All, Option, Option-cases, inl, inr,
}
use network_mesh_exporter.Base.Int.{ℤ}
use network_mesh_exporter.Base.Map.{Map}
use network_mesh_exporter.Base.Str.{Str}
use network_mesh_exporter.Base.Strs.{contains}
use network_mesh_exporter.Inventory.{HostRecord, Set}
use network_mesh_exporter.Provider.File.{
  SiteEntry, HostEntry, Document, Error, default_name_format, validate_hosts, validate, Named,
  named, too_short, parse_name, host_of, Result, ok, err, parse_hosts, parse,
}

-- No two names are the same.
abbrev pub DistinctNames : List Str → Type 0
DistinctNames [] = Unit
DistinctNames (n ∷ ns) = All (λ k. n ≢ k) ns × DistinctNames ns

abbrev names : List HostEntry → List Str
names hs = map (λ h. h.name) hs

validate_hosts-apart :
    (i : ℕ) (n : Str) (seen : List Str) (hs : List HostEntry)
    → contains n seen ≡ true
    → validate_hosts i seen hs ≡ none
    → All (λ k. n ≢ k) (names hs)
unfolding validate_hosts contains
validate_hosts-apart i n seen [] k e = tt
validate_hosts-apart i n seen (h ∷ hs) k e =
    let fresh : contains h.name seen ≡ false = ground arith in
    let rest : validate_hosts (suc i) (h.name ∷ seen) hs ≡ none = ground arith in
    (
      λ same. ground (arith, fresh, k, ap (λ x. contains x seen) same),
      validate_hosts-apart (suc i) n (h.name ∷ seen) hs (ground (arith, k)) rest,
    )

contains-head : (n : Str) (ns : List Str) → contains n (n ∷ ns) ≡ true
unfolding contains
contains-head n ns = ground arith

validate_hosts-distinct :
    (i : ℕ) (seen : List Str) (hs : List HostEntry)
    → validate_hosts i seen hs ≡ none
    → All (λ k. k ≢ []) (names hs) × DistinctNames (names hs)
unfolding validate_hosts
validate_hosts-distinct i seen [] e = (tt, tt)
validate_hosts-distinct i seen (h ∷ hs) e =
    let rest : validate_hosts (suc i) (h.name ∷ seen) hs ≡ none = ground arith in
    let later = validate_hosts-distinct (suc i) (h.name ∷ seen) hs rest in
    (
      (ground arith, later.0),
      (
        validate_hosts-apart (suc i) h.name (h.name ∷ seen) hs (contains-head h.name seen) rest,
        later.1,
      ),
    )

-- What every record of a document carries.
pub record IsFrom (src : Str) (prio : ℤ) (now : ℕ) (r : HostRecord) : Type 0 where
  pub source : r.source ≡ src
  pub priority : r.priority ≡ prio
  pub seen : r.seen_at ≡ now
  pub reachable : r.id ≢ [] → r.address ≢ []
  pub explained : r.healthy ≡ false → r.reason ≢ []

host_of-IsFrom :
    (source : Str) (priority : ℤ) (now : ℕ) (table : Map SiteEntry) (h : HostEntry)
    (attrs : Map Str)
    → IsFrom source priority now (host_of source priority now table h attrs)
unfolding host_of
host_of-IsFrom source priority now table h attrs = record {
  source = refl;
  priority = refl;
  seen = refl;
  reachable = λ p. ground (arith, p);
  explained = λ p. ground (arith, p);
}

Named-cases :
    (n : Named) → ((i : ℕ) × (j : ℕ) × (n ≡ too_short i j)) ⊎ ((m : Map Str) × (n ≡ named m))
Named-cases (named m) = inr (m, refl)
Named-cases (too_short i j) = inl (i, j, refl)

pub Result-cases :
    {A : Type 0} (r : Result A) → ((e : Error) × (r ≡ err e)) ⊎ ((a : A) × (r ≡ ok a))
Result-cases (ok a) = inr (a, refl)
Result-cases (err e) = inl (e, refl)

parse_hosts-IsFrom :
    (source : Str) (priority : ℤ) (now : ℕ) (table : Map SiteEntry) (format : List Str)
    (hs : List HostEntry) (rs : List HostRecord)
    → parse_hosts source priority now table format hs ≡ ok rs
    → (map (λ r. r.id) rs ≡ names hs) × All (IsFrom source priority now) rs
unfolding parse_hosts host_of
parse_hosts-IsFrom source priority now table format [] [] e = (refl, tt)
parse_hosts-IsFrom source priority now table format [] (r ∷ rs) e = cc
parse_hosts-IsFrom source priority now table format (h ∷ hs) rs e =
    elim (Named-cases (parse_name h.name format)) [
      | inl (n, k, short) ↦ ground (arith, short)
      | inr (attrs, parts) ↦ elim (Result-cases (parse_hosts source priority now table format hs)) [
        | inl (f, failed) ↦ ground (arith, parts, failed)
        | inr (qs, done) ↦
            let here : host_of source priority now table h attrs ∷ qs ≡ rs =
              ground (arith, parts, done) in
            let (ids, all) = parse_hosts-IsFrom source priority now table format hs qs done in
            subst
              (λ xs. (map (λ r. r.id) xs ≡ names (h ∷ hs)) × All (IsFrom source priority now) xs)
              here
              (ap (λ xs. h.name ∷ xs) ids, (host_of-IsFrom source priority now table h attrs, all))
      ]
    ]

validate_passed :
    (d : Document) → validate d ≡ none → (validate_hosts 0 [] d.hosts ≡ none) × (d.hosts ≢ [])
unfolding validate
validate_passed d e = (ground arith, ground arith)

names-empty : (hs : List HostEntry) → hs ≢ [] → names hs ≢ []
names-empty [] h = λ e. h refl
names-empty (x ∷ xs) h = λ e. cc

-- A document that is accepted gives one record for each of its hosts, in their order and under their
-- names, of which none is empty and no two are the same. Each record carries the source, the priority
-- and the time of the poll, has an address, and has a reason where it is not healthy. There is a
-- record at least.
pub parse-IsFrom :
    (doc : Document) (source : Str) (priority : ℤ) (now : ℕ) (set : Set)
    → parse (some doc) source priority now ≡ ok set
    → (map (λ r. r.id) set.hosts ≡ names doc.hosts)
      × All (λ k. k ≢ []) (map (λ r. r.id) set.hosts)
      × DistinctNames (map (λ r. r.id) set.hosts)
      × All (IsFrom source priority now) set.hosts
      × (set.hosts ≢ [])
unfolding parse
parse-IsFrom doc source priority now set e =
    let format : List Str =
      if eqb (length doc.name_format) 0 then default_name_format else doc.name_format in
    elim (Option-cases (validate doc)) [
      | inr (f, bad) ↦ ground (arith, bad)
      | inl fine ↦
          elim (Result-cases (parse_hosts source priority now doc.site_table format doc.hosts)) [
            | inl (f, failed) ↦ ground (arith, fine, failed)
            | inr (rs, done) ↦
                let here : rs ≡ set.hosts = ground (arith, fine, done) in
                let (ids, all) =
                  parse_hosts-IsFrom source priority now doc.site_table format doc.hosts rs done in
                let (checked, some_host) = validate_passed doc fine in
                let (filled, apart) = validate_hosts-distinct 0 [] doc.hosts checked in
                subst
                  (λ xs.
                    (map (λ r. r.id) xs ≡ names doc.hosts)
                    × All (λ k. k ≢ []) (map (λ r. r.id) xs)
                    × DistinctNames (map (λ r. r.id) xs)
                    × All (IsFrom source priority now) xs
                    × (xs ≢ []))
                  here
                  (
                    ids,
                    subst (All (λ k. k ≢ [])) (sym ids) filled,
                    subst DistinctNames (sym ids) apart,
                    all,
                    λ empty. names-empty doc.hosts some_host (sym ids ∙ ap (map (λ r. r.id)) empty),
                  )
          ]
    ]

-- A set that is read carries the name of its source.
pub parse-source :
    (doc : Option Document) (source : Str) (priority : ℤ) (now : ℕ) (set : Set)
    → parse doc source priority now ≡ ok set
    → set.source ≡ source
unfolding parse
parse-source none source priority now set e = cc
parse-source (some doc) source priority now set e =
    let format : List Str =
      if eqb (length doc.name_format) 0 then default_name_format else doc.name_format in
    elim (Option-cases (validate doc)) [
      | inr (f, bad) ↦ ground (arith, bad)
      | inl good ↦
          elim (Result-cases (parse_hosts source priority now doc.site_table format doc.hosts)) [
            | inl (f, failed) ↦ ground (arith, good, failed)
            | inr (rs, done) ↦ ground (arith, good, done)
          ]
    ]
