-- ===== src/Provider/File.antt =====
-- internal/provider/file/file.go: the inventory document, which the HTTP provider reads as well, and the
-- poll of the file. JSON, the file system and the clock are parameters. A map is an association list
-- and a range over it visits the entries in list order.
pub mod Names
pub mod Documents
use network_mesh_exporter.Base.{
  ℕ, zero, suc, ◌+◌, ◌-◌, Bool, false, true, not, ◌&&◌, ◌||◌, List, [], ◌∷◌, ◌++◌, Option, none,
  some, length, get_elem?, take, drop, if◌then◌else◌, ltb, leb, eqb,
}
use network_mesh_exporter.Base.Int.{ℤ, pos}
use network_mesh_exporter.Base.Map.{Map, lookup, insert}
use network_mesh_exporter.Base.Str.{Str, ◌==◌, bytes}
use network_mesh_exporter.Base.Strs.{contains}
use network_mesh_exporter.Inventory.{HostRecord, Set, Store, replace}
use network_mesh_exporter.Zone.{join}
use network_mesh_exporter.Zone.Compile.{last_index}

pub record SiteEntry : Type 0 where
  pub country : Str
  pub metro : Str
  pub dc_label : Str
  pub dc_instance : Str
  pub extra : Map Str

pub record HostEntry : Type 0 where
  pub name : Str
  pub address : Str
  pub enabled : Option Bool
  pub attributes : Map Str

pub record Document : Type 0 where
  pub version : ℤ
  pub site_table : Map SiteEntry
  pub name_format : List Str
  pub hosts : List HostEntry

-- An error keeps the index of the host, or the name.
pub data Error : Type 0 where
  bad_json : Error
  bad_version : ℤ → Error
  no_hosts : Error
  empty_name : ℕ → Error
  duplicate_name : Str → Error
  short_name : Str → ℕ → ℕ → Error

abbrev pub default_name_format : List Str
default_name_format =
    bytes "role_ordinal" ∷ bytes "service" ∷ bytes "environment" ∷ bytes "site" ∷ []

-- The loop of `Validate` from index `i` on.
unfoldable pub validate_hosts : ℕ → List Str → List HostEntry → Option Error
validate_hosts i seen [] = none
validate_hosts i seen (h ∷ hs) =
    let rest = validate_hosts (suc i) (h.name ∷ seen) hs in
    if h.name == []
    then some (empty_name i)
    else if contains h.name seen
    then some (duplicate_name h.name)
    else rest

abbrev pub is_version : ℤ → Bool
is_version (pos n) = eqb n 0 || eqb n 1
is_version _ = false

-- No error is `none`.
unfoldable pub validate : Document → Option Error
unfolding validate_hosts
validate d =
    if not (is_version d.version)
    then some (bad_version d.version)
    else if eqb (length d.hosts) 0
    then some no_hosts
    else validate_hosts 0 [] d.hosts

-- `strings.Split(name, ".")`.
unfoldable pub split_dots : Str → List Str
split_dots [] = [] ∷ []
split_dots (c ∷ s) =
    let rest = split_dots s in
    if eqb c b'.' then [] ∷ rest else elim rest [ [] ↦ (c ∷ []) ∷ [] | l ∷ ls ↦ (c ∷ l) ∷ ls ]

abbrev pub is_digit : ℕ → Bool
is_digit c = leb b'0' c && leb c b'9'

abbrev all_digits : Str → Bool
all_digits [] = true
all_digits (c ∷ s) = is_digit c && all_digits s

abbrev pub is_digits : Str → Bool
is_digits s = not (s == []) && all_digits s

abbrev pub digit_at : Str → ℕ → Bool
digit_at s i = elim (get_elem? s i) [ none ↦ false | some c ↦ is_digit c ]

-- The loop that moves `j` back over digits.
unfoldable pub before_digits : Str → ℕ → ℕ
before_digits s zero = 0
before_digits s (suc j) = let rest = before_digits s j in if digit_at s j then rest else suc j

-- The second half of `splitOrdinal`.
unfoldable pub split_digits : Str → Str × Str
unfolding before_digits
split_digits label =
    let j = before_digits label (length label) in
    if eqb j (length label) || eqb j 0 then (label, []) else (take j label, drop j label)

unfoldable pub split_ordinal : Str → Str × Str
unfolding split_digits
split_ordinal label = elim (last_index b'-' label) [
  | none ↦ split_digits label
  | some i ↦
      if ltb 0 i && ltb (i + 1) (length label) && is_digits (drop (i + 1) label)
      then (take i label, drop (i + 1) label)
      else split_digits label
]

unfoldable pub split_site : Str → Str × Str
unfolding before_digits
split_site site =
    let j = before_digits site (length site) in
    if eqb j (length site) then (site, []) else (take j site, drop j site)

unfoldable pub set_if_absent : Str → Str → Map Str → Map Str
set_if_absent k v m = if v == [] then m else elim (lookup k m) [ none ↦ insert k v m | some _ ↦ m ]

unfoldable pub set_all_absent : Map Str → Map Str → Map Str
unfolding set_if_absent
set_all_absent [] m = m
set_all_absent ((k, v) ∷ e) m = set_all_absent e (set_if_absent k v m)

unfoldable pub apply_site : SiteEntry → Map Str → Map Str
unfolding set_if_absent set_all_absent
apply_site e m = set_all_absent e.extra (
    set_if_absent (bytes "dc_instance") e.dc_instance (
      set_if_absent (bytes "dc_label") e.dc_label
        (set_if_absent (bytes "metro") e.metro (set_if_absent (bytes "country") e.country m))))

-- The loop over the format; the labels are as many at least.
unfoldable pub name_fields : List Str → List Str → Map Str → Map Str
unfolding split_ordinal
name_fields [] labels m = m
name_fields (f ∷ fs) [] m = m
name_fields (f ∷ fs) (v ∷ vs) m =
    let parts = split_ordinal v in
    name_fields fs vs (
      if f == bytes "role_ordinal"
      then insert (bytes "ordinal") parts.1 (insert (bytes "role") parts.0 m)
      else insert f v m)

pub data Named : Type 0 where
  named : Map Str → Named
  too_short : ℕ → ℕ → Named

-- The head of the labels, which `split_dots` never leaves empty.
abbrev pub head_label : List Str → Str
head_label [] = []
head_label (l ∷ ls) = l

unfoldable pub parse_name : Str → List Str → Named
unfolding name_fields split_dots
parse_name name format =
    let labels = split_dots name in
    if leb (length labels) (length format)
    then too_short (length labels) (length format)
    else named (
        insert (bytes "hostname") (head_label labels) (
          insert (bytes "domain") (join (b'.' ∷ []) (drop (length format) labels))
            (name_fields format labels ((bytes "fqdn", name) ∷ []))))

unfoldable pub place : Map SiteEntry → Map Str → Map Str
unfolding apply_site split_site set_if_absent
place table attrs = elim (lookup (bytes "site") attrs) [
  | none ↦ attrs
  | some site ↦ elim (lookup site table) [
    | some e ↦ apply_site e attrs
    | none ↦
        set_if_absent (bytes "dc_instance") (split_site site).1
          (set_if_absent (bytes "metro") (split_site site).0 attrs)
  ]
]

unfoldable pub set_each : Map Str → Map Str → Map Str
set_each [] m = m
set_each ((k, v) ∷ e) m = set_each e (insert k v m)

-- `h.Enabled != nil && !*h.Enabled`.
abbrev pub is_disabled : Option Bool → Bool
is_disabled none = false
is_disabled (some b) = not b

unfoldable pub host_of : Str → ℤ → ℕ → Map SiteEntry → HostEntry → Map Str → HostRecord
unfolding place set_each
host_of source priority now table h attrs = record {
  id = h.name;
  address = if h.address == [] then h.name else h.address;
  attributes = set_each h.attributes (place table attrs);
  source = source;
  healthy = not (is_disabled h.enabled);
  reason = if is_disabled h.enabled then bytes "disabled in inventory document" else [];
  seen_at = now;
  priority = priority;
}

pub data Result (A : Type 0) : Type 0 where
  ok : A → Result A
  err : Error → Result A

unfoldable pub parse_hosts :
    Str → ℤ → ℕ → Map SiteEntry → List Str → List HostEntry → Result (List HostRecord)
unfolding parse_name host_of
parse_hosts source priority now table format [] = ok []
parse_hosts source priority now table format (h ∷ hs) =
    let rest = parse_hosts source priority now table format hs in
    elim (parse_name h.name format) [
      | too_short n k ↦ err (short_name h.name n k)
      | named attrs ↦ elim rest [
        | err e ↦ err e
        | ok rs ↦ ok (host_of source priority now table h attrs ∷ rs)
      ]
    ]

-- `Parse`, of the document that `json.Unmarshal` yields where it yields one.
unfoldable pub parse : Option Document → Str → ℤ → ℕ → Result Set
unfolding validate parse_hosts
parse none source priority now = err bad_json
parse (some doc) source priority now =
    let format = if eqb (length doc.name_format) 0 then default_name_format else doc.name_format in
    elim (validate doc) [
      | some e ↦ err e
      | none ↦ elim (parse_hosts source priority now doc.site_table format doc.hosts) [
        | err e ↦ err e
        | ok hosts ↦ ok (record {
          source = source;
          hosts = hosts;
          fetch_at = now;
          stale = false;
          last_error = [];
        })
      ]
    ]

-- The fields that `poll` keeps.
pub record Provider : Type 0 where
  pub mtime : ℕ
  pub size : ℕ

-- `poll`, given what `os.Stat` and `load` yield; the store is what the sink writes to.
unfoldable pub poll : Bool → Option (ℕ × ℕ) → Result Set → Provider × Store → Provider × Store
poll force none loaded (p, st) = (p, st)
poll force (some (mtime, size)) loaded (p, st) =
    if not force && eqb mtime p.mtime && eqb size p.size then (p, st) else elim loaded [
      | err e ↦ (p, st)
      | ok set ↦ (record { mtime = mtime; size = size }, replace set st)
    ]
