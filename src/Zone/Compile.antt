-- ===== src/Zone/Compile.antt =====
-- `NewRule` and `compileTransform` of internal/zone/zone.go. What they call of `strings`, `strconv`,
-- `regexp` and `crypto/sha256` is the record `Lib`.
use network_mesh_exporter.Base.{
  ℕ, suc, ◌+◌, ◌||◌, List, [], ◌∷◌, ◌++◌, map, Option, none, some, length, if◌then◌else◌, take,
  drop, leb, eqb,
}
use network_mesh_exporter.Base.Int.{ℤ, pos, negsuc}
use network_mesh_exporter.Base.Str.{Str, ◌==◌, bytes}
use network_mesh_exporter.Zone.{
  MissingPolicy, exclude, empty, literal, Transform, KeySpec, Rule, join,
}

-- `config.ZoneKeySpec` and `config.ZoneConfig`.
pub record ZoneKeySpec : Type 0 where
  pub key : Str
  pub transform : Str

pub record ZoneConfig : Type 0 where
  pub keys : List ZoneKeySpec
  pub separator : Str
  pub missing : Str

-- The library functions that are called: `strings.ToLower`, `ToUpper` and `TrimSpace`,
-- `strconv.Atoi`, `regexp.Compile` with `ReplaceAllString`, and the hexadecimal of the first
-- eight bytes of SHA-256.
pub record Lib : Type 0 where
  pub to_lower : Str → Str
  pub to_upper : Str → Str
  pub trim_space : Str → Str
  pub atoi : Str → Option ℤ
  pub regexp : Str → Option (Str → Str → Str)
  pub sum256 : Str → Str

pub data Error : Type 0 where
  keys_empty unknown_missing unknown_transform bad_prefix no_replacement bad_regexp : Error
  empty_key : ℕ → Error
  at_key : ℕ → Error → Error

pub data Result {ℓ} (A : Type ℓ) : Type ℓ where
  ok : A → Result A
  err : Error → Result A

infixl 5 ◌>>=◌
abbrev pub ◌>>=◌ {ℓ κ} : {A : Type ℓ} {B : Type κ} → Result A → (A → Result B) → Result B
ok a >>= f = f a
err e >>= f = err e

-- `strings.CutPrefix`: what `HasPrefix` and `TrimPrefix` do together.
unfoldable pub cut_prefix : Str → Str → Option Str
cut_prefix [] s = some s
cut_prefix (p ∷ ps) [] = none
cut_prefix (p ∷ ps) (c ∷ s) = let rest = cut_prefix ps s in if eqb p c then rest else none

-- `strings.LastIndex` of one byte.
unfoldable pub last_index : ℕ → Str → Option ℕ
last_index b [] = none
last_index b (c ∷ s) = elim (last_index b s) [
  | some i ↦ some (suc i)
  | none ↦ if eqb c b then some 0 else none
]

module _ (lib : Lib) where
  compile_prefix : Str → Result Transform
  compile_prefix body = elim (lib.atoi body) [
    | none ↦ err bad_prefix
    | some (negsuc _) ↦ err bad_prefix
    | some (pos n) ↦
        if eqb n 0 then err bad_prefix else ok (λ s. if leb (length s) n then s else take n s)
  ]

  compile_regex : Str → Result Transform
  compile_regex body = elim (last_index b':' body) [
    | none ↦ err no_replacement
    | some i ↦ elim (lib.regexp (take i body)) [
      | none ↦ err bad_regexp
      | some replace_all ↦ ok (λ s. replace_all s (drop (i + 1) body))
    ]
  ]

  unfoldable pub compile_transform : Str → Result Transform
  unfolding compile_prefix compile_regex
  compile_transform spec =
      if spec == bytes "lower"
      then ok lib.to_lower
      else if spec == bytes "upper"
      then ok lib.to_upper
      else if spec == bytes "trim"
      then ok lib.trim_space
      else elim (cut_prefix (bytes "prefix:") spec) [
        | some body ↦ compile_prefix body
        | none ↦ elim (cut_prefix (bytes "regex:") spec) [
          | some body ↦ compile_regex body
          | none ↦ err unknown_transform
        ]
      ]

  compile_key : ℕ → ZoneKeySpec → Result (KeySpec × Str)
  compile_key i k =
      if k.key == []
      then err (empty_key i)
      else if k.transform == []
      then ok (record { key = k.key; transform = none; raw = [] }, k.key)
      else elim (compile_transform k.transform) [
        | ok t ↦ ok (
          record { key = k.key; transform = some t; raw = k.transform },
          k.key ++ (b'|' ∷ k.transform),
        )
        | err e ↦ err (at_key i e)
      ]

  -- The loop over `cfg.Keys` from index `i` on: the compiled keys with their description parts.
  compile_keys : ℕ → List ZoneKeySpec → Result (List (KeySpec × Str))
  compile_keys i [] = ok []
  compile_keys i (k ∷ ks) = do c ← compile_key i k; cs ← compile_keys (suc i) ks; ok (c ∷ cs)

  missing_policy : Str → Result (MissingPolicy × Str)
  missing_policy m =
      if m == [] || m == bytes "exclude"
      then ok (exclude, [])
      else if m == bytes "empty"
      then ok (empty, [])
      else elim (cut_prefix (bytes "literal:") m) [
        | some l ↦ ok (literal, l)
        | none ↦ err unknown_missing
      ]

  unfoldable pub new_rule : ZoneConfig → Result Rule
  unfolding compile_key compile_keys missing_policy compile_transform
  new_rule cfg = elim cfg.keys [
    | [] ↦ err keys_empty
    | _ ∷ _ ↦ do
      (policy, lit) ← missing_policy cfg.missing
      parts ← compile_keys 0 cfg.keys
      let sep = if cfg.separator == [] then b'/' ∷ [] else cfg.separator
      let desc =
          join (b',' ∷ []) (map (λ c. c.1) parts)
          ++ (bytes " sep=" ++ (sep ++ (bytes " missing=" ++ cfg.missing)))
      ok (record {
        keys = map (λ c. c.0) parts;
        sep = sep;
        missing = policy;
        literal = lit;
        desc = desc;
        fp = lib.sum256 desc;
      })
  ]
