-- ===== src/Provider/Http.antt =====
-- internal/provider/http/http.go: the rounds of the poll, and the cache of the document. The request,
-- JSON, the hash and the files are parameters: a response is its outcome, the cache is the document
-- and the record beside it. A record that is written is read back as it was.
pub mod Cache
use network_mesh_exporter.Base.{
  ℕ, suc, ◌+◌, ◌-◌, Bool, false, true, not, ◌&&◌, ◌||◌, List, [], ◌∷◌, Option, none, some,
  if◌then◌else◌, ltb, leb,
}
use network_mesh_exporter.Base.Int.{ℤ, pos, negsuc, ltb_ℤ}
use network_mesh_exporter.Base.Str.{Str, ◌==◌, bytes}
use network_mesh_exporter.Inventory.{Set, Store, replace}
use network_mesh_exporter.Provider.{backoff}
use network_mesh_exporter.Provider.File.{Document, Result, ok, err}
use network_mesh_exporter.Provider.File

pub record CacheMeta : Type 0 where
  pub etag : Str
  pub last_modified : Str
  pub fetched_at : ℕ
  pub url : Str
  pub sha256 : Str

-- The fields of `config.HTTPConfig` that the poll reads.
pub record HttpConfig : Type 0 where
  pub url : Str
  pub interval : ℤ
  pub cache_max_age : ℤ
  pub backoff_min : ℕ
  pub backoff_max : ℕ
  pub priority : ℤ

-- What is called: `json.Unmarshal` into a document, the hash in hexadecimal, the text of an age, and
-- `rand.Int63n`.
pub record Lib : Type 0 where
  pub decode : Str → Option Document
  pub sha256 : Str → Str
  pub age_text : ℕ → Str
  pub int63n : ℕ → ℕ

pub record Provider : Type 0 where
  pub meta : CacheMeta
  pub attempt : ℕ
  pub have_set : Bool

-- The cached document with the time at which it was written, and the record beside it.
pub record Disk : Type 0 where
  pub body : Option Str
  pub written_at : ℕ
  pub meta : Option CacheMeta

-- The outcome of a request: an error before the body is read, status 304, a status that is no success,
-- or a body with its two headers.
pub data Response : Type 0 where
  failed not_modified bad_status : Response
  success : Str → Str → Str → Response

-- Whether the document and the record beside it are written.
pub record Writes : Type 0 where
  pub body : Bool
  pub meta : Bool

unfoldable pub cache_age : ℕ → Disk → Option ℕ
cache_age now d = elim d.body [ none ↦ none | some _ ↦ some (now - d.written_at) ]

-- `age > CacheMaxAge`, where there is a limit.
abbrev pub is_over : HttpConfig → Option ℕ → Bool
is_over cfg none = false
is_over cfg (some age) = ltb_ℤ (pos 0) cfg.cache_max_age && ltb_ℤ cfg.cache_max_age (pos age)

-- What `fetch` yields: an error, no change, or a set.
pub data Fetched : Type 0 where
  error unchanged : Fetched
  changed : Set → Fetched

module _ (lib : Lib) (cfg : HttpConfig) where
  -- The conversion of a body, under the name of the source.
  unfoldable pub parse_body : ℕ → Str → Result Set
  parse_body now body = File.parse (lib.decode body) (bytes "http") cfg.priority now

  -- The record beside the document, where it is there and belongs to the URL.
  unfoldable pub load_meta : Disk → Option CacheMeta
  load_meta d = elim d.meta [ none ↦ none | some m ↦ if m.url == cfg.url then some m else none ]

  unfoldable pub load_cache : ℕ → Disk → Provider → Option Set × Provider
  unfolding cache_age parse_body load_meta
  load_cache now d p = elim d.body [
    | none ↦ (none, p)
    | some body ↦ elim (parse_body now body) [
      | err e ↦ (none, p)
      | ok set ↦ elim (load_meta d) [
        | none ↦ (some (record set { stale = is_over cfg (cache_age now d) }), p)
        | some m ↦ (
          some (record set { fetch_at = m.fetched_at; stale = is_over cfg (cache_age now d) }),
          record p { meta = m },
        )
      ]
    ]
  ]

  unfoldable pub write_cache : ℕ → Writes → Str → CacheMeta → Disk → Disk
  write_cache now w body meta d =
      if w.body
      then if w.meta
        then record { body = some body; written_at = now; meta = some meta }
        else record d { body = some body; written_at = now }
      else d

  unfoldable pub fetch : ℕ → Response → Writes → Provider → Disk → Fetched × Provider × Disk
  unfolding parse_body write_cache
  fetch now failed w p d = (error, p, d)
  fetch now not_modified w p d = (unchanged, p, d)
  fetch now bad_status w p d = (error, p, d)
  fetch now (success body etag last_modified) w p d = elim (parse_body now body) [
    | err e ↦ (error, p, d)
    | ok set ↦
        let meta : CacheMeta = record {
          etag = etag;
          last_modified = last_modified;
          fetched_at = now;
          url = cfg.url;
          sha256 = lib.sha256 body;
        } in
        (
          changed (record set { fetch_at = now }),
          record p { meta = meta },
          write_cache now w body meta d,
        )
  ]

  unfoldable pub report_stale : ℕ → Disk → Provider × Store → Provider × Store
  unfolding load_cache cache_age
  report_stale now d (p, st) =
      let out = load_cache now d p in
      if not p.have_set then (p, st) else elim (cache_age now d) [
        | none ↦ (p, st)
        | some age ↦
            if is_over cfg (some age)
            then elim out.0 [
              | none ↦ (out.1, st)
              | some set ↦
                  (out.1, replace (record set { stale = true; last_error = lib.age_text age }) st)
            ]
            else (p, st)
      ]

  abbrev interval_of : ℤ → ℕ
  interval_of (pos n) = if ltb 0 n then n else 60000000000
  interval_of (negsuc n) = 60000000000

  -- The cases of the loop of `Run` after a fetch: what is left, and the delay.
  unfoldable pub settle : ℕ → Store → Fetched × Provider × Disk → (Provider × Store × Disk) × ℕ
  unfolding report_stale
  settle now st (error, q, disk) =
      let left = report_stale now disk (record q { attempt = q.attempt + 1 }, st) in
      (
        (left.0, left.1, disk),
        backoff lib.int63n (pos (q.attempt + 1)) cfg.backoff_min cfg.backoff_max,
      )
  settle now st (unchanged, q, disk) =
      ((record q { attempt = 0 }, st, disk), interval_of cfg.interval)
  settle now st (changed set, q, disk) =
      ((record q { attempt = 0; have_set = true }, replace set st, disk), interval_of cfg.interval)

  -- One round of the loop.
  unfoldable pub round :
      ℕ → Response → Writes → Provider × Store × Disk → (Provider × Store × Disk) × ℕ
  unfolding fetch settle
  round now resp w (p, st, d) = settle now st (fetch now resp w p d)

  -- The start of `Run`, which applies the cache.
  unfoldable pub start : ℕ → Disk → Provider × Store → Provider × Store
  unfolding load_cache
  start now d (p, st) =
      let out = load_cache now d p in
      elim out.0 [
        | none ↦ (out.1, st)
        | some set ↦ (record out.1 { have_set = true }, replace set st)
      ]
