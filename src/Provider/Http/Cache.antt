-- ===== src/Provider/Http/Cache.antt =====
-- internal/provider/http/http.go: what the cache gives back, and what a failure leaves.
use network_mesh_exporter.Base.{
  ℕ, ◌+◌, ◌-◌, ◌≡◌, ◌⊎◌, refl, sym, subst, inl, inr, Bool, true, false, ◌∙◌, none, some, arith,
  Option-cases, Bool-cases,
}
use network_mesh_exporter.Base.Str.{Str, bytes, ◌==◌}
use network_mesh_exporter.Inventory.{Set, Store, replace}
use network_mesh_exporter.Provider.File
use network_mesh_exporter.Provider.File.{ok, err}
use network_mesh_exporter.Provider.File.Documents.{Result-cases, parse-source}
use network_mesh_exporter.Provider.Http.{
  CacheMeta, HttpConfig, Lib, Provider, Disk, Response, failed, not_modified, bad_status, success,
  Writes, cache_age, is_over, parse_body, load_meta, load_cache, write_cache, Fetched, error,
  changed, fetch, report_stale, settle, round,
}

module _ (lib : Lib) (cfg : HttpConfig) where
  -- A document that was fetched and written is read back from the cache at any later time: the set
  -- that is loaded is the conversion of the same body at that time, with the time of the fetch, stale
  -- exactly where the cache is older than its limit, and the record beside it is the one that the
  -- provider holds.
  pub load_cache-fetch :
      (now later : ℕ) (body etag last_modified : Str) (p : Provider) (d : Disk) (set again : Set)
      → parse_body lib cfg now body ≡ ok set
      → parse_body lib cfg later body ≡ ok again
      → let out =
          fetch lib cfg now
            (success body etag last_modified)
            (record { body = true; meta = true })
            p
            d in
        (out.0 ≡ changed (record set { fetch_at = now }))
        × (load_cache lib cfg later out.2 out.1 ≡ (
          some (record again { fetch_at = now; stale = is_over cfg (some (later - now)) }),
          out.1,
        ))
  unfolding fetch load_cache write_cache load_meta cache_age
  load_cache-fetch now later body etag last_modified p d set again e h =
      let same : (cfg.url == cfg.url) ≡ true = ground arith in
      let meta : CacheMeta = record {
        etag = etag;
        last_modified = last_modified;
        fetched_at = now;
        url = cfg.url;
        sha256 = lib.sha256 body;
      } in
      let q : Provider = record p { meta = meta } in
      let disk : Disk = record { body = some body; written_at = now; meta = some meta } in
      let step : fetch lib cfg now (success body etag last_modified)
            (record { body = true; meta = true }) p d
          ≡ (changed (record set { fetch_at = now }), q, disk) =
        rw (e, fetch) refl in
      let loaded : load_cache lib cfg later disk q
          ≡ (some (record again { fetch_at = now; stale = is_over cfg (some (later - now)) }), q) =
        rw (h, same, load_cache) refl in
      subst
        (λ (out : Fetched × Provider × Disk).
          (out.0 ≡ changed (record set { fetch_at = now }))
          × (load_cache lib cfg later out.2 out.1 ≡ (
            some (record again { fetch_at = now; stale = is_over cfg (some (later - now)) }),
            out.1,
          )))
        (sym step) (refl, loaded)

  -- The set that is reported in place of the last one: the hosts of the cached document, under the name
  -- of the source, marked stale with the age of the cache, which is above its limit.
  pub record IsStaleCopy (now : ℕ) (d : Disk) (set : Set) : Type 0 where
    pub body : Str
    pub cached : d.body ≡ some body
    pub over : is_over cfg (some (now - d.written_at)) ≡ true
    pub parsed : Set
    pub converted : parse_body lib cfg now body ≡ ok parsed
    pub same_hosts : set.hosts ≡ parsed.hosts
    pub same_source : set.source ≡ bytes "http"
    pub marked : set.stale ≡ true
    pub error : set.last_error ≡ lib.age_text (now - d.written_at)

  -- Why nothing is reported: the provider has had no set, or there is no cached document, or it is not
  -- above its limit, or it does not convert.
  pub data IsSilent (now : ℕ) (d : Disk) (have_set : Bool) : Type 0 where
    no_set : have_set ≡ false → IsSilent now d have_set
    no_body : d.body ≡ none → IsSilent now d have_set
    not_over : is_over cfg (some (now - d.written_at)) ≡ false → IsSilent now d have_set
    not_converted :
        (body : Str) (e : File.Error)
        → d.body ≡ some body
        → parse_body lib cfg now body ≡ err e
        → IsSilent now d have_set

  abbrev pub Reported : ℕ → Disk → Bool → Store → Store → Type 0
  Reported now d have_set st left =
      (IsSilent now d have_set × (left ≡ st))
      ⊎ ((have_set ≡ true) × (set : Set) × (left ≡ replace set st) × IsStaleCopy now d set)

  parse_body-source :
      (now : ℕ) (body : Str) (set : Set)
      → parse_body lib cfg now body ≡ ok set
      → set.source ≡ bytes "http"
  unfolding parse_body
  parse_body-source now body set e =
      parse-source (lib.decode body) (bytes "http") cfg.priority now set e

  load_cache_cases :
      (now : ℕ) (d : Disk) (p : Provider) (body : Str) (set : Set)
      → d.body ≡ some body
      → parse_body lib cfg now body ≡ ok set
      → (got : Set) × ((load_cache lib cfg now d p).0 ≡ some got)
        × (got.hosts ≡ set.hosts)
        × (got.source ≡ set.source)
  unfolding load_cache cache_age
  load_cache_cases now d p body set b e =
      let age : cache_age now d ≡ some (now - d.written_at) = ground (arith, b) in
      elim (Option-cases (load_meta lib cfg d)) [
        | inl m ↦ (
          record set { stale = is_over cfg (some (now - d.written_at)) },
          rw (b, e, m, load_cache, age) refl,
          refl,
          refl,
        )
        | inr (k, m) ↦ (
          record set { fetch_at = k.fetched_at; stale = is_over cfg (some (now - d.written_at)) },
          rw (b, e, m, load_cache, age) refl,
          refl,
          refl,
        )
      ]

  load_cache_failed :
      (now : ℕ) (d : Disk) (p : Provider) (body : Str) (x : File.Error)
      → d.body ≡ some body
      → parse_body lib cfg now body ≡ err x
      → (load_cache lib cfg now d p).0 ≡ none
  unfolding load_cache
  load_cache_failed now d p body x b e = ground (arith, b, e)

  report_stale_cases :
      (now : ℕ) (d : Disk) (p : Provider) (st : Store)
      → Reported now d p.have_set st (report_stale lib cfg now d (p, st)).1
  unfolding report_stale cache_age
  report_stale_cases now d p st = elim (Bool-cases p.have_set) [
    | inr e ↦ inl (no_set e, ground (arith, e))
    | inl e ↦ elim (Option-cases d.body) [
      | inl b ↦ inl (no_body b, ground (arith, e, b))
      | inr (body, b) ↦ elim (Bool-cases (is_over cfg (some (now - d.written_at)))) [
        | inr o ↦ inl (not_over o, ground (arith, e, b, o))
        | inl o ↦ elim (Result-cases (parse_body lib cfg now body)) [
          | inl (x, f) ↦ inl (
            not_converted body x b f,
            ground (arith, e, b, o, load_cache_failed now d p body x b f),
          )
          | inr (set, f) ↦
              let (got, l, hs, src) = load_cache_cases now d p body set b f in
              inr (
                e,
                record got { stale = true; last_error = lib.age_text (now - d.written_at) },
                ground (arith, e, b, o, l),
                record {
                  body = body;
                  cached = b;
                  over = o;
                  parsed = set;
                  converted = f;
                  same_hosts = hs;
                  same_source = src ∙ parse_body-source now body set f;
                  marked = refl;
                  error = refl;
                },
              )
        ]
      ]
    ]
  ]

  fetch_failed :
      (now : ℕ) (resp : Response) (w : Writes) (p : Provider) (d : Disk)
      → (fetch lib cfg now resp w p d).0 ≡ error
      → fetch lib cfg now resp w p d ≡ (error, p, d)
  unfolding fetch
  fetch_failed now failed w p d e = refl
  fetch_failed now not_modified w p d e = ground (arith, e)
  fetch_failed now bad_status w p d e = refl
  fetch_failed now (success body etag last_modified) w p d e = ground (arith, e)

  -- A round whose request or conversion fails leaves the cache as it was. The store stays as it was
  -- where the provider has had no set, there is no cached document, the cache is not above its limit, or
  -- the document does not convert; in every other case the set of the source is replaced by the hosts
  -- of the cached document, marked stale, with the age of the cache as its error.
  pub round_failed :
      (now : ℕ) (resp : Response) (w : Writes) (p : Provider) (st : Store) (d : Disk)
      → (fetch lib cfg now resp w p d).0 ≡ error
      → let left = (round lib cfg now resp w (p, st, d)).0 in
        (left.2 ≡ d) × Reported now d p.have_set st left.1
  unfolding round settle
  round_failed now resp w p st d e =
      subst
        (λ (out : Fetched × Provider × Disk).
          ((settle lib cfg now st out).0.2 ≡ d)
          × Reported now d p.have_set st (settle lib cfg now st out).0.1)
        (sym (fetch_failed now resp w p d e))
        (refl, report_stale_cases now d (record p { attempt = p.attempt + 1 }) st)
