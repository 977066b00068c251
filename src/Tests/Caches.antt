-- ===== src/Tests/Caches.antt =====
-- Examples on internal/provider/http/http.go.
use network_mesh_exporter.Base.{◌-◌, ◌≡◌, refl, true, [], none, some, if◌then◌else◌}
use network_mesh_exporter.Base.Int.{pos}
use network_mesh_exporter.Base.Map.{lookup, insert}
use network_mesh_exporter.Base.Str.{bytes, ◌==◌, str_dec}
use network_mesh_exporter.Base.Strs.{contains}
use network_mesh_exporter.Provider.File
use network_mesh_exporter.Provider.File.{ok}
use network_mesh_exporter.Provider.Http.{
  HttpConfig, Lib, Provider, Disk, Writes, bad_status, success, error, changed, parse_body, is_over,
  load_cache, fetch, round,
}
use network_mesh_exporter.Provider.Http.Cache.{Reported, load_cache-fetch, round_failed}
use network_mesh_exporter.Tests.{store}
use network_mesh_exporter.Tests.Configs.{document, imported_from}
use network_mesh_exporter.Zone.{join}
use network_mesh_exporter.Zone.Compile.{last_index}

abbrev lib : Lib
lib = record {
  decode = λ b. if b == bytes "doc" then some document else none;
  sha256 = λ b. b;
  age_text = λ n. [];
  int63n = λ n. 0;
}

abbrev config : HttpConfig
config = record {
  url = bytes "http://x";
  interval = pos 60;
  cache_max_age = pos 10;
  backoff_min = 1;
  backoff_max = 8;
  priority = pos 1;
}

abbrev provider : Provider
provider = record {
  meta = record { etag = []; last_modified = []; fetched_at = 0; url = []; sha256 = [] };
  attempt = 0;
  have_set = true;
}

-- A cache that is older than its limit at the time 30.
abbrev disk : Disk
disk = record { body = some (bytes "doc"); written_at = 5; meta = none }

abbrev both : Writes
both = record { body = true; meta = true }

at_7 : parse_body lib config 7 (bytes "doc") ≡ ok (imported_from (bytes "http") 7)
unfolding parse_body File.parse str_dec contains lookup insert last_index join
at_7 = refl

at_30 : parse_body lib config 30 (bytes "doc") ≡ ok (imported_from (bytes "http") 30)
unfolding parse_body File.parse str_dec contains lookup insert last_index join
at_30 = refl

load_cache-fetch_example :
    let out = fetch lib config 7 (success (bytes "doc") (bytes "e") []) both provider disk in
    (out.0 ≡ changed (record (imported_from (bytes "http") 7) { fetch_at = 7 }))
    × (load_cache lib config 30 out.2 out.1 ≡ (
      some (record (imported_from (bytes "http") 30) {
        fetch_at = 7;
        stale = is_over config (some (30 - 7));
      }),
      out.1,
    ))
load_cache-fetch_example =
    load_cache-fetch lib config 7 30 (bytes "doc") (bytes "e") [] provider disk
      (imported_from (bytes "http") 7) (imported_from (bytes "http") 30) at_7 at_30

rejected : (fetch lib config 30 bad_status both provider disk).0 ≡ error
unfolding fetch
rejected = refl

round_failed_example :
    let left = (round lib config 30 bad_status both (provider, store, disk)).0 in
    (left.2 ≡ disk) × Reported lib config 30 disk true store left.1
round_failed_example = round_failed lib config 30 bad_status both provider store disk rejected
