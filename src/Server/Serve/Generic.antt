-- ===== src/Server/Serve/Generic.antt =====
-- server/serve.go: `handleGeneric`.
pub mod Laws
use repo_sync.Base.{ℕ, Bool, true, false, ◌||◌, not, Option, none, some, [], ltb, if◌then◌else◌}
use repo_sync.Base.Bytes.{Bytes}
use repo_sync.Base.Clock.{Time, sub_time}
use repo_sync.State.{Entry, mark_requested, mark_crawled, delete, entry, kind_generic}
use repo_sync.Fetch.Jobs.{Tree}
use repo_sync.Server.Classify.{Resource}
use repo_sync.Server.Failures.{hit, add}
use repo_sync.Server.Upstream.{regular_file, fetch_upstream, ServeError}
use repo_sync.Server.Serve.{
  Response, serve_file, World, Site, is_not_found, write_fetch_error, write_cached_failure,
  set_tree, set_store,
}

-- A generic entry with the time of its request.
abbrev pub requested : Resource → Time → World → World
requested res now w = set_store (mark_requested kind_generic res.key res.path [] now w.store).1 w

abbrev remember : Site → ServeError → Resource → Time → World → World
remember c e res now w =
    if is_not_found e
    then record w {
      failures = add res.key 404 now c.conf.negative_cache_ttl w.failures;
      store = delete res.key w.store;
    }
    else record w { failures = add res.key 502 now c.conf.transient_error_ttl w.failures }

-- After the attempt to refresh a copy.
unfoldable pub after_refresh :
    Site → Time → Resource → Bytes → (exists : Bool) → Option ServeError → World → Response × World
unfolding write_fetch_error mark_requested mark_crawled add delete
after_refresh c now res local exists none w =
    let w' = requested res now w in
    (serve_file local, set_store (mark_crawled c.conf res.key now none w'.store) w')
after_refresh c now res local exists (some e) w =
    (if exists then serve_file local else write_fetch_error e, remember c e res now w)

abbrev pub is_stale : Site → Time → Option Entry → Bool
is_stale c now none = true
is_stale c now (some e) = ltb c.conf.generic_max_age (sub_time now e.last_crawled)

-- Without a remembered failure.
unfoldable pub serve_or_refresh :
    Site → Time → (root req_path : Bytes) → Resource → (local : Bytes) → World → Response × World
unfolding regular_file entry fetch_upstream after_refresh mark_requested
serve_or_refresh c now root req_path res local w =
    let exists = regular_file local w.tree in
    let (error, tree) = fetch_upstream c.upstreams c.conf root req_path false w.tree in
    if not exists || is_stale c now (entry res.key w.store)
    then after_refresh c now res local exists error (set_tree tree w)
    else (serve_file local, requested res now w)

abbrev pub after_hit :
    Site
    → Time
    → (root req_path : Bytes) → Resource
    → (local : Bytes) → Option ℕ
    → World
    → Response × World
after_hit c now root req_path res local (some status) w =
    (if regular_file local w.tree then serve_file local else write_cached_failure status, w)
after_hit c now root req_path res local none w = serve_or_refresh c now root req_path res local w

unfoldable pub handle_generic :
    Site → Time → (root req_path : Bytes) → Resource → (local : Bytes) → World → Response × World
unfolding hit serve_or_refresh write_cached_failure regular_file
handle_generic c now root req_path res local w =
    let (status, failures) = hit res.key now w.failures in
    after_hit c now root req_path res local status (record w { failures = failures })
