-- ===== src/Tests/Handling.antt =====
-- server/serve.go and the concurrency of server/crawl_loop.go at concrete inputs.
use repo_sync.Server.Serve.Generic.Laws.{ttl_of}
use repo_sync.Base.{◌<◌, ◌+◌}
use repo_sync.Base.Dict.{insert}
use repo_sync.Server.Serve.Generic.Laws.{is_file}
use repo_sync.Server.Serve.{Response}
use repo_sync.Base.{ap}
use repo_sync.Base.{
  ℕ, ◌≡◌, ◌≤◌, refl, true, false, none, some, ◌||◌, [], ◌∷◌, nat_eq, list_eq, arith, get_elem?,
}
use repo_sync.Base.Bytes.{Bytes, lit, has_prefix, has_suffix, trim_prefix}
use repo_sync.Base.Counts.{count, set_elem}
use repo_sync.Base.Dict.{lookup}
use repo_sync.Base.Paths.{clean, join, base, dir}
use repo_sync.Config.{Config, DomainConfig, mount_for, role_online}
use repo_sync.Fetch.LocalPath.{local_join}
use repo_sync.Fetch.Download.{Slot, refused, not_found, body}
use repo_sync.Server.Classify.{Resource, resource_at, classify_request}
use repo_sync.Server.Failures.{hit}
use repo_sync.Server.Upstream.{serve_local, regular_file}
use repo_sync.Server.Protect.{is_protected}
use repo_sync.Server.Serve.{World, Site, serve_file, not_found_error}
use repo_sync.Server.Serve.Generic.{handle_generic}
use repo_sync.Server.Serve.Generic.Laws.{IsServed, handle_generic_serves, handle_generic-Repeats}
use repo_sync.Server.Serve.Online.{serve_entry_point}
use repo_sync.Server.Serve.Online.Laws.{Verified}
use repo_sync.Server.Serve.Online.Tracking.{is_tracked, serve_entry_point_tracked}
use repo_sync.Server.Handler.{serve_domain}
use repo_sync.Server.Handler.Laws.{req_path_of, is_dir_of, serve_domain-Verified}
use repo_sync.Server.Locks
use repo_sync.Server.Locks.Laws.{lock_excludes}
use repo_sync.Server.Slots
use repo_sync.Server.Slots.Laws.{has_slot, crawls, crawls_bounded}

abbrev conf : Config
conf = record {
  repo_crawl_interval = 40;
  failure_retry_interval = 10;
  generic_max_age = 60;
  negative_cache_ttl = 10;
  transient_error_ttl = 1;
  refresh_schedule = 120 ∷ [];
  signature_mode = lit "required";
  directory_indexes = true;
  domains = [];
  mounts = record { path = lit "/"; upstream = lit "u"; repos = [] } ∷ [];
  domains_by_name = [];
  online_index = some 0;
  mount_order = 0 ∷ [];
}

abbrev slot : Slot
slot = record {
  dst = some (record { content = lit "x"; modified = 1 });
  staged = none;
  partial = none;
}

abbrev no_slot : Slot
no_slot = record { dst = none; staged = none; partial = none }

-- The upstream has nothing, and a crawl brings every file.
abbrev site : Site
site = record {
  conf = conf;
  upstreams = record {
    digest = λ algo content. content;
    ask = λ url path since from. refused not_found;
    again = λ url path since from. refused not_found;
  };
  keys = record { gpg_keys = []; keyservers = []; read_file = λ name. none; hex_sum = λ s. s };
  dispatch = λ res settings tree. (none, λ path. slot);
  online_root = lit "/m";
}

abbrev world : Slot → World
world s = record {
  tree = λ path. s;
  store = record { entries = []; dirty = false };
  failures = [];
  started = [];
}

abbrev plain : Resource
plain = resource_at (lit "generic") (lit "/f") [] (lit "/f")

local_file : serve_local (lit "/m") (lit "/f") false ≡ some (lit "/m/f")
unfolding serve_local local_join join clean has_prefix nat_eq list_eq
local_file = refl

there : regular_file (lit "/m/f") (world slot).tree ≡ true
unfolding regular_file
there = refl

handle_generic_serves_example :
    IsServed
      (lit "/m/f")
      (handle_generic site 5 (lit "/m") (lit "/f") plain (lit "/m/f") (world slot))
handle_generic_serves_example =
    handle_generic_serves site 5 (lit "/m") (lit "/f") plain (lit "/m/f") (world slot) local_file
      there

no_failure : (hit plain.key 5 (world no_slot).failures).0 ≡ none
unfolding hit lookup
no_failure = refl

fails :
    (handle_generic site 5 (lit "/m") (lit "/f") plain (lit "/m/f") (world no_slot)).0
    ≡ not_found_error
unfolding handle_generic hit lookup mount_for has_prefix nat_eq list_eq
fails = refl

abbrev first_answer : Response × World
first_answer = handle_generic site 5 (lit "/m") (lit "/f") plain (lit "/m/f") (world no_slot)

fails_no_file : is_file first_answer.0 ≡ false
fails_no_file = ap is_file fails

fails_recently : 14 < 5 + ttl_of site first_answer.0
fails_recently = rw fails (omega arith)

-- The upstream has the file after all.
abbrev later_site : Site
later_site = record site {
  upstreams = record {
    digest = λ algo content. content;
    ask = λ url path since from. body false (lit "x") true true 9;
    again = λ url path since from. body false (lit "x") true true 9;
  };
}

handle_generic-Repeats_example :
    handle_generic later_site 14 (lit "/m") (lit "/f") plain (lit "/m/f") first_answer.1
    ≡ first_answer
handle_generic-Repeats_example =
    handle_generic-Repeats site 5 14 (lit "/m") (lit "/f") plain (lit "/m/f") (world no_slot)
      later_site local_file no_failure fails_no_file fails_recently

abbrev index : Resource
index = resource_at (lit "apk") (lit "/a") (lit "/a") (lit "/a/APKINDEX.tar.gz")

index_unprotected : is_protected conf index.kind ≡ false
unfolding is_protected nat_eq list_eq
index_unprotected = refl

serve_entry_point_tracked_example :
    let a =
      serve_entry_point site 5
        (lit "/m")
        (lit "/a/APKINDEX.tar.gz")
        index
        (lit "/m/a")
        (world no_slot) in
    is_tracked index.key a.1 ≡ (is_tracked index.key (world no_slot) || is_file a.0)
serve_entry_point_tracked_example =
    serve_entry_point_tracked site 5 (lit "/m") (lit "/a/APKINDEX.tar.gz") index (lit "/m/a")
      (world no_slot) index_unprotected

abbrev domain : DomainConfig
domain = record { domain = lit "m"; root = lit "/m"; role = role_online }

abbrev url : Bytes
url = lit "/r/repodata/repomd.xml"

url_is_file : is_dir_of url ≡ false
unfolding clean trim_prefix has_suffix has_prefix nat_eq list_eq
url_is_file = refl

url_protected : is_protected conf (classify_request (req_path_of url)).kind ≡ true
unfolding is_protected classify_request clean trim_prefix has_prefix base dir nat_eq list_eq
url_protected = refl

url_served :
    (serve_domain site 5 domain url (world no_slot)).0 ≡ serve_file (lit "/m/r/repodata/repomd.xml")
unfolding serve_domain clean trim_prefix has_suffix has_prefix join base dir nat_eq list_eq
    classify_request lookup insert
url_served = refl

serve_domain-Verified_example :
    Verified site
      (classify_request (req_path_of url))
      (world no_slot).tree
      (serve_domain site 5 domain url (world no_slot)).1
serve_domain-Verified_example =
    serve_domain-Verified site 5 domain url (world no_slot) refl url_is_file url_protected
      (ap is_file url_served)

abbrev one_waits : Locks.System
one_waits = record {
  table = (Locks.find_lock url (Locks.initial (Locks.idle ∷ [])).table).1;
  threads = set_elem 0 (Locks.waiting url 0) (Locks.idle ∷ []);
}

abbrev one_holds : Locks.System
one_holds = record {
  table = Locks.set_locked true 0 one_waits.table;
  threads = set_elem 0 (Locks.holding url 0) one_waits.threads;
}

one_waits-Reach : Locks.Reach one_waits
unfolding Locks.find_lock
one_waits-Reach = Locks.later (Locks.start (Locks.idle ∷ []) (refl, tt)) (Locks.enter 0 url refl)

one_waits_first : get_elem? one_waits.threads 0 ≡ some (Locks.waiting url 0)
unfolding set_elem
one_waits_first = refl

one_waits_open : (one_waits.table.heap 0).locked ≡ false
unfolding Locks.find_lock nat_eq
one_waits_open = refl

one_holds-Reach : Locks.Reach one_holds
one_holds-Reach = Locks.later one_waits-Reach (Locks.lock 0 url 0 one_waits_first one_waits_open)

one_holds_first : get_elem? one_holds.threads 0 ≡ some (Locks.holding url 0)
unfolding set_elem
one_holds_first = refl

lock_excludes_example : ◌≡◌ {A = ℕ} 0 0
lock_excludes_example =
    lock_excludes one_holds 0 0 url 0 0 one_holds-Reach one_holds_first one_holds_first

one_holds_entry : one_holds.table.locks url ≡ some 0
unfolding Locks.find_lock Locks.set_locked nat_eq list_eq
one_holds_entry = refl

abbrev one_waiting : Slots.Crawls
one_waiting = Slots.start_crawl url (Slots.at_rest 2)

abbrev one_crawl : Slots.Crawls
one_crawl = Slots.acquire_crawl_slot 0 (Slots.running url) one_waiting

one_crawl-Reach : Slots.Reach 2 one_crawl
unfolding Slots.start_crawl nat_eq list_eq
one_crawl-Reach =
    Slots.later (Slots.later (Slots.start 2 (omega arith)) (Slots.dispatch url))
      (Slots.acquire 0 (Slots.queued url) (Slots.running url) refl (Slots.crawl url) (omega arith))

holds_slot : count has_slot one_crawl.threads ≡ 1
unfolding Slots.start_crawl Slots.acquire_crawl_slot count set_elem nat_eq list_eq
holds_slot = refl

crawls_bounded_example :
    (count has_slot one_crawl.threads ≤ 2) × (count (crawls url) one_crawl.threads ≤ 1)
crawls_bounded_example = crawls_bounded 2 one_crawl url one_crawl-Reach
