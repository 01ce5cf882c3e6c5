-- ===== src/Server/Serve/Online.antt =====
-- server/serve.go: `handleOnline`. A map is iterated in the order of its list, which is any order.
pub mod Laws
pub mod Tracking
use repo_sync.Base.{
  Bool, true, false, ◌||◌, ◌&&◌, not, Option, none, some, List, [], ◌∷◌, ◌==◌, nat_eq, list_eq,
  if◌then◌else◌,
}
use repo_sync.Base.Bytes.{Bytes}
use repo_sync.Base.Clock.{Time, is_zero}
use repo_sync.Base.Dict.{Dict}
use repo_sync.Config.{Config}
use repo_sync.State.{Entry, Store, mark_requested, delete, touch_repo_members, kind_generic}
use repo_sync.Fetch.Download.{not_found}
use repo_sync.Fetch.Jobs.{Tree}
use repo_sync.Server.Classify.{Resource}
use repo_sync.Server.Upstream.{
  regular_file, serve_local, fetch_upstream, ServeError, fetch_error, crawl_error,
}
use repo_sync.Server.Protect.{
  SignatureSettings, load_signature_settings, is_protected, signature_policy_artifacts_present,
  CrawlError, crawl_protected_repository,
}
use repo_sync.Server.Serve.{
  Response, serve_file, bad_request, World, Site, write_fetch_error, set_tree, set_store,
}
use repo_sync.Server.Serve.Generic.{handle_generic}

-- After an attempt to get the file that is asked for.
abbrev pub answer : Bytes → Option ServeError → World → Response × World
answer local none w = (serve_file local, w)
answer local (some e) w = (write_fetch_error e, w)

abbrev pub fetch_for :
    Site → (root req_path : Bytes) → (is_dir : Bool) → World → Option ServeError × World
fetch_for c root req_path is_dir w =
    let r = fetch_upstream c.upstreams c.conf root req_path is_dir w.tree in (r.0, set_tree r.1 w)

unfoldable pub serve_directory : Site → (root req_path local : Bytes) → World → Response × World
unfolding regular_file fetch_upstream write_fetch_error
serve_directory c root req_path local w =
    let r = fetch_for c root req_path true w in
    if regular_file local w.tree then (serve_file local, w) else answer local r.0 r.1

-- A crawl that succeeds may still not have brought the file.
abbrev pub crawl_outcome : Option CrawlError → (exists : Bool) → Option ServeError
crawl_outcome none true = none
crawl_outcome none false = some (fetch_error not_found)
crawl_outcome (some e) exists = some (crawl_error e.missing)

-- A protected crawl: its own error, and the files and the state.
unfoldable pub crawl_for :
    Site
    → Time
    → Resource
    → (present : Bool) → Option SignatureSettings
    → World
    → Option CrawlError × World
unfolding crawl_protected_repository
crawl_for c now res present settings w =
    let r = crawl_protected_repository c.conf c.dispatch now res present settings w.tree w.store in
    (r.0, record w { tree = (r.1).0; store = (r.1).1 })

unfoldable pub first_protected : Config → Dict Bytes Entry → Option (Bytes × Entry)
unfolding is_protected
first_protected conf [] = none
first_protected conf ((key, e) ∷ rest) =
    let other = first_protected conf rest in
    if is_protected conf e.kind then some (key, e) else other

abbrev pub resource_of : Bytes → Entry → Resource
resource_of key e = record {
  kind = e.kind;
  path = e.path;
  root = e.root;
  key = key;
  req_path = e.path;
}

unfoldable pub fetch_member :
    Site
    → Time
    → (root req_path local : Bytes) → Option (Bytes × Entry)
    → World
    → Option ServeError × World
unfolding regular_file fetch_upstream crawl_for load_signature_settings
fetch_member c now root req_path local none w = fetch_for c root req_path false w
fetch_member c now root req_path local (some (key, e)) w =
    let r = crawl_for c now (resource_of key e) false (load_signature_settings c.conf c.keys) w in
    (crawl_outcome r.0 (regular_file local r.1.tree), r.1)

-- A file below a tracked repository.
unfoldable pub serve_member :
    Site
    → Time
    → (root req_path : Bytes) → Resource
    → (local : Bytes) → Dict Bytes Entry
    → World
    → Response × World
unfolding regular_file delete first_protected fetch_member write_fetch_error
serve_member c now root req_path res local members w =
    let w' = set_store (delete res.key w.store) w in
    let r = fetch_member c now root req_path local (first_protected c.conf members) w' in
    if regular_file local w'.tree then (serve_file local, w') else answer local r.0 r.1

abbrev pub serve_generic :
    Site
    → Time
    → (root req_path : Bytes) → Resource
    → (local : Bytes) → Dict Bytes Entry
    → World
    → Response × World
serve_generic c now root req_path res local [] w = handle_generic c now root req_path res local w
serve_generic c now root req_path res local (m ∷ ms) w =
    serve_member c now root req_path res local (m ∷ ms) w

abbrev pub mode_of : Option SignatureSettings → Bytes
mode_of none = []
mode_of (some s) = s.mode

abbrev pub policy_is : Bytes → Option SignatureSettings → Bool
policy_is policy none = false
policy_is policy (some s) = policy == s.policy

-- The end of a request for an entry point that needs no more.
abbrev pub finish_entry : Bytes → Resource → (need_crawl : Bool) → World → Response × World
finish_entry local res need_crawl w =
    (serve_file local, if need_crawl then record w { started = res ∷ w.started } else w)

abbrev pub drop_entry : Resource → (keep : Bool) → World → World
drop_entry res keep w = if keep then w else set_store (delete res.key w.store) w

-- After the attempt to get an entry point: a first contact that fails is forgotten, unless a crawl has
-- verified the repository.
abbrev pub after_contact :
    Bytes
    → Resource
    → (tracked verified need_crawl : Bool) → Option ServeError
    → World
    → Response × World
after_contact local res tracked verified need_crawl none w = finish_entry local res need_crawl w
after_contact local res tracked verified need_crawl (some e) w =
    (write_fetch_error e, drop_entry res (tracked || verified) w)

abbrev pub succeeded : Option CrawlError → Bool
succeeded none = true
succeeded (some e) = false

unfoldable pub serve_protected :
    Site
    → Time
    → Resource
    → (local : Bytes) → (tracked needs_crawl : Bool) → Bytes
    → World
    → Response × World
unfolding regular_file delete write_fetch_error crawl_for load_signature_settings
    signature_policy_artifacts_present
serve_protected c now res local tracked needs_crawl policy w =
    let settings = load_signature_settings c.conf c.keys in
    let present = signature_policy_artifacts_present c.online_root res (mode_of settings) w.tree in
    let r = crawl_for c now res present settings w in
    if regular_file local w.tree && (policy_is policy settings && present)
    then finish_entry local res needs_crawl w
    else after_contact local res tracked (succeeded r.0) false
        (crawl_outcome r.0 (regular_file local r.1.tree)) r.1

unfoldable pub serve_unprotected :
    Site
    → Time
    → (root req_path : Bytes) → Resource
    → (local : Bytes) → (tracked needs_crawl : Bool) → World
    → Response × World
unfolding regular_file delete write_fetch_error fetch_upstream
serve_unprotected c now root req_path res local tracked needs_crawl w =
    let r = fetch_for c root req_path false w in
    if regular_file local w.tree
    then finish_entry local res needs_crawl w
    else after_contact local res tracked false needs_crawl r.0 r.1

-- The entry point of a repository, which the request registers.
unfoldable pub serve_entry_point :
    Site → Time → (root req_path : Bytes) → Resource → (local : Bytes) → World → Response × World
unfolding mark_requested regular_file serve_protected serve_unprotected is_protected
serve_entry_point c now root req_path res local w =
    let ((e, tracked), s) = mark_requested res.kind res.key res.path res.root now w.store in
    let exists = regular_file local w.tree in
    let needs_crawl = is_zero e.last_crawled || (not exists && not (e.last_error == [])) in
    if is_protected c.conf res.kind
    then serve_protected c now res local tracked needs_crawl e.signature_policy (set_store s w)
    else serve_unprotected c now root req_path res local tracked needs_crawl (set_store s w)

abbrev pub handle_file :
    Site → Time → (root req_path : Bytes) → Resource → (local : Bytes) → World → Response × World
handle_file c now root req_path res local w =
    let (members, s) = touch_repo_members req_path now w.store in
    if res.kind == kind_generic
    then serve_generic c now root req_path res local members (set_store s w)
    else serve_entry_point c now root req_path res local w

abbrev pub handle_local :
    Site
    → Time
    → (root req_path : Bytes) → (is_dir : Bool) → Resource
    → Option Bytes
    → World
    → Response × World
handle_local c now root req_path is_dir res none w = (bad_request, w)
handle_local c now root req_path is_dir res (some local) w =
    if is_dir
    then serve_directory c root req_path local w
    else handle_file c now root req_path res local w

unfoldable pub handle_online :
    Site → Time → (root req_path : Bytes) → (is_dir : Bool) → Resource → World → Response × World
unfolding serve_local serve_directory handle_generic serve_member serve_entry_point
    touch_repo_members
handle_online c now root req_path is_dir res w =
    handle_local c now root req_path is_dir res (serve_local root req_path is_dir) w
