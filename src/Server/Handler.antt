-- ===== src/Server/Handler.antt =====
-- server/serve.go: `serveMirror` and `handleOffline`.
pub mod Laws
use repo_sync.Base.{
  Bool, true, false, ◌||◌, not, Option, none, some, [], ◌∷◌, ◌==◌, nat_eq, list_eq, if◌then◌else◌,
}
use repo_sync.Base.Bytes.{Bytes, lit, trim_prefix, has_suffix}
use repo_sync.Base.Clock.{Time}
use repo_sync.Base.Paths.{clean}
use repo_sync.Config.{DomainConfig, role_online, mount_for, domain_for}
use repo_sync.Fetch.Jobs.{Tree}
use repo_sync.Server.Classify.{Resource, classify_request}
use repo_sync.Server.Upstream.{regular_file, serve_local, internal_file}
use repo_sync.Server.Serve.{
  Response, serve_file, not_found_error, bad_request, method_not_allowed, indexes_disabled,
  mount_index, World, Site,
}
use repo_sync.Server.Serve.Online.{handle_online}

pub record HttpRequest : Type 0 where
  pub method : Bytes
  pub host : Bytes
  pub url_path : Bytes

abbrev pub offline_local :
    Site → Time → Bytes → Bool → Resource → Option Bytes → World → Response × World
offline_local c now req_path is_dir res none w = (bad_request, w)
offline_local c now req_path is_dir res (some local) w =
    if regular_file local w.tree
    then (serve_file local, w)
    else handle_online c now c.online_root req_path is_dir res w

-- A domain that is not online, with its root.
unfoldable pub handle_offline :
    Site → Time → (root req_path : Bytes) → (is_dir : Bool) → Resource → World → Response × World
unfolding serve_local regular_file handle_online
handle_offline c now root req_path is_dir res w =
    offline_local c now req_path is_dir res (serve_local root req_path is_dir) w

unfoldable pub serve_role :
    Site → Time → DomainConfig → (req_path : Bytes) → (is_dir : Bool) → World → Response × World
unfolding classify_request handle_online handle_offline
serve_role c now domain req_path is_dir w =
    let res = classify_request req_path in
    if domain.role == role_online
    then handle_online c now domain.root req_path is_dir res w
    else handle_offline c now domain.root req_path is_dir res w

abbrev pub has_mount : Site → Bytes → Bool
has_mount c path = elim (mount_for c.conf path) [ none ↦ false | some m ↦ true ]

unfoldable pub serve_domain :
    Site → Time → DomainConfig → (url_path : Bytes) → World → Response × World
unfolding serve_role internal_file mount_for clean trim_prefix has_suffix
serve_domain c now domain url_path w =
    let req_path = clean (b'/' ∷ trim_prefix url_path (lit "/")) in
    let is_dir = has_suffix url_path (lit "/") || req_path == lit "/" in
    if internal_file req_path
    then (not_found_error, w)
    else if is_dir
    then if not c.conf.directory_indexes
      then (indexes_disabled, w)
      else if req_path == lit "/"
      then if has_mount c req_path
        then serve_role c now domain req_path is_dir w
        else (mount_index, w)
      else serve_role c now domain req_path is_dir w
    else serve_role c now domain req_path is_dir w

abbrev pub serve_found :
    Site → Time → Option DomainConfig → (url_path : Bytes) → World → Response × World
serve_found c now none url_path w = (not_found_error, w)
serve_found c now (some domain) url_path w = serve_domain c now domain url_path w

-- `host_of` is `net.SplitHostPort`, the host of a host with a port.
unfoldable pub serve_mirror :
    (host_of : Bytes → Option Bytes) → Site → Time → HttpRequest → World → Response × World
unfolding domain_for serve_domain
serve_mirror host_of c now r w =
    if not (r.method == lit "GET" || r.method == lit "HEAD")
    then (method_not_allowed, w)
    else serve_found c now (domain_for host_of c.conf r.host) r.url_path w
