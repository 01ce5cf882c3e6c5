-- ===== src/Server/Upstream.antt =====
-- server/serve.go: the local file of a request, and its retrieval through a mount. The upstreams' answers
-- are parameters.
pub mod Laws
use repo_sync.Base.{
  Bool, true, false, ◌||◌, Option, none, some, [], ◌++◌, ◌==◌, nat_eq, list_eq, if◌then◌else◌,
}
use repo_sync.Base.Bytes.{Bytes, lit, trim_prefix, trim_suffix, has_suffix}
use repo_sync.Base.Paths.{base}
use repo_sync.Config.{Config, MountConfig, mount_for}
use repo_sync.Fetch.Names.{
  staged_suffix, partial_suffix, lock_file_name, prune_state_name, discover_state_name,
  missing_state_name,
}
use repo_sync.Fetch.LocalPath.{local_join}
use repo_sync.Fetch.Download.{
  Digest, LocalFile, Slot, FetchError, not_found, Outcome, done, failed, Request, fetch_file,
}
use repo_sync.Fetch.Jobs.{Tree, set_slot}

abbrev pub is_there : Option LocalFile → Bool
is_there none = false
is_there (some f) = true

-- `regularFile`.
unfoldable pub regular_file : Bytes → Tree → Bool
regular_file name tree = is_there ((tree name).dst)

-- `none` is the error for a path that escapes the root.
unfoldable pub serve_local : (root req_path : Bytes) → (is_dir : Bool) → Option Bytes
unfolding local_join trim_suffix
serve_local root req_path is_dir =
    if is_dir || req_path == lit "/"
    then local_join root (trim_suffix req_path (lit "/") ++ lit "/index.html")
    else local_join root req_path

unfoldable pub internal_file : Bytes → Bool
unfolding base has_suffix
internal_file req_path =
    let name = base req_path in
    name == lock_file_name
    || (name == prune_state_name
        || (name == missing_state_name
            || (name == discover_state_name
                || (has_suffix name staged_suffix || has_suffix name partial_suffix))))

-- The answers of the upstream at a base URL to a path, at first and again in full.
pub record Upstreams : Type 0 where
  pub digest : Digest
  pub ask : Bytes → Bytes → Request
  pub again : Bytes → Bytes → Request

pub data ServeError : Type 0 where
  bad_path : ServeError
  fetch_error : FetchError → ServeError
  crawl_error : (missing : Bool) → ServeError

-- `rel`, the path behind the mount.
unfoldable pub behind_mount : MountConfig → Bytes → (is_dir : Bool) → Bytes
unfolding trim_prefix trim_suffix
behind_mount mount req_path is_dir =
    let rel = if mount.path == lit "/" then req_path else trim_prefix req_path mount.path in
    if is_dir then trim_suffix rel (lit "/") ++ lit "/" else rel

abbrev pub error_of : Outcome → Option ServeError
error_of (done s) = none
error_of (failed e) = some (fetch_error e)

-- `fetch.File` from the mount into the file.
unfoldable pub fetch_from :
    Upstreams → MountConfig → (rel : Bytes) → (dst : Bytes) → Tree → Option ServeError × Tree
unfolding fetch_file
fetch_from u mount rel dst tree =
    let (o, slot) =
      fetch_file u.digest (u.ask mount.upstream rel) (u.again mount.upstream rel) true none false
        false false (tree dst) in
    (error_of o, set_slot dst slot tree)

abbrev pub fetch_to :
    Upstreams
    → MountConfig
    → (req_path : Bytes) → (is_dir : Bool) → Option Bytes
    → Tree
    → Option ServeError × Tree
fetch_to u mount req_path is_dir none tree = (some bad_path, tree)
fetch_to u mount req_path is_dir (some dst) tree =
    fetch_from u mount (behind_mount mount req_path is_dir) dst tree

abbrev pub fetch_through :
    Upstreams
    → Option MountConfig
    → (root req_path : Bytes) → (is_dir : Bool) → Tree
    → Option ServeError × Tree
fetch_through u none root req_path is_dir tree = (some (fetch_error not_found), tree)
fetch_through u (some mount) root req_path is_dir tree =
    fetch_to u mount req_path is_dir (serve_local root req_path is_dir) tree

-- `fetchUpstream`: its error, and the files.
unfoldable pub fetch_upstream :
    Upstreams → Config → (root req_path : Bytes) → (is_dir : Bool) → Tree → Option ServeError × Tree
unfolding mount_for serve_local fetch_from behind_mount
fetch_upstream u conf root req_path is_dir tree =
    fetch_through u (mount_for conf req_path) root req_path is_dir tree
