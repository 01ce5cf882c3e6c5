-- ===== src/Server/Serve.antt =====
-- server/serve.go: the handlers, from a request to what is answered, with the files, the state and the
-- failure cache that it leaves. Steps of other goroutines in between are not modelled.
pub mod Generic
pub mod Online
use repo_sync.Base.{
  ℕ, List, Bool, true, false, ◌||◌, not, Option, none, some, ◌==◌, nat_eq, list_eq, if◌then◌else◌,
}
use repo_sync.Base.Bytes.{Bytes, lit, has_suffix}
use repo_sync.Base.Clock.{Time}
use repo_sync.Config.{Config, DomainConfig, role_online, mount_for}
use repo_sync.State.{Store}
use repo_sync.Server.Classify.{Resource}
use repo_sync.Fetch.Download.{FetchError, not_found}
use repo_sync.Fetch.Jobs.{Tree}
use repo_sync.Server.Failures.{FailureCache}
use repo_sync.Server.Upstream.{Upstreams, ServeError, bad_path, fetch_error, crawl_error}
use repo_sync.Server.Protect.{KeyStore, Dispatch}

-- `serve_file` is `http.ServeFile`; the others are the errors and the generated pages.
pub data Response : Type 0 where
  serve_file : Bytes → Response
  not_found_error bad_gateway bad_request method_not_allowed : Response
  indexes_disabled mount_index : Response

-- `started` has the resources handed to `startCrawl`, the last one first.
pub record World : Type 0 where
  pub started : List Resource
  pub tree : Tree
  pub store : Store
  pub failures : FailureCache

-- What a handler depends on.
pub record Site : Type 0 where
  pub conf : Config
  pub upstreams : Upstreams
  pub keys : KeyStore
  pub dispatch : Dispatch
  pub online_root : Bytes

abbrev pub is_not_found : ServeError → Bool
is_not_found (fetch_error not_found) = true
is_not_found (crawl_error missing) = missing
is_not_found e = false

unfoldable pub write_fetch_error : ServeError → Response
write_fetch_error e = if is_not_found e then not_found_error else bad_gateway

unfoldable pub write_cached_failure : ℕ → Response
write_cached_failure status = if status == 404 then not_found_error else bad_gateway

abbrev pub set_tree : Tree → World → World
set_tree tree w = record w { tree = tree }

abbrev pub set_store : Store → World → World
set_store s w = record w { store = s }
