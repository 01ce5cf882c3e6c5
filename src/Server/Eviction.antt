-- ===== src/Server/Eviction.antt =====
-- server/crawl_loop.go: `pathBelow`, `repositoryOwns`, `prunableTree` and `evictStale`. The function
-- that removes a stale resource holds its lock, so it is one step on the store. The file system is
-- the parameter `removable`, which says whether `os.RemoveAll` succeeds on a path.
pub mod Laws
use repo_sync.Base.{
  Bool, true, false, not, ◌&&◌, ◌||◌, Option, none, some, List, [], ◌∷◌, ◌++◌, ◌==◌, nat_eq,
  list_eq,
}
use repo_sync.Base.{if◌then◌else◌, ltb}
use repo_sync.Base.Bytes.{Bytes, lit, has_prefix}
use repo_sync.Base.Dict.{Dict, lookup}
use repo_sync.Config.{MountConfig}
use repo_sync.State.{Entry, Store, kind_generic, delete}
use repo_sync.Fetch.LocalPath.{local_join}
use repo_sync.Server.Classify.{Resource}

unfoldable pub path_below : Bytes → Bytes → Bool
unfolding has_prefix
path_below p base =
    if p == base then false else if base == lit "/" then true else has_prefix p (base ++ lit "/")

-- The loop of `repositoryOwns` over a snapshot.
unfoldable pub repository_owns : Bytes → Dict Bytes Entry → Bool
unfolding path_below
repository_owns req [] = false
repository_owns req ((key, e) ∷ rest) =
    let others = repository_owns req rest in
    if e.kind == kind_generic || e.root == []
    then others
    else if path_below req e.root
    then true
    else others

unfoldable pub contains_mount : Bytes → List MountConfig → Bool
unfolding path_below
contains_mount path [] = false
contains_mount path (m ∷ rest) =
    let others = contains_mount path rest in if path_below m.path path then true else others

unfoldable pub contains_repository : Bytes → Bytes → Dict Bytes Entry → Bool
unfolding path_below
contains_repository own path [] = false
contains_repository own path ((key, e) ∷ rest) =
    let others = contains_repository own path rest in
    if key == own || e.kind == kind_generic
    then others
    else if path_below e.path path
    then true
    else others

unfoldable pub prunable_tree : List MountConfig → Resource → Dict Bytes Entry → Bool
unfolding contains_mount contains_repository
prunable_tree mounts res snapshot =
    if contains_mount res.path mounts
    then false
    else if contains_repository res.key res.path snapshot
    then false
    else true

abbrev pub requested_since : Option Entry → Entry → Bool
requested_since none old = false
requested_since (some e) old = ltb old.last_requested e.last_requested

-- The target that `evictStale` removes, if it removes any.
abbrev pub eviction_target : Bytes → Entry → Option Bytes
eviction_target root e = if e.path == lit "/" || e.path == [] then none else local_join root e.path

-- `evictStale`, from the entry of the scheduler's snapshot: the path removed, and the store.
unfoldable pub evict_stale :
    Bytes → (removable : Bytes → Bool) → Bytes → Entry → Store → Option Bytes × Store
unfolding repository_owns delete local_join
evict_stale root removable key e s =
    if requested_since (lookup key s.entries) e
    then (none, s)
    else if e.kind == kind_generic && repository_owns e.path s.entries
    then (none, delete key s)
    else elim (eviction_target root e) [
      | none ↦ (none, delete key s)
      | some target ↦ if removable target then (some target, delete key s) else (none, s)
    ]
