-- ===== src/Fetch/LocalPath.antt =====
-- fetch/fetch.go, `LocalJoin`: a repository path under a local root.
pub mod Laws
use repo_sync.Base.{Bool, not, ◌&&◌, Option, none, some, [], ◌∷◌, ◌++◌, ◌==◌, nat_eq, list_eq}
use repo_sync.Base.{if◌then◌else◌}
use repo_sync.Base.Bytes.{Bytes, lit, has_prefix}
use repo_sync.Base.Paths.{clean, join}

-- `strings.ReplaceAll(rel, "\\", "/")`.
unfoldable pub slashes : Bytes → Bytes
slashes [] = []
slashes (x ∷ s) = (if x == 92 then b'/' else x) ∷ slashes s

-- `none` is the error for a path that escapes the root.
unfoldable pub local_join : Bytes → Bytes → Option Bytes
unfolding slashes join has_prefix
local_join root rel =
    let dst = join root (clean (b'/' ∷ slashes rel)) in
    let root_clean = clean root in
    let prefix = if root_clean == lit "/" then root_clean else root_clean ++ lit "/" in
    if not (dst == root_clean) && not (has_prefix dst prefix) then none else some dst
