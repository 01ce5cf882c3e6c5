-- ===== src/Fetch/Names.antt =====
-- fetch/fetch.go and fetch/missing.go: the names of the work files in a synchronized tree.
use repo_sync.Base.Bytes.{Bytes, lit}

abbrev pub staged_suffix : Bytes
staged_suffix = lit ".staged"

abbrev pub partial_suffix : Bytes
partial_suffix = lit ".partial"

abbrev pub lock_file_name : Bytes
lock_file_name = lit ".repo-sync.lock"

abbrev pub prune_state_name : Bytes
prune_state_name = lit ".repo-sync-prune.json"

abbrev pub discover_state_name : Bytes
discover_state_name = lit ".repo-sync-state.json"

abbrev pub missing_state_name : Bytes
missing_state_name = lit ".repo-sync-missing.json"
