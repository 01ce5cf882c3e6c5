-- ===== src/Mirror/Run.antt =====
-- mirror/sync.go: `Sync` with `resolveTargets` and `syncFiles`, and `Summary`. What a run
-- changes is a type `W` that the runs of its repositories share; counts stay below 2^63.
pub mod Laws
use repo_sync.Base.{
  ℕ, zero, suc, ◌+◌, Bool, true, false, not, ◌&&◌, ◌||◌, Option, none, some, List, [], ◌∷◌, ◌++◌,
  ◌==◌, nat_eq, list_eq, ltb, length, contains, if◌then◌else◌,
}
use repo_sync.Base.Bytes.{Bytes}
use repo_sync.Base.Dict.{Dict, lookup, insert}
use repo_sync.Fetch.Stats.{Counters, no_counts}
use repo_sync.Mirror.Targets.{RepoType, RepoTarget, FileTarget}
use repo_sync.Mirror.Resolve.{Upstream, Detected, detected, undetected, ResolveError, detect_type}

pub record Summary : Type 0 where
  pub repositories : ℕ
  pub failed : ℕ
  pub dry_run : Bool
  pub counts : Counters

abbrev pub add_counts : Counters → Counters → Counters
add_counts a b = record {
  fetched = a.fetched + b.fetched;
  fetched_bytes = a.fetched_bytes + b.fetched_bytes;
  unchanged = a.unchanged + b.unchanged;
  pruned = a.pruned + b.pruned;
  planned = a.planned + b.planned;
  planned_bytes = a.planned_bytes + b.planned_bytes;
  missing = a.missing + b.missing;
}

unfoldable pub add : Counters → Summary → Summary
add c s = record s { counts = add_counts s.counts c }

unfoldable pub changed : Summary → Bool
changed s = if s.dry_run then false else ltb 0 s.counts.fetched || ltb 0 s.counts.pruned

pub data RunError : Type 0 where
  canceled not_locked no_repositories : RunError
  other : ℕ → RunError

-- The errors at the end: how many repositories failed, and that of the files.
pub data SyncErrors : Type 0 where
  stopped : RunError → SyncErrors
  ended : (failed : ℕ) → (files : Option RunError) → SyncErrors

abbrev pub is_canceled : RunError → Bool
is_canceled canceled = true
is_canceled e = false

-- One run of a repository or of the files: its error, what it counted, and what it left.
abbrev pub Outcome : Type 0 → Type 0
Outcome W = Option RunError × (Counters × W)

module _ {W : Type 0} (stops : W → Bool) (sync_one : RepoTarget → W → Outcome W)
    (sync_files : List FileTarget → W → Outcome W) where
  -- A run stops with an error, or goes on.
  abbrev pub Stage : Type 0
  Stage = Option RunError × (Summary × W)

  abbrev pub started : Summary → Summary
  started s = record s { repositories = s.repositories + 1 }

  abbrev pub failing : Summary → Summary
  failing s = record s { failed = s.failed + 1 }

  abbrev pub judged : Option RunError → Summary → Summary
  judged none s = s
  judged (some e) s = failing s

  abbrev pub ends : Option RunError → Bool
  ends none = false
  ends (some e) = is_canceled e

  -- The loop over the repositories.
  unfoldable pub sync_repos : List RepoTarget → Summary → W → Stage
  unfolding add
  sync_repos [] s w = (none, (s, w))
  sync_repos (r ∷ rs) s w =
      let (error, (c, v)) = sync_one r w in
      let next = judged error (add c (started s)) in
      let rest = sync_repos rs next v in
      if stops w then (some canceled, (s, w)) else if ends error then (error, (next, v)) else rest

  abbrev pub Result : Type 0
  Result = SyncErrors × (Summary × W)

  abbrev pub after_files : Outcome W → Summary → Result
  after_files (none, (c, w)) s = (ended s.failed none, (add c s, w))
  after_files (some e, (c, w)) s =
      if is_canceled e then (stopped e, (add c s, w)) else (ended s.failed (some e), (add c s, w))

  -- The loose files, last.
  abbrev pub with_files : List FileTarget → Stage → Result
  with_files files (some e, rest) = (stopped e, rest)
  with_files [] (none, (s, w)) = (ended s.failed none, (s, w))
  with_files (f ∷ files) (none, (s, w)) =
      if stops w then (ended s.failed none, (s, w)) else after_files (sync_files (f ∷ files) w) s

  abbrev pub new_summary : (dry_run : Bool) → Summary
  new_summary dry_run = record {
    repositories = 0;
    failed = 0;
    dry_run = dry_run;
    counts = no_counts;
  }

  abbrev pub with_targets :
      (dry_run : Bool) → Option RunError → (List RepoTarget × List FileTarget) → W → Result
  with_targets dry_run (some e) targets w = (stopped e, (new_summary dry_run, w))
  with_targets dry_run none ([], []) w = (stopped no_repositories, (new_summary dry_run, w))
  with_targets dry_run none ([], f ∷ files) w =
      with_files (f ∷ files) (sync_repos [] (new_summary dry_run) w)
  with_targets dry_run none (r ∷ repos, files) w =
      with_files files (sync_repos (r ∷ repos) (new_summary dry_run) w)

  -- `Sync`, once the destination's lock is taken or refused and the targets are resolved or not.
  unfoldable pub sync :
      (dry_run has_lock : Bool)
      → (resolve : W → Option RunError × ((List RepoTarget × List FileTarget) × W)) → W
      → Result
  unfolding sync_repos add
  sync dry_run has_lock resolve w =
      let (error, (targets, v)) = resolve w in
      if has_lock
      then with_targets dry_run error targets v
      else (stopped not_locked, (new_summary dry_run, w))

-- `resolveTargets` without discovery: each URL is a repository.
abbrev pub add_target :
    (url : Bytes) → Detected → Option (List RepoTarget) → Option (List RepoTarget)
add_target url (undetected e) rest = none
add_target url (detected typ) none = none
add_target url (detected typ) (some rs) = some (record { url = url; typ = typ } ∷ rs)

unfoldable pub resolve_targets :
    Upstream
    → (typ : RepoType) → (types : List RepoType) → (urls : List Bytes) → Option (List RepoTarget)
unfolding detect_type
resolve_targets up typ types [] = some []
resolve_targets up typ types (url ∷ urls) =
    add_target url (if typ == [] then detect_type up url types else detected typ)
      (resolve_targets up typ types urls)

-- The groups of `syncFiles`, by directory in the order of their first file.
unfoldable pub add_file : FileTarget → Dict Bytes (List FileTarget) → Dict Bytes (List FileTarget)
add_file f [] = (f.dir_url, f ∷ []) ∷ []
add_file f ((dir, fs) ∷ groups) =
    if f.dir_url == dir then (dir, fs ++ (f ∷ [])) ∷ groups else (dir, fs) ∷ add_file f groups

unfoldable pub group_files :
    List FileTarget → Dict Bytes (List FileTarget) → Dict Bytes (List FileTarget)
unfolding add_file
group_files [] groups = groups
group_files (f ∷ fs) groups = group_files fs (add_file f groups)
