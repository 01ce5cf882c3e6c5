-- ===== src/Mirror/Rpm/Sync.antt =====
-- mirror/rpm.go: `syncRPM` up to the traces and the pruning at its end. The files of the root are kept
-- apart from the tree: metadata that names them as packages is not modelled. Decoders are parameters.
pub mod Root
pub mod Laws
use repo_sync.Base.{
  ℕ, Bool, true, false, ◌||◌, not, Option, none, some, List, [], ◌∷◌, ◌++◌, ◌==◌, nat_eq, list_eq,
  if◌then◌else◌,
}
use repo_sync.Base.Bytes.{Bytes, lit}
use repo_sync.Base.Clock.{Time}
use repo_sync.Base.Dict.{Dict}
use repo_sync.Fetch.LocalPath.{local_join}
use repo_sync.Fetch.Prune.{KeepSet, new_keep_set}
use repo_sync.Fetch.Missing.{Missing, StateFile, WriteResult, StillMissing, finish}
use repo_sync.Fetch.Download.{LocalFile, Slot, FileState, FetchError}
use repo_sync.Fetch.Promote.{staged_or_final}
use repo_sync.Fetch.Jobs.{Job, Tree, Transfers, Pool, many, Planned, plan_jobs, set_slot}
use repo_sync.Mirror.Signatures.{SignatureMode}
use repo_sync.Mirror.Rpm.Publish.{RpmRoot, RootFiles, cleanup}
use repo_sync.Mirror.Rpm.Stage.{
  StageError, Attempt, staged_root, stage_failed, again, RootRequests, Verify, stage_rpm_root,
}
use repo_sync.Mirror.Rpm.Commit.{
  Packages, CommitResult, committed, withdraw_failed, publish_failed, CommitDisk, Ready, Committed,
  commit,
}
use repo_sync.Mirror.Rpm.Select.{
  RepoFile, RepoData, is_delta, is_named, is_parsed, select_data, primary_of, metadata_jobs,
  file_jobs, delta_files,
}

pub data SyncError : Type 0 where
  stage_error : StageError → SyncError
  bad_repomd bad_path no_primary bad_index not_staged still_missing : SyncError
  metadata_error package_error : FetchError → SyncError
  commit_error : CommitResult → SyncError

pub record RpmOptions : Type 0 where
  pub dest : Bytes
  pub dry_run : Bool
  pub verify : Bool
  pub prune : Bool
  pub mode : SignatureMode

-- What a run meets: the answers to its requests, the decoders, the orders in which the jobs of its two
-- pools end, the clock, and the disk.
pub record RpmRun : Type 0 where
  pub transfers : Transfers
  pub verifier : Option Verify
  pub first : RootRequests
  pub second : RootRequests
  pub read_repomd : Option LocalFile → Option (List RepoData)
  pub read_primary : Bytes → Option LocalFile → Option (List RepoFile)
  pub read_deltas : Bytes → Option LocalFile → Option (List RepoFile)
  pub metadata_order : List (Time × ℕ)
  pub package_order : List (Time × ℕ)
  pub write : WriteResult
  pub now : Time
  pub disk : CommitDisk

pub record RpmState : Type 0 where
  pub files : RootFiles
  pub packages : Packages
  pub keep : KeepSet
  pub miss : Option Missing
  pub missing_file : StateFile
  pub planned : Planned

-- The state after a run, and its error.
abbrev pub Synced : Type 0
Synced = Option SyncError × RpmState

abbrev set_tree : Tree → RpmState → RpmState
set_tree tree s = record s { packages = record (s.packages) { tree = tree } }

abbrev unstage : Bytes → Tree → Tree
unstage dst tree = set_slot dst (record (tree dst) { staged = none }) tree

-- The indexes that a dry run staged go.
unfoldable pub discard : (dest : Bytes) → List RepoData → Tree → Tree
unfolding local_join
discard dest [] tree = tree
discard dest (d ∷ ds) tree =
    let rest = discard dest ds tree in
    elim (local_join dest d.file.href) [ none ↦ rest | some dst ↦ unstage dst rest ]

-- The primary index and the deltas, as jobs.
unfoldable pub package_jobs :
    RpmOptions → RpmRun → List RepoData → RepoFile → Tree → Option (List Job)
unfolding local_join staged_or_final delta_files file_jobs
package_jobs opts run md primary tree = elim (local_join opts.dest primary.href) [
  | none ↦ none
  | some dst ↦ elim (run.read_primary dst (staged_or_final (tree dst))) [
    | none ↦ none
    | some pkgs ↦
        elim (delta_files run.read_deltas opts.dest tree
          (select_data is_delta (select_data is_named md))) [
            | none ↦ none
            | some deltas ↦ file_jobs opts.dest (pkgs ++ deltas)
          ]
  ]
]

abbrev pool_of : RpmState → Option Missing → Pool
pool_of s miss = record {
  tree = s.packages.tree;
  keep = s.keep;
  miss = miss;
  states = [];
  missing_count = 0;
  error = none;
}

abbrev pub after_result : CommitResult → RpmState → Synced
after_result committed s = (none, s)
after_result withdraw_failed s = (some (commit_error withdraw_failed), s)
after_result publish_failed s = (some (commit_error publish_failed), s)

abbrev pub after_commit : Committed → RpmState → Synced
after_commit c s =
    after_result c.result (record s { files = c.files; packages = c.packages; keep = c.keep })

abbrev pub unless_missing : Option StillMissing → Committed → RpmState → Synced
unless_missing none c s = after_commit c s
unless_missing (some m) c s = (some still_missing, s)

-- The end of a run whose packages are there: the state of missing files, then the commit.
unfoldable pub publish_run :
    RpmOptions → RpmRun → RpmRoot → List Job → Dict ℕ FileState → RpmState → Synced
unfolding finish commit
publish_run opts run root jobs states s =
    let (unresolved, file) = finish run.write s.miss s.missing_file in
    let s' = record s { missing_file = file } in
    let c = commit opts.dry_run run.now run.disk (record {
      root = root;
      files = s.files;
      jobs = jobs;
      states = states;
      packages = s.packages;
      keep = s.keep;
    }) in
    unless_missing unresolved c s'

abbrev pub unless_error :
    RpmOptions
    → RpmRun
    → RpmRoot
    → List Job
    → Option FetchError
    → Dict ℕ FileState
    → RpmState
    → Synced
unless_error opts run root jobs none states s = publish_run opts run root jobs states s
unless_error opts run root jobs (some e) states s = (some (package_error e), s)

abbrev pub after_packages : RpmOptions → RpmRun → RpmRoot → List Job → Pool → RpmState → Synced
after_packages opts run root jobs p s =
    unless_error opts run root jobs p.error p.states
      (set_tree p.tree (record s { keep = p.keep; miss = p.miss }))

abbrev checked : RpmOptions → RpmRoot → Transfers → Transfers
checked opts root t = record t { verify = opts.verify || root.authenticated }

unfoldable pub sync_packages :
    RpmOptions → RpmRun → RpmRoot → List RepoData → List Job → RpmState → Synced
unfolding many plan_jobs publish_run discard
sync_packages opts run root md jobs s =
    let t = checked opts root run.transfers in
    let (n, keep) = plan_jobs t.digest t.verify s.packages.tree jobs s.planned s.keep in
    let tree =
      discard opts.dest (select_data is_parsed (select_data is_named md)) s.packages.tree in
    if opts.dry_run
    then publish_run opts run root [] [] (set_tree tree (record s { planned = n; keep = keep }))
    else after_packages opts run root jobs (many t jobs run.package_order (pool_of s s.miss)) s

abbrev pub with_jobs :
    RpmOptions → RpmRun → RpmRoot → List RepoData → Option (List Job) → RpmState → Synced
with_jobs opts run root md none s = (some bad_index, s)
with_jobs opts run root md (some jobs) s = sync_packages opts run root md jobs s

abbrev pub with_primary :
    RpmOptions → RpmRun → RpmRoot → List RepoData → Option RepoFile → RpmState → Synced
with_primary opts run root md none s = (some no_primary, s)
with_primary opts run root md (some f) s =
    with_jobs opts run root md (package_jobs opts run md f s.packages.tree) s

abbrev pub after_metadata :
    RpmOptions → RpmRun → RpmRoot → List RepoData → Option FetchError → RpmState → Synced
after_metadata opts run root md none s = with_primary opts run root md (primary_of md) s
after_metadata opts run root md (some e) s = (some (metadata_error e), s)

-- The metadata files that `repomd.xml` names, then the packages.
unfoldable pub sync_metadata :
    RpmOptions → RpmRun → RpmRoot → List RepoData → List Job × List Job → RpmState → Synced
unfolding many plan_jobs sync_packages package_jobs primary_of
sync_metadata opts run root md (jobs, planned) s =
    let t = checked opts root run.transfers in
    let (n, keep) = plan_jobs t.digest t.verify s.packages.tree planned s.planned s.keep in
    let s' = record s { planned = n; keep = keep } in
    let p = many t jobs run.metadata_order (pool_of s' none) in
    after_metadata opts run root md p.error (set_tree p.tree (record s' { keep = p.keep }))

abbrev pub with_metadata :
    RpmOptions → RpmRun → RpmRoot → List RepoData → Option (List Job × List Job) → RpmState → Synced
with_metadata opts run root md none s = (some bad_path, s)
with_metadata opts run root md (some jobs) s = sync_metadata opts run root md jobs s

abbrev pub with_repomd : RpmOptions → RpmRun → RpmRoot → Option (List RepoData) → RpmState → Synced
with_repomd opts run root none s = (some bad_repomd, s)
with_repomd opts run root (some md) s =
    with_metadata opts run root md (metadata_jobs opts.dry_run opts.dest md) s

-- The deferred removal of what is still staged.
abbrev pub clean_up : Synced → Synced
clean_up (error, s) = (error, record s { files = cleanup s.files })

-- The place of a root file; its join never fails under an absolute destination.
unfoldable pub root_path : (dest rel : Bytes) → Bytes
unfolding local_join
root_path dest rel = elim (local_join dest rel) [ none ↦ rel | some dst ↦ dst ]

abbrev pub after_stage : RpmOptions → RpmRun → Attempt → RpmState → Synced
after_stage opts run (stage_failed e) s = (some (stage_error e), s)
after_stage opts run again s = (some not_staged, s)
after_stage opts run (staged_root sig_missing key_missing authenticated) s =
    let root : RpmRoot = record {
      repomd_dst = root_path opts.dest (lit "repodata/repomd.xml");
      sig_dst = root_path opts.dest (lit "repodata/repomd.xml.asc");
      key_dst = root_path opts.dest (lit "repodata/repomd.xml.key");
      sig_missing = sig_missing;
      key_missing = key_missing;
      authenticated = authenticated;
    } in
    clean_up (with_repomd opts run root (run.read_repomd (staged_or_final s.files.repomd)) s)

unfoldable pub sync_rpm : RpmOptions → RpmRun → RpmState → Synced
unfolding stage_rpm_root cleanup metadata_jobs sync_metadata staged_or_final new_keep_set root_path
sync_rpm opts run s =
    let t = run.transfers in
    let (a, files) =
      stage_rpm_root t.digest t.live opts.mode run.verifier run.first run.second s.files in
    after_stage opts run a (record s { files = files; keep = new_keep_set opts.prune })
