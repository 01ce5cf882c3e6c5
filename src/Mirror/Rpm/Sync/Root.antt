-- ===== src/Mirror/Rpm/Sync/Root.antt =====
-- mirror/rpm.go: a run publishes the staged root or keeps the live one, wherever it fails.
use repo_sync.Base.{if◌then◌else◌, []}
use repo_sync.Mirror.Rpm.Select.{primary_of}
use repo_sync.Mirror.Rpm.Sync.{unless_error}
use repo_sync.Mirror.Rpm.Sync.{after_metadata}
use repo_sync.Mirror.Rpm.Sync.{with_metadata}
use repo_sync.Fetch.Download.{FetchError}
use repo_sync.Mirror.Rpm.Sync.{with_jobs}
use repo_sync.Mirror.Rpm.Select.{metadata_jobs}
use repo_sync.Base.{[]}
use repo_sync.Fetch.Missing.{finish}
use repo_sync.Mirror.Rpm.Sync.{package_jobs}
use repo_sync.Mirror.Rpm.Sync.{unless_missing}
use repo_sync.Mirror.Rpm.Sync.{after_result}
use repo_sync.Mirror.Rpm.Commit.Laws.{is_committed}
use repo_sync.Fetch.Missing.{StillMissing}
use mathlib.Core.Path.{subst}
use repo_sync.Base.{◌≡◌, refl, sym, Bool, true, false, Option, none, some, List, nat_eq, list_eq, ℕ}
use repo_sync.Base.Dict.{Dict}
use repo_sync.Fetch.Download.{FileState}
use repo_sync.Fetch.Jobs.{Job}
use repo_sync.Mirror.Rpm.Publish.{RpmRoot, RootFiles, cleanup}
use repo_sync.Mirror.Rpm.Publish.Laws.{SameTexts, IsPublished}
use repo_sync.Mirror.Rpm.Commit.{
  CommitResult, committed, withdraw_failed, publish_failed, Committed, Ready, commit,
}
use repo_sync.Mirror.Rpm.Commit.Laws.{CanUndo, Atomic, commit-Atomic}
use repo_sync.Mirror.Rpm.Select.{RepoData, RepoFile}
use repo_sync.Mirror.Rpm.Sync.{
  SyncError, RpmOptions, RpmRun, RpmState, Synced, publish_run, sync_packages, with_primary,
  sync_metadata, with_repomd, clean_up,
}

abbrev pub has_failed : Option SyncError → Bool
has_failed none = false
has_failed (some e) = true

-- A run that succeeds has published the staged root, and one that fails has kept the live one.
pub record RootAtomic (root : RpmRoot) (files : RootFiles) (x : Synced) : Type 0 where
  pub new : has_failed x.0 ≡ false → IsPublished root files x.1.files
  pub old : has_failed x.0 ≡ true → SameTexts files x.1.files

pub SameTexts-refl : (files : RootFiles) → SameTexts files files
SameTexts-refl files = record { repomd = refl; sig = refl; key = refl }

failed-RootAtomic :
    (root : RpmRoot) (e : SyncError) (s : RpmState) → RootAtomic root s.files (some e, s)
failed-RootAtomic root e s = record { new = λ h. absurd (cc); old = λ h. SameTexts-refl s.files }

after_result-RootAtomic :
    (r : Ready) (result : CommitResult) (s : RpmState)
    → (is_committed result ≡ true → IsPublished r.root r.files s.files)
    → (is_committed result ≡ false → SameTexts r.files s.files)
    → RootAtomic r.root r.files (after_result result s)
after_result-RootAtomic r committed s h k = record { new = λ e. h refl; old = λ e. absurd (cc) }
after_result-RootAtomic r withdraw_failed s h k = record {
  new = λ e. absurd (cc);
  old = λ e. k refl;
}
after_result-RootAtomic r publish_failed s h k = record {
  new = λ e. absurd (cc);
  old = λ e. k refl;
}

module _ (opts : RpmOptions) (run : RpmRun) (root : RpmRoot) (real : opts.dry_run ≡ false)
    (undo : CanUndo run.disk) where
  abbrev ready_of : List Job → Dict ℕ FileState → RpmState → Ready
  ready_of jobs states s = record {
    root = root;
    files = s.files;
    jobs = jobs;
    states = states;
    packages = s.packages;
    keep = s.keep;
  }

  if-RootAtomic :
      (b : Bool) (s : RpmState) (x y : Synced)
      → RootAtomic root s.files x
      → RootAtomic root s.files y
      → RootAtomic root s.files (if b then x else y)
  if-RootAtomic true s x y h k = h
  if-RootAtomic false s x y h k = k

  unless_missing-RootAtomic :
      (o : Option StillMissing) (r : Ready) (c : Committed) (s : RpmState)
      → Atomic r c
      → r.files ≡ s.files
      → r.root ≡ root
      → RootAtomic r.root r.files (unless_missing o c s)
  unless_missing-RootAtomic none r c s h same here =
      after_result-RootAtomic r c.result _ h.new h.old
  unless_missing-RootAtomic (some m) r c s h same here =
      subst (λ (f : RootFiles). RootAtomic r.root f (some SyncError.still_missing, s)) (sym same)
        (failed-RootAtomic r.root SyncError.still_missing s)

  publish_run-RootAtomic :
      (jobs : List Job) (states : Dict ℕ FileState) (s : RpmState)
      → RootAtomic root s.files (publish_run opts run root jobs states s)
  unfolding publish_run
  publish_run-RootAtomic jobs states s =
      let r = ready_of jobs states s in
      let f = finish run.write s.miss s.missing_file in
      unless_missing-RootAtomic f.0 r (commit opts.dry_run run.now run.disk r)
        (record s { missing_file = f.1 })
        (subst (λ (b : Bool). Atomic r (commit b run.now run.disk r)) (sym real)
          (commit-Atomic run.now run.disk r undo))
        refl refl

  unless_error-RootAtomic :
      (jobs : List Job) (o : Option FetchError) (states : Dict ℕ FileState) (s : RpmState)
      → RootAtomic root s.files (unless_error opts run root jobs o states s)
  unless_error-RootAtomic jobs none states s = publish_run-RootAtomic jobs states s
  unless_error-RootAtomic jobs (some e) states s =
      failed-RootAtomic root (SyncError.package_error e) s

  sync_packages-RootAtomic :
      (md : List RepoData) (jobs : List Job) (s : RpmState)
      → RootAtomic root s.files (sync_packages opts run root md jobs s)
  unfolding sync_packages
  sync_packages-RootAtomic md jobs s =
      if-RootAtomic opts.dry_run s _ _ (publish_run-RootAtomic [] [] _)
        (unless_error-RootAtomic jobs _ _ _)

  with_jobs-RootAtomic :
      (md : List RepoData) (o : Option (List Job)) (s : RpmState)
      → RootAtomic root s.files (with_jobs opts run root md o s)
  with_jobs-RootAtomic md none s = failed-RootAtomic root SyncError.bad_index s
  with_jobs-RootAtomic md (some jobs) s = sync_packages-RootAtomic md jobs s

  with_primary-RootAtomic :
      (md : List RepoData) (o : Option RepoFile) (s : RpmState)
      → RootAtomic root s.files (with_primary opts run root md o s)
  with_primary-RootAtomic md none s = failed-RootAtomic root SyncError.no_primary s
  with_primary-RootAtomic md (some f) s =
      with_jobs-RootAtomic md (package_jobs opts run md f s.packages.tree) s

  after_metadata-RootAtomic :
      (md : List RepoData) (o : Option FetchError) (s : RpmState)
      → RootAtomic root s.files (after_metadata opts run root md o s)
  after_metadata-RootAtomic md none s = with_primary-RootAtomic md (primary_of md) s
  after_metadata-RootAtomic md (some e) s = failed-RootAtomic root (SyncError.metadata_error e) s

  sync_metadata-RootAtomic :
      (md : List RepoData) (jobs : List Job × List Job) (s : RpmState)
      → RootAtomic root s.files (sync_metadata opts run root md jobs s)
  unfolding sync_metadata
  sync_metadata-RootAtomic md (jobs, planned) s = after_metadata-RootAtomic md _ _

  with_metadata-RootAtomic :
      (md : List RepoData) (o : Option (List Job × List Job)) (s : RpmState)
      → RootAtomic root s.files (with_metadata opts run root md o s)
  with_metadata-RootAtomic md none s = failed-RootAtomic root SyncError.bad_path s
  with_metadata-RootAtomic md (some jobs) s = sync_metadata-RootAtomic md jobs s

  pub with_repomd-RootAtomic :
      (o : Option (List RepoData)) (s : RpmState)
      → RootAtomic root s.files (with_repomd opts run root o s)
  with_repomd-RootAtomic none s = failed-RootAtomic root SyncError.bad_repomd s
  with_repomd-RootAtomic (some md) s =
      with_metadata-RootAtomic md (metadata_jobs opts.dry_run opts.dest md) s

  pub clean_up-RootAtomic :
      (files : RootFiles) (x : Synced)
      → RootAtomic root files x
      → RootAtomic root files (clean_up x)
  unfolding cleanup
  clean_up-RootAtomic files x h = record {
    new = λ e. let k = h.new e in record { repomd = k.repomd; sig = k.sig; key = k.key };
    old = λ e. let k = h.old e in record { repomd = k.repomd; sig = k.sig; key = k.key };
  }
