-- ===== src/Mirror/Rpm/Commit.antt =====
-- mirror/rpm.go: `withdrawMissingPackages`, `finishWithdrawnPackages`, and the end of `syncRPM`, which
-- publishes a generation whose packages are ready.
pub mod Laws
use repo_sync.Base.{
  ℕ, suc, Bool, true, false, not, ◌&&◌, ◌||◌, Option, none, some, List, [], ◌∷◌, ◌==◌, nat_eq,
  list_eq, if◌then◌else◌,
}
use repo_sync.Base.Bytes.{Bytes}
use repo_sync.Base.Clock.{Time}
use repo_sync.Base.Dict.{Dict, lookup}
use repo_sync.Fetch.Prune.{KeepSet}
use repo_sync.Fetch.Download.{LocalFile, Slot, FileState}
use repo_sync.Fetch.Jobs.{Job, Tree, set_slot}
use repo_sync.Mirror.Rpm.Publish.{RpmRoot, RootFiles, PublishDisk, publish_rpm_root, exists}

-- The files of the tree, and the packages hidden beside their places until the end.
pub record Packages : Type 0 where
  pub tree : Tree
  pub hidden : Bytes → Option LocalFile

abbrev pub set_at : Bytes → Option LocalFile → (Bytes → Option LocalFile) → Bytes → Option LocalFile
set_at dst f files path = if path == dst then f else files path

abbrev pub set_dst : Bytes → Option LocalFile → Tree → Tree
set_dst dst f tree = set_slot dst (record (tree dst) { dst = f }) tree

abbrev pub is_fetched : Option FileState → Bool
is_fetched none = false
is_fetched (some s) = true

-- The renaming of a package that is in place, which leaves an older hidden one no room.
unfoldable pub hide : Bytes → Packages → Packages
hide dst p = record {
  tree = set_dst dst none p.tree;
  hidden = set_at dst ((p.tree dst).dst) p.hidden;
}

-- The loop over the jobs from an index on: whether it got through, what it withdrew, and the files.
-- A job without a state is one whose file the upstream does not serve.
unfoldable pub withdraw :
    (disk_ok : Bytes → Bool)
    → ℕ
    → List Job
    → Dict ℕ FileState
    → Packages
    → (Bool × List Bytes) × Packages
unfolding hide lookup
withdraw disk_ok idx [] states p = ((true, []), p)
withdraw disk_ok idx (job ∷ jobs) states p =
    let skip = withdraw disk_ok (suc idx) jobs states p in
    let next = withdraw disk_ok (suc idx) jobs states (hide job.dst p) in
    if is_fetched (lookup idx states) || not (exists ((p.tree job.dst).dst))
    then skip
    else if disk_ok job.dst
    then (((next.0).0, job.dst ∷ (next.0).1), next.1)
    else ((false, []), p)

-- One file of `finishWithdrawnPackages`: the hidden file goes, or goes back.
unfoldable pub finish_one : (disk_ok published : Bool) → Bytes → Packages → Packages
finish_one disk_ok true dst p =
    if disk_ok then record p { hidden = set_at dst none p.hidden } else p
finish_one disk_ok false dst p = elim (p.hidden dst) [
  | none ↦ p
  | some f ↦
      if disk_ok
      then record { tree = set_dst dst (some f) p.tree; hidden = set_at dst none p.hidden }
      else p
]

unfoldable pub finish_withdrawn :
    (disk_ok : Bytes → Bool) → (published : Bool) → List Bytes → Packages → Packages
unfolding finish_one
finish_withdrawn disk_ok published [] p = p
finish_withdrawn disk_ok published (dst ∷ rest) p =
    finish_withdrawn disk_ok published rest (finish_one (disk_ok dst) published dst p)

pub data CommitResult : Type 0 where
  committed withdraw_failed publish_failed : CommitResult

-- Which calls succeed: the renaming of packages away and back, and those of the publication.
pub record CommitDisk : Type 0 where
  pub hide : Bytes → Bool
  pub finish : Bytes → Bool
  pub publish : PublishDisk

-- What a run has when its packages are ready.
pub record Ready : Type 0 where
  pub root : RpmRoot
  pub files : RootFiles
  pub jobs : List Job
  pub states : Dict ℕ FileState
  pub packages : Packages
  pub keep : KeepSet

pub record Committed : Type 0 where
  pub result : CommitResult
  pub files : RootFiles
  pub packages : Packages
  pub keep : KeepSet

unfoldable pub publish_ready :
    (dry_run : Bool) → Time → CommitDisk → Ready → List Bytes → Packages → Committed
unfolding publish_rpm_root finish_withdrawn
publish_ready dry_run now disk r withdrawn p =
    let ((done, files), keep) = publish_rpm_root r.root dry_run now disk.publish r.files r.keep in
    record {
      result = if done then committed else publish_failed;
      files = files;
      packages = finish_withdrawn disk.finish done withdrawn p;
      keep = keep;
    }

unfoldable pub commit : (dry_run : Bool) → Time → CommitDisk → Ready → Committed
unfolding withdraw publish_ready
commit dry_run now disk r =
    let ((through, withdrawn), p) = withdraw disk.hide 0 r.jobs r.states r.packages in
    if not r.root.authenticated
    then publish_ready dry_run now disk r [] r.packages
    else if through
    then publish_ready dry_run now disk r withdrawn p
    else record {
      result = withdraw_failed;
      files = r.files;
      packages = finish_withdrawn disk.finish false withdrawn p;
      keep = r.keep;
    }
