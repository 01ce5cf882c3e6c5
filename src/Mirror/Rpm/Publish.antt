-- ===== src/Mirror/Rpm/Publish.antt =====
-- mirror/rpm.go: `rpmRoot`, `snapshotRPMRoot`, `publishRPMRoot` and `restoreRPMRoot`. Which calls of
-- the operating system succeed is a parameter of each step.
pub mod Laws
use repo_sync.Base.{Bool, true, false, ◌&&◌, not, Option, none, some, if◌then◌else◌}
use repo_sync.Base.Bytes.{Bytes}
use repo_sync.Base.Clock.{Time}
use repo_sync.Fetch.Prune.{KeepSet, keep_add}
use repo_sync.Fetch.Download.{LocalFile, Slot}
use repo_sync.Fetch.Promote.{promote_or_discard}

pub record RpmRoot : Type 0 where
  pub repomd_dst : Bytes
  pub sig_dst : Bytes
  pub key_dst : Bytes
  pub sig_missing : Bool
  pub key_missing : Bool
  pub authenticated : Bool

-- The files of a root.
pub record RootFiles : Type 0 where
  pub repomd : Slot
  pub sig : Slot
  pub key : Slot

abbrev unstaged : Slot → Slot
unstaged slot = record slot { staged = none }

unfoldable pub cleanup : RootFiles → RootFiles
cleanup r = record { repomd = unstaged r.repomd; sig = unstaged r.sig; key = unstaged r.key }

-- What `snapshotRPMRoot` reads of the live files.
pub record Snapshot : Type 0 where
  pub repomd : Option LocalFile
  pub sig : Option LocalFile
  pub key : Option LocalFile

unfoldable pub snapshot_rpm_root : RootFiles → Snapshot
snapshot_rpm_root r = record { repomd = r.repomd.dst; sig = r.sig.dst; key = r.key.dst }

-- `os.Remove` of a live file, where a missing one is no error.
unfoldable pub remove_live : (disk_ok : Bool) → Slot → Bool × Slot
remove_live disk_ok slot = elim slot.dst [
  | none ↦ (true, slot)
  | some f ↦ if disk_ok then (true, record slot { dst = none }) else (false, slot)
]

-- One file of `restoreRPMRoot`. What it writes is new, so its modification time is the present.
unfoldable pub restore_file : Time → (disk_ok : Bool) → Option LocalFile → Slot → Bool × Slot
unfolding remove_live
restore_file now disk_ok none slot = remove_live disk_ok slot
restore_file now disk_ok (some f) slot =
    if disk_ok
    then (true, record slot { dst = some (record { content = f.content; modified = now }) })
    else (false, slot)

-- Which files the disk lets a step change.
pub record DiskOk : Type 0 where
  pub repomd : Bool
  pub sig : Bool
  pub key : Bool

unfoldable pub restore_rpm_root : Time → DiskOk → Snapshot → RootFiles → RootFiles
unfolding restore_file
restore_rpm_root now ok s r = record {
  repomd = (restore_file now ok.repomd s.repomd r.repomd).1;
  sig = (restore_file now ok.sig s.sig r.sig).1;
  key = (restore_file now ok.key s.key r.key).1;
}

abbrev pub exists : Option LocalFile → Bool
exists none = false
exists (some f) = true

abbrev keep_live : Bytes → Slot → KeepSet → KeepSet
keep_live dst slot keep = if exists slot.dst then keep_add dst keep else keep

-- The body of the loop of `publishRPMRoot` for one optional file.
unfoldable pub publish_extra :
    (missing dry_run disk_ok : Bool) → Bytes → Slot → KeepSet → (Bool × Slot) × KeepSet
unfolding remove_live promote_or_discard keep_add
publish_extra true true disk_ok dst slot keep = ((true, slot), keep)
publish_extra true false disk_ok dst slot keep = (remove_live disk_ok slot, keep)
publish_extra false dry_run disk_ok dst slot keep =
    let r = promote_or_discard dry_run disk_ok slot in
    (r, if r.0 then keep_live dst r.1 keep else keep)

-- The key, the signature and `repomd.xml` in turn, up to the first error.
unfoldable pub publish_files :
    RpmRoot → (dry_run : Bool) → DiskOk → RootFiles → KeepSet → (Bool × RootFiles) × KeepSet
unfolding publish_extra
publish_files root dry_run ok r keep =
    let key = publish_extra root.key_missing dry_run ok.key root.key_dst r.key keep in
    let sig = publish_extra root.sig_missing dry_run ok.sig root.sig_dst r.sig key.1 in
    let repomd = promote_or_discard dry_run ok.repomd r.repomd in
    if not (key.0).0
    then ((false, record r { key = (key.0).1 }), key.1)
    else if not (sig.0).0
    then ((false, record r { key = (key.0).1; sig = (sig.0).1 }), sig.1)
    else if not repomd.0
    then ((false, record { key = (key.0).1; sig = (sig.0).1; repomd = repomd.1 }), sig.1)
    else (
      (true, record { key = (key.0).1; sig = (sig.0).1; repomd = repomd.1 }),
      keep_add root.repomd_dst sig.1,
    )

-- Where the disk fails `publishRPMRoot`: the snapshot, the files, or the files of a restore.
pub record PublishDisk : Type 0 where
  pub readable : Bool
  pub publish : DiskOk
  pub restore : DiskOk

-- `publishRPMRoot`: whether it succeeds, the files, and the keep set.
unfoldable pub publish_rpm_root :
    RpmRoot
    → (dry_run : Bool) → Time
    → PublishDisk
    → RootFiles
    → KeepSet
    → (Bool × RootFiles) × KeepSet
unfolding publish_files snapshot_rpm_root restore_rpm_root
publish_rpm_root root dry_run now disk r keep =
    let p = publish_files root dry_run disk.publish r keep in
    if dry_run
    then p
    else if not disk.readable
    then ((false, r), keep)
    else if (p.0).0
    then p
    else ((false, restore_rpm_root now disk.restore (snapshot_rpm_root r) (p.0).1), p.1)
