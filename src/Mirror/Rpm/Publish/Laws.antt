-- ===== src/Mirror/Rpm/Publish/Laws.antt =====
-- mirror/rpm.go: the root metadata is published as a whole or not at all.
use repo_sync.Base.{Bool-cases}
use repo_sync.Base.{
  ◌≡◌, inl, inr, refl, Bool, true, false, ◌&&◌, Option, none, some, if◌then◌else◌, arith,
}
use repo_sync.Base.Bytes.{Bytes}
use repo_sync.Base.Clock.{Time}
use repo_sync.Fetch.Prune.{KeepSet}
use repo_sync.Fetch.Download.{LocalFile, Slot}
use repo_sync.Fetch.Promote.{promote_or_discard, promote_staged, staged_or_final}
use repo_sync.Mirror.Rpm.Publish.{
  RpmRoot, RootFiles, DiskOk, PublishDisk, remove_live, restore_file, restore_rpm_root,
  publish_extra, publish_files, publish_rpm_root, snapshot_rpm_root,
}

-- The text of a file, which is what a client sees of it.
abbrev pub text : Option LocalFile → Option Bytes
text none = none
text (some f) = some f.content

-- The live files have the texts that they had.
pub record SameTexts (old new : RootFiles) : Type 0 where
  pub repomd : text new.repomd.dst ≡ text old.repomd.dst
  pub sig : text new.sig.dst ≡ text old.sig.dst
  pub key : text new.key.dst ≡ text old.key.dst

abbrev pub replaced : Bool → Slot → Option LocalFile
replaced missing slot = if missing then none else staged_or_final slot

-- The live files are those of the staged generation.
pub record IsPublished (root : RpmRoot) (old new : RootFiles) : Type 0 where
  pub repomd : new.repomd.dst ≡ staged_or_final old.repomd
  pub sig : new.sig.dst ≡ replaced root.sig_missing old.sig
  pub key : new.key.dst ≡ replaced root.key_missing old.key

abbrev pub all_ok : DiskOk → Bool
all_ok ok = ok.repomd && (ok.sig && ok.key)

restore_file-text :
    (now : Time) (f : Option LocalFile) (slot : Slot)
    → text ((restore_file now true f slot).1).dst ≡ text f
unfolding restore_file remove_live
restore_file-text now none slot = ground arith
restore_file-text now (some f) slot = refl

promote_lem :
    (ok : Bool) (slot : Slot)
    → (promote_or_discard false ok slot).0 ≡ true
    → ((promote_or_discard false ok slot).1).dst ≡ staged_or_final slot
unfolding promote_or_discard promote_staged staged_or_final
promote_lem ok slot h = ground arith

publish_extra_lem :
    (missing ok : Bool) (dst : Bytes) (slot : Slot) (keep : KeepSet)
    → ((publish_extra missing false ok dst slot keep).0).0 ≡ true
    → (((publish_extra missing false ok dst slot keep).0).1).dst ≡ replaced missing slot
unfolding publish_extra remove_live
publish_extra_lem true ok dst slot keep h = ground arith
publish_extra_lem false ok dst slot keep h = promote_lem ok slot h

publish_extra_dry :
    (missing ok : Bool) (dst : Bytes) (slot : Slot) (keep : KeepSet)
    → (((publish_extra missing true ok dst slot keep).0).1).dst ≡ slot.dst
unfolding publish_extra promote_or_discard
publish_extra_dry true ok dst slot keep = refl
publish_extra_dry false ok dst slot keep = refl

module _ (root : RpmRoot) (now : Time) (disk : PublishDisk) (r : RootFiles) (keep : KeepSet) where
  publish_files-IsPublished :
      ((publish_files root false disk.publish r keep).0).0 ≡ true
      → IsPublished root r ((publish_files root false disk.publish r keep).0).1
  unfolding publish_files
  publish_files-IsPublished h =
      let key = publish_extra root.key_missing false disk.publish.key root.key_dst r.key keep in
      ground (
        arith,
        publish_extra_lem root.key_missing disk.publish.key root.key_dst r.key keep,
        publish_extra_lem root.sig_missing disk.publish.sig root.sig_dst r.sig key.1,
        promote_lem disk.publish.repomd r.repomd,
      )

  restore-SameTexts :
      (broken : RootFiles)
      → all_ok disk.restore ≡ true
      → SameTexts r (restore_rpm_root now disk.restore (snapshot_rpm_root r) broken)
  unfolding restore_rpm_root snapshot_rpm_root
  restore-SameTexts broken h = ground (
    arith,
    restore_file-text now r.repomd.dst broken.repomd,
    restore_file-text now r.sig.dst broken.sig,
    restore_file-text now r.key.dst broken.key,
  )

  -- A publication that reports success has put the staged generation in place. One that reports an
  -- error, wherever the disk failed it, leaves the texts of the live files as they were, if the disk
  -- lets it restore them.
  pub publish_rpm_root_lem :
      let p = (publish_rpm_root root false now disk r keep).0 in
      (p.0 ≡ true → IsPublished root r p.1)
      × (p.0 ≡ false → all_ok disk.restore ≡ true → SameTexts r p.1)
  unfolding publish_rpm_root
  publish_rpm_root_lem =
      let p = publish_files root false disk.publish r keep in
      elim (Bool-cases disk.readable) [
        | inr unread ↦
            rw unread (λ h. absurd (cc), λ h k. record { repomd = refl; sig = refl; key = refl })
        | inl read ↦ elim (Bool-cases (p.0).0) [
          | inl done ↦ rw (read, done) (λ h. publish_files-IsPublished done, λ h k. absurd (cc))
          | inr broken ↦ rw (read, broken) (λ h. absurd (cc), λ h k. restore-SameTexts (p.0).1 k)
        ]
      ]

  publish_dry_run :
      let p = (publish_rpm_root root true now disk r keep).0 in
      (p.1.repomd.dst ≡ r.repomd.dst) × (p.1.sig.dst ≡ r.sig.dst) × (p.1.key.dst ≡ r.key.dst)
  unfolding publish_rpm_root publish_files promote_or_discard
  publish_dry_run =
      let key = publish_extra root.key_missing true disk.publish.key root.key_dst r.key keep in
      ground (
        arith,
        publish_extra_dry root.key_missing disk.publish.key root.key_dst r.key keep,
        publish_extra_dry root.sig_missing disk.publish.sig root.sig_dst r.sig key.1,
      )
