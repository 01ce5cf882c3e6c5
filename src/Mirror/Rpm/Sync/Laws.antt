-- ===== src/Mirror/Rpm/Sync/Laws.antt =====
-- mirror/rpm.go: a run that requires signatures never leaves an unauthenticated root live.
use mathlib.Core.Path.{subst}
use repo_sync.Fetch.Prune.{new_keep_set}
use repo_sync.Mirror.Rpm.Sync.{lit}
use repo_sync.Base.{◌≡◌, refl, ◌∙◌, sym, ap, true, false, Option, some}
use repo_sync.Mirror.Signatures.{SignatureMode, signature_required, mode_or_off}
use repo_sync.Fetch.Promote.{staged_or_final}
use repo_sync.Mirror.Rpm.Publish.{RpmRoot, RootFiles}
use repo_sync.Mirror.Rpm.Publish.Laws.{SameTexts, IsPublished, text, replaced}
use repo_sync.Mirror.Rpm.Stage.{
  Attempt, staged_root, stage_failed, again, Verify, is_verified, stage_rpm_root, is_again,
}
use repo_sync.Mirror.Rpm.Stage.Laws.{SameLive, Checked, stage_rpm_root_lem}
use repo_sync.Mirror.Rpm.Commit.Laws.{CanUndo}
use repo_sync.Mirror.Rpm.Sync.{
  RpmOptions, RpmRun, RpmState, Synced, with_repomd, clean_up, after_stage, sync_rpm, root_path,
}
use repo_sync.Mirror.Rpm.Sync.Root.{has_failed, with_repomd-RootAtomic, clean_up-RootAtomic}

-- A signature that the verifier accepts, over the file it is for, is in place.
abbrev pub IsLive : Verify → RootFiles → Type 0
IsLive verify files = verify files.repomd.dst files.sig.dst files.key.dst ≡ true

live-same : (old mid new : RootFiles) → SameLive old mid → SameTexts mid new → SameTexts old new
live-same old mid new h k = record {
  repomd = k.repomd ∙ ap text h.repomd;
  sig = k.sig ∙ ap text h.sig;
  key = k.key ∙ ap text h.key;
}

published-IsLive :
    (verify : Verify) (root : RpmRoot) (old new : RootFiles)
    → IsPublished root old new
    → root.sig_missing ≡ false
    → is_verified verify root.key_missing old ≡ true
    → IsLive verify new
published-IsLive verify root old new h signed ok =
    let sig : new.sig.dst ≡ staged_or_final old.sig = h.sig ∙ ap (λ b. replaced b old.sig) signed in
    ap (λ f. verify f new.sig.dst new.key.dst) h.repomd
    ∙ (ap (λ f. verify (staged_or_final old.repomd) f new.key.dst) sig
        ∙ (ap (λ f. verify (staged_or_final old.repomd) (staged_or_final old.sig) f) h.key ∙ ok))

module _ (opts : RpmOptions) (run : RpmRun) (verify : Verify) (real : opts.dry_run ≡ false)
    (undo : CanUndo run.disk) where
  -- The outcome of a run that requires signatures.
  abbrev Outcome : RootFiles → Synced → Type 0
  Outcome old x =
      (has_failed x.0 ≡ false → IsLive verify x.1.files)
      × (has_failed x.0 ≡ true → SameTexts old x.1.files)

  after_stage-Outcome :
      (old : RootFiles) (a : Attempt) (s : RpmState)
      → SameLive old s.files
      → Checked signature_required verify s.files a
      → is_again a ≡ false
      → Outcome old (after_stage opts run a s)
  after_stage-Outcome old again s same checked last = absurd (cc)
  after_stage-Outcome old (stage_failed e) s same checked last = (
    λ h. absurd (cc),
    λ h. live-same old s.files s.files same (record { repomd = refl; sig = refl; key = refl }),
  )
  after_stage-Outcome old (staged_root sm km au) s same (verified, required, present) last =
      let root : RpmRoot = record {
        repomd_dst = root_path opts.dest (lit "repodata/repomd.xml");
        sig_dst = root_path opts.dest (lit "repodata/repomd.xml.asc");
        key_dst = root_path opts.dest (lit "repodata/repomd.xml.key");
        sig_missing = sm;
        key_missing = km;
        authenticated = au;
      } in
      let o = run.read_repomd (staged_or_final s.files.repomd) in
      let x = with_repomd opts run root o s in
      let h =
        clean_up-RootAtomic opts run root real undo s.files x
          (with_repomd-RootAtomic opts run root real undo o s) in
      let v = verified (required refl) in
      (
        λ ok. published-IsLive verify root s.files (clean_up x).1.files (h.new ok) v.1 v.0,
        λ err. live-same old s.files (clean_up x).1.files same (h.old err),
      )

  -- A run that requires signatures, has a verifier and is no dry run ends with a live root whose
  -- signature the verifier accepts, or it reports an error and the live root has the texts that it had: whatever the mirror sends, whatever
  -- the metadata says, in whatever order transfers end and wherever the disk fails, if the disk lets
  -- the run undo what it did.
  pub sync_rpm-IsLive :
      (s : RpmState)
      → mode_or_off opts.mode ≡ signature_required
      → run.verifier ≡ some verify
      → let x = sync_rpm opts run s in
        (has_failed x.0 ≡ false → IsLive verify x.1.files)
        × (has_failed x.0 ≡ true → SameTexts s.files x.1.files)
  unfolding sync_rpm
  sync_rpm-IsLive s mode verifier =
      let t = run.transfers in
      let stage = λ (v : Option Verify).
        stage_rpm_root t.digest t.live opts.mode v run.first run.second s.files in
      let (same, checked, last) =
        stage_rpm_root_lem t.digest t.live opts.mode verify run.first run.second s.files in
      subst
        (λ (v : Option Verify). Outcome s.files (
          after_stage opts run (stage v).0
            (record s { files = (stage v).1; keep = new_keep_set opts.prune })))
        (sym verifier)
        (after_stage-Outcome s.files (stage (some verify)).0 _ same
          (subst
            (λ (m : SignatureMode).
              Checked m verify (stage (some verify)).1 (stage (some verify)).0)
            mode checked)
          last)
