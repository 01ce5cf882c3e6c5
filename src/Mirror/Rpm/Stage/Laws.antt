-- ===== src/Mirror/Rpm/Stage/Laws.antt =====
-- mirror/rpm.go: what a staged root has been checked for.
use repo_sync.Mirror.Staging.Laws.{stage_file_live}
use repo_sync.Base.{◌∙◌}
use repo_sync.Mirror.Rpm.Stage.{after_extras}
use repo_sync.Mirror.Rpm.Stage.{after_repomd}
use repo_sync.Fetch.Download.{FetchError}
use repo_sync.Base.{
  ◌≡◌, ◌≢◌, ◌⊎◌, inl, inr, refl, Bool, true, false, Option, none, some, nat_eq, list_eq, arith,
  Bool-cases,
}
use repo_sync.Fetch.Download.{Digest, Outcome, done, failed}
use repo_sync.Mirror.Signatures.{SignatureMode, signature_off, signature_required, mode_or_off}
use repo_sync.Mirror.Rpm.Publish.{RootFiles, cleanup}
use repo_sync.Mirror.Rpm.Stage.{
  StageError, fetch_failed, Attempt, staged_root, stage_failed, again, RootRequests, Verify,
  is_verified, judge_root, stage_extras, stage_attempt, stage_twice, stage_rpm_root, is_again,
}

-- The live files stay.
pub record SameLive (old new : RootFiles) : Type 0 where
  pub repomd : new.repomd.dst ≡ old.repomd.dst
  pub sig : new.sig.dst ≡ old.sig.dst
  pub key : new.key.dst ≡ old.key.dst

-- Nothing staged is left.
pub record IsClean (r : RootFiles) : Type 0 where
  pub repomd : r.repomd.staged ≡ none
  pub sig : r.sig.staged ≡ none
  pub key : r.key.staged ≡ none

-- What a result says of the files: they are checked as the mode asks, or nothing is left of them.
abbrev pub Checked : SignatureMode → Verify → RootFiles → Attempt → Type 0
Checked mode verify r (staged_root sig_missing key_missing authenticated) =
    (authenticated ≡ true → (is_verified verify key_missing r ≡ true) × (sig_missing ≡ false))
    × (mode ≡ signature_required → authenticated ≡ true)
    × (mode ≢ signature_off → (authenticated ≡ true) ⊎ (sig_missing ≡ true))
Checked mode verify r (stage_failed e) = IsClean r
Checked mode verify r again = Unit

judge_root-Checked :
    (mode : SignatureMode) (verify : Verify) (fresh sig_missing key_missing : Bool) (r : RootFiles)
    → let j = judge_root mode verify fresh sig_missing key_missing r in
      SameLive r j.1 × Checked mode verify j.1 j.0 × (fresh ≡ true → is_again j.0 ≡ false)
unfolding judge_root cleanup
judge_root-Checked mode verify fresh sig_missing key_missing r = ground arith

module _ (digest : Digest) (live : Bool) where
  module _ (mode : SignatureMode) (verify : Verify) where
    -- An attempt leaves the live files alone, and its result is as checked as the mode asks.
    abbrev Sound : RootFiles → Attempt × RootFiles → Type 0
    Sound old a = SameLive old a.1 × Checked mode verify a.1 a.0

    abbrev Final : Bool → Attempt → Type 0
    Final fresh a = fresh ≡ true → is_again a ≡ false

    SameLive-trans : (a b c : RootFiles) → SameLive a b → SameLive b c → SameLive a c
    SameLive-trans a b c h k = record {
      repomd = k.repomd ∙ h.repomd;
      sig = k.sig ∙ h.sig;
      key = k.key ∙ h.key;
    }

    cleanup-Sound :
        (old r : RootFiles) (e : StageError)
        → SameLive old r
        → Sound old (stage_failed e, cleanup r)
    unfolding cleanup
    cleanup-Sound old r e h = (
      record { repomd = h.repomd; sig = h.sig; key = h.key },
      record { repomd = refl; sig = refl; key = refl },
    )

    after_extras-Sound :
        (fresh : Bool) (o p : Option Bool) (e d : FetchError) (old one both : RootFiles)
        → SameLive old one
        → SameLive old both
        → let a = after_extras digest live mode verify fresh o p e d one both in
          Sound old a × Final fresh a.0
    unfolding after_extras
    after_extras-Sound fresh none p e d old one both h k =
        (cleanup-Sound old one (fetch_failed e) h, λ f. refl)
    after_extras-Sound fresh (some sm) none e d old one both h k =
        (cleanup-Sound old both (fetch_failed d) k, λ f. refl)
    after_extras-Sound fresh (some sm) (some km) e d old one both h k =
        let j = judge_root-Checked mode verify fresh sm km both in
        ((SameLive-trans old both _ k j.0, j.1), j.2)

    after_repomd-Sound :
        (fresh : Bool) (ask : RootRequests) (o : Outcome) (old r : RootFiles)
        → SameLive old r
        → let a = after_repomd digest live mode verify fresh ask o r in
          Sound old a × Final fresh a.0
    unfolding after_repomd stage_extras
    after_repomd-Sound fresh ask (failed e) old r h =
        (cleanup-Sound old r (fetch_failed e) h, λ f. refl)
    after_repomd-Sound fresh ask (done s) old r h =
        let sig = stage_file_live digest live fresh ask.sig r.sig in
        let key = stage_file_live digest live fresh ask.key r.key in
        after_extras-Sound fresh _ _ _ _ old _ _
          (record { repomd = h.repomd; sig = sig ∙ h.sig; key = h.key })
          (record { repomd = h.repomd; sig = sig ∙ h.sig; key = key ∙ h.key })

    stage_attempt-Sound :
        (fresh : Bool) (ask : RootRequests) (r : RootFiles)
        → let a = stage_attempt digest live mode verify fresh ask r in Sound r a × Final fresh a.0
    unfolding stage_attempt
    stage_attempt-Sound fresh ask r = after_repomd-Sound fresh ask _ r _ (record {
      repomd = stage_file_live digest live fresh ask.repomd r.repomd;
      sig = refl;
      key = refl;
    })

    stage_twice-Sound :
        (first second : RootRequests) (r : RootFiles)
        → let a = stage_twice digest live mode verify first second r in
          Sound r a × (is_again a.0 ≡ false)
    unfolding stage_twice
    stage_twice-Sound first second r =
        let one = stage_attempt digest live mode verify false first r in
        let (s, _) = stage_attempt-Sound false first r in
        let ((same, checked), final) = stage_attempt-Sound true second one.1 in
        elim (Bool-cases (is_again one.0)) [
          | inl more ↦ rw more ((SameLive-trans r one.1 _ s.0 same, checked), final refl)
          | inr last ↦ rw last (s, last)
        ]

-- Staging leaves the live files alone. A root that it reports authenticated carries a signature that
-- the verifier accepts, in the required mode every root is authenticated, in any mode but `off` every
-- root that has a signature is, and an error leaves nothing staged.
pub stage_rpm_root_lem :
    (digest : Digest) (live : Bool) (mode : SignatureMode) (verify : Verify)
    (first second : RootRequests) (r : RootFiles)
    → let a = stage_rpm_root digest live mode (some verify) first second r in
      SameLive r a.1 × Checked (mode_or_off mode) verify a.1 a.0 × (is_again a.0 ≡ false)
unfolding stage_rpm_root
stage_rpm_root_lem digest live mode verify first second r =
    let ((same, checked), final) =
      stage_twice-Sound digest live (mode_or_off mode) verify first second r in
    (same, checked, final)
