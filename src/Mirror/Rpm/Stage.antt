-- ===== src/Mirror/Rpm/Stage.antt =====
-- mirror/rpm.go: `stageRPMRoot`. The mirror's answers to the two attempts and the check of a
-- signature are parameters.
pub mod Laws
use repo_sync.Mirror.Staging.{missing_of, error_of, stage_file}
use repo_sync.Base.{
  Bool, true, false, not, Option, none, some, ◌==◌, nat_eq, list_eq, if◌then◌else◌,
}
use repo_sync.Fetch.Download.{
  Digest, LocalFile, Slot, FetchError, not_found, forbidden, Outcome, done, failed, Request,
  fetch_file,
}
use repo_sync.Fetch.Promote.{staged_or_final}
use repo_sync.Mirror.Signatures.{SignatureMode, signature_off, signature_required, mode_or_off}
use repo_sync.Mirror.Rpm.Publish.{RootFiles, cleanup}

pub data StageError : Type 0 where
  no_verifier no_signature bad_signature : StageError
  fetch_failed : FetchError → StageError

-- The flags of the root that an attempt staged, an error, or the wish to fetch the set again.
pub data Attempt : Type 0 where
  staged_root : (sig_missing key_missing authenticated : Bool) → Attempt
  stage_failed : StageError → Attempt
  again : Attempt

-- What the mirror answers for the three files.
pub record RootRequests : Type 0 where
  pub repomd : Request
  pub sig : Request
  pub key : Request

-- The check of a signature over a file, with the repository's own key if there is one.
abbrev pub Verify : Type 0
Verify = (file sig key : Option LocalFile) → Bool

abbrev pub key_file : Bool → RootFiles → Option LocalFile
key_file key_missing r = if key_missing then none else staged_or_final r.key

abbrev pub is_verified : Verify → Bool → RootFiles → Bool
is_verified verify key_missing r =
    verify (staged_or_final r.repomd) (staged_or_final r.sig) (key_file key_missing r)

-- What an attempt makes of the three files.
unfoldable pub judge_root :
    SignatureMode
    → Verify
    → (fresh sig_missing key_missing : Bool) → RootFiles
    → Attempt × RootFiles
unfolding staged_or_final cleanup
judge_root mode verify fresh sig_missing key_missing r =
    if mode == signature_off
    then (staged_root sig_missing key_missing false, r)
    else if sig_missing
    then if mode == signature_required
      then (stage_failed no_signature, cleanup r)
      else (staged_root sig_missing key_missing false, r)
    else if is_verified verify key_missing r
    then (staged_root sig_missing key_missing true, r)
    else if not fresh
    then (again, r)
    else (stage_failed bad_signature, cleanup r)

abbrev pub is_again : Attempt → Bool
is_again again = true
is_again a = false

module _ (digest : Digest) (live : Bool) (mode : SignatureMode) (verify : Verify) where
  -- After the requests for the signature and the key, from whether each is missing, and the files
  -- after the first request and after both.
  unfoldable pub after_extras :
      (fresh : Bool) (sig_missing key_missing : Option Bool) (e d : FetchError)
      → (one both : RootFiles) → Attempt × RootFiles
  unfolding judge_root cleanup
  after_extras fresh none key_missing e d one both = (stage_failed (fetch_failed e), cleanup one)
  after_extras fresh (some sig_missing) none e d one both =
      (stage_failed (fetch_failed d), cleanup both)
  after_extras fresh (some sig_missing) (some key_missing) e d one both =
      judge_root mode verify fresh sig_missing key_missing both

  unfoldable pub stage_extras : (fresh : Bool) → RootRequests → RootFiles → Attempt × RootFiles
  unfolding stage_file missing_of after_extras
  stage_extras fresh ask r =
      let sig = stage_file digest live fresh ask.sig r.sig in
      let key = stage_file digest live fresh ask.key r.key in
      let one = record r { sig = sig.1 } in
      after_extras fresh (missing_of sig.0) (missing_of key.0) (error_of sig.0) (error_of key.0) one
        (record one { key = key.1 })

  unfoldable pub after_repomd :
      (fresh : Bool) → RootRequests → Outcome → RootFiles → Attempt × RootFiles
  unfolding stage_extras
  after_repomd fresh ask (failed e) r = (stage_failed (fetch_failed e), cleanup r)
  after_repomd fresh ask (done s) r = stage_extras fresh ask r

  unfoldable pub stage_attempt : (fresh : Bool) → RootRequests → RootFiles → Attempt × RootFiles
  unfolding after_repomd
  stage_attempt fresh ask r =
      let repomd = stage_file digest live fresh ask.repomd r.repomd in
      after_repomd fresh ask repomd.0 (record r { repomd = repomd.1 })

  -- Both attempts.
  unfoldable pub stage_twice : (first second : RootRequests) → RootFiles → Attempt × RootFiles
  unfolding stage_attempt
  stage_twice first second r =
      let one = stage_attempt false first r in
      let two = stage_attempt true second one.1 in if is_again one.0 then two else one

-- `stageRPMRoot`; the verifier is `none` if it could not be made.
unfoldable pub stage_rpm_root :
    Digest
    → (live : Bool) → SignatureMode
    → Option Verify
    → (first second : RootRequests) → RootFiles
    → Attempt × RootFiles
unfolding stage_twice mode_or_off
stage_rpm_root digest live mode verifier first second r =
    let m = mode_or_off mode in
    elim verifier [
      | none ↦
          if m == signature_off
          then stage_twice digest live m (λ file sig key. false) first second r
          else (stage_failed no_verifier, r)
      | some verify ↦ stage_twice digest live m verify first second r
    ]
