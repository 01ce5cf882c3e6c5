-- ===== src/Mirror/Deb/Sync/Laws.antt =====
-- mirror/deb.go: what a run of `syncDeb` that requires signatures leaves in place.
use mathlib.Core.Path.{subst}
use repo_sync.Base.{◌≢◌}
use repo_sync.Base.{
  [], if◌then◌else◌, Bool-cases, ◌≡◌, ◌⊎◌, inl, inr, refl, ◌∙◌, sym, ap, Bool, true, false, ◌||◌,
  Option, none, some, ◌==◌, nat_eq, list_eq, arith,
}
use repo_sync.Base.Bytes.{Bytes, is_some}
use repo_sync.Fetch.Download.{LocalFile, Slot}
use repo_sync.Fetch.Promote.{staged_or_final, promote_or_discard, promote_staged}
use repo_sync.Fetch.Prune.{new_keep_set}
use repo_sync.Mirror.Rpm.Publish.{remove_live}
use repo_sync.Mirror.Signatures.{SignatureMode, signature_required, mode_or_off}
use repo_sync.Mirror.Deb.Stage.{cleanup, DebError, DebSet, Signatures, stage_deb_release}
use repo_sync.Mirror.Deb.Stage.Pair.{SameLive, has_failed, IsClear, IsDetached, Vouched}
use repo_sync.Mirror.Deb.Stage.Laws.{stage_deb_release-Vouched}
use repo_sync.Mirror.Deb.Release.{parse_release}
use repo_sync.Fetch.LocalPath.{local_join}
use repo_sync.Mirror.Deb.Jobs.{Suite}
use repo_sync.Mirror.Deb.Sync.{
  DebOptions, split_suite, DebRun, DebState, Synced, publish_doc, with_release, clean_up,
  after_stage, sync_suite, with_suite, with_root, sync_deb,
}
use repo_sync.Mirror.Deb.Sync.Docs.{DocsOk, published_doc, published, has_error}
use repo_sync.Mirror.Deb.Sync.Fate.{Fate, with_release-Fate}

-- Staged documents, of which Release.gpg, if the repository has one, signs Release.
abbrev IsPaired : Signatures → DebSet → Type 0
IsPaired check r =
    r.no_gpg ≡ false
    → (r.no_release ≡ false)
      × (check.detached (staged_or_final r.release) (staged_or_final r.gpg) ≡ true)

-- The live InRelease is signed in itself, or there is none and Release is signed by the signature beside
-- it. A live Release.gpg signs the live Release in either case.
abbrev pub IsSigned : Signatures → DebSet → Type 0
IsSigned check r =
    (((f : LocalFile) × (r.in_release.dst ≡ some f)
        × (is_some (check.clearsigned f.content) ≡ true))
      ⊎ ((r.in_release.dst ≡ none) × (check.detached r.release.dst r.gpg.dst ≡ true)))
    × (r.gpg.dst ≢ none → check.detached r.release.dst r.gpg.dst ≡ true)

published_here : (slot : Slot) → (published_doc false false slot).dst ≡ staged_or_final slot
unfolding publish_doc promote_or_discard promote_staged staged_or_final
published_here slot = ground arith

published_gone : (slot : Slot) → (published_doc true false slot).dst ≡ none
unfolding publish_doc remove_live
published_gone slot = ground arith

published-IsPaired :
    (check : Signatures) (r : DebSet) (b : Bool)
    → r.no_gpg ≡ b
    → IsPaired check r
    → (published false r).gpg.dst ≢ none
    → check.detached (published false r).release.dst (published false r).gpg.dst ≡ true
unfolding published
published-IsPaired check r true gone pair there = absurd (there (rw gone (published_gone r.gpg)))
published-IsPaired check r false g pair there =
    let (here, det) = pair g in rw (here, g, published_here r.release, published_here r.gpg) det

published-IsSigned :
    (check : Signatures) (r : DebSet)
    → IsClear check r ⊎ IsDetached check r
    → IsPaired check r
    → IsSigned check (published false r)
unfolding published
published-IsSigned check r (inl (here, (f, at, ok))) pair = (
  inl (f, (rw here (published_here r.in_release)) ∙ at, rw ok refl),
  published-IsPaired check r r.no_gpg refl pair,
)
published-IsSigned check r (inr (gone, (here, g), det, rest)) pair = (
  inr (
    rw gone (published_gone r.in_release),
    rw (here, g, published_here r.release, published_here r.gpg) det,
  ),
  published-IsPaired check r r.no_gpg refl pair,
)

cleaned-IsSigned : (check : Signatures) (r : DebSet) → IsSigned check r → IsSigned check (cleanup r)
unfolding cleanup
cleaned-IsSigned check r h = h

module _ (run : DebRun) (suite : Suite) (check : Signatures) (old : DebSet)
    (disk_ok : DocsOk run) where
  -- An error leaves the live documents alone, and the end of the run has signed ones.
  abbrev pub Outcome : Synced → Type 0
  Outcome x =
      (has_error x.0 ≡ true → SameLive old x.1.set)
      × (has_error x.0 ≡ false → IsSigned check x.1.set)

  Vouched-authenticated : (r : DebSet) → Vouched signature_required check r → r.authenticated ≡ true
  Vouched-authenticated r v = elim (Bool-cases r.authenticated) [
    | inl au ↦ au
    | inr au ↦ elim (v.unsigned au) [
      | inl off ↦ absurd (ground arith)
      | inr (other, rest, alone) ↦ absurd (other refl)
    ]
  ]

  clean_up-Outcome :
      (dry_run : Bool) (r : DebSet) (x : Synced)
      → dry_run ≡ false
      → SameLive old r
      → IsClear check r ⊎ IsDetached check r
      → IsPaired check r
      → Fate dry_run r x
      → Outcome (clean_up run suite x)
  unfolding cleanup
  clean_up-Outcome dry_run r x live same signed pair (inl (err, at)) = (
    λ h. record {
      in_release = ap (λ (r : DebSet). r.in_release.dst) at ∙ same.in_release;
      release = ap (λ (r : DebSet). r.release.dst) at ∙ same.release;
      gpg = ap (λ (r : DebSet). r.gpg.dst) at ∙ same.gpg;
    },
    λ h. absurd (cc),
  )
  clean_up-Outcome dry_run r x live same signed pair (inr (ok, at)) = (
    λ h. absurd (ground (arith, ok, h)),
    λ h. cleaned-IsSigned check x.1.set (
        subst (λ (r : DebSet). IsSigned check r) (sym at)
          (rw live (published-IsSigned check r signed pair))),
  )

  after_stage-Outcome :
      (verify : Bool) (e : Option DebError) (s : DebState)
      → suite.dry_run ≡ false
      → SameLive old s.set
      → (has_failed e ≡ false → Vouched signature_required check s.set)
      → Outcome (after_stage run suite verify e s)
  unfolding cleanup
  after_stage-Outcome verify (some e) s live same vouched = (λ h. same, λ h. absurd (cc))
  after_stage-Outcome verify none s live same vouched =
      let v = vouched refl in
      let au = Vouched-authenticated s.set v in
      clean_up-Outcome suite.dry_run s.set
        (with_release run suite (verify || s.set.authenticated)
          (parse_release run.release_fields s.set.payload) s)
        live same (v.signed au) (v.pair (λ e. absurd (cc)))
        (with_release-Fate run suite disk_ok (verify || s.set.authenticated)
          (parse_release run.release_fields s.set.payload) s au)

module _ (opts : DebOptions) (run : DebRun) (check : Signatures) (disk_ok : DocsOk run)
    (required : mode_or_off opts.mode ≡ signature_required) (verifier : run.verifier ≡ some check)
    (live : opts.dry_run ≡ false) where
  sync_suite-Outcome :
      (suite : Suite) (s : DebState)
      → suite.dry_run ≡ false
      → Outcome run suite check s.set disk_ok (sync_suite run suite opts.verify opts.mode s)
  unfolding sync_suite
  sync_suite-Outcome suite s dry =
      let t = run.transfers in
      let stage =
        λ (v : Option Signatures). stage_deb_release t.digest t.live run.ask opts.mode v s.set in
      let (same, vouched) =
        stage_deb_release-Vouched t.digest t.live run.ask opts.mode check s.set in
      subst
        (λ (v : Option Signatures).
          Outcome run suite check s.set disk_ok
            (after_stage run suite opts.verify (stage v).0 (record s { set = (stage v).1 })))
        (sym verifier)
        (after_stage-Outcome run suite check s.set disk_ok opts.verify (stage (some check)).0 _ dry
          same
          (subst
            (λ (m : SignatureMode).
              has_failed (stage (some check)).0 ≡ false → Vouched m check (stage (some check)).1)
            required vouched))

  -- Signed documents at the end, or an error and the live ones as they were.
  abbrev pub IsSafe : DebState → Synced → Type 0
  IsSafe s x =
      (has_error x.0 ≡ true → SameLive s.set x.1.set)
      × (has_error x.0 ≡ false → IsSigned check x.1.set)

  with_suite-IsSafe :
      (root suite : Bytes) (o : Option Bytes) (s : DebState)
      → IsSafe s (with_suite opts run root suite o s)
  with_suite-IsSafe root suite none s =
      (λ h. record { in_release = refl; release = refl; gpg = refl }, λ h. absurd (cc))
  with_suite-IsSafe root suite (some dest) s = sync_suite-Outcome _ s live

  with_root-IsSafe :
      (suite : Bytes) (o : Option Bytes) (s : DebState) → IsSafe s (with_root opts run suite o s)
  with_root-IsSafe suite none s =
      (λ h. record { in_release = refl; release = refl; gpg = refl }, λ h. absurd (cc))
  with_root-IsSafe suite (some root) s =
      with_suite-IsSafe root suite (if suite == [] then some root else local_join root suite) s

  -- A run that requires signatures, and is no dry run, ends with a live InRelease that the verifier
  -- accepts, or with none and a live Release that it accepts with the Release.gpg beside it, or it reports
  -- an error and the live documents are as they were. In the first case too a live Release.gpg is good
  -- for the live Release, but a live Release without one is not vouched for. It holds whatever the mirror
  -- sends, whatever the release and its indexes say, in whatever order transfers end and wherever else
  -- the disk fails, if it lets the run put the release documents in place.
  pub sync_deb-IsSigned :
      (path : Bytes) (s : DebState)
      → let x = sync_deb opts run path s in
        (has_error x.0 ≡ true → SameLive s.set x.1.set)
        × (has_error x.0 ≡ false → IsSigned check x.1.set)
  unfolding sync_deb
  sync_deb-IsSigned path s =
      let (root, suite) = split_suite path in
      with_root-IsSafe suite (opts.repo_dest root) (record s { keep = new_keep_set opts.prune })
