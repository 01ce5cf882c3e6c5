-- ===== src/Mirror/Rpm/Commit/Laws.antt =====
-- mirror/rpm.go: a commit that fails takes nothing away.
use repo_sync.Base.{ap}
use repo_sync.Base.{
  ℕ, suc, ◌≡◌, inl, inr, refl, ◌∙◌, Bool, true, false, not, List, [], ◌∷◌, nat_eq, list_eq,
  contains, if◌then◌else◌, arith, Bool-cases,
}
use repo_sync.Base.Bytes.{Bytes}
use repo_sync.Base.Clock.{Time}
use repo_sync.Base.Dict.{Dict}
use repo_sync.Fetch.Download.{FileState}
use repo_sync.Fetch.Jobs.{Job}
use repo_sync.Mirror.Rpm.Publish.{publish_rpm_root, exists}
use repo_sync.Mirror.Rpm.Publish.Laws.{SameTexts, IsPublished, all_ok, publish_rpm_root_lem}
use repo_sync.Mirror.Rpm.Commit.{
  Packages, hide, withdraw, finish_one, finish_withdrawn, CommitResult, committed, CommitDisk,
  Ready, Committed, publish_ready, commit,
}

-- A file stands in its place, or is hidden by one of the withdrawals.
abbrev Kept : Bytes → List Bytes → Packages → Packages → Type 0
Kept path withdrawn p q =
    (contains withdrawn path ≡ true
      → ((p.tree path).dst ≡ q.hidden path) × (exists (q.hidden path) ≡ true))
    × (contains withdrawn path ≡ false
        → ((q.tree path).dst ≡ (p.tree path).dst) × (q.hidden path ≡ p.hidden path))
    × (exists ((p.tree path).dst) ≡ false → contains withdrawn path ≡ false)

withdraw-Kept :
    (disk_ok : Bytes → Bool) (idx : ℕ) (jobs : List Job) (states : Dict ℕ FileState) (p : Packages)
    (path : Bytes)
    → let w = withdraw disk_ok idx jobs states p in Kept path (w.0).1 p w.1
unfolding withdraw hide
withdraw-Kept disk_ok idx [] states p path = ground arith
withdraw-Kept disk_ok idx (job ∷ jobs) states p path = ground (
  arith,
  withdraw-Kept disk_ok (suc idx) jobs states p path,
  withdraw-Kept disk_ok (suc idx) jobs states (hide job.dst p) path,
)

-- What a finish without publication makes of one path, if the disk lets it rename.
abbrev Restored : Bytes → List Bytes → Packages → Packages → Type 0
Restored path withdrawn p q =
    (contains withdrawn path ≡ true
      → exists (p.hidden path) ≡ true
      → (q.tree path).dst ≡ p.hidden path)
    × (contains withdrawn path ≡ false → (q.tree path).dst ≡ (p.tree path).dst)
    × (exists (p.hidden path) ≡ false → (q.tree path).dst ≡ (p.tree path).dst)

finish_withdrawn-Restored :
    (disk_ok : Bytes → Bool) (withdrawn : List Bytes) (p : Packages) (path : Bytes)
    → ((dst : Bytes) → disk_ok dst ≡ true)
    → Restored path withdrawn p (finish_withdrawn disk_ok false withdrawn p)
unfolding finish_withdrawn finish_one
finish_withdrawn-Restored disk_ok [] p path ok = ground arith
finish_withdrawn-Restored disk_ok (dst ∷ rest) p path ok = ground (
  arith,
  ok dst,
  finish_withdrawn-Restored disk_ok rest (finish_one (disk_ok dst) false dst p) path ok,
)

withdraw-finish :
    (disk_ok finish_ok : Bytes → Bool) (idx : ℕ) (jobs : List Job) (states : Dict ℕ FileState)
    (p : Packages) (path : Bytes)
    → ((dst : Bytes) → finish_ok dst ≡ true)
    → let w = withdraw disk_ok idx jobs states p in
      ((finish_withdrawn finish_ok false (w.0).1 w.1).tree path).dst ≡ (p.tree path).dst
withdraw-finish disk_ok finish_ok idx jobs states p path ok =
    let w = withdraw disk_ok idx jobs states p in
    ground (
      arith,
      withdraw-Kept disk_ok idx jobs states p path,
      finish_withdrawn-Restored finish_ok (w.0).1 w.1 path ok,
    )

abbrev pub is_committed : CommitResult → Bool
is_committed committed = true
is_committed r = false

-- The disk lets the code put back what it took away.
pub record CanUndo (disk : CommitDisk) : Type 0 where
  pub files : all_ok disk.publish.restore ≡ true
  pub packages : (dst : Bytes) → disk.finish dst ≡ true

-- The outcome of a commit: the new generation, or all as it was.
pub record Atomic (r : Ready) (c : Committed) : Type 0 where
  pub new : is_committed c.result ≡ true → IsPublished r.root r.files c.files
  pub old : is_committed c.result ≡ false → SameTexts r.files c.files
  pub packages :
      is_committed c.result ≡ false
      → (path : Bytes) → (c.packages.tree path).dst ≡ (r.packages.tree path).dst

publish_ready-Atomic :
    (now : Time) (disk : CommitDisk) (r : Ready) (withdrawn : List Bytes) (p : Packages)
    → CanUndo disk
    → ((path : Bytes)
        → ((finish_withdrawn disk.finish false withdrawn p).tree path).dst
          ≡ (r.packages.tree path).dst)
    → Atomic r (publish_ready false now disk r withdrawn p)
unfolding publish_ready
publish_ready-Atomic now disk r withdrawn p undo back =
    let q = publish_rpm_root r.root false now disk.publish r.files r.keep in
    let h = publish_rpm_root_lem r.root now disk.publish r.files r.keep in
    elim (Bool-cases (q.0).0) [
      | inl done ↦ record {
        new = λ e. h.0 done;
        old = λ e. absurd (ground arith);
        packages = λ e path. absurd (ground arith);
      }
      | inr broken ↦ record {
        new = λ e. absurd (ground arith);
        old = λ e. h.1 broken undo.files;
        packages = λ e path.
            ap (λ b. ((finish_withdrawn disk.finish b withdrawn p).tree path).dst) broken
            ∙ back path;
      }
    ]

finish_none :
    (disk_ok : Bytes → Bool) (p : Packages) (path : Bytes)
    → ((finish_withdrawn disk_ok false [] p).tree path).dst ≡ (p.tree path).dst
unfolding finish_withdrawn
finish_none disk_ok p path = refl

choose-Atomic :
    (r : Ready) (authenticated through : Bool) (a b c : Committed)
    → Atomic r a
    → Atomic r b
    → Atomic r c
    → Atomic r (if not authenticated then a else if through then b else c)
choose-Atomic r false through a b c h k l = h
choose-Atomic r true true a b c h k l = k
choose-Atomic r true false a b c h k l = l

-- A commit puts the whole generation in place, or leaves the texts of the root files and the packages
-- as they were: if the disk lets it undo what it did, a failure takes nothing away, wherever it comes.
pub commit-Atomic :
    (now : Time) (disk : CommitDisk) (r : Ready) → CanUndo disk → Atomic r (commit false now disk r)
unfolding commit
commit-Atomic now disk r undo =
    let w = withdraw disk.hide 0 r.jobs r.states r.packages in
    let back = λ (path : Bytes).
      withdraw-finish disk.hide disk.finish 0 r.jobs r.states r.packages path undo.packages in
    choose-Atomic r r.root.authenticated (w.0).0 _ _ _
      (publish_ready-Atomic now disk r [] r.packages undo (finish_none disk.finish r.packages))
      (publish_ready-Atomic now disk r (w.0).1 w.1 undo back)
      (record {
        new = λ e. absurd (ground arith);
        old = λ e. record { repomd = refl; sig = refl; key = refl };
        packages = λ e path. back path;
      })
