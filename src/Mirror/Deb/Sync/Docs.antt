-- ===== src/Mirror/Deb/Sync/Docs.antt =====
-- mirror/deb.go: what a run of `syncDeb` makes of the release documents once they are staged.
use repo_sync.Base.{nat_eq, list_eq, contains}
use repo_sync.Base.{
  ℕ, suc, ◌≡◌, refl, ◌∙◌, ap, Bool, true, false, Option, none, some, List, [], ◌∷◌, if◌then◌else◌,
  arith,
}
use repo_sync.Base.Bytes.{Bytes, lit}
use repo_sync.Base.Dict.{Dict, lookup}
use repo_sync.Fetch.Download.{Slot, FileState}
use repo_sync.Fetch.Promote.{promote_or_discard, promote_staged}
use repo_sync.Fetch.Prune.{KeepSet}
use repo_sync.Fetch.Jobs.{Job, set_slot}
use repo_sync.Mirror.Deb.Stage.{DebSet}
use repo_sync.Mirror.Deb.Release.{DebRelease}
use repo_sync.Mirror.Deb.Jobs.{release_names, Suite}
use repo_sync.Mirror.Deb.Sync.{
  SyncError, DebRun, DebState, Synced, publish_doc, doc_path, after_in_release, publish_in_release,
  after_release, publish_release, after_gpg, publish_docs, link_index, set_tree, promote_indexes,
  end_run, after_docs,
}

-- A document after its promotion, on a disk that lets it happen.
abbrev pub published_doc : (missing dry_run : Bool) → Slot → Slot
published_doc missing dry_run slot = (publish_doc missing dry_run true [] slot none).1.0

unfoldable pub published : (dry_run : Bool) → DebSet → DebSet
unfolding publish_doc
published dry_run r = record r {
  in_release = published_doc r.no_in_release dry_run r.in_release;
  release = published_doc r.no_release dry_run r.release;
  gpg = published_doc r.no_gpg dry_run r.gpg;
}

abbrev pub has_error : Option SyncError → Bool
has_error none = false
has_error (some e) = true

publish_doc_ok :
    (missing dry_run disk_ok : Bool) (dst : Bytes) (slot : Slot) (keep : KeepSet)
    → disk_ok ≡ true
    → (publish_doc missing dry_run disk_ok dst slot keep).0 ≡ true
unfolding publish_doc promote_or_discard promote_staged
publish_doc_ok true true disk_ok dst slot keep h = refl
publish_doc_ok true false disk_ok dst slot keep h = refl
publish_doc_ok false dry_run disk_ok dst slot keep h = ground (arith, h)

publish_doc_slot :
    (missing dry_run disk_ok : Bool) (dst : Bytes) (slot : Slot) (keep : KeepSet)
    → disk_ok ≡ true
    → (publish_doc missing dry_run disk_ok dst slot keep).1.0 ≡ published_doc missing dry_run slot
unfolding publish_doc
publish_doc_slot true true disk_ok dst slot keep h = refl
publish_doc_slot true false disk_ok dst slot keep h = rw h refl
publish_doc_slot false dry_run disk_ok dst slot keep h = rw h refl

-- A run that ends well, with this set.
abbrev pub IsDone : DebSet → Synced → Type 0
IsDone r x = (x.0 ≡ none) × (x.1.set ≡ r)

-- The disk lets the release documents be put in place and be removed.
abbrev pub DocsOk : DebRun → Type 0
DocsOk run =
    (dest name : Bytes) → contains release_names name ≡ true → run.disk (doc_path dest name) ≡ true

module _ (run : DebRun) (suite : Suite) (disk_ok : DocsOk run) where
  after_in_release-IsDone :
      (x : Bool × (Slot × KeepSet)) (slot : Slot) (s : DebState)
      → x.0 ≡ true
      → x.1.0 ≡ slot
      → IsDone (record (s.set) { in_release = slot }) (after_in_release run suite x s)
  after_in_release-IsDone (true, (f, keep)) slot s h e =
      (refl, ap (λ (f : Slot). record (s.set) { in_release = f }) e)
  after_in_release-IsDone (false, (f, keep)) slot s h e = absurd (cc)

  publish_in_release-IsDone :
      (s : DebState)
      → IsDone
          (record (s.set) {
            in_release = published_doc s.set.no_in_release suite.dry_run s.set.in_release;
          })
          (publish_in_release run suite s)
  unfolding list_eq nat_eq
  publish_in_release-IsDone s =
      let dst = doc_path suite.dest_suite (lit "InRelease") in
      after_in_release-IsDone
        (publish_doc s.set.no_in_release suite.dry_run (run.disk dst) dst s.set.in_release s.keep)
        (published_doc s.set.no_in_release suite.dry_run s.set.in_release) s
        (publish_doc_ok s.set.no_in_release suite.dry_run _ dst s.set.in_release s.keep
          (disk_ok suite.dest_suite (lit "InRelease") refl))
        (publish_doc_slot s.set.no_in_release suite.dry_run _ dst s.set.in_release s.keep
          (disk_ok suite.dest_suite (lit "InRelease") refl))

  after_release-IsDone :
      (x : Bool × (Slot × KeepSet)) (slot : Slot) (s : DebState)
      → x.0 ≡ true
      → x.1.0 ≡ slot
      → IsDone
          (record (s.set) {
            in_release = published_doc s.set.no_in_release suite.dry_run s.set.in_release;
            release = slot;
          })
          (after_release run suite x s)
  after_release-IsDone (true, (f, keep)) slot s h e =
      let (ok, at) =
        publish_in_release-IsDone
          (record s { set = record (s.set) { release = f }; keep = keep }) in
      (
        ok,
        at
            ∙ ap
                (λ (f : Slot). record (s.set) {
                  in_release = published_doc s.set.no_in_release suite.dry_run s.set.in_release;
                  release = f;
                })
                e,
      )
  after_release-IsDone (false, (f, keep)) slot s h e = absurd (cc)

  publish_release-IsDone :
      (s : DebState)
      → IsDone
          (record (s.set) {
            in_release = published_doc s.set.no_in_release suite.dry_run s.set.in_release;
            release = published_doc s.set.no_release suite.dry_run s.set.release;
          })
          (publish_release run suite s)
  unfolding list_eq nat_eq
  publish_release-IsDone s =
      let dst = doc_path suite.dest_suite (lit "Release") in
      after_release-IsDone
        (publish_doc s.set.no_release suite.dry_run (run.disk dst) dst s.set.release s.keep)
        (published_doc s.set.no_release suite.dry_run s.set.release) s
        (publish_doc_ok s.set.no_release suite.dry_run _ dst s.set.release s.keep
          (disk_ok suite.dest_suite (lit "Release") refl))
        (publish_doc_slot s.set.no_release suite.dry_run _ dst s.set.release s.keep
          (disk_ok suite.dest_suite (lit "Release") refl))

  after_gpg-IsDone :
      (x : Bool × (Slot × KeepSet)) (slot : Slot) (s : DebState)
      → x.0 ≡ true
      → x.1.0 ≡ slot
      → IsDone (record (published suite.dry_run s.set) { gpg = slot }) (after_gpg run suite x s)
  unfolding published
  after_gpg-IsDone (true, (f, keep)) slot s h e =
      let (ok, at) =
        publish_release-IsDone (record s { set = record (s.set) { gpg = f }; keep = keep }) in
      (ok, at ∙ ap (λ (f : Slot). record (published suite.dry_run s.set) { gpg = f }) e)
  after_gpg-IsDone (false, (f, keep)) slot s h e = absurd (cc)

  pub publish_docs-IsDone :
      (s : DebState) → IsDone (published suite.dry_run s.set) (publish_docs run suite s)
  unfolding publish_docs published list_eq nat_eq
  publish_docs-IsDone s =
      let dst = doc_path suite.dest_suite (lit "Release.gpg") in
      after_gpg-IsDone (publish_doc s.set.no_gpg suite.dry_run (run.disk dst) dst s.set.gpg s.keep)
        (published_doc s.set.no_gpg suite.dry_run s.set.gpg) s
        (publish_doc_ok s.set.no_gpg suite.dry_run _ dst s.set.gpg s.keep
          (disk_ok suite.dest_suite (lit "Release.gpg") refl))
        (publish_doc_slot s.set.no_gpg suite.dry_run _ dst s.set.gpg s.keep
          (disk_ok suite.dest_suite (lit "Release.gpg") refl))

  link_index_set :
      (rel : DebRelease) (job : Job) (s : DebState) → (link_index run suite rel job s).set ≡ s.set
  unfolding link_index
  link_index_set rel job s = ground arith

  if-set :
      (b : Bool) (r : DebSet) (x y : Bool × DebState)
      → x.1.set ≡ r
      → y.1.set ≡ r
      → (if b then x else y).1.set ≡ r
  if-set true r x y h k = h
  if-set false r x y h k = k

  of_state-set :
      (o : Option FileState) (r : DebSet) (x y : Bool × DebState)
      → x.1.set ≡ r
      → y.1.set ≡ r
      → (elim o as (λ (o : Option FileState). Bool × DebState) [ none ↦ x | some state ↦ y ]).1.set
        ≡ r
  of_state-set none r x y h k = h
  of_state-set (some state) r x y h k = k

  pub promote_indexes_set :
      (rel : DebRelease) (states : Dict ℕ FileState) (idx : ℕ) (jobs : List Job) (s : DebState)
      → (promote_indexes run suite rel states idx jobs s).1.set ≡ s.set
  unfolding promote_indexes
  promote_indexes_set rel states idx [] s = refl
  promote_indexes_set rel states idx (job ∷ jobs) s =
      let slot = (promote_or_discard suite.dry_run (run.disk job.dst) (s.tree job.dst)).1 in
      let s' = set_tree run suite (set_slot job.dst slot s.tree) s in
      of_state-set (lookup idx states) s.set _ _ (promote_indexes_set rel states (suc idx) jobs s) (
        if-set (promote_or_discard suite.dry_run (run.disk job.dst) (s.tree job.dst)).0 s.set _ _
          (promote_indexes_set rel states (suc idx) jobs (link_index run suite rel job s')
            ∙ link_index_set rel job s')
          refl)

  end_run-IsDone : (s : DebState) → s.set.authenticated ≡ true → IsDone s.set (end_run run suite s)
  unfolding end_run
  end_run-IsDone s h = rw h (refl, refl)

  pub after_docs-IsDone :
      (r : DebSet) (x : Synced)
      → r.authenticated ≡ true
      → IsDone r x
      → IsDone r (after_docs run suite x)
  after_docs-IsDone r (none, s) au (e, same) =
      let (ok, at) = end_run-IsDone s (ap (λ (r : DebSet). r.authenticated) same ∙ au) in
      (ok, at ∙ same)
  after_docs-IsDone r (some e, s) au (h, same) = absurd (cc)
