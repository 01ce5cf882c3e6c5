-- ===== src/Mirror/Deb/Sync/Fate.antt =====
-- mirror/deb.go: how a run of `syncDeb` with an authenticated release ends.
use mathlib.Core.Path.{subst}
use repo_sync.Base.{nat_eq, list_eq}
use repo_sync.Base.{
  ℕ, ◌≡◌, ◌⊎◌, inl, inr, refl, ◌∙◌, ap, Bool, true, false, Option, none, some, List, if◌then◌else◌,
}
use repo_sync.Base.Bytes.{Bytes}
use repo_sync.Base.Dict.{Dict}
use repo_sync.Fetch.Download.{FileState, FetchError}
use repo_sync.Fetch.Missing.{StillMissing, finish}
use repo_sync.Fetch.Jobs.{Job}
use repo_sync.Mirror.Deb.Stage.{DebSet}
use repo_sync.Mirror.Deb.Release.{DebFile, DebRelease}
use repo_sync.Mirror.Deb.Jobs.{Suite, index_jobs, sorted_files, pool_jobs}
use repo_sync.Mirror.Deb.Sync.{
  DebRun, DebState, Synced, publish_docs, promote_indexes, after_promote, publish_suite,
  unless_missing, finish_suite, after_pool, sync_pool, with_jobs, with_pool, after_indexes,
  sync_indexes, with_indexes, with_release,
}
use repo_sync.Mirror.Deb.Sync.Docs.{
  published, has_error, IsDone, DocsOk, publish_docs-IsDone, promote_indexes_set, after_docs-IsDone,
}

-- An error with the set as it was, or the end with the set published.
abbrev pub Fate : (dry_run : Bool) → DebSet → Synced → Type 0
Fate dry_run r x = ((has_error x.0 ≡ true) × (x.1.set ≡ r)) ⊎ IsDone (published dry_run r) x

module _ (run : DebRun) (suite : Suite) (disk_ok : DocsOk run) where
  after_promote-Fate :
      (r : DebSet) (x : Bool × DebState)
      → r.authenticated ≡ true
      → x.1.set ≡ r
      → Fate suite.dry_run r (after_promote run suite x)
  unfolding published
  after_promote-Fate r (false, s) au same = inl (refl, same)
  after_promote-Fate r (true, s) au same = inr (
      subst (λ (r : DebSet). IsDone (published suite.dry_run r) (after_promote run suite (true, s)))
        same
        (after_docs-IsDone run suite disk_ok (published suite.dry_run s.set)
          (publish_docs run suite s) (ap (λ (r : DebSet). r.authenticated) same ∙ au)
          (publish_docs-IsDone run suite disk_ok s)))

  publish_suite-Fate :
      (rel : DebRelease) (states : Dict ℕ FileState) (jobs : List Job) (s : DebState)
      → s.set.authenticated ≡ true
      → Fate suite.dry_run s.set (publish_suite run suite rel states jobs s)
  unfolding publish_suite
  publish_suite-Fate rel states jobs s au =
      after_promote-Fate s.set (promote_indexes run suite rel states 0 jobs s) au
        (promote_indexes_set run suite disk_ok rel states 0 jobs s)

  unless_missing-Fate :
      (o : Option StillMissing) (rel : DebRelease) (states : Dict ℕ FileState) (jobs : List Job)
      (s : DebState)
      → s.set.authenticated ≡ true
      → Fate suite.dry_run s.set (unless_missing run suite o rel states jobs s)
  unless_missing-Fate none rel states jobs s au = publish_suite-Fate rel states jobs s au
  unless_missing-Fate (some m) rel states jobs s au = inl (refl, refl)

  if-Fate :
      (b : Bool) (r : DebSet) (x y : Synced)
      → Fate suite.dry_run r x
      → Fate suite.dry_run r y
      → Fate suite.dry_run r (if b then x else y)
  if-Fate true r x y h k = h
  if-Fate false r x y h k = k

  finish_suite-Fate :
      (rel : DebRelease) (states : Dict ℕ FileState) (jobs : List Job) (s : DebState)
      → s.set.authenticated ≡ true
      → Fate suite.dry_run s.set (finish_suite run suite rel states jobs s)
  unfolding finish_suite
  finish_suite-Fate rel states jobs s au =
      let (unresolved, file) = finish run.write s.miss s.missing_file in
      if-Fate s.set.authenticated s.set _ _
        (unless_missing-Fate unresolved rel states jobs (record s { missing_file = file }) au)
        (publish_suite-Fate rel states jobs s au)

  after_pool-Fate :
      (o : Option FetchError) (rel : DebRelease) (states : Dict ℕ FileState) (jobs : List Job)
      (s : DebState)
      → s.set.authenticated ≡ true
      → Fate suite.dry_run s.set (after_pool run suite o rel states jobs s)
  after_pool-Fate none rel states jobs s au = finish_suite-Fate rel states jobs s au
  after_pool-Fate (some e) rel states jobs s au = inl (refl, refl)

  sync_pool-Fate :
      (verify : Bool) (rel : DebRelease) (states : Dict ℕ FileState) (jobs pool : List Job)
      (s : DebState)
      → s.set.authenticated ≡ true
      → Fate suite.dry_run s.set (sync_pool run suite verify rel states jobs pool s)
  unfolding sync_pool
  sync_pool-Fate verify rel states jobs pool s au =
      if-Fate suite.dry_run s.set _ _ (finish_suite-Fate rel states jobs _ au)
        (after_pool-Fate _ rel states jobs _ au)

  with_jobs-Fate :
      (verify : Bool) (rel : DebRelease) (states : Dict ℕ FileState) (jobs : List Job)
      (o : Option (List Job)) (s : DebState)
      → s.set.authenticated ≡ true
      → Fate suite.dry_run s.set (with_jobs run suite verify rel states jobs o s)
  with_jobs-Fate verify rel states jobs none s au = inl (refl, refl)
  with_jobs-Fate verify rel states jobs (some pool) s au =
      sync_pool-Fate verify rel states jobs pool s au

  with_pool-Fate :
      (verify : Bool) (rel : DebRelease) (states : Dict ℕ FileState) (jobs : List Job)
      (o : Option (Dict Bytes DebFile)) (s : DebState)
      → s.set.authenticated ≡ true
      → Fate suite.dry_run s.set (with_pool run suite verify rel states jobs o s)
  with_pool-Fate verify rel states jobs none s au = inl (refl, refl)
  with_pool-Fate verify rel states jobs (some pool) s au =
      with_jobs-Fate verify rel states jobs (pool_jobs suite.dest_root (sorted_files pool)) s au

  after_indexes-Fate :
      (verify : Bool) (rel : DebRelease) (o : Option FetchError) (states : Dict ℕ FileState)
      (jobs : List Job) (s : DebState)
      → s.set.authenticated ≡ true
      → Fate suite.dry_run s.set (after_indexes run suite verify rel o states jobs s)
  after_indexes-Fate verify rel (some e) states jobs s au = inl (refl, refl)
  after_indexes-Fate verify rel none states jobs s au = with_pool-Fate verify rel states jobs _ s au

  sync_indexes-Fate :
      (verify : Bool) (rel : DebRelease) (jobs : List Job × List Job) (s : DebState)
      → s.set.authenticated ≡ true
      → Fate suite.dry_run s.set (sync_indexes run suite verify rel jobs s)
  unfolding sync_indexes
  sync_indexes-Fate verify rel (jobs, planned) s au = after_indexes-Fate verify rel _ _ jobs _ au

  with_indexes-Fate :
      (verify : Bool) (rel : DebRelease) (o : Option (List Job × List Job)) (s : DebState)
      → s.set.authenticated ≡ true
      → Fate suite.dry_run s.set (with_indexes run suite verify rel o s)
  with_indexes-Fate verify rel none s au = inl (refl, refl)
  with_indexes-Fate verify rel (some jobs) s au = sync_indexes-Fate verify rel jobs s au

  pub with_release-Fate :
      (verify : Bool) (o : Option DebRelease) (s : DebState)
      → s.set.authenticated ≡ true
      → Fate suite.dry_run s.set (with_release run suite verify o s)
  with_release-Fate verify none s au = inl (refl, refl)
  with_release-Fate verify (some rel) s au =
      with_indexes-Fate verify rel (index_jobs suite (sorted_files rel.files)) s au
