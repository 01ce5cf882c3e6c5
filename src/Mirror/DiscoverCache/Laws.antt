-- ===== src/Mirror/DiscoverCache/Laws.antt =====
-- mirror/discover_cache.go: what a scan adds, keeps and withdraws, and what a later run replays.
use repo_sync.Base.{
  ℕ, suc, ◌≤◌, ◌<◌, ◌≡◌, refl, Bool, true, false, not, ◌&&◌, ◌||◌, none, some, List, [], ◌∷◌, ◌++◌,
}
use repo_sync.Base.{
  nat_eq, list_eq, contains, ltb, leb, All, get_elem?, arith, Bool-cases, inl, inr, ◌≢◌,
}
use repo_sync.Base.Bytes.{Bytes}
use repo_sync.Base.Clock.{Time, Duration, sub_time}
use repo_sync.Base.Dict.{lookup, lookup-insert}
use repo_sync.Mirror.Targets.{Discovery, repo_key, file_key}
use repo_sync.Mirror.DiscoverCache.Origins.{HasOrigin, update_records-HasOrigin}
use repo_sync.Mirror.DiscoverCache.{
  Tracked, CrawlRecord, Crawls, crawl_key, Sweep, gone_at, live, keys, tracked_keys, sweep_records,
  new_records, insert_sorted, sort_records, update_records, repo_lt, file_lt, record_or, update,
  reuse,
}

module _ {A : Type 0} (key : A → Bytes) where
  abbrev live_keys : List (Tracked A) → List Bytes
  live_keys ts = keys key (live ts)

  module _ (k : Bytes) where
    live_sweep :
        (s : Sweep) (seen : List Bytes) (old : List (Tracked A))
        → contains (live_keys (sweep_records key s seen old).0) k ≡ (
            (contains seen k && contains (tracked_keys key old) k)
            || (not s.clean && contains (live_keys old) k))
    unfolding sweep_records live
    live_sweep s seen [] = ground arith
    live_sweep s seen (t ∷ old) = ground (arith, live_sweep s seen old)

    sweep_keeps_found :
        (s : Sweep) (seen : List Bytes) (old : List (Tracked A))
        → contains seen k ≡ true
        → contains (tracked_keys key (sweep_records key s seen old).0) k
          ≡ contains (tracked_keys key old) k
    unfolding sweep_records
    sweep_keeps_found s seen [] h = refl
    sweep_keeps_found s seen (t ∷ old) h = ground (arith, sweep_keeps_found s seen old h)

    live-append :
        (xs ys : List (Tracked A))
        → contains (live_keys (xs ++ ys)) k
          ≡ (contains (live_keys xs) k || contains (live_keys ys) k)
    unfolding live
    live-append [] ys = refl
    live-append (x ∷ xs) ys = ground (arith, live-append xs ys)

    live-insert_sorted :
        (lt : A → A → Bool) (t : Tracked A) (ts : List (Tracked A))
        → contains (live_keys (insert_sorted lt t ts)) k ≡ contains (live_keys (t ∷ ts)) k
    unfolding live insert_sorted
    live-insert_sorted lt t [] = refl
    live-insert_sorted lt t (u ∷ ts) = ground (arith, live-insert_sorted lt t ts)

    live-sort_records :
        (lt : A → A → Bool) (ts : List (Tracked A))
        → contains (live_keys (sort_records lt ts)) k ≡ contains (live_keys ts) k
    unfolding live sort_records
    live-sort_records lt [] = refl
    live-sort_records lt (t ∷ ts) =
        ground (arith, live-sort_records lt ts, live-insert_sorted lt t (sort_records lt ts))

    live-new_records :
        (known : List Bytes) (found : List A)
        → contains (live_keys (new_records key known found)) k
          ≡ (contains (keys key found) k && not (contains known k))
    unfolding live new_records
    live-new_records known [] = refl
    live-new_records known (a ∷ found) = ground (arith, live-new_records known found)

    -- The live targets after a scan: those found and, if part of the tree could not be listed, also
    -- those live before.
    live-update_records :
        (lt : A → A → Bool) (s : Sweep) (found : List A) (old : List (Tracked A))
        → contains (live_keys (update_records key lt s found old).0) k
          ≡ (contains (keys key found) k || (not s.clean && contains (live_keys old) k))
    unfolding update_records
    live-update_records lt s found old =
        let kept = (sweep_records key s (keys key found) old).0 in
        let fresh = new_records key (tracked_keys key kept) found in
        ground (
          arith,
          live-sort_records lt (kept ++ fresh),
          live-append kept fresh,
          live-new_records (tracked_keys key kept) found,
          live_sweep s (keys key found) old,
          sweep_keeps_found s (keys key found) old,
        )

  -- A withdrawn target: a clean, pruning scan did not find it, and some record of it was already
  -- gone for the grace period (or is from now on, if that is zero).
  pub record IsWithdrawn (s : Sweep) (seen : List Bytes) (old : List (Tracked A)) (a : A)
      : Type 0 where
    pub clean : s.clean ≡ true
    pub prune : s.prune ≡ true
    pub unseen : contains seen (key a) ≡ false
    pub at : ℕ
    pub tracked : Tracked A
    pub recorded : get_elem? old at ≡ some tracked
    pub target : tracked.target ≡ a
    pub late : s.grace ≤ sub_time s.now (gone_at s.now tracked.gone)

  IsWithdrawn-later :
      (s : Sweep) (seen : List Bytes) (t : Tracked A) (old : List (Tracked A)) (as_ : List A)
      → All (IsWithdrawn s seen old) as_
      → All (IsWithdrawn s seen (t ∷ old)) as_
  IsWithdrawn-later s seen t old [] h = tt
  IsWithdrawn-later s seen t old (a ∷ as_) (w, h) = (
    record {
      clean = w.clean;
      prune = w.prune;
      unseen = w.unseen;
      at = suc w.at;
      tracked = w.tracked;
      recorded = w.recorded;
      target = w.target;
      late = w.late;
    },
    IsWithdrawn-later s seen t old as_ h,
  )

  sweep_withdraws :
      (s : Sweep) (seen : List Bytes) (old : List (Tracked A))
      → All (IsWithdrawn s seen old) (sweep_records key s seen old).1
  unfolding sweep_records
  sweep_withdraws s seen [] = tt
  sweep_withdraws s seen (t ∷ old) =
      let rest =
        IsWithdrawn-later s seen t old (sweep_records key s seen old).1
          (sweep_withdraws s seen old) in
      let since = gone_at s.now t.gone in
      elim (Bool-cases (contains seen (key t.target))) [
        | inl found ↦ rw found rest
        | inr unseen ↦ elim (Bool-cases s.clean) [
          | inr partial ↦ simp (unseen, partial) rest
          | inl clean ↦ elim (Bool-cases (not s.prune || ltb (sub_time s.now since) s.grace)) [
            | inl spared ↦ simp (unseen, clean, spared) rest
            | inr due ↦
                simp (unseen, clean, due)
                  (
                    record {
                      clean = clean;
                      prune = ground arith;
                      unseen = unseen;
                      at = 0;
                      tracked = t;
                      recorded = refl;
                      target = refl;
                      late = ground arith;
                    },
                    rest,
                  )
          ]
        ]
      ]

  pub update_withdraws :
      (lt : A → A → Bool) (s : Sweep) (found : List A) (old : List (Tracked A))
      → All (IsWithdrawn s (keys key found) old) (update_records key lt s found old).1
  unfolding update_records
  update_withdraws lt s found old = sweep_withdraws s (keys key found) old

module _ (base options : Bytes) (found : Discovery) (now : Time) (prune : Bool) (grace : Duration)
    (crawls : Crawls) where
  abbrev pub old : CrawlRecord
  old = record_or (lookup (crawl_key base) crawls)

  abbrev pub scan : Sweep
  scan = record { clean = leb found.failures 0; prune = prune; grace = grace; now = now }

  -- `update` withdraws a target only if nothing failed to list, the run prunes, the scan did not find
  -- the target, and a record of it had been gone for the grace period.
  pub update_lem :
      let gone = (update base options found now prune grace crawls).0 in
      All (IsWithdrawn repo_key scan (keys repo_key found.repos) old.repos) gone.repos
      × All (IsWithdrawn file_key scan (keys file_key found.files) old.files) gone.files
  unfolding update
  update_lem = (
    update_withdraws repo_key repo_lt scan found.repos old.repos,
    update_withdraws file_key file_lt scan found.files old.files,
  )

  abbrev fresh : CrawlRecord
  fresh = record {
    last_crawled = now;
    options = options;
    repos = (update_records repo_key repo_lt scan found.repos old.repos).0;
    files = (update_records file_key file_lt scan found.files old.files).0;
  }

  lookup-update :
      lookup (crawl_key base) (update base options found now prune grace crawls).1 ≡ some fresh
  unfolding update
  lookup-update = ground (arith, lookup-insert (crawl_key base) (crawl_key base) fresh crawls)

  -- Of a kind of target, whether a replay has it.
  abbrev pub is_replayed : {A : Type 0} → (A → Bytes) → List A → List (Tracked A) → Bytes → Bool
  is_replayed key seen before_ k =
      contains (keys key seen) k || (ltb 0 found.failures && contains (keys key (live before_)) k)

  -- For less than its lifetime after a scan, if the clock does not run back, `reuse` replays targets
  -- with the URLs of those that the scan found and, if it failed to list some part, also with those that
  -- the cache had as live before, and with no other. Each target replayed is one that a record of the
  -- crawl held before the scan, as it was recorded, or one that the scan found and for whose URL no
  -- record was kept.
  pub reuse-update :
      (ttl : Duration) (later : Time)
      → 0 < now
      → now ≤ later
      → sub_time later now < ttl
      → (d : Discovery) × (reuse base options ttl later
            (update base options found now prune grace crawls).1
          ≡ some d)
        × ((k : Bytes)
            → contains (keys repo_key d.repos) k ≡ is_replayed repo_key found.repos old.repos k)
        × ((k : Bytes)
            → contains (keys file_key d.files) k ≡ is_replayed file_key found.files old.files k)
        × All (HasOrigin repo_key scan found.repos old.repos) d.repos
        × All (HasOrigin file_key scan found.files old.files) d.files
  unfolding reuse
  reuse-update ttl later set order young =
      let repos = (update_records repo_key repo_lt scan found.repos old.repos).0 in
      let files = (update_records file_key file_lt scan found.files old.files).0 in
      (
        record { repos = live repos; files = live files; failures = 0 },
        ground (arith, lookup-update),
        λ k. ground (arith, live-update_records repo_key k repo_lt scan found.repos old.repos),
        λ k. ground (arith, live-update_records file_key k file_lt scan found.files old.files),
        update_records-HasOrigin repo_key scan found.repos old.repos repo_lt,
        update_records-HasOrigin file_key scan found.files old.files file_lt,
      )

  -- A run with other crawl options scans again.
  pub reuse_other_options :
      (other : Bytes) (ttl : Duration) (later : Time)
      → other ≢ options
      → reuse base other ttl later (update base options found now prune grace crawls).1 ≡ none
  unfolding reuse
  reuse_other_options other ttl later h = ground (arith, lookup-update)
