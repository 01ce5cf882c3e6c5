-- ===== src/Server/Serve/Generic/Laws.antt =====
-- server/serve.go: a plain file, once cached, is always served, and a failure is not asked for again.
use repo_sync.Base.{
  ℕ, ◌+◌, ◌<◌, ◌≡◌, inl, inr, refl, ◌∙◌, ap, Bool, true, false, ◌||◌, not, Option, none, some,
  if◌then◌else◌, arith, Bool-cases, nat_eq, list_eq,
}
use repo_sync.Base.Bytes.{Bytes}
use repo_sync.Base.Clock.{Time, Duration}
use repo_sync.Base.Dict.{lookup-insert}
use repo_sync.State.{mark_requested, mark_crawled, delete, entry}
use repo_sync.Server.Classify.{Resource}
use repo_sync.Server.Failures.{FailureCache, hit, add}
use repo_sync.Server.Upstream.{is_there, regular_file, serve_local, fetch_upstream, ServeError}
use repo_sync.Server.Upstream.Laws.{is_error, fetch_upstream-IsKept}
use repo_sync.Server.Serve.{
  Response, serve_file, not_found_error, bad_gateway, World, Site, is_not_found, write_fetch_error,
  write_cached_failure, set_tree,
}
use repo_sync.Server.Serve.Generic.{
  after_refresh, after_hit, serve_or_refresh, handle_generic, is_stale,
}

-- The file that is served is there.
abbrev pub IsServed : Bytes → Response × World → Type 0
IsServed local a = (a.0 ≡ serve_file local) × (is_there ((a.1.tree local).dst) ≡ true)

module _ (c : Site) (now : Time) (root req_path : Bytes) (res : Resource) (local : Bytes) where
  after_refresh-IsServed :
      (error : Option ServeError) (w : World)
      → is_there ((w.tree local).dst) ≡ true
      → IsServed local (after_refresh c now res local true error w)
  unfolding after_refresh mark_requested mark_crawled
  after_refresh-IsServed none w h = (refl, h)
  after_refresh-IsServed (some e) w h = (refl, ground arith)

  serve_or_refresh-IsServed :
      (w : World)
      → serve_local root req_path false ≡ some local
      → is_there ((w.tree local).dst) ≡ true
      → IsServed local (serve_or_refresh c now root req_path res local w)
  unfolding serve_or_refresh regular_file
  serve_or_refresh-IsServed w at h =
      let r = fetch_upstream c.upstreams c.conf root req_path false w.tree in
      let k = fetch_upstream-IsKept c.upstreams c.conf root req_path local w.tree at in
      let s = after_refresh-IsServed r.0 (set_tree r.1 w) (k.kept h) in
      elim (Bool-cases (is_stale c now (entry res.key w.store))) [
        | inl stale ↦ rw (stale, h) s
        | inr fresh ↦ rw (fresh, h) (refl, h)
      ]

  after_hit-IsServed :
      (o : Option ℕ) (w : World)
      → serve_local root req_path false ≡ some local
      → is_there ((w.tree local).dst) ≡ true
      → IsServed local (after_hit c now root req_path res local o w)
  unfolding regular_file
  after_hit-IsServed none w at h = serve_or_refresh-IsServed w at h
  after_hit-IsServed (some status) w at h = (rw h refl, h)

  -- A plain file that is cached is served, and stays, whatever the upstream answers and whatever
  -- failure is remembered.
  pub handle_generic_serves :
      (w : World)
      → serve_local root req_path false ≡ some local
      → regular_file local w.tree ≡ true
      → IsServed local (handle_generic c now root req_path res local w)
  unfolding handle_generic regular_file
  handle_generic_serves w at h =
      after_hit-IsServed (hit res.key now w.failures).0
        (record w { failures = (hit res.key now w.failures).1 }) at h

abbrev pub is_file : Response → Bool
is_file (serve_file name) = true
is_file r = false

-- How long an error answer is remembered.
abbrev pub ttl_of : Site → Response → Duration
ttl_of c not_found_error = c.conf.negative_cache_ttl
ttl_of c r = c.conf.transient_error_ttl

module _ (c : Site) (now later : Time) (root req_path : Bytes) (res : Resource)
    (local : Bytes) where
  -- The answer to a repeated request is that of the first, and nothing else changes, whatever the
  -- upstream would say by then and whatever else the site holds.
  abbrev Repeats : Response × World → Type 0
  Repeats a = (c' : Site) → handle_generic c' later root req_path res local a.1 ≡ a

  abbrev Go : Site → World → Option ℕ × FailureCache → Response × World
  Go c' w h = after_hit c' later root req_path res local h.0 (record w { failures = h.1 })

  hit-add :
      (status : ℕ) (ttl : Duration) (f : FailureCache)
      → later < now + ttl
      → hit res.key later (add res.key status now ttl f)
        ≡ (some status, add res.key status now ttl f)
  unfolding hit add
  hit-add status ttl f early =
      ground
        (arith, lookup-insert res.key res.key (record { status = status; expires = now + ttl }) f)

  Repeats-after :
      (status : ℕ) (ttl : Duration) (f : FailureCache) (w : World)
      → later < now + ttl
      → is_there ((w.tree local).dst) ≡ false
      → let w' = record w { failures = add res.key status now ttl f } in
        Repeats (write_cached_failure status, w')
  unfolding handle_generic regular_file
  Repeats-after status ttl f w early gone c' =
      let w' = record w { failures = add res.key status now ttl f } in
      ap (Go c' w') (hit-add status ttl f early) ∙ rw gone refl

  failure-Repeats :
      (lost : Bool) (w : World)
      → is_there ((w.tree local).dst) ≡ false
      → let r = if lost then not_found_error else bad_gateway in
        later < now + ttl_of c r
        → Repeats (
          r,
          if lost
              then record w {
                failures = add res.key 404 now c.conf.negative_cache_ttl w.failures;
                store = delete res.key w.store;
              }
              else record w {
                failures = add res.key 502 now c.conf.transient_error_ttl w.failures;
              },
        )
  unfolding write_cached_failure nat_eq
  failure-Repeats true w gone early =
      let w' = record w { store = delete res.key w.store } in
      Repeats-after 404 c.conf.negative_cache_ttl w.failures w' early gone
  failure-Repeats false w gone early =
      Repeats-after 502 c.conf.transient_error_ttl w.failures w early gone

  after_refresh-Repeats :
      (exists : Bool) (error : Option ServeError) (w : World)
      → exists ≡ false
      → (is_error error ≡ true → is_there ((w.tree local).dst) ≡ false)
      → let a = after_refresh c now res local exists error w in
        is_file a.0 ≡ false → later < now + ttl_of c a.0 → Repeats a
  unfolding after_refresh write_fetch_error
  after_refresh-Repeats true error w unseen gone err early = absurd (cc)
  after_refresh-Repeats false none w unseen gone err early = absurd (ground arith)
  after_refresh-Repeats false (some e) w unseen gone err early =
      failure-Repeats (is_not_found e) w (gone refl) early

  abbrev Remembered : Response × World → Type 0
  Remembered a = is_file a.0 ≡ false → later < now + ttl_of c a.0 → Repeats a

  file-Remembered : (a : Response × World) → is_file a.0 ≡ true → Remembered a
  file-Remembered a h err early = absurd (cc)

  after_refresh_file :
      (error : Option ServeError) (w : World)
      → is_file (after_refresh c now res local true error w).0 ≡ true
  unfolding after_refresh
  after_refresh_file none w = refl
  after_refresh_file (some e) w = refl

  choose-Remembered :
      (there stale : Bool) (x : Bool → Response × World) (y : Response × World)
      → (there ≡ false → Remembered (x false))
      → is_file (x true).0 ≡ true
      → is_file y.0 ≡ true
      → Remembered (if not there || stale then x there else y)
  choose-Remembered false stale x y h k l = h refl
  choose-Remembered true true x y h k l = file-Remembered (x true) k
  choose-Remembered true false x y h k l = file-Remembered y l

  serve_or_refresh-Remembered :
      (w : World)
      → serve_local root req_path false ≡ some local
      → Remembered (serve_or_refresh c now root req_path res local w)
  unfolding serve_or_refresh regular_file
  serve_or_refresh-Remembered w at =
      let r = fetch_upstream c.upstreams c.conf root req_path false w.tree in
      let k = fetch_upstream-IsKept c.upstreams c.conf root req_path local w.tree at in
      choose-Remembered (is_there ((w.tree local).dst)) (is_stale c now (entry res.key w.store))
        (λ there. after_refresh c now res local there r.0 (set_tree r.1 w)) _
        (λ gone.
          after_refresh-Repeats false r.0 (set_tree r.1 w) refl
            (λ e. ap is_there (k.failed e) ∙ gone))
        (after_refresh_file r.0 (set_tree r.1 w)) refl

  after_hit-Remembered :
      (o : Option ℕ) (w : World)
      → serve_local root req_path false ≡ some local
      → o ≡ none
      → Remembered (after_hit c now root req_path res local o w)
  after_hit-Remembered none w at clear = serve_or_refresh-Remembered w at
  after_hit-Remembered (some status) w at clear = absurd (cc)

  -- For a plain file and without a remembered failure, an answer that is an error is given again to a
  -- request within its time to live, by which nothing changes, whatever an upstream would answer by
  -- then: the answer does not depend on it.
  pub handle_generic-Repeats :
      (w : World) (other : Site)
      → serve_local root req_path false ≡ some local
      → (hit res.key now w.failures).0 ≡ none
      → let a = handle_generic c now root req_path res local w in
        is_file a.0 ≡ false
        → later < now + ttl_of c a.0
        → handle_generic other later root req_path res local a.1 ≡ a
  unfolding handle_generic
  handle_generic-Repeats w other at clear err early =
      after_hit-Remembered (hit res.key now w.failures).0
        (record w { failures = (hit res.key now w.failures).1 }) at clear err early other
