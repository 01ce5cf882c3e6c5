-- ===== src/Tests/Crawling.antt =====
-- server/classify.go and server/crawl_loop.go at concrete inputs.
use repo_sync.Base.{
  ◌≡◌, ◌≢◌, ◌⊎◌, refl, Bool, true, false, some, List, [], ◌∷◌, ◌++◌, nat_eq, list_eq, contains,
}
use repo_sync.Base.Bytes.{Bytes, lit, has_prefix, trim_prefix}
use repo_sync.Base.Dict.{Dict, lookup}
use repo_sync.Base.Paths.{clean, clean_segments, join_rooted, base, dir}
use repo_sync.Base.Paths.Laws.{AreSegments}
use repo_sync.Config.{MountConfig}
use repo_sync.State.{Entry, Store, no_entry}
use repo_sync.Server.Classify.{Resource, resource_at, classify_request, clean_request}
use repo_sync.Server.Classify.Laws.{IsCovered, classify_request_lem}
use repo_sync.Server.Eviction.{path_below, prunable_tree, evict_stale}
use repo_sync.Server.Eviction.Laws.{prunable_tree_lem, IsEvicted, evict_stale_lem}

abbrev suite : Bytes
suite = lit "debian/dists/stable/InRelease"

suite_resource :
    classify_request suite
    ≡ resource_at
        (lit "deb")
        (lit "/debian/dists/stable")
        (lit "/debian")
        (lit "/debian/dists/stable/InRelease")
unfolding classify_request trim_prefix clean base dir nat_eq list_eq
suite_resource = refl

classify_request_example : IsCovered (clean_request suite) (classify_request suite)
classify_request_example = classify_request_lem suite

abbrev entry_at : Bytes → Entry
entry_at p = record no_entry { kind = lit "rpm"; path = p; root = p; last_requested = 5 }

abbrev tracked : Dict Bytes Entry
tracked = (lit "rpm:/a", entry_at (lit "/a")) ∷ (lit "rpm:/a/b", entry_at (lit "/a/b")) ∷ []

abbrev inner : Resource
inner = resource_at (lit "rpm") (lit "/a/b") (lit "/a/b") (lit "/a/b")

abbrev outer : Resource
outer = resource_at (lit "rpm") (lit "/a") (lit "/a") (lit "/a")

abbrev no_mounts : List MountConfig
no_mounts = []

outer_not_pruned : prunable_tree no_mounts outer tracked ≡ false
unfolding prunable_tree has_prefix nat_eq list_eq
outer_not_pruned = refl

inner_prunable : prunable_tree no_mounts inner tracked ≡ true
unfolding prunable_tree has_prefix nat_eq list_eq
inner_prunable = refl

outer_tracked : lookup (lit "rpm:/a") tracked ≡ some (entry_at (lit "/a"))
unfolding lookup nat_eq list_eq
outer_tracked = refl

file_in_inner : path_below (lit "/a/b/x") (lit "/a/b") ≡ true
unfolding path_below has_prefix nat_eq list_eq
file_in_inner = refl

file_in_outer : path_below (lit "/a/b/x") (lit "/a") ≡ true
unfolding path_below has_prefix nat_eq list_eq
file_in_outer = refl

prunable_tree_example : (lit "/a/b" ≡ lit "/a") ⊎ (path_below (lit "/a/b") (lit "/a") ≡ true)
prunable_tree_example =
    prunable_tree_lem no_mounts inner tracked (lit "/a/b/x") (lit "rpm:/a") (entry_at (lit "/a"))
      inner_prunable outer_tracked (λ e. cc) (λ e. cc) file_in_inner file_in_outer

abbrev store : Store
store = record { entries = tracked; dirty = false }

abbrev all_removable : Bytes → Bool
all_removable t = true

evicts_inner :
    (evict_stale (lit "/srv") all_removable (lit "rpm:/a/b") (entry_at (lit "/a/b")) store).0
    ≡ some (lit "/srv/a/b")
unfolding evict_stale lookup clean has_prefix nat_eq list_eq
evicts_inner = refl

srv_rooted : has_prefix (lit "/srv") (lit "/") ≡ true
unfolding has_prefix nat_eq
srv_rooted = refl

inner_rooted : has_prefix (lit "/a/b") (lit "/") ≡ true
unfolding has_prefix nat_eq
inner_rooted = refl

inner_clean : clean (lit "/a/b") ≡ lit "/a/b"
unfolding clean nat_eq list_eq
inner_clean = refl

inner_plain : contains (lit "/a/b") 92 ≡ false
unfolding nat_eq
inner_plain = refl

evict_stale_example :
    let segs = clean_segments true (lit "/a/b") in
    IsEvicted
      (lit "/srv")
      all_removable
      (lit "rpm:/a/b")
      (entry_at (lit "/a/b"))
      store
      (lit "/srv/a/b")
    × (clean (lit "/srv") ≡ join_rooted (clean_segments true (lit "/srv")))
    × (lit "/srv/a/b" ≡ join_rooted (clean_segments true (lit "/srv") ++ segs))
    × AreSegments segs
    × (segs ≢ [])
evict_stale_example =
    evict_stale_lem (lit "/srv") all_removable (lit "rpm:/a/b") (entry_at (lit "/a/b")) store
      (lit "/srv/a/b") srv_rooted inner_rooted inner_clean inner_plain evicts_inner
