-- ===== src/Fetch/LocalPath/Laws.antt =====
-- fetch/fetch.go, `LocalJoin`: no path escapes the root.
use mathlib.Core.List.{append-nil, append_assoc}
use repo_sync.Base.{◌≡◌, ◌≢◌, ◌&&◌, refl, true, false, not, some, List, [], ◌∷◌, ◌++◌, arith, ◌==◌}
use repo_sync.Base.{nat_eq, list_eq, if◌then◌else◌}
use repo_sync.Base.Bytes.{Bytes, lit, has_prefix, has_prefix-append}
use repo_sync.Base.Paths.{clean, clean_segments, join, join_rooted, slashed}
use repo_sync.Base.Paths.Laws.{
  AreSegments, clean-rooted, clean_segments-join, clean_segments-AreSegments, slashed-append,
}
use repo_sync.Fetch.LocalPath.{local_join, slashes}

rooted-append :
    (root t : Bytes)
    → has_prefix root (lit "/") ≡ true
    → (has_prefix (root ++ t) (lit "/") ≡ true) × (root ≢ [])
unfolding has_prefix
rooted-append [] t h = absurd (cc)
rooted-append (x ∷ s) t h = ground arith

-- The check of the prefix passes below a clean rooted path.
passes :
    (above below : List Bytes)
    → let root_clean = join_rooted above in
      let prefix = if root_clean == lit "/" then root_clean else root_clean ++ lit "/" in
      let dst = join_rooted (above ++ below) in
      (not (dst == root_clean) && not (has_prefix dst prefix)) ≡ false
unfolding slashed nat_eq list_eq
passes [] [] = refl
passes [] (w ∷ ws) = ground (arith, has_prefix-append (lit "/") (w ++ slashed ws))
passes (v ∷ vs) [] = ground (arith, append-nil vs)
passes (v ∷ vs) (w ∷ ws) =
    let root = b'/' ∷ (v ++ slashed vs) in
    let rest = w ++ slashed ws in
    ground (
      arith,
      slashed-append (v ∷ vs) (w ∷ ws),
      has_prefix-append root (b'/' ∷ rest),
      has_prefix-append (root ++ lit "/") rest,
      append_assoc root (lit "/") rest,
    )

module _ (root rel : Bytes) (absolute : has_prefix root (lit "/") ≡ true) where
  -- The segments of the root, and those of the path once it is read as rooted.
  abbrev pub above : List Bytes
  above = clean_segments true root

  abbrev pub below : List Bytes
  below = clean_segments true (b'/' ∷ slashes rel)

  clean-rel : clean (b'/' ∷ slashes rel) ≡ join_rooted below
  clean-rel = clean-rooted (b'/' ∷ slashes rel) (has_prefix-append (lit "/") (slashes rel))

  joined : join root (clean (b'/' ∷ slashes rel)) ≡ join_rooted (above ++ below)
  unfolding join
  joined = rw clean-rel (
      let r = rooted-append root (b'/' ∷ join_rooted below) absolute in
      ground (
        arith,
        r,
        clean-rooted (root ++ (b'/' ∷ join_rooted below)) r.0,
        clean_segments-join root below (clean_segments-AreSegments (b'/' ∷ slashes rel)),
      ))

  -- For an absolute root the join succeeds. Its result has the segments of the root, then those of
  -- the path, of which none is a dot or a pair of dots: whatever the path, it stays under the root.
  pub local_join_lem :
      (local_join root rel ≡ some (join_rooted (above ++ below)))
      × (clean root ≡ join_rooted above)
      × AreSegments below
  unfolding local_join
  local_join_lem = (
    ground (arith, joined, clean-rooted root absolute, passes above below),
    clean-rooted root absolute,
    clean_segments-AreSegments (b'/' ∷ slashes rel),
  )
