-- ===== src/Server/Classify/Laws.antt =====
-- server/classify.go: a repository that a request registers is one that the request keeps alive.
use repo_sync.Base.{
  ◌≡◌, ◌≢◌, inl, inr, refl, ap, ◌∙◌, sym, true, Option, none, some, List, [], ◌∷◌, ◌++◌, arith,
}
use repo_sync.Base.{nat_eq, list_eq}
use repo_sync.Base.Bytes.{
  Bytes, lit, trim_prefix, trim_prefix-append, cut, cut-eq_some, has_prefix-append,
}
use repo_sync.Base.Paths.{clean, clean_segments, join_rooted, slashed, base, dir}
use repo_sync.Base.Paths.Laws.{
  AreSegments, clean-rooted, clean_segments-AreSegments, clean_segments-join_rooted,
  dir-join_rooted,
}
use repo_sync.Mirror.Targets.{repo_rpm}
use repo_sync.State.{kind_generic, covers}
use repo_sync.State.Laws.{covers_iff}
use repo_sync.Server.Classify.{
  Resource, or_slash, root_before, classify_metadata, resource_at, classify_clean, clean_request,
  classify_request,
}

covers_start : (b r path : Bytes) → path ≡ b ++ (b'/' ∷ r) → covers (or_slash b) path ≡ true
unfolding list_eq
covers_start [] r path e = (covers_iff (lit "/") path).1 (inr (inl refl))
covers_start (x ∷ b) r path e = (covers_iff (x ∷ b) path).1 (inr (inr (r, e)))

covers_self : (p : Bytes) → covers p p ≡ true
covers_self p = (covers_iff p p).1 (inl refl)

-- The part before a marker that starts with a slash covers the whole.
covers_before :
    (path other m : Bytes)
    → covers other path ≡ true
    → covers (root_before path (b'/' ∷ m) other) path ≡ true
unfolding root_before
covers_before path other m h = go (cut path (b'/' ∷ m)) refl
  where
    go :
        (o : Option (Bytes × Bytes))
        → cut path (b'/' ∷ m) ≡ o
        → covers (elim o [ none ↦ other | some (b, a) ↦ or_slash b ]) path ≡ true
    go none e = h
    go (some (b, a)) e = covers_start b (m ++ a) path (cut-eq_some path (b'/' ∷ m) b a e)

abbrev pub request_segments : Bytes → List Bytes
request_segments req = clean_segments true (b'/' ∷ trim_prefix req (lit "/"))

clean_request_lem : (req : Bytes) → clean_request req ≡ join_rooted (request_segments req)
clean_request_lem req =
    clean-rooted (b'/' ∷ trim_prefix req (lit "/"))
      (has_prefix-append (lit "/") (trim_prefix req (lit "/")))

covers-dir :
    (ws : List Bytes) → AreSegments ws → covers (dir (join_rooted ws)) (join_rooted ws) ≡ true
covers-dir ws h =
    (covers_iff (dir (join_rooted ws)) (join_rooted ws)).1 (inr (dir-join_rooted ws h))

-- What registers a repository lies below its root, and the repository's own path does.
abbrev pub IsCovered : Bytes → Resource → Type 0
IsCovered path r = (r.kind ≢ kind_generic → covers r.root path ≡ true) × (r.req_path ≡ path)

classify_metadata-IsCovered :
    (path base_ dir_ : Bytes)
    → covers dir_ path ≡ true
    → IsCovered path (classify_metadata path base_ dir_)
unfolding classify_metadata
classify_metadata-IsCovered path base_ dir_ h =
    ground (arith, covers_before path dir_ (lit "dists/") h)

classify_clean-IsCovered :
    (path base_ dir_ : Bytes)
    → covers dir_ path ≡ true
    → IsCovered path (classify_clean path base_ dir_)
unfolding classify_clean
classify_clean-IsCovered path base_ dir_ h = go (cut path (lit "/repodata/")) refl
  where
    go :
        (o : Option (Bytes × Bytes))
        → cut path (lit "/repodata/") ≡ o
        → IsCovered path (elim o [
          | some (b, a) ↦ resource_at repo_rpm (or_slash b) (or_slash b) path
          | none ↦ classify_metadata path base_ dir_
        ])
    go none e = classify_metadata-IsCovered path base_ dir_ h
    go (some (b, a)) e = (
      λ _. covers_start b (lit "repodata/" ++ a) path (cut-eq_some path (lit "/repodata/") b a e),
      refl,
    )

-- The request that registers a repository is a member of it: its clean path is below the root.
pub classify_request_lem : (req : Bytes) → IsCovered (clean_request req) (classify_request req)
unfolding classify_request
classify_request_lem req =
    let segs = clean_segments-AreSegments (b'/' ∷ trim_prefix req (lit "/")) in
    rw (clean_request_lem req)
      (classify_clean-IsCovered _ _ _ (covers-dir (request_segments req) segs))

starts_rooted : (ws : List Bytes) → (r : Bytes) × (join_rooted ws ≡ b'/' ∷ r)
unfolding slashed
starts_rooted [] = ([], refl)
starts_rooted (w ∷ ws) = (w ++ slashed ws, refl)

clean_request-join_rooted :
    (ws : List Bytes) → AreSegments ws → clean_request (join_rooted ws) ≡ join_rooted ws
clean_request-join_rooted ws h =
    let (r, e) = starts_rooted ws in
    let same : b'/' ∷ trim_prefix (join_rooted ws) (lit "/") ≡ join_rooted ws =
      rw e (ap (λ t. b'/' ∷ t) (trim_prefix-append (lit "/") r)) in
    ap clean same
    ∙ clean-rooted (join_rooted ws) (rw e (has_prefix-append (lit "/") r))
    ∙ ap join_rooted (clean_segments-join_rooted ws h)

clean_request_idempotent : (req : Bytes) → clean_request (clean_request req) ≡ clean_request req
clean_request_idempotent req =
    ap clean_request (clean_request_lem req)
    ∙ clean_request-join_rooted (request_segments req)
        (clean_segments-AreSegments (b'/' ∷ trim_prefix req (lit "/")))
    ∙ sym (clean_request_lem req)

-- A request for the clean path that a resource records belongs to the same resource.
pub classify_request_idempotent :
    (req : Bytes) → classify_request (classify_request req).req_path ≡ classify_request req
unfolding classify_request
classify_request_idempotent req =
    ap (λ p. classify_clean p (base p) (dir p))
      (ap clean_request ((classify_request_lem req).1) ∙ clean_request_idempotent req)
