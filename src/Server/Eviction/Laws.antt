-- ===== src/Server/Eviction/Laws.antt =====
-- server/crawl_loop.go: what a crawl may prune and what an eviction removes.
use mathlib.Core.List.{append_assoc}
use repo_sync.Base.{
  some_inj, ◌≡◌, ◌≢◌, ◌⊎◌, inl, inr, refl, ap, sym, ◌∙◌, Bool, true, false, some, List, [], ◌∷◌,
  ◌++◌,
}
use repo_sync.Base.{arith, Bool-cases, nat_eq, list_eq, contains, ◌≤◌, dec_eq}
use repo_sync.Base.Bytes.{Bytes, lit, has_prefix, has_prefix_elim, has_prefix-append}
use repo_sync.Base.Dict.{Dict, lookup, lookup-erase}
use repo_sync.Base.Paths.{clean, clean_segments, join_rooted}
use repo_sync.Base.Paths.Laws.{
  AreSegments, clean-rooted, clean_segments-join, clean_segments-AreSegments,
}
use repo_sync.Config.{MountConfig}
use repo_sync.State.{Entry, Store, kind_generic, delete}
use repo_sync.Fetch.LocalPath.{local_join, slashes}
use repo_sync.Fetch.LocalPath.Laws.{local_join_lem}
use repo_sync.Server.Classify.{Resource}
use repo_sync.Server.Eviction.{
  path_below, requested_since, repository_owns, contains_repository, prunable_tree, evict_stale,
}

-- Two directories that a text is below are in one line.
comparable :
    (a b r q : Bytes)
    → a ++ (b'/' ∷ r) ≡ b ++ (b'/' ∷ q)
    → (a ≡ b) ⊎ (((t : Bytes) × (a ≡ b ++ (b'/' ∷ t))) ⊎ ((t : Bytes) × (b ≡ a ++ (b'/' ∷ t))))
comparable [] [] r q e = inl refl
comparable [] (y ∷ b) r q e = inr (inr (b, ground arith))
comparable (x ∷ a) [] r q e = inr (inl (a, ground arith))
comparable (x ∷ a) (y ∷ b) r q e = elim (comparable a b r q (ground arith)) [
  | inl p ↦ inl (ground arith)
  | inr (inl (t, p)) ↦ inr (inl (t, ground arith))
  | inr (inr (t, p)) ↦ inr (inr (t, ground arith))
]

path_below_elim :
    (p base : Bytes)
    → path_below p base ≡ true
    → (base ≡ lit "/") ⊎ ((r : Bytes) × (p ≡ (base ++ lit "/") ++ r))
unfolding path_below
path_below_elim p base h = elim (dec_eq base (lit "/")) [
  | yes e ↦ inl e
  | no n ↦ inr (has_prefix_elim p (base ++ lit "/") (ground arith))
]

contains_repository_lem :
    (own path key : Bytes) (e : Entry) (snapshot : Dict Bytes Entry)
    → contains_repository own path snapshot ≡ false
    → lookup key snapshot ≡ some e
    → key ≢ own
    → e.kind ≢ kind_generic
    → path_below e.path path ≡ false
unfolding contains_repository lookup
contains_repository_lem own path key e [] h at n k = absurd (cc)
contains_repository_lem own path key e (x ∷ snapshot) h at n k =
    ground (arith, contains_repository_lem own path key e snapshot)

below_intro : (p base r : Bytes) → p ≡ base ++ (b'/' ∷ r) → p ≢ base → path_below p base ≡ true
unfolding path_below
below_intro p base r e n =
    let q : has_prefix p (base ++ lit "/") ≡ true =
      rw (e ∙ sym (append_assoc base (lit "/") r)) (has_prefix-append (base ++ lit "/") r) in
    ground arith

longer : (base r : Bytes) → base ++ (b'/' ∷ r) ≢ base
longer [] r e = ground arith
longer (x ∷ base) r e = longer base r (ground arith)

all_below_root : (p : Bytes) → p ≢ lit "/" → path_below p (lit "/") ≡ true
unfolding path_below
all_below_root p n = ground arith

in_line :
    (f a b : Bytes)
    → path_below f a ≡ true
    → path_below f b ≡ true
    → path_below b a ≡ false
    → (a ≡ b) ⊎ (path_below a b ≡ true)
in_line f a b ha hb n = elim (dec_eq a b) [
  | yes p ↦ inl p
  | no m ↦ elim (path_below_elim f a ha) [
    | inl root ↦ absurd (ground (arith, all_below_root b))
    | inr (r, e) ↦ elim (path_below_elim f b hb) [
      | inl root ↦ inr (ground (arith, all_below_root a))
      | inr (q, d) ↦
          elim (comparable a b r q
            (sym (append_assoc a (lit "/") r) ∙ sym e ∙ d ∙ append_assoc b (lit "/") q)) [
              | inl p ↦ inl p
              | inr (inl (t, p)) ↦ inr (below_intro a b t p m)
              | inr (inr (t, p)) ↦ absurd (ground (arith, below_intro b a t p (λ k. m (sym k))))
            ]
    ]
  ]
]

module _ (mounts : List MountConfig) (res : Resource) (snapshot : Dict Bytes Entry) where
  -- A crawl that may prune its tree shares a file with another tracked repository only where that
  -- repository has the same directory or contains this one: no repository within the tree is pruned.
  pub prunable_tree_lem :
      (file key : Bytes) (e : Entry)
      → prunable_tree mounts res snapshot ≡ true
      → lookup key snapshot ≡ some e
      → key ≢ res.key
      → e.kind ≢ kind_generic
      → path_below file res.path ≡ true
      → path_below file e.path ≡ true
      → (res.path ≡ e.path) ⊎ (path_below res.path e.path ≡ true)
  unfolding prunable_tree
  prunable_tree_lem file key e h at n k hf he =
      in_line file res.path e.path hf he
        (ground (arith, contains_repository_lem res.key res.path key e snapshot))

slashes_id : (s : Bytes) → contains s 92 ≡ false → slashes s ≡ s
unfolding slashes
slashes_id [] h = refl
slashes_id (x ∷ s) h = ground (arith, slashes_id s)

module _ (root : Bytes) (removable : Bytes → Bool) (key : Bytes) (e : Entry) (s : Store) where
  -- Why an eviction removes a target.
  pub record IsEvicted (target : Bytes) : Type 0 where
    pub resolved : local_join root e.path ≡ some target
    pub idle :
        (current : Entry)
        → lookup key s.entries ≡ some current
        → current.last_requested ≤ e.last_requested
    pub unowned : e.kind ≡ kind_generic → repository_owns e.path s.entries ≡ false
    pub not_root : e.path ≢ lit "/"

  evict_stale_removes :
      (target : Bytes) → (evict_stale root removable key e s).0 ≡ some target → IsEvicted target
  unfolding evict_stale
  evict_stale_removes target h = record {
    resolved = ground arith;
    idle = λ current at. ground arith;
    unowned = λ k. ground arith;
    not_root = λ k. ground arith;
  }

  -- The segments of a path that is clean.
  abbrev pub path_segments : List Bytes
  path_segments = clean_segments true e.path

  below_segments :
      has_prefix e.path (lit "/") ≡ true
      → clean e.path ≡ e.path
      → contains e.path 92 ≡ false
      → clean_segments true (b'/' ∷ slashes e.path) ≡ path_segments
  unfolding clean_segments list_eq
  below_segments rooted clean_ plain =
      ap (λ p. clean_segments true (b'/' ∷ p))
        (slashes_id e.path plain ∙ sym clean_ ∙ clean-rooted e.path rooted)
      ∙ clean_segments-join [] path_segments (clean_segments-AreSegments e.path)

  no_segments :
      has_prefix e.path (lit "/") ≡ true
      → clean e.path ≡ e.path
      → path_segments ≡ []
      → e.path ≡ lit "/"
  no_segments rooted clean_ h = sym clean_ ∙ clean-rooted e.path rooted ∙ ap join_rooted h

  -- Below an absolute root, the eviction of a resource whose path is rooted, clean and without a
  -- backslash removes a path that lies strictly below the root, for a resource not requested since and,
  -- if it is a generic file, not owned by a repository.
  pub evict_stale_lem :
      (target : Bytes)
      → has_prefix root (lit "/") ≡ true
      → has_prefix e.path (lit "/") ≡ true
      → clean e.path ≡ e.path
      → contains e.path 92 ≡ false
      → (evict_stale root removable key e s).0 ≡ some target
      → IsEvicted target
        × (clean root ≡ join_rooted (clean_segments true root))
        × (target ≡ join_rooted (clean_segments true root ++ path_segments))
        × AreSegments path_segments
        × (path_segments ≢ [])
  evict_stale_lem target absolute rooted clean_ plain h =
      let ev = evict_stale_removes target h in
      let (at, same, segs) = local_join_lem root e.path absolute in
      let down = below_segments rooted clean_ plain in
      (
        ev,
        same,
        some_inj (sym ev.resolved ∙ at)
            ∙ ap (λ l. join_rooted (clean_segments true root ++ l)) down,
        clean_segments-AreSegments e.path,
        λ k. ev.not_root (no_segments rooted clean_ k),
      )

  -- An eviction forgets no resource but its own, and that one only if no request came in since.
  pub evict_stale-lookup :
      (k : Bytes)
      → (lookup k (evict_stale root removable key e s).1.entries ≡ lookup k s.entries)
        ⊎ ((k ≡ key)
            × ((current : Entry)
                → lookup key s.entries ≡ some current
                → current.last_requested ≤ e.last_requested))
  unfolding evict_stale delete
  evict_stale-lookup k = elim (dec_eq k key) [
    | no n ↦ inl (ground (arith, lookup-erase k key s.entries))
    | yes p ↦ elim (Bool-cases (requested_since (lookup key s.entries) e)) [
      | inl since ↦ inl (ground arith)
      | inr idle ↦ inr (p, λ current at. ground arith)
    ]
  ]
