-- ===== src/Mirror/Discover/Findings.antt =====
-- mirror/discover.go: the repositories that a crawl finds.
use repo_sync.Base.{
  some_inj, ℕ, zero, suc, ◌<◌, ◌≡◌, refl, Bool, true, false, Option, none, some, List, [], ◌∷◌,
  ◌++◌, arith,
}
use repo_sync.Base.{nat_eq, list_eq, contains, leb, All, Bool-cases, inl, inr}
use repo_sync.Base.Bytes.{Bytes, trim_right}
use repo_sync.Mirror.Targets.{RepoTarget, RepoType, Discovery}
use repo_sync.Mirror.DiscoverCache.{repo_lt}
use repo_sync.Mirror.Discover.{
  DirListing, CrawlOptions, Node, repo_type_of, child_url, child_node, is_excluded, new_children,
  visit_dir, visit_listed, visit_typed, crawl_from, start_node, discover_repos, in_order,
  nothing_found, sort_targets, insert_target,
}

module _ (list_dir : Bytes → Option DirListing) (glob : Bytes → Bytes → Bool)
    (escape : Bytes → Bytes) (opts : CrawlOptions) (base : Bytes) where
  -- The directories that a crawl may enter: the start, and below a directory that was listed, is no
  -- repository and not too deep, those that no pattern excludes.
  pub data Reached : Node → Type 0 where
    at_start : Reached (start_node list_dir glob escape opts base)
    at_child :
        (n : Node) (l : DirListing) (dir : Bytes)
        → Reached n
        → list_dir n.url ≡ some l
        → repo_type_of l opts.types ≡ none
        → n.depth < opts.depth
        → contains l.dirs dir ≡ true
        → is_excluded list_dir glob escape opts n dir ≡ false
        → Reached (child_node list_dir glob escape opts n dir)

  -- A repository stands at a directory entered, whose listing has the marks of its type.
  pub record IsFound (t : RepoTarget) : Type 0 where
    pub node : Node
    pub reached : Reached node
    pub listing : DirListing
    pub listed : list_dir node.url ≡ some listing
    pub marked : repo_type_of listing opts.types ≡ some t.typ
    pub at : t.url ≡ trim_right node.url b'/'

  pub All-append :
      {A : Type 0} (P : A → Type 0) (xs ys : List A) → All P xs → All P ys → All P (xs ++ ys)
  All-append P [] ys hx hy = hy
  All-append P (x ∷ xs) ys hx hy = (hx.0, All-append P xs ys hx.1 hy)

  new_children-Reached :
      (n : Node) (l : DirListing) (dirs visited : List Bytes)
      → ((dir : Bytes)
          → contains dirs dir ≡ true
          → is_excluded list_dir glob escape opts n dir ≡ false
          → Reached (child_node list_dir glob escape opts n dir))
      → All Reached (new_children list_dir glob escape opts n dirs visited).0
  unfolding new_children
  new_children-Reached n l [] visited h = tt
  new_children-Reached n l (d ∷ dirs) visited h =
      let later =
        λ (dir : Bytes) (c : contains dirs dir ≡ true)
            (x : is_excluded list_dir glob escape opts n dir ≡ false).
          h dir (ground arith) x in
      let child = child_url list_dir glob escape opts n.url d in
      elim (Bool-cases (is_excluded list_dir glob escape opts n d)) [
        | inl out ↦ rw out (new_children-Reached n l dirs visited later)
        | inr entered ↦ elim (Bool-cases (contains visited child)) [
          | inl seen ↦ rw (entered, seen) (new_children-Reached n l dirs visited later)
          | inr new ↦
              rw (entered, new)
                (h d (ground arith) entered, new_children-Reached n l dirs (child ∷ visited) later)
        ]
      ]

  marked-IsFound :
      (n : Node) (l : DirListing) (t : RepoType)
      → Reached n
      → list_dir n.url ≡ some l
      → repo_type_of l opts.types ≡ some t
      → IsFound (record { url = trim_right n.url b'/'; typ = t })
  marked-IsFound n l t r at marked = record {
    node = n;
    reached = r;
    listing = l;
    listed = at;
    marked = marked;
    at = refl;
  }

  abbrev pub AreFound : List Node × List Bytes × Discovery → Type 0
  AreFound r = All Reached r.0 × All IsFound (r.2).repos

  visit_typed-AreFound :
      (n : Node) (l : DirListing) (o : Option RepoType) (visited : List Bytes) (found : Discovery)
      → Reached n
      → list_dir n.url ≡ some l
      → repo_type_of l opts.types ≡ o
      → All IsFound found.repos
      → AreFound (visit_typed list_dir glob escape opts n l o visited found)
  unfolding visit_typed
  visit_typed-AreFound n l (some t) visited found r at marked h =
      (tt, All-append IsFound found.repos _ h (marked-IsFound n l t r at marked, tt))
  visit_typed-AreFound n l none visited found r at plain h =
      elim (Bool-cases (leb opts.depth n.depth)) [
        | inl deep ↦ rw deep (tt, h)
        | inr shallow ↦ rw shallow (
          new_children-Reached n l l.dirs visited
              (λ dir c x. at_child n l dir r at plain (ground arith) c x),
          h,
        )
      ]

  visit_listed-AreFound :
      (n : Node) (o : Option DirListing) (visited : List Bytes) (found : Discovery)
      → Reached n
      → list_dir n.url ≡ o
      → All IsFound found.repos
      → AreFound (visit_listed list_dir glob escape opts n o visited found)
  unfolding visit_listed
  visit_listed-AreFound n none visited found r at h = (tt, h)
  visit_listed-AreFound n (some l) visited found r at h =
      visit_typed-AreFound n l (repo_type_of l opts.types) visited found r at refl h

  pub visit_dir-AreFound :
      (n : Node) (visited : List Bytes) (found : Discovery)
      → Reached n
      → All IsFound found.repos
      → AreFound (visit_dir list_dir glob escape opts n visited found)
  unfolding visit_dir
  visit_dir-AreFound n visited found r h =
      visit_listed-AreFound n (list_dir n.url) visited found r refl h

  crawl_from-IsFound :
      (fuel : ℕ) (queue : List Node) (visited : List Bytes) (found d : Discovery)
      → All Reached queue
      → All IsFound found.repos
      → crawl_from list_dir glob escape opts fuel queue visited found ≡ some d
      → All IsFound d.repos
  unfolding crawl_from
  crawl_from-IsFound zero [] visited found d q h e = rw⁻¹ (some_inj e) h
  crawl_from-IsFound (suc fuel) [] visited found d q h e = rw⁻¹ (some_inj e) h
  crawl_from-IsFound zero (n ∷ queue) visited found d q h e = absurd (cc)
  crawl_from-IsFound (suc fuel) (n ∷ queue) visited found d q h e =
      let r = visit_dir list_dir glob escape opts n visited found in
      let v = visit_dir-AreFound n visited found q.0 h in
      crawl_from-IsFound fuel (queue ++ r.0) r.1 r.2 d (All-append Reached queue r.0 q.1 v.0) v.1 e

  insert_target-IsFound :
      (lt : RepoTarget → RepoTarget → Bool) (t : RepoTarget) (ts : List RepoTarget)
      → IsFound t
      → All IsFound ts
      → All IsFound (insert_target lt t ts)
  unfolding insert_target
  insert_target-IsFound lt t [] h hs = (h, tt)
  insert_target-IsFound lt t (u ∷ ts) h hs = elim (Bool-cases (lt u t)) [
    | inl first ↦ rw first (hs.0, insert_target-IsFound lt t ts h hs.1)
    | inr last ↦ rw last (h, hs)
  ]

  sort_targets-IsFound :
      (lt : RepoTarget → RepoTarget → Bool) (ts : List RepoTarget)
      → All IsFound ts
      → All IsFound (sort_targets lt ts)
  unfolding sort_targets
  sort_targets-IsFound lt [] h = tt
  sort_targets-IsFound lt (t ∷ ts) h =
      insert_target-IsFound lt t (sort_targets lt ts) h.0 (sort_targets-IsFound lt ts h.1)

  -- Every repository that a crawl finds stands at a directory within the depth that no pattern
  -- excludes, nor a directory above it, and none above it is a repository.
  pub discover_repos-IsFound :
      (fuel : ℕ) (d : Discovery)
      → discover_repos list_dir glob escape opts fuel base ≡ some d
      → All IsFound d.repos
  unfolding discover_repos in_order
  discover_repos-IsFound fuel d e =
      let n = start_node list_dir glob escape opts base in
      go (crawl_from list_dir glob escape opts fuel (n ∷ []) (n.url ∷ []) nothing_found) refl e
    where
      go :
          (o : Option Discovery)
          → crawl_from list_dir glob escape opts fuel
              (start_node list_dir glob escape opts base ∷ [])
              ((start_node list_dir glob escape opts base).url ∷ [])
              nothing_found
            ≡ o
          → in_order o ≡ some d
          → All IsFound d.repos
      go none c e = absurd (cc)
      go (some f) c e = rw⁻¹ (some_inj e) (
          sort_targets-IsFound repo_lt f.repos (
            crawl_from-IsFound fuel (start_node list_dir glob escape opts base ∷ [])
              ((start_node list_dir glob escape opts base).url ∷ []) nothing_found f (at_start, tt)
              tt c))
