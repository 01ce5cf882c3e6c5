-- ===== src/Mirror/Discover/Laws.antt =====
-- mirror/discover.go: the crawl ends, and what it finds is there.
use repo_sync.Base.{
  ℕ, zero, suc, ◌+◌, ◌-◌, ◌≤◌, ◌≡◌, refl, Bool, Option, none, some, List, [], ◌∷◌, ◌++◌, arith,
}
use repo_sync.Base.{nat_eq, list_eq, leb, map, Option-cases, Bool-cases, inl, inr, ap}
use repo_sync.Base.Bytes.{Bytes}
use repo_sync.Mirror.Targets.{Discovery}
use repo_sync.Mirror.Discover.{
  DirListing, CrawlOptions, Node, child_url, new_children, visit_dir, visit_listed, visit_typed,
  crawl_from, start_node, discover_repos, in_order, nothing_found,
}

module _ (list_dir : Bytes → Option DirListing) (glob : Bytes → Bytes → Bool)
    (escape : Bytes → Bytes) (opts : CrawlOptions) where
  abbrev pub dirs_of : Option DirListing → List Bytes
  dirs_of none = []
  dirs_of (some l) = l.dirs

  abbrev sum : List ℕ → ℕ
  sum [] = 0
  sum (x ∷ xs) = x + sum xs

  -- The directories below a URL, itself included, so many levels down.
  unfoldable pub weight : ℕ → Bytes → ℕ
  weight zero url = 1
  weight (suc levels) url =
      1
      + sum (
          map (λ d. weight levels (child_url list_dir glob escape opts url d))
            (dirs_of (list_dir url)))

  abbrev queue_weight : List Node → ℕ
  queue_weight [] = 0
  queue_weight (n ∷ ns) = weight (opts.depth - n.depth) n.url + queue_weight ns

  queue_weight-append :
      (xs ys : List Node) → queue_weight (xs ++ ys) ≡ queue_weight xs + queue_weight ys
  queue_weight-append [] ys = omega arith
  queue_weight-append (x ∷ xs) ys = omega (arith, queue_weight-append xs ys)

  new_children-weight :
      (n : Node) (levels : ℕ) (dirs visited : List Bytes)
      → opts.depth - (n.depth + 1) ≡ levels
      → queue_weight (new_children list_dir glob escape opts n dirs visited).0
        ≤ sum (map (λ d. weight levels (child_url list_dir glob escape opts n.url d)) dirs)
  unfolding new_children
  new_children-weight n levels [] visited e = omega arith
  new_children-weight n levels (d ∷ dirs) visited e = ground (
    arith,
    new_children-weight n levels dirs visited e,
    new_children-weight n levels dirs (child_url list_dir glob escape opts n.url d ∷ visited) e,
  )

  weight_pos : (levels : ℕ) (url : Bytes) → 1 ≤ weight levels url
  unfolding weight
  weight_pos zero url = omega arith
  weight_pos (suc levels) url = omega arith

  weight_listed :
      (k levels : ℕ) (url : Bytes) (l : DirListing)
      → k ≡ suc levels
      → list_dir url ≡ some l
      → weight k url
        ≡ 1 + sum (map (λ d. weight levels (child_url list_dir glob escape opts url d)) l.dirs)
  unfolding weight
  weight_listed k levels url l e at = rw (e, at) refl

  visit_dir-weight :
      (n : Node) (visited : List Bytes) (found : Discovery)
      → 1 + queue_weight (visit_dir list_dir glob escape opts n visited found).0
        ≤ weight (opts.depth - n.depth) n.url
  unfolding visit_dir visit_listed visit_typed
  visit_dir-weight n visited found = elim (Option-cases (list_dir n.url)) [
    | inl off ↦ ground (arith, weight_pos (opts.depth - n.depth) n.url)
    | inr (l, at) ↦ elim (Bool-cases (leb opts.depth n.depth)) [
      | inl deep ↦ ground (arith, weight_pos (opts.depth - n.depth) n.url)
      | inr shallow ↦
          let levels = opts.depth - (n.depth + 1) in
          ground (
            arith,
            weight_pos (opts.depth - n.depth) n.url,
            weight_listed (opts.depth - n.depth) levels n.url l (ground arith) at,
            new_children-weight n levels l.dirs visited refl,
          )
    ]
  ]

  -- The loop ends: the directories below the queue are enough rounds.
  crawl_from_ends :
      (fuel : ℕ) (queue : List Node) (visited : List Bytes) (found : Discovery)
      → queue_weight queue ≤ fuel
      → (d : Discovery) × (crawl_from list_dir glob escape opts fuel queue visited found ≡ some d)
  unfolding crawl_from
  crawl_from_ends zero [] visited found h = (found, refl)
  crawl_from_ends (suc fuel) [] visited found h = (found, refl)
  crawl_from_ends zero (n ∷ queue) visited found h =
      absurd (omega (arith, weight_pos (opts.depth - n.depth) n.url))
  crawl_from_ends (suc fuel) (n ∷ queue) visited found h =
      let r = visit_dir list_dir glob escape opts n visited found in
      crawl_from_ends fuel (queue ++ r.0) r.1 r.2
        (omega (arith, visit_dir-weight n visited found, queue_weight-append queue r.0))

  -- A crawl of a site ends: as many rounds are enough as there are directories within the depth,
  -- each counted once for each way down to it.
  pub discover_repos_ends :
      (fuel : ℕ) (base : Bytes)
      → weight opts.depth (start_node list_dir glob escape opts base).url ≤ fuel
      → (d : Discovery) × (discover_repos list_dir glob escape opts fuel base ≡ some d)
  unfolding discover_repos in_order
  discover_repos_ends fuel base h =
      let n = start_node list_dir glob escape opts base in
      let z : opts.depth - 0 ≡ opts.depth = omega arith in
      let (d, e) =
        crawl_from_ends fuel (n ∷ []) (n.url ∷ []) nothing_found
          (omega (arith, ap (λ k. weight k n.url) z)) in
      (_, ap in_order e)
