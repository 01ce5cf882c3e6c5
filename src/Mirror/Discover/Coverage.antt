-- ===== src/Mirror/Discover/Coverage.antt =====
-- mirror/discover.go: what a crawl does not miss.
use repo_sync.Base.{
  some_inj, ℕ, zero, suc, ◌≡◌, ◌⊎◌, inl, inr, refl, ◌∙◌, sym, Bool, true, Option, none, some, List,
  [], ◌∷◌, ◌++◌, arith,
}
use repo_sync.Base.{nat_eq, list_eq, contains, Bool-cases, dec_eq}
use repo_sync.Base.Bytes.{Bytes}
use repo_sync.Mirror.Targets.{Discovery}
use repo_sync.Mirror.Discover.{
  DirListing, CrawlOptions, Node, visit_dir, visit_listed, crawl_from, start_node, discover_repos,
  in_order, nothing_found,
}
use repo_sync.Base.{All}
use repo_sync.Mirror.Discover.Findings.{Reached, at_start, IsFound, visit_dir-AreFound, All-append}
use repo_sync.Mirror.Discover.Rounds.{
  urls, contains-urls-append, sort_targets_urls, IsHandled, Grows, IsHandled-Grows, IsRound,
  visit_listed-IsRound,
}

module _ (list_dir : Bytes → Option DirListing) (glob : Bytes → Bytes → Bool)
    (escape : Bytes → Bytes) (opts : CrawlOptions) (base : Bytes) where
  -- A visited URL is that of a directory that the crawl reached, and dealt with at that depth.
  pub record Covered (v : List Bytes) (f : Discovery) (u : Bytes) : Type 0 where
    pub node : Node
    pub at : node.url ≡ u
    pub reached : Reached list_dir glob escape opts base node
    pub handled : IsHandled list_dir glob escape opts v f node

  -- A visited URL is of a directory dealt with, or on the queue.
  abbrev Pending : List Node → List Bytes → Discovery → Type 0
  Pending q v f = (u : Bytes) → contains v u ≡ true → Covered v f u ⊎ (contains (urls q) u ≡ true)

  Covered-Grows :
      (v v' : List Bytes) (f f' : Discovery) (u : Bytes)
      → Grows list_dir glob escape opts v v' f f'
      → Covered v f u
      → Covered v' f' u
  Covered-Grows v v' f f' u g c = record {
    node = c.node;
    at = c.at;
    reached = c.reached;
    handled = IsHandled-Grows list_dir glob escape opts v v' f f' c.node g c.handled;
  }

  round-Pending :
      (n : Node) (q : List Node) (v : List Bytes) (f : Discovery)
      (r : List Node × List Bytes × Discovery)
      → Reached list_dir glob escape opts base n
      → IsRound list_dir glob escape opts n v f r
      → Pending (n ∷ q) v f
      → Pending (q ++ r.0) r.1 r.2
  round-Pending n q v f r reached k h u seen = elim (Bool-cases (contains (urls r.0) u)) [
    | inl new ↦ inr (ground (arith, contains-urls-append q r.0 u))
    | inr old ↦ elim (h u (ground (arith, k.visits u))) [
      | inl c ↦ inl (Covered-Grows v r.1 f r.2 u k.grows c)
      | inr waiting ↦ elim (dec_eq u n.url) [
        | yes p ↦ inl (record { node = n; at = sym p; reached = reached; handled = k.handles })
        | no m ↦ inr (ground (arith, contains-urls-append q r.0 u))
      ]
    ]
  ]

  -- The URLs visited when the loop has ended.
  pub record IsComplete (v : List Bytes) (d : Discovery) : Type 0 where
    pub visited : List Bytes
    pub includes : (u : Bytes) → contains v u ≡ true → contains visited u ≡ true
    pub covered : (u : Bytes) → contains visited u ≡ true → Covered visited d u

  ended : (v : List Bytes) (f d : Discovery) → Pending [] v f → f ≡ d → IsComplete v d
  ended v f d h e = record {
    visited = v;
    includes = λ u s. s;
    covered = λ u s. elim (h u s) [ inl c ↦ rw⁻¹ e c | inr none_waiting ↦ absurd (cc) ];
  }

  crawl_from-IsComplete :
      (fuel : ℕ) (q : List Node) (v : List Bytes) (f d : Discovery)
      → Pending q v f
      → All (Reached list_dir glob escape opts base) q
      → All (IsFound list_dir glob escape opts base) f.repos
      → crawl_from list_dir glob escape opts fuel q v f ≡ some d
      → IsComplete v d
  unfolding crawl_from visit_dir
  crawl_from-IsComplete zero (n ∷ q) v f d h all found e = absurd (cc)
  crawl_from-IsComplete zero [] v f d h all found e = ended v f d h (some_inj e)
  crawl_from-IsComplete (suc fuel) [] v f d h all found e = ended v f d h (some_inj e)
  crawl_from-IsComplete (suc fuel) (n ∷ q) v f d h all found e =
      let r = visit_listed list_dir glob escape opts n (list_dir n.url) v f in
      let k = visit_listed-IsRound list_dir glob escape opts n (list_dir n.url) v f refl in
      let (next, found') = visit_dir-AreFound list_dir glob escape opts base n v f all.0 found in
      let c =
        crawl_from-IsComplete fuel (q ++ r.0) r.1 r.2 d (round-Pending n q v f r all.0 k h)
          (All-append list_dir glob escape opts base (Reached list_dir glob escape opts base) q r.0
            all.1 next)
          found' e in
      record {
        visited = c.visited;
        includes = λ u s. c.includes u (k.grows.keeps u s);
        covered = c.covered;
      }

  -- A crawl misses nothing: the start is visited, and each URL visited is that of a directory that the
  -- crawl reached from the start and dealt with. One that cannot be listed is counted, one that is a
  -- repository is found, and of another the directories that no pattern excludes are visited, if it is
  -- less deep than the limit.
  pub discover_repos-IsComplete :
      (fuel : ℕ) (d : Discovery)
      → discover_repos list_dir glob escape opts fuel base ≡ some d
      → IsComplete ((start_node list_dir glob escape opts base).url ∷ []) d
  unfolding discover_repos in_order
  discover_repos-IsComplete fuel d e =
      let n = start_node list_dir glob escape opts base in
      go (crawl_from list_dir glob escape opts fuel (n ∷ []) (n.url ∷ []) nothing_found) refl e
    where
      sorted :
          (v : List Bytes) (f : Discovery)
          → IsComplete v f
          → (g : Discovery) → in_order (some f) ≡ some g
          → IsComplete v g
      sorted v f c g same = rw⁻¹ (some_inj same) (record {
        visited = c.visited;
        includes = c.includes;
        covered = λ u s.
            Covered-Grows c.visited c.visited f _ u
              (record {
                keeps = λ w h. h;
                counts = omega arith;
                finds = λ w h. sort_targets_urls f.repos w ∙ h;
              })
              (c.covered u s);
      })

      go :
          (o : Option Discovery)
          → crawl_from list_dir glob escape opts fuel
              (start_node list_dir glob escape opts base ∷ [])
              ((start_node list_dir glob escape opts base).url ∷ [])
              nothing_found
            ≡ o
          → in_order o ≡ some d
          → IsComplete ((start_node list_dir glob escape opts base).url ∷ []) d
      go none c same = absurd (cc)
      go (some f) c same =
          sorted ((start_node list_dir glob escape opts base).url ∷ []) f
            (crawl_from-IsComplete fuel (start_node list_dir glob escape opts base ∷ [])
              ((start_node list_dir glob escape opts base).url ∷ []) nothing_found f
              (λ u h. inr (ground arith)) (at_start, tt) tt c)
            d same
