-- ===== src/Mirror/Discover/Rounds.antt =====
-- mirror/discover.go: one round of the crawl.
use mathlib.Core.Path.{subst}
use repo_sync.Base.{
  some_inj, ◌≤◌, ◌<◌, ◌≡◌, inl, inr, refl, ◌∙◌, sym, Bool, true, false, ◌||◌, Option, none, some,
  List, [], ◌∷◌, ◌++◌, arith,
}
use repo_sync.Base.{nat_eq, list_eq, contains, leb, map, Bool-cases, dec_eq}
use repo_sync.Base.Bytes.{Bytes, trim_right}
use repo_sync.Mirror.Targets.{RepoTarget, RepoType, Discovery}
use repo_sync.Mirror.DiscoverCache.{repo_lt}
use repo_sync.Mirror.Discover.{
  DirListing, CrawlOptions, Node, repo_type_of, child_url, is_excluded, new_children, visit_listed,
  visit_typed, sort_targets, insert_target,
}

abbrev pub urls : List Node → List Bytes
urls = map (λ n. n.url)

abbrev pub repo_urls : List RepoTarget → List Bytes
repo_urls = map (λ t. t.url)

pub contains-urls-append :
    (xs ys : List Node) (u : Bytes)
    → contains (urls (xs ++ ys)) u ≡ (contains (urls xs) u || contains (urls ys) u)
contains-urls-append [] ys u = refl
contains-urls-append (x ∷ xs) ys u = ground (arith, contains-urls-append xs ys u)

contains-repo_urls-append :
    (xs ys : List RepoTarget) (u : Bytes)
    → contains (repo_urls (xs ++ ys)) u ≡ (contains (repo_urls xs) u || contains (repo_urls ys) u)
contains-repo_urls-append [] ys u = refl
contains-repo_urls-append (x ∷ xs) ys u = ground (arith, contains-repo_urls-append xs ys u)

insert_target_urls :
    (t : RepoTarget) (ts : List RepoTarget) (u : Bytes)
    → contains (repo_urls (insert_target repo_lt t ts)) u ≡ contains (repo_urls (t ∷ ts)) u
unfolding insert_target
insert_target_urls t [] u = refl
insert_target_urls t (x ∷ ts) u = ground (arith, insert_target_urls t ts u)

pub sort_targets_urls :
    (ts : List RepoTarget) (u : Bytes)
    → contains (repo_urls (sort_targets repo_lt ts)) u ≡ contains (repo_urls ts) u
unfolding sort_targets
sort_targets_urls [] u = refl
sort_targets_urls (t ∷ ts) u =
    ground (arith, sort_targets_urls ts u, insert_target_urls t (sort_targets repo_lt ts) u)

module _ (list_dir : Bytes → Option DirListing) (glob : Bytes → Bytes → Bool)
    (escape : Bytes → Bytes) (opts : CrawlOptions) where
  -- A directory is dealt with: counted if it cannot be listed, found if it is a repository, and else,
  -- within the depth, the directories in it that no pattern excludes are visited.
  pub record IsHandled (visited : List Bytes) (found : Discovery) (n : Node) : Type 0 where
    pub failed : list_dir n.url ≡ none → 0 < found.failures
    pub repo :
        (l : DirListing) (t : RepoType)
        → list_dir n.url ≡ some l
        → repo_type_of l opts.types ≡ some t
        → contains (repo_urls found.repos) (trim_right n.url b'/') ≡ true
    pub entered :
        (l : DirListing) (dir : Bytes)
        → list_dir n.url ≡ some l
        → repo_type_of l opts.types ≡ none
        → n.depth < opts.depth
        → contains l.dirs dir ≡ true
        → is_excluded list_dir glob escape opts n dir ≡ false
        → contains visited (child_url list_dir glob escape opts n.url dir) ≡ true

  -- What one state of the crawl has of another.
  pub record Grows (v v' : List Bytes) (f f' : Discovery) : Type 0 where
    pub keeps : (u : Bytes) → contains v u ≡ true → contains v' u ≡ true
    pub counts : f.failures ≤ f'.failures
    pub finds :
        (u : Bytes) → contains (repo_urls f.repos) u ≡ true → contains (repo_urls f'.repos) u ≡ true

  pub IsHandled-Grows :
      (v v' : List Bytes) (f f' : Discovery) (n : Node)
      → Grows v v' f f'
      → IsHandled v f n
      → IsHandled v' f' n
  IsHandled-Grows v v' f f' n g h = record {
    failed = λ e. omega (arith, h.failed e, g.counts);
    repo = λ l t a m. g.finds _ (h.repo l t a m);
    entered = λ l d a p s c x. g.keeps _ (h.entered l d a p s c x);
  }

  new_children_visited :
      (n : Node) (dirs visited : List Bytes) (u : Bytes)
      → let r = new_children list_dir glob escape opts n dirs visited in
        contains r.1 u ≡ (contains visited u || contains (urls r.0) u)
  unfolding new_children
  new_children_visited n [] visited u = ground arith
  new_children_visited n (d ∷ dirs) visited u = ground (
    arith,
    new_children_visited n dirs visited u,
    new_children_visited n dirs (child_url list_dir glob escape opts n.url d ∷ visited) u,
  )

  new_children_head :
      (n : Node) (dir : Bytes) (dirs visited : List Bytes)
      → is_excluded list_dir glob escape opts n dir ≡ false
      → contains
          (new_children list_dir glob escape opts n (dir ∷ dirs) visited).1
          (child_url list_dir glob escape opts n.url dir)
        ≡ true
  unfolding new_children
  new_children_head n dir dirs visited x =
      let child = child_url list_dir glob escape opts n.url dir in
      ground (
        arith,
        new_children_visited n dirs visited child,
        new_children_visited n dirs (child ∷ visited) child,
      )

  new_children_all :
      (n : Node) (dirs visited : List Bytes) (dir : Bytes)
      → contains dirs dir ≡ true
      → is_excluded list_dir glob escape opts n dir ≡ false
      → contains
          (new_children list_dir glob escape opts n dirs visited).1
          (child_url list_dir glob escape opts n.url dir)
        ≡ true
  unfolding new_children
  new_children_all n [] visited dir c x = absurd (cc)
  new_children_all n (d ∷ dirs) visited dir c x = elim (dec_eq dir d) [
    | yes p ↦
        subst
          (λ e.
            contains (new_children list_dir glob escape opts n (e ∷ dirs) visited).1
              (child_url list_dir glob escape opts n.url dir)
            ≡ true)
          p (new_children_head n dir dirs visited x)
    | no m ↦ ground (
      arith,
      new_children_all n dirs visited dir,
      new_children_all n dirs (child_url list_dir glob escape opts n.url d ∷ visited) dir,
    )
  ]

  -- One round: the URLs visited are the old ones and those of the nodes to append, and the directory
  -- is dealt with.
  pub record IsRound (n : Node) (v : List Bytes) (f : Discovery)
      (r : List Node × List Bytes × Discovery) : Type 0 where
    pub visits : (u : Bytes) → contains r.1 u ≡ (contains v u || contains (urls r.0) u)
    pub grows : Grows v r.1 f r.2
    pub handles : IsHandled r.1 r.2 n

  visit_typed-IsRound :
      (n : Node) (l : DirListing) (o : Option RepoType) (v : List Bytes) (f : Discovery)
      → list_dir n.url ≡ some l
      → repo_type_of l opts.types ≡ o
      → IsRound n v f (visit_typed list_dir glob escape opts n l o v f)
  unfolding visit_typed
  visit_typed-IsRound n l (some t) v f at marked =
      let target : RepoTarget = record { url = trim_right n.url b'/'; typ = t } in
      record {
        visits = λ u. ground arith;
        grows = record {
          keeps = λ u h. h;
          counts = omega arith;
          finds = λ u h. ground (arith, contains-repo_urls-append f.repos (target ∷ []) u);
        };
        handles = record {
          failed = λ e. absurd (cc);
          repo = λ l' t' a m.
              ground (arith, contains-repo_urls-append f.repos (target ∷ []) target.url);
          entered = λ l' d a p s c x. absurd (ground arith);
        };
      }
  visit_typed-IsRound n l none v f at plain = elim (Bool-cases (leb opts.depth n.depth)) [
    | inl deep ↦ rw deep (record {
      visits = λ u. ground arith;
      grows = record { keeps = λ u h. h; counts = omega arith; finds = λ u h. h };
      handles = record {
        failed = λ e. absurd (cc);
        repo = λ l' t' a m. absurd (ground arith);
        entered = λ l' d a p s c x. absurd (ground arith);
      };
    })
    | inr shallow ↦ rw shallow (record {
      visits = new_children_visited n l.dirs v;
      grows = record {
        keeps = λ u h. ground (arith, new_children_visited n l.dirs v u);
        counts = omega arith;
        finds = λ u h. h;
      };
      handles = record {
        failed = λ e. absurd (cc);
        repo = λ l' t' a m. absurd (ground arith);
        entered = λ l' d a p s c x. new_children_all n l.dirs v d (rw (some_inj (sym at ∙ a)) c) x;
      };
    })
  ]

  pub visit_listed-IsRound :
      (n : Node) (o : Option DirListing) (v : List Bytes) (f : Discovery)
      → list_dir n.url ≡ o
      → IsRound n v f (visit_listed list_dir glob escape opts n o v f)
  unfolding visit_listed
  visit_listed-IsRound n none v f off = record {
    visits = λ u. ground arith;
    grows = record { keeps = λ u h. h; counts = omega arith; finds = λ u h. h };
    handles = record {
      failed = λ e. omega arith;
      repo = λ l t a m. absurd (cc);
      entered = λ l d a p s c x. absurd (cc);
    };
  }
  visit_listed-IsRound n (some l) v f at =
      visit_typed-IsRound n l (repo_type_of l opts.types) v f at refl
