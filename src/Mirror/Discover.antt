-- ===== src/Mirror/Discover.antt =====
-- mirror/discover.go: the breadth-first crawl of a site. The listing of a directory is the parameter
-- `list_dir`, `none` where it fails; `path.Match` is the parameter `glob`, false on a malformed
-- pattern, and `url.PathEscape` is `escape`. The context is not cancelled meanwhile.
pub mod Laws
pub mod Findings
pub mod Rounds
pub mod Coverage
use repo_sync.Base.{
  ℕ, zero, suc, ◌+◌, Bool, true, false, not, ◌&&◌, ◌||◌, Option, none, some, List, [], ◌∷◌, ◌++◌,
  ◌==◌, nat_eq, list_eq,
}
use repo_sync.Base.{if◌then◌else◌, contains, leb, ltb, any}
use repo_sync.Base.Bytes.{Bytes, lit, has_prefix, has_suffix, trim_prefix, trim_right, text_lt}
use repo_sync.Base.Paths.{clean}
use repo_sync.Mirror.Targets.{
  RepoType, repo_rpm, repo_deb, repo_arch, repo_apk, apk_index_name, RepoTarget, FileTarget,
  Discovery,
}
use repo_sync.Mirror.DiscoverCache.{repo_lt, file_lt}

-- The names of `files` are the keys of a map.
pub record DirListing : Type 0 where
  pub dirs : List Bytes
  pub files : List Bytes

unfoldable pub has_arch_db : List Bytes → Bool
unfolding has_suffix
has_arch_db files = any (λ f. has_suffix f (lit ".db")) files

-- One case of the switch of `repoTypeOf`.
unfoldable pub is_marked : DirListing → RepoType → Bool
unfolding has_arch_db
is_marked l typ =
    if typ == repo_rpm
    then contains l.dirs (lit "repodata")
    else if typ == repo_deb
    then contains l.files (lit "InRelease") || contains l.files (lit "Release")
    else if typ == repo_arch
    then has_arch_db l.files
    else if typ == repo_apk
    then contains l.files apk_index_name
    else false

unfoldable pub repo_type_of : DirListing → List RepoType → Option RepoType
unfolding is_marked
repo_type_of l [] = none
repo_type_of l (typ ∷ types) =
    let rest = repo_type_of l types in if is_marked l typ then some typ else rest

-- The pattern, and what it is matched against.
unfoldable pub match_subject : Bytes → Bytes → Bytes → Bytes × Bytes
unfolding has_prefix
match_subject pattern name rel =
    if has_prefix pattern (lit "/")
    then (trim_prefix pattern (lit "/"), rel)
    else if contains pattern b'/'
    then (pattern, rel)
    else (pattern, name)

unfoldable pub match_any : (glob : Bytes → Bytes → Bool) → List Bytes → Bytes → Bytes → Bool
unfolding match_subject
match_any glob [] name rel = false
match_any glob (p ∷ patterns) name rel =
    let rest = match_any glob patterns name rel in
    let (pattern, subject) = match_subject p name rel in if glob pattern subject then true else rest

insert_name : Bytes → List Bytes → List Bytes
insert_name a [] = a ∷ []
insert_name a (b ∷ bs) = let rest = insert_name a bs in if text_lt b a then b ∷ rest else a ∷ b ∷ bs

-- `sort.Strings`.
unfoldable pub sort_names : List Bytes → List Bytes
unfolding insert_name text_lt
sort_names [] = []
sort_names (a ∷ as_) = insert_name a (sort_names as_)

-- `path.Join` of a relative path that may be empty and a name.
unfoldable pub join_rel : Bytes → Bytes → Bytes
unfolding clean
join_rel rel name = if rel == [] then clean name else clean (rel ++ (b'/' ∷ name))

-- `sort.Slice` by a test.
insert_target : {A : Type 0} → (A → A → Bool) → A → List A → List A
insert_target lt a [] = a ∷ []
insert_target lt a (b ∷ bs) =
    let rest = insert_target lt a bs in if lt b a then b ∷ rest else a ∷ b ∷ bs

unfoldable pub sort_targets : {A : Type 0} → (A → A → Bool) → List A → List A
unfolding insert_target
sort_targets lt [] = []
sort_targets lt (a ∷ as_) = insert_target lt a (sort_targets lt as_)

-- What a crawl found, sorted at its end.
unfoldable pub in_order : Option Discovery → Option Discovery
unfolding sort_targets text_lt
in_order none = none
in_order (some d) =
    some (record d { repos = sort_targets repo_lt d.repos; files = sort_targets file_lt d.files })

abbrev pub nothing_found : Discovery
nothing_found = record { repos = []; files = []; failures = 0 }

pub record CrawlOptions : Type 0 where
  pub types : List RepoType
  pub depth : ℕ
  pub exclude : List Bytes
  pub include_files : List Bytes

-- A directory on the queue: its URL, its path below the crawled URL, and its depth.
pub record Node : Type 0 where
  pub url : Bytes
  pub rel : Bytes
  pub depth : ℕ

module _ (list_dir : Bytes → Option DirListing) (glob : Bytes → Bytes → Bool)
    (escape : Bytes → Bytes) (opts : CrawlOptions) where
  match_names : (dir rel : Bytes) → List Bytes → List FileTarget
  match_names dir rel [] = []
  match_names dir rel (name ∷ names) =
      let rest = match_names dir rel names in
      let at = join_rel rel name in
      if match_any glob opts.exclude name at
      then rest
      else if not (match_any glob opts.include_files name at)
      then rest
      else record { dir_url = dir; name = name } ∷ rest

  unfoldable pub matched_files : DirListing → Node → List FileTarget
  unfolding match_names match_any join_rel trim_right sort_names
  matched_files l n =
      if opts.include_files == []
      then []
      else match_names (trim_right n.url b'/') n.rel (sort_names l.files)

  abbrev pub child_url : Bytes → Bytes → Bytes
  child_url url dir = url ++ (escape dir ++ lit "/")

  abbrev pub child_node : Node → Bytes → Node
  child_node n dir = record {
    url = child_url n.url dir;
    rel = join_rel n.rel dir;
    depth = n.depth + 1;
  }

  abbrev pub is_excluded : Node → Bytes → Bool
  is_excluded n dir = match_any glob opts.exclude dir (join_rel n.rel dir)

  -- The loop over the directories of a listing: the nodes to append, and the URLs visited.
  unfoldable pub new_children : Node → List Bytes → List Bytes → List Node × List Bytes
  new_children n [] visited = ([], visited)
  new_children n (dir ∷ dirs) visited =
      let child = child_url n.url dir in
      let skip = new_children n dirs visited in
      let next = new_children n dirs (child ∷ visited) in
      if is_excluded n dir
      then skip
      else if contains visited child
      then skip
      else (child_node n dir ∷ next.0, next.1)

  -- A directory that could be listed, with the format that the listing identifies.
  unfoldable pub visit_typed :
      Node
      → DirListing
      → Option RepoType
      → List Bytes
      → Discovery
      → List Node × List Bytes × Discovery
  unfolding matched_files new_children trim_right
  visit_typed n l (some typ) visited found =
      let repo : RepoTarget = record { url = trim_right n.url b'/'; typ = typ } in
      ([], visited, record found { repos = found.repos ++ repo ∷ [] })
  visit_typed n l none visited found =
      let found' = record found { files = found.files ++ matched_files l n } in
      let (nodes, visited') = new_children n l.dirs visited in
      if leb opts.depth n.depth then ([], visited, found') else (nodes, visited', found')

  unfoldable pub visit_listed :
      Node → Option DirListing → List Bytes → Discovery → List Node × List Bytes × Discovery
  unfolding visit_typed repo_type_of
  visit_listed n none visited found = ([], visited, record found { failures = found.failures + 1 })
  visit_listed n (some l) visited found = visit_typed n l (repo_type_of l opts.types) visited found

  -- One round of the loop, for the directory taken off the queue: the nodes to append, the URLs
  -- visited, and what is found.
  unfoldable pub visit_dir : Node → List Bytes → Discovery → List Node × List Bytes × Discovery
  unfolding visit_listed
  visit_dir n visited found = visit_listed n (list_dir n.url) visited found

  -- The loop, with the rounds left; `none` if the queue is not empty by then.
  unfoldable pub crawl_from : ℕ → List Node → List Bytes → Discovery → Option Discovery
  unfolding visit_dir
  crawl_from fuel [] visited found = some found
  crawl_from zero (n ∷ queue) visited found = none
  crawl_from (suc fuel) (n ∷ queue) visited found =
      let (nodes, visited', found') = visit_dir n visited found in
      crawl_from fuel (queue ++ nodes) visited' found'

  abbrev pub start_node : Bytes → Node
  start_node base = record { url = trim_right base b'/' ++ lit "/"; rel = []; depth = 0 }

  unfoldable pub discover_repos : ℕ → Bytes → Option Discovery
  unfolding crawl_from trim_right in_order
  discover_repos fuel base =
      let n = start_node base in in_order (crawl_from fuel (n ∷ []) (n.url ∷ []) nothing_found)
