-- ===== src/Tests/Discovering.antt =====
-- mirror/discover.go at a concrete site.
use repo_sync.Base.{
  ◌≤◌, ◌≡◌, refl, Bool, Option, none, some, [], ◌∷◌, ◌==◌, nat_eq, list_eq, if◌then◌else◌, All,
  arith,
}
use repo_sync.Base.Bytes.{Bytes, lit, trim_right}
use repo_sync.Mirror.Targets.{repo_rpm, Discovery}
use repo_sync.Mirror.Discover.{DirListing, CrawlOptions, discover_repos, start_node}
use repo_sync.Mirror.Discover.Laws.{weight, discover_repos_ends}
use repo_sync.Mirror.Discover.Findings.{IsFound, discover_repos-IsFound}
use repo_sync.Mirror.Discover.Coverage.{IsComplete, discover_repos-IsComplete}

-- A site with a repository in `a`; `b` cannot be listed.
site : Bytes → Option DirListing
unfolding nat_eq list_eq
site url =
    if url == lit "http://u/"
    then some (record { dirs = lit "a" ∷ lit "b" ∷ lit "old" ∷ []; files = [] })
    else if url == lit "http://u/a/"
    then some (record { dirs = lit "repodata" ∷ []; files = [] })
    else none

abbrev glob : Bytes → Bytes → Bool
glob pattern subject = pattern == subject

abbrev same : Bytes → Bytes
same s = s

abbrev opts : CrawlOptions
opts = record { types = repo_rpm ∷ []; depth = 2; exclude = lit "old" ∷ []; include_files = [] }

abbrev base : Bytes
base = lit "http://u"

abbrev found : Discovery
found = record {
  repos = record { url = lit "http://u/a"; typ = repo_rpm } ∷ [];
  files = [];
  failures = 1;
}

finds : discover_repos site glob same opts 9 base ≡ some found
unfolding discover_repos site nat_eq list_eq
finds = refl

nine_are_enough : weight site glob same opts 2 (start_node site glob same opts base).url ≤ 9
unfolding weight site nat_eq list_eq trim_right
nine_are_enough = omega arith

discover_repos_ends_example : (d : Discovery) × (discover_repos site glob same opts 9 base ≡ some d)
discover_repos_ends_example = discover_repos_ends site glob same opts 9 base nine_are_enough

discover_repos-IsFound_example : All (IsFound site glob same opts base) found.repos
discover_repos-IsFound_example = discover_repos-IsFound site glob same opts base 9 found finds

discover_repos-IsComplete_example :
    IsComplete site glob same opts base ((start_node site glob same opts base).url ∷ []) found
discover_repos-IsComplete_example = discover_repos-IsComplete site glob same opts base 9 found finds
