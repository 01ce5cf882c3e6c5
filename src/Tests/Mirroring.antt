-- ===== src/Tests/Mirroring.antt =====
-- Package mirror at concrete inputs.
use repo_sync.Base.{◌≡◌, refl, true, some, List, [], ◌∷◌, arith, All, contains, nat_eq, list_eq}
use repo_sync.Base.Bytes.{Bytes, lit, trim_right}
use repo_sync.Base.Dict.{lookup}
use repo_sync.Mirror.Targets.{RepoTarget, Discovery, repo_key, file_key}
use repo_sync.Mirror.DiscoverCache.{Crawls, keys, update, reuse}
use repo_sync.Mirror.DiscoverCache.Origins.{HasOrigin}
use repo_sync.Mirror.DiscoverCache.Laws.{
  IsWithdrawn, update_lem, reuse-update, is_replayed, old, scan,
}

abbrev url : Bytes
url = lit "http://u"

abbrev repo : RepoTarget
repo = record { url = lit "http://u/a/"; typ = lit "rpm" }

abbrev nothing : Discovery
nothing = record { repos = []; files = []; failures = 0 }

abbrev crawls : Crawls
crawls =
    (
      lit "http://u/",
      record {
        last_crawled = 5;
        options = [];
        repos = record { target = repo; gone = some 10 } ∷ [];
        files = [];
      },
    )
    ∷ []

withdraws : (update url [] nothing 30 true 20 crawls).0.repos ≡ repo ∷ []
unfolding update lookup nat_eq list_eq trim_right
withdraws = refl

update_example :
    let gone = (update url [] nothing 30 true 20 crawls).0 in
    let before_ = old url [] nothing 30 true 20 crawls in
    let s = scan url [] nothing 30 true 20 crawls in
    All (IsWithdrawn repo_key s (let ks : List Bytes = [] in ks) before_.repos) gone.repos
    × All (IsWithdrawn file_key s (let ks : List Bytes = [] in ks) before_.files) gone.files
update_example = update_lem url [] nothing 30 true 20 crawls

reuse-update_example :
    let c = crawls in
    let before_ = old url [] nothing 30 true 20 c in
    (d : Discovery) × (reuse url [] 60 40 (update url [] nothing 30 true 20 c).1 ≡ some d)
    × ((k : Bytes)
        → contains (keys repo_key d.repos) k
          ≡ is_replayed url [] nothing 30 true 20 c repo_key [] before_.repos k)
    × ((k : Bytes)
        → contains (keys file_key d.files) k
          ≡ is_replayed url [] nothing 30 true 20 c file_key [] before_.files k)
    × All (HasOrigin repo_key (scan url [] nothing 30 true 20 c) [] before_.repos) d.repos
    × All (HasOrigin file_key (scan url [] nothing 30 true 20 c) [] before_.files) d.files
reuse-update_example =
    reuse-update url [] nothing 30 true 20 crawls 60 40 (omega arith) (omega arith) (omega arith)
