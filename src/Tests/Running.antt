-- ===== src/Tests/Running.antt =====
-- mirror/sync.go, mirror/resolve.go and mirror/apk.go at concrete inputs.
use repo_sync.Base.{
  ℕ, zero, suc, ◌≡◌, refl, Bool, true, false, Option, none, some, List, [], ◌∷◌, nat_eq, list_eq,
  length, not, ◌&&◌, ◌||◌,
}
use repo_sync.Base.Bytes.{Bytes, lit}
use repo_sync.Mirror.Targets.{RepoTarget, FileTarget, repo_rpm}
use repo_sync.Base.Dict.{lookup}
use repo_sync.Fetch.Download.{Slot, LocalFile, body}
use repo_sync.Fetch.Missing.{written}
use repo_sync.Mirror.Apk.{ApkOptions, ApkRun, ApkState, parse_apk_index, sync_apk}
use repo_sync.Mirror.Apk.Laws.{AllEnd, IsOrdered, sync_apk-IsOrdered}
use repo_sync.Fetch.Jobs.{Job}
use repo_sync.Fetch.Jobs.Complete.{Ended}
use repo_sync.Fetch.LocalPath.{local_join}
use repo_sync.Base.Paths.{join, clean}
use repo_sync.Mirror.Apk.{package_job, package_jobs, filename, expect}
use repo_sync.Base.{ap, sym, ◌∙◌, some_inj, inl, zero, suc, get_elem?}
use repo_sync.Fetch.Stats.{no_counts}
use repo_sync.Mirror.Run.{RunError, other, Outcome, ended, changed, sync}
use repo_sync.Mirror.Run.Laws.{runs, failures, any_change, did_change, files_run, sync-IsReport}
use repo_sync.Mirror.Resolve.{
  Upstream, absent, detect_type, detected, repo_dest, all_types, resolved, resolve_source,
}

abbrev a_repo : RepoTarget
a_repo = record { url = lit "http://a/r"; typ = repo_rpm }

abbrev two_repos : List RepoTarget
two_repos = a_repo ∷ record a_repo { url = lit "http://a/s" } ∷ []

-- The first repository fails after it fetched a file; the second has nothing to do.
abbrev one_fails : RepoTarget → ℕ → Outcome ℕ
one_fails r zero = (some (other 0), (record no_counts { fetched = 1 }, 1))
one_fails r (suc n) = (none, (no_counts, suc (suc n)))

abbrev files_well : List FileTarget → ℕ → Outcome ℕ
files_well fs n = (none, (no_counts, n))

abbrev never : ℕ → Bool
never n = false

abbrev targets : ℕ → Option RunError × ((List RepoTarget × List FileTarget) × ℕ)
targets n = (none, ((two_repos, []), n))

sync-IsReport_example :
    let x = sync never one_fails files_well false true targets 0 in
    let os = runs never one_fails files_well two_repos 0 in
    let o = files_run never one_fails files_well [] 2 in
    (x.0 ≡ ended (failures never one_fails files_well os) o.0)
    × (x.1.0.repositories ≡ length two_repos)
    × (x.1.0.failed ≡ failures never one_fails files_well os)
    × (changed x.1.0
        ≡ (not false && (any_change never one_fails files_well os || did_change o.1.0)))
sync-IsReport_example =
    sync-IsReport never one_fails files_well false targets 0 0 two_repos [] refl refl
      (refl, refl, (refl, refl, refl)) refl

run_changed : changed (sync never one_fails files_well false true targets 0).1.0 ≡ true
unfolding sync changed
run_changed = refl

abbrev upstream : Upstream
upstream = record {
  has_query = λ url. false;
  probe = λ url path. absent;
  list_dir = λ url. some (record { dirs = lit "repodata" ∷ []; files = [] });
  read = λ url. some (lit "# mirrors");
  metalink = λ text. (lit "repomd.xml", lit "http://m/repodata/repomd.xml" ∷ []) ∷ [];
  is_http = λ line. true;
}

detects : detect_type upstream (lit "http://a/r") all_types ≡ detected repo_rpm
unfolding detect_type nat_eq list_eq
detects = refl

resolves :
    resolve_source upstream (lit "http://a/list") repo_rpm
    ≡ resolved (record { bases = lit "http://m" ∷ []; active = 0 }) (lit "http://m")
unfolding resolve_source nat_eq list_eq
resolves = refl

trims :
    repo_dest (record { base = []; flat = false; root = lit "/m"; trim = 1 }) (some (lit "/a/b/c"))
    ≡ some (lit "/m/b/c")
unfolding repo_dest nat_eq list_eq
trims = refl

abbrev empty_slot : Slot
empty_slot = record { dst = none; staged = none; partial = none }

abbrev apk_options : ApkOptions
apk_options = record { dest = lit "/m"; dry_run = false; verify = false; prune = false }

abbrev index_lines : List Bytes
index_lines = lit "P:a" ∷ lit "V:1" ∷ lit "S:3" ∷ [] ∷ lit "P:b" ∷ []

abbrev apk_run : ApkRun
apk_run = record {
  transfers = record {
    digest = λ algo content. content;
    ask = λ path since from. body false (lit "apk") true true 9;
    again = λ path since from. body false (lit "apk") true true 9;
    live = true;
    verify = true;
  };
  ask = λ since from. body false (lit "index") true true 9;
  unpack = λ f. some index_lines;
  order = (5, 0) ∷ [];
  write = written;
  disk_ok = true;
}

abbrev apk_state : ApkState
apk_state = record {
  index = empty_slot;
  tree = λ path. empty_slot;
  keep = none;
  miss = none;
  missing_file = none;
  planned = record { unchanged = 0; planned = 0; planned_bytes = 0 };
}

-- The second stanza has no version.
parses_apk :
    parse_apk_index index_lines ≡ record { name = lit "a"; version = lit "1"; size = 3 } ∷ []
unfolding parse_apk_index nat_eq list_eq
parses_apk = refl

abbrev one_job : List Job
one_job =
    package_job (record { name = lit "a"; version = lit "1"; size = 3 }) (lit "/m/a-1.apk") ∷ []

makes_job : package_jobs (lit "/m") (parse_apk_index index_lines) ≡ some one_job
unfolding package_jobs parse_apk_index local_join join clean filename expect nat_eq list_eq
makes_job = refl

only_first :
    (jobs : List Job) (i : ℕ) (job : Job)
    → some jobs ≡ some one_job
    → get_elem? jobs i ≡ some job
    → Ended (record (apk_run.transfers) { verify = false }) jobs apk_run.order i
only_first [] i job made at = absurd (cc)
only_first (j ∷ jobs) zero job made at = inl refl
only_first (j ∷ []) (suc i) job made at = absurd (cc)
only_first (j ∷ (k ∷ jobs)) (suc i) job made at = absurd (cc)

all_end : AllEnd apk_options apk_run
all_end f lines jobs i job unpacked made at =
    only_first jobs i job
      (sym made
        ∙ ap (λ (ls : List Bytes). package_jobs (lit "/m") (parse_apk_index ls))
            (sym (some_inj unpacked))
        ∙ makes_job)
      at

sync_apk-IsOrdered_example :
    IsOrdered apk_options apk_run refl apk_state refl all_end none
      (sync_apk apk_options apk_run apk_state)
sync_apk-IsOrdered_example = sync_apk-IsOrdered apk_options apk_run refl apk_state refl all_end

abbrev apk_files : Option LocalFile × Option LocalFile
apk_files =
    let x = sync_apk apk_options apk_run apk_state in
    (x.1.index.dst, (x.1.tree (lit "/m/a-1.apk")).dst)

apk_publishes : apk_files ≡ (
  some (record { content = lit "index"; modified = 9 }),
  some (record { content = lit "apk"; modified = 9 }),
)
unfolding sync_apk nat_eq list_eq lookup
apk_publishes = refl
