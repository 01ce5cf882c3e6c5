-- ===== src/Tests/Fetching.antt =====
-- Package fetch at concrete inputs.
use repo_sync.Base.{◌≡◌, refl, ◌↔◌, true, false, none, some, List, [], ◌∷◌, ◌++◌}
use repo_sync.Base.{nat_eq, list_eq}
use repo_sync.Base.Bytes.{Bytes, lit, has_prefix, trim_space, to_lower}
use repo_sync.Base.Dict.{lookup}
use repo_sync.Base.Paths.{join_rooted, clean}
use repo_sync.Base.Paths.Laws.{AreSegments}
use repo_sync.Fetch.Missing.{parse_missing_mode, missing_retry, StateFile, written, load}
use repo_sync.Fetch.Missing.Laws.{Miss, missed, runs_of, known_of}
use repo_sync.Fetch.Missing.Budget.{
  after_runs, retry_budget, run_passes_iff, sync_misses, in_budget,
}
use repo_sync.Fetch.LocalPath.{local_join}
use repo_sync.Fetch.LocalPath.Laws.{above, below, local_join_lem}

abbrev pkg : Bytes
pkg = lit "pkg/a.rpm"

abbrev run : List Miss
run = (7, pkg) ∷ (8, pkg) ∷ []

abbrev lost : StateFile
lost = none

mode_names : parse_missing_mode (lit " Retry ") ≡ some missing_retry
unfolding parse_missing_mode trim_space to_lower nat_eq list_eq
mode_names = refl

run_misses : missed pkg run ≡ true
unfolding nat_eq list_eq
run_misses = refl

nothing_loaded : lookup pkg (load lost) ≡ none
unfolding lookup load
nothing_loaded = refl

-- Two runs, with a budget of two.
retry_budget_example :
    let end = after_runs pkg 2 (run ∷ run ∷ []) lost in
    (runs_of (lookup pkg (load end)) ≡ 2) × (known_of (lookup pkg (load end)) ≡ true)
retry_budget_example =
    retry_budget pkg 2 run (run ∷ []) lost nothing_loaded (run_misses, (run_misses, tt))

run_passes_iff_example :
    ((sync_misses missing_retry 2 false written run lost).0 ≡ none)
    ↔ ((p : Bytes) → missed p run ≡ true → in_budget 2 run lost p ≡ false)
run_passes_iff_example = run_passes_iff 2 run lost written

other_missed : missed pkg ((7, lit "b") ∷ []) ≡ false
unfolding nat_eq list_eq
other_missed = refl

srv_absolute : has_prefix (lit "/srv/./mirror/") (lit "/") ≡ true
unfolding has_prefix nat_eq
srv_absolute = refl

escape_attempt :
    local_join (lit "/srv/./mirror/") (lit "../../etc\\..\\passwd")
    ≡ some (lit "/srv/mirror/passwd")
unfolding local_join clean nat_eq list_eq
escape_attempt = refl

local_join_example :
    let root = lit "/srv/./mirror/" in
    let rel = lit "../../etc/passwd" in
    let up = above root rel srv_absolute in
    let down = below root rel srv_absolute in
    (local_join root rel ≡ some (join_rooted (up ++ down)))
    × (clean root ≡ join_rooted up)
    × AreSegments down
local_join_example = local_join_lem (lit "/srv/./mirror/") (lit "../../etc/passwd") srv_absolute
