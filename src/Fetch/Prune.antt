-- ===== src/Fetch/Prune.antt =====
-- fetch/fetch.go, `KeepSet` and `PruneTree`. Files are named by their paths below the root, which is
-- absolute and clean, so `filepath.Abs` changes no name. The removal of directories is not modelled:
-- `os.Remove` takes only empty ones.
pub mod Laws
pub mod History
use repo_sync.Base.{
  ℕ, ◌+◌, Bool, true, false, not, ◌&&◌, ◌||◌, Option, none, some, List, [], ◌∷◌, ◌++◌,
}
use repo_sync.Base.{◌==◌, nat_eq, list_eq, contains, ltb, if◌then◌else◌}
use repo_sync.Base.Bytes.{Bytes, has_suffix}
use repo_sync.Base.Clock.{Time, Duration, sub_time}
use repo_sync.Base.Dict.{Dict, lookup, insert, erase, retain}
use repo_sync.Base.Paths.{last_segment}
use repo_sync.Fetch.Names.{
  staged_suffix, partial_suffix, lock_file_name, prune_state_name, discover_state_name,
  missing_state_name,
}

-- `none` is the nil set of a run that does not prune.
abbrev pub KeepSet : Type 0
KeepSet = Option (List Bytes)

unfoldable pub new_keep_set : Bool → KeepSet
new_keep_set enabled = if enabled then some [] else none

unfoldable pub keep_add : Bytes → KeepSet → KeepSet
keep_add name none = none
keep_add name (some paths) = some (name ∷ paths)

unfoldable pub keep_has : KeepSet → Bytes → Bool
keep_has none name = false
keep_has (some paths) name = contains paths name

abbrev pub Grace : Type 0
Grace = Dict Bytes Time

-- The files that the walk passes over.
unfoldable pub is_bookkeeping : Bytes → Bool
unfolding last_segment
is_bookkeeping rel =
    let base = last_segment rel in
    base == prune_state_name
    || (base == missing_state_name || (base == discover_state_name || base == lock_file_name))

unfoldable pub is_internal : Bytes → Bool
unfolding last_segment has_suffix
is_internal rel =
    let base = last_segment rel in has_suffix base staged_suffix || has_suffix base partial_suffix

-- The parameters of one call, with the time that `time.Now` gives, and whether `os.Remove` succeeds
-- on a file.
pub record Pass : Type 0 where
  pub keep : KeepSet
  pub grace : Duration
  pub dry_run : Bool
  pub now : Time
  pub removable : Bytes → Bool

pub record Walk : Type 0 where
  pub state : Grace
  pub removed : List Bytes
  pub pruned : ℕ

remove_file : Pass → Bytes → Walk → Walk
remove_file p rel w =
    if p.dry_run
    then record w { pruned = w.pruned + 1 }
    else if p.removable rel
    then record { state = erase rel w.state; removed = rel ∷ w.removed; pruned = w.pruned + 1 }
    else w

-- The walk's function, on a file.
unfoldable pub visit : Pass → Bytes → Walk → Walk
unfolding remove_file
visit p rel w =
    if is_bookkeeping rel
    then w
    else if keep_has p.keep rel
    then record w { state = erase rel w.state }
    else if ltb 0 p.grace && not (is_internal rel)
    then elim (lookup rel w.state) [
      | none ↦ if p.dry_run then w else record w { state = insert rel p.now w.state }
      | some first ↦ if ltb (sub_time p.now first) p.grace then w else remove_file p rel w
    ]
    else remove_file p rel w

unfoldable pub walk : Pass → List Bytes → Walk → Walk
walk p [] w = w
walk p (rel ∷ rest) w = walk p rest (visit p rel w)

abbrev pub load_prune_state : Option Grace → Grace
load_prune_state none = []
load_prune_state (some state) = state

unfoldable pub save_prune_state : Grace → Option Grace
save_prune_state [] = none
save_prune_state (x ∷ state) = some (x ∷ state)

-- The state file, the files removed and the count. `walked` are the files that the walk reached,
-- `unwalked` those that it did not, after an error. A write of the state file succeeds.
unfoldable pub prune_tree :
    Pass → List Bytes → List Bytes → Option Grace → Option Grace × List Bytes × ℕ
unfolding walk save_prune_state
prune_tree p walked unwalked file =
    let state = if ltb 0 p.grace then load_prune_state file else [] in
    let w = walk p walked (record { state = state; removed = []; pruned = 0 }) in
    let exists = λ (rel : Bytes) (_ : Time).
      contains (walked ++ unwalked) rel && not (contains w.removed rel) in
    elim p.keep [
      | none ↦ (file, [], 0)
      | some _ ↦ (
        if ltb 0 p.grace && not p.dry_run then save_prune_state (retain exists w.state) else file,
        w.removed,
        w.pruned,
      )
    ]
