-- ===== src/Fetch/Prune/Laws.antt =====
-- fetch/fetch.go, `PruneTree`: what one call does to one file.
use mathlib.Core.List.{append-nil}
use mathlib.Core.Path.{subst}
use repo_sync.Base.{
  ℕ, ◌≡◌, refl, ap, sym, ◌∙◌, Bool, true, false, not, ◌&&◌, ◌||◌, Option, none, some, List, [],
}
use repo_sync.Base.{◌∷◌, ◌++◌, arith, ◌==◌, nat_eq, list_eq, contains, ltb, if◌then◌else◌}
use repo_sync.Base.Bytes.{Bytes}
use repo_sync.Base.Clock.{Time, sub_time}
use repo_sync.Base.Dict.{
  lookup, retain, NodupKeys, lookup-insert, lookup-erase, lookup-retain, insert-NodupKeys,
  erase-NodupKeys, retain-NodupKeys,
}
use repo_sync.Fetch.Prune.{
  keep_has, Grace, is_bookkeeping, is_internal, Pass, Walk, visit, walk, load_prune_state,
  save_prune_state, prune_tree,
}

abbrev pub Distinct : List Bytes → Type 0
Distinct [] = Unit
Distinct (x ∷ xs) = (contains xs x ≡ false) × Distinct xs

-- The fate of one file, from the time since which it has been unreferenced: the time afterwards,
-- and whether the file is removed.
unfoldable pub fate : Pass → Bytes → Option Time → Option Time × Bool
fate p rel first =
    if is_bookkeeping rel
    then (first, false)
    else if keep_has p.keep rel
    then (none, false)
    else if ltb 0 p.grace && not (is_internal rel)
    then elim first [
      | none ↦ (if p.dry_run then none else some p.now, false)
      | some t ↦
          if ltb (sub_time p.now t) p.grace
          then (some t, false)
          else if not p.dry_run && p.removable rel
          then (none, true)
          else (some t, false)
    ]
    else if not p.dry_run && p.removable rel
    then (none, true)
    else (first, false)

module _ (p : Pass) (rel : Bytes) where
  visit_self :
      (w : Walk)
      → contains w.removed rel ≡ false
      → (lookup rel (visit p rel w).state ≡ (fate p rel (lookup rel w.state)).0)
        × (contains (visit p rel w).removed rel ≡ (fate p rel (lookup rel w.state)).1)
  unfolding visit fate
  visit_self w h = ground (arith, lookup-insert rel rel p.now w.state, lookup-erase rel rel w.state)

  visit_other :
      (other : Bytes) (w : Walk)
      → (rel == other) ≡ false
      → (lookup rel (visit p other w).state ≡ lookup rel w.state)
        × (contains (visit p other w).removed rel ≡ contains w.removed rel)
  unfolding visit
  visit_other other w h =
      ground (arith, lookup-insert rel other p.now w.state, lookup-erase rel other w.state)

  walk_absent :
      (files : List Bytes) (w : Walk)
      → contains files rel ≡ false
      → (lookup rel (walk p files w).state ≡ lookup rel w.state)
        × (contains (walk p files w).removed rel ≡ contains w.removed rel)
  unfolding walk
  walk_absent [] w h = (refl, refl)
  walk_absent (f ∷ files) w h = ground (arith, walk_absent files (visit p f w), visit_other f w)

  walk-fate :
      (files : List Bytes) (w : Walk)
      → Distinct files
      → contains files rel ≡ true
      → contains w.removed rel ≡ false
      → (lookup rel (walk p files w).state ≡ (fate p rel (lookup rel w.state)).0)
        × (contains (walk p files w).removed rel ≡ (fate p rel (lookup rel w.state)).1)
  unfolding walk
  walk-fate [] w d h k = absurd (cc)
  walk-fate (f ∷ files) w d h k = ground (
    arith,
    walk-fate files (visit p f w) d.1,
    walk_absent files (visit p f w),
    visit_self w,
    visit_other f w,
  )

visit-NodupKeys :
    (p : Pass) (rel : Bytes) (w : Walk) → NodupKeys w.state → NodupKeys (visit p rel w).state
unfolding visit
visit-NodupKeys p rel w u =
    ground (arith, insert-NodupKeys rel p.now w.state u, erase-NodupKeys rel w.state u)

pub walk-NodupKeys :
    (p : Pass) (files : List Bytes) (w : Walk)
    → NodupKeys w.state
    → NodupKeys (walk p files w).state
unfolding walk
walk-NodupKeys p [] w u = u
walk-NodupKeys p (f ∷ files) w u = walk-NodupKeys p files (visit p f w) (visit-NodupKeys p f w u)

pub load-save : (g : Grace) → load_prune_state (save_prune_state g) ≡ g
unfolding save_prune_state
load-save [] = refl
load-save (x ∷ g) = refl

-- The time since which the state file has a file unreferenced.
abbrev pub since : Bytes → Option Grace → Option Time
since rel file = lookup rel (load_prune_state file)

module _ (p : Pass) (keep files : List Bytes) (file : Option Grace) where
  abbrev pub start : Walk
  start = record { state = load_prune_state file; removed = []; pruned = 0 }

  abbrev pub exists : Walk → Bytes → Time → Bool
  exists w rel _ = contains (files ++ []) rel && not (contains w.removed rel)

  -- A pruning call with a grace period, spelled out.
  pub prune_tree-walk :
      p.keep ≡ some keep
      → p.dry_run ≡ false
      → ltb 0 p.grace ≡ true
      → prune_tree p files [] file ≡ (
          let w = walk p files start in
          (save_prune_state (retain (exists w) w.state), w.removed, w.pruned))
  unfolding prune_tree
  prune_tree-walk k dry grace = rw (k, dry, grace)

  -- A real pruning call with a grace period, whose walk reaches every file once, does to each of them
  -- what `fate` says; the keys of the state file are distinct.
  pub prune_tree-fate :
      (rel : Bytes)
      → p.keep ≡ some keep
      → p.dry_run ≡ false
      → ltb 0 p.grace ≡ true
      → Distinct files
      → NodupKeys (load_prune_state file)
      → contains files rel ≡ true
      → let (file', removed, n) = prune_tree p files [] file in
        let (first, gone) = fate p rel (since rel file) in
        (since rel file' ≡ (if gone then none else first)) × (contains removed rel ≡ gone)
  prune_tree-fate rel k dry grace d u h =
      let w = walk p files start in
      rw (prune_tree-walk k dry grace) (
        ground (
          arith,
          load-save (retain (exists w) w.state),
          walk-fate p rel files start d h refl,
          lookup-retain (exists w) rel w.state (walk-NodupKeys p files start u),
          append-nil files,
        ))

  pub prune_tree-NodupKeys :
      p.keep ≡ some keep
      → p.dry_run ≡ false
      → ltb 0 p.grace ≡ true
      → NodupKeys (load_prune_state file)
      → NodupKeys (load_prune_state (prune_tree p files [] file).0)
  prune_tree-NodupKeys k dry grace u =
      let w = walk p files start in
      let state = retain (exists w) w.state in
      let e : load_prune_state (prune_tree p files [] file).0 ≡ state =
        ap (λ (r : Option Grace × List Bytes × ℕ). load_prune_state r.0)
          (prune_tree-walk k dry grace)
        ∙ load-save state in
      subst (λ g. NodupKeys g) (sym e)
        (retain-NodupKeys (exists w) w.state (walk-NodupKeys p files start u))

visit_keeps :
    (p : Pass) (rel f : Bytes) (w : Walk)
    → (keep_has p.keep rel || is_bookkeeping rel) ≡ true
    → contains (visit p f w).removed rel ≡ contains w.removed rel
unfolding visit
visit_keeps p rel f w h = ground arith

walk_keeps :
    (p : Pass) (rel : Bytes) (files : List Bytes) (w : Walk)
    → (keep_has p.keep rel || is_bookkeeping rel) ≡ true
    → contains (walk p files w).removed rel ≡ contains w.removed rel
unfolding walk
walk_keeps p rel [] w h = refl
walk_keeps p rel (f ∷ files) w h =
    ground (arith, walk_keeps p rel files (visit p f w) h, visit_keeps p rel f w h)

-- What the run references, and the program's own state files, survive every call.
pub prune_tree_keeps :
    (p : Pass) (walked unwalked : List Bytes) (file : Option Grace) (rel : Bytes)
    → (keep_has p.keep rel || is_bookkeeping rel) ≡ true
    → contains (prune_tree p walked unwalked file).1 rel ≡ false
unfolding prune_tree
prune_tree_keeps p walked unwalked file rel h =
    let s : Grace = if ltb 0 p.grace then load_prune_state file else [] in
    ground (arith, walk_keeps p rel walked (record { state = s; removed = []; pruned = 0 }) h)

walk_dry :
    (p : Pass) (files : List Bytes) (w : Walk)
    → p.dry_run ≡ true
    → (walk p files w).removed ≡ w.removed
unfolding walk visit
walk_dry p [] w dry = refl
walk_dry p (f ∷ files) w dry = ground (arith, walk_dry p files (visit p f w) dry)

-- A dry run removes nothing and leaves the state file alone.
pub prune_tree_dry :
    (p : Pass) (walked unwalked : List Bytes) (file : Option Grace)
    → p.dry_run ≡ true
    → ((prune_tree p walked unwalked file).0 ≡ file) × ((prune_tree p walked unwalked file).1 ≡ [])
unfolding prune_tree
prune_tree_dry p walked unwalked file dry =
    let s : Grace = if ltb 0 p.grace then load_prune_state file else [] in
    ground (arith, walk_dry p walked (record { state = s; removed = []; pruned = 0 }) dry)
