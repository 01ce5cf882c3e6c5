-- ===== src/Fetch/Prune/History.antt =====
-- fetch/fetch.go, `PruneTree`: the grace period over the runs of a tree.
use repo_sync.Base.{◌≤◌, ◌≡◌, ◌⊎◌, refl, ap, true, false, Option, none, some, List, []}
use repo_sync.Base.{
  ◌∷◌, ◌++◌, arith, nat_eq, list_eq, contains, ltb, if◌then◌else◌, All, Option-cases, inl, inr,
}
use repo_sync.Base.Bytes.{Bytes}
use repo_sync.Base.Clock.{Time, sub_time}
use repo_sync.Base.Dict.{NodupKeys}
use repo_sync.Fetch.Prune.{
  keep_has, Grace, is_bookkeeping, is_internal, Pass, load_prune_state, prune_tree,
}
use repo_sync.Fetch.Prune.Laws.{Distinct, fate, since, prune_tree-fate, prune_tree-NodupKeys}

-- One pruning run: its parameters, what it keeps, and the files of the tree.
pub record Run : Type 0 where
  pub pass : Pass
  pub keep : List Bytes
  pub files : List Bytes

-- The state file after runs, the latest run first.
unfoldable pub after : List Run → Option Grace → Option Grace
after [] file = file
after (r ∷ older) file = (prune_tree r.pass r.files [] (after older file)).0

module _ (rel : Bytes) where
  -- A real run with a grace period that meets the file.
  pub record IsRun (r : Run) : Type 0 where
    pub prunes : r.pass.keep ≡ some r.keep
    pub real : r.pass.dry_run ≡ false
    pub grace : ltb 0 r.pass.grace ≡ true
    pub distinct : Distinct r.files
    pub met : contains r.files rel ≡ true

  after-NodupKeys :
      (rs : List Run) (file : Option Grace)
      → All IsRun rs
      → NodupKeys (load_prune_state file)
      → NodupKeys (load_prune_state (after rs file))
  unfolding after
  after-NodupKeys [] file h u = u
  after-NodupKeys (r ∷ older) file h u =
      let k : IsRun r = h.0 in
      prune_tree-NodupKeys r.pass r.keep r.files (after older file) k.prunes k.real k.grace
        (after-NodupKeys older file h.1 u)

  abbrev pub Unreferenced : Run → Type 0
  Unreferenced r = keep_has r.pass.keep rel ≡ false

  -- In which run a file became unreferenced: it has been so ever since.
  pub record Since (t : Time) (rs : List Run) : Type 0 where
    pub newer : List Run
    pub run : Run
    pub older : List Run
    pub split : rs ≡ newer ++ run ∷ older
    pub time : run.pass.now ≡ t
    pub unreferenced : All Unreferenced (newer ++ run ∷ [])

  step :
      (r : Run) (older : List Run) (file : Option Grace)
      → IsRun r
      → All IsRun older
      → NodupKeys (load_prune_state file)
      → let (first, gone) = fate r.pass rel (since rel (after older file)) in
        (since rel (after (r ∷ older) file) ≡ (if gone then none else first))
        × (contains (prune_tree r.pass r.files [] (after older file)).1 rel ≡ gone)
  unfolding after
  step r older file k h u =
      prune_tree-fate r.pass r.keep r.files (after older file) rel k.prunes k.real k.grace
        k.distinct (after-NodupKeys older file h u) k.met

  module _ (plain : is_bookkeeping rel ≡ false) (not_internal : is_internal rel ≡ false) where
    still-Unreferenced :
        (r : Run) (older : List Run) (file : Option Grace) (t : Time)
        → IsRun r
        → All IsRun older
        → NodupKeys (load_prune_state file)
        → since rel (after (r ∷ older) file) ≡ some t
        → Unreferenced r
          × ((since rel (after older file) ≡ some t)
              ⊎ ((since rel (after older file) ≡ none) × (r.pass.now ≡ t)))
    unfolding fate
    still-Unreferenced r older file t k h u e = ground (arith, step r older file k h u)

    since-after :
        (rs : List Run) (file : Option Grace) (t : Time)
        → All IsRun rs
        → NodupKeys (load_prune_state file)
        → since rel file ≡ none
        → since rel (after rs file) ≡ some t
        → Since t rs
    unfolding after
    since-after [] file t h u fresh e = absurd (cc)
    since-after (r ∷ older) file t h u fresh e =
        let (now_unreferenced, before) = still-Unreferenced r older file t h.0 h.1 u e in
        elim before [
          | inl seen ↦
              let s : Since t older = since-after older file t h.1 u fresh seen in
              record {
                newer = r ∷ s.newer;
                run = s.run;
                older = s.older;
                split = ap (λ l. r ∷ l) s.split;
                time = s.time;
                unreferenced = (now_unreferenced, s.unreferenced);
              }
          | inr (unseen, same) ↦ record {
            newer = [];
            run = r;
            older = older;
            split = refl;
            time = same;
            unreferenced = (now_unreferenced, tt);
          }
        ]

    removed_by :
        (r : Run) (older : List Run) (file : Option Grace)
        → IsRun r
        → All IsRun older
        → NodupKeys (load_prune_state file)
        → contains (prune_tree r.pass r.files [] (after older file)).1 rel ≡ true
        → (t : Time) × (since rel (after older file) ≡ some t)
          × (r.pass.grace ≤ sub_time r.pass.now t)
          × Unreferenced r
    unfolding fate
    removed_by r older file k h u gone = elim (Option-cases (since rel (after older file))) [
      | inl unseen ↦ absurd (ground (arith, step r older file k h u))
      | inr (t, seen) ↦ (
        t,
        seen,
        ground (arith, step r older file k h u),
        ground (arith, step r older file k h u),
      )
    ]

    -- Of real runs with a grace period above zero, which all meet a file that is neither an internal work
    -- file nor a bookkeeping file and is not in the state file at first: a run that removes the file does
    -- so at least its grace period after an earlier run that met it unreferenced, and neither that run,
    -- nor one since then, nor the removing run itself referenced the file.
    pub removed_after_grace :
        (r : Run) (older : List Run) (file : Option Grace)
        → IsRun r
        → All IsRun older
        → NodupKeys (load_prune_state file)
        → since rel file ≡ none
        → contains (prune_tree r.pass r.files [] (after older file)).1 rel ≡ true
        → Unreferenced r × ((t : Time) × Since t older × (r.pass.grace ≤ sub_time r.pass.now t))
    removed_after_grace r older file k h u fresh gone =
        let (t, seen, late, free) = removed_by r older file k h u gone in
        (free, (t, since-after older file t h u fresh seen, late))
