-- ===== src/Fetch/Missing/Budget.antt =====
-- fetch/missing.go: the retry budget of a file over the runs of a repository. `sync_misses` is the
-- use that a synchronization makes of the tracker: `NewMissing`, a `Tolerate` for each absence, and
-- `Finish`.
use repo_sync.Base.{ℕ, suc, ◌+◌, ◌≡◌, ◌↔◌, refl, ap, Bool, true, false, not, ◌&&◌, ◌||◌}
use repo_sync.Base.{Option, none, some, List, [], ◌∷◌, arith, nat_eq, list_eq, contains}
use repo_sync.Base.{leb, if◌then◌else◌, length, select, All}
use repo_sync.Base.Bytes.{Bytes}
use repo_sync.Base.Dict.{
  Dict, lookup, insert, NodupKeys, lookup-nil, lookup-insert, insert-NodupKeys,
}
use repo_sync.Fetch.Missing.{
  Missing, MissingMode, MissingRecord, Records, StateFile, StillMissing, WriteResult, written,
  missing_retry, load, load_records, new_missing, finish, save, kept_records,
}
use repo_sync.Fetch.Missing.Laws.{
  Miss, missed, miss_all, runs_of, known_of, accepted, pending, seen-miss_all, runs-miss_all,
  known-miss_all, miss_all-IsCounted, dry-miss_all, mode-miss_all,
}

abbrev track : List Miss → Option Missing → Option Missing
track l none = none
track l (some m) = some (miss_all l m)

unfoldable pub sync_misses :
    MissingMode → ℕ → Bool → WriteResult → List Miss → StateFile → Option StillMissing × StateFile
sync_misses mode retries dry w l file = finish w (track l (new_missing file mode retries dry)) file

abbrev joined : Option (Option MissingRecord) → Option MissingRecord → Option MissingRecord
joined none old = old
joined (some none) old = old
joined (some (some r)) old = some r

module _ (path : Bytes) where
  lookup-load_records :
      (d : Dict Bytes (Option MissingRecord)) (acc : Records)
      → NodupKeys d
      → lookup path (load_records d acc) ≡ joined (lookup path d) (lookup path acc)
  unfolding load_records lookup
  lookup-load_records [] acc u = refl
  lookup-load_records ((p, none) ∷ d) acc (fresh, u) = ground (arith, lookup-load_records d acc u)
  lookup-load_records ((p, some r) ∷ d) acc (fresh, u) =
      ground (arith, lookup-load_records d (insert p r acc) u, lookup-insert path p r acc)

  lookup-kept_records :
      (recs : Records) (seen : List Bytes)
      → lookup path (kept_records recs seen)
        ≡ (if contains seen path then some (lookup path recs) else none)
  unfolding kept_records
  lookup-kept_records recs [] = lookup-nil path
  lookup-kept_records recs (p ∷ seen) = ground (
    arith,
    lookup-kept_records recs seen,
    lookup-insert path p (lookup p recs) (kept_records recs seen),
  )

kept_records-NodupKeys : (recs : Records) (seen : List Bytes) → NodupKeys (kept_records recs seen)
unfolding kept_records
kept_records-NodupKeys recs [] = tt
kept_records-NodupKeys recs (p ∷ seen) =
    insert-NodupKeys p (lookup p recs) (kept_records recs seen) (kept_records-NodupKeys recs seen)

-- What a run loads after a `save` that was written.
lookup-load-save :
    (path : Bytes) (m : Missing) (file : StateFile)
    → m.dry_run ≡ false
    → lookup path (load (save written m file))
      ≡ (if contains m.seen path then lookup path m.records else none)
unfolding save load
lookup-load-save path m file h = ground (
  arith,
  lookup-nil {V = MissingRecord} path,
  lookup-load_records path (kept_records m.records m.seen) []
      (kept_records-NodupKeys m.records m.seen),
  lookup-kept_records path m.records m.seen,
)

-- A fresh tracker in the retry mode.
abbrev pub start : ℕ → StateFile → Missing
start retries file = record {
  mode = missing_retry;
  retries = retries;
  dry_run = false;
  records = load file;
  seen = [];
  unresolved = 0;
  first = [];
}

abbrev pub retry_file : ℕ → List Miss → StateFile → StateFile
retry_file retries l file = (sync_misses missing_retry retries false written l file).1

new_missing-retry :
    (file : StateFile) (retries : ℕ)
    → new_missing file missing_retry retries false ≡ some (start retries file)
unfolding new_missing nat_eq list_eq
new_missing-retry file retries = refl

-- A run in the retry mode, with the tracker spelled out.
sync_misses-retry :
    (retries : ℕ) (w : WriteResult) (l : List Miss) (file : StateFile)
    → sync_misses missing_retry retries false w l file
      ≡ finish w (some (miss_all l (start retries file))) file
unfolding sync_misses
sync_misses-retry retries w l file =
    ap (λ o. finish w (track l o) file) (new_missing-retry file retries)

module _ (path : Bytes) (retries : ℕ) where
  lookup-retry_file :
      (l : List Miss) (file : StateFile)
      → lookup path (load (retry_file retries l file))
        ≡ (if missed path l then lookup path (miss_all l (start retries file)).records else none)
  unfolding finish
  lookup-retry_file l file = ground (
    arith,
    ap (λ (r : Option StillMissing × StateFile). r.1) (sync_misses-retry retries written l file),
    lookup-load-save path (miss_all l (start retries file)) file (dry-miss_all l _),
    seen-miss_all path l (start retries file),
  )

  abbrev runs_after : StateFile → ℕ
  runs_after file = runs_of (lookup path (load file))

  abbrev known_after : StateFile → Bool
  known_after file = known_of (lookup path (load file))

  -- One more run that misses the file.
  one_more_run :
      (l : List Miss) (file : StateFile)
      → missed path l ≡ true
      → (runs_after (retry_file retries l file) ≡ runs_after file + 1)
        × (known_after (retry_file retries l file)
            ≡ (leb retries (runs_after file + 1) || known_after file))
  one_more_run l file h =
      let m = start retries file in
      ground (arith, lookup-retry_file l file, runs-miss_all path l m, known-miss_all path l m)

  -- The state file after runs in a row.
  abbrev pub after_runs : List (List Miss) → StateFile → StateFile
  after_runs [] file = file
  after_runs (l ∷ rest) file = after_runs rest (retry_file retries l file)

  abbrev IsKnownBy : StateFile → ℕ → Type 0
  IsKnownBy file n = (runs_after file ≡ n) × (known_after file ≡ (leb 1 n && leb retries n))

  runs_in_a_row :
      (history : List (List Miss)) (file : StateFile) (n : ℕ)
      → IsKnownBy file n
      → All (λ l. missed path l ≡ true) history
      → IsKnownBy (after_runs history file) (n + length history)
  runs_in_a_row [] file n h missing = ground arith
  runs_in_a_row (l ∷ rest) file n h missing =
      let file' = retry_file retries l file in
      ground (arith, one_more_run l file missing.0, runs_in_a_row rest file' (n + 1), missing.1)

  -- A file missed in each of n runs, the first of them without a record of it, counts n runs, and
  -- is accepted as gone exactly if the budget of retries is at most n.
  pub retry_budget :
      (l : List Miss) (rest : List (List Miss)) (file : StateFile)
      → lookup path (load file) ≡ none
      → All (λ run. missed path run ≡ true) (l ∷ rest)
      → let end = after_runs (l ∷ rest) file in
        (runs_after end ≡ suc (length rest)) × (known_after end ≡ leb retries (suc (length rest)))
  retry_budget l rest file fresh missing =
      ground (arith, runs_in_a_row (l ∷ rest) file 0 (rw fresh (refl, refl)) missing)

  -- A run that does not miss the file forgets it, and its budget starts over.
  pub budget_restarts :
      (l : List Miss) (file : StateFile)
      → missed path l ≡ false
      → lookup path (load (retry_file retries l file)) ≡ none
  budget_restarts l file h = ground (arith, lookup-retry_file l file)

module _ (q : Bytes → Bool) where
  select_none :
      (xs : List Bytes) (p : Bytes) → length (select q xs) ≡ 0 → contains xs p ≡ true → q p ≡ false
  select_none [] p h c = absurd (cc)
  select_none (x ∷ xs) p h c = ground (arith, select_none xs p)

  length-select_of_none :
      (xs : List Bytes)
      → ((p : Bytes) → contains xs p ≡ true → q p ≡ false)
      → length (select q xs) ≡ 0
  length-select_of_none [] h = refl
  length-select_of_none (x ∷ xs) h =
      ground (arith, h x, length-select_of_none xs (λ p c. h p (ground arith)))

module _ (retries : ℕ) (l : List Miss) (file : StateFile) where
  abbrev end : Missing
  end = miss_all l (start retries file)

  -- What the budget says of a file missed in this run, by its record before the run.
  abbrev pub in_budget : Bytes → Bool
  in_budget p =
      let old = lookup p (load file) in not (leb retries (runs_of old + 1) || known_of old)

  end-IsCounted : end.unresolved ≡ length (pending missing_retry end.records end.seen)
  end-IsCounted =
      ground (
        arith,
        miss_all-IsCounted l (start retries file) refl,
        mode-miss_all l (start retries file),
      )

  accepted-end :
      (p : Bytes)
      → contains end.seen p ≡ true
      → accepted missing_retry end.records p ≡ not (in_budget p)
  unfolding nat_eq list_eq
  accepted-end p h =
      ground
        (arith, known-miss_all p l (start retries file), seen-miss_all p l (start retries file))

  unresolved_zero :
      (w : WriteResult)
      → (sync_misses missing_retry retries false w l file).0 ≡ none
      → length (pending missing_retry end.records end.seen) ≡ 0
  unfolding finish
  unresolved_zero w h = ground (arith, sync_misses-retry retries w l file, end-IsCounted)

  passes :
      (w : WriteResult)
      → length (pending missing_retry end.records end.seen) ≡ 0
      → (sync_misses missing_retry retries false w l file).0 ≡ none
  unfolding finish
  passes w h = ground (arith, sync_misses-retry retries w l file, end-IsCounted)

  -- A run passes exactly if the budget of each file that it missed is spent.
  pub run_passes_iff :
      (w : WriteResult)
      → ((sync_misses missing_retry retries false w l file).0 ≡ none)
        ↔ ((p : Bytes) → missed p l ≡ true → in_budget p ≡ false)
  run_passes_iff w = (
    λ h p mis. ground (
      arith,
      unresolved_zero w h,
      select_none (λ x. not (accepted missing_retry end.records x)) end.seen p,
      accepted-end p,
      seen-miss_all p l (start retries file),
    ),
    λ h. passes w (
        length-select_of_none _ end.seen
          λ p c. ground (arith, accepted-end p c, h p, seen-miss_all p l (start retries file))),
  )
