-- ===== src/Mirror/Run/Laws.antt =====
-- mirror/sync.go: what the summary and the error of a whole run say.
use repo_sync.Base.{
  ℕ, ◌+◌, ◌≡◌, refl, ◌∙◌, ap, Bool, true, false, not, ◌&&◌, ◌||◌, Option, none, some, List, [], ◌∷◌,
  ltb, length, arith, if◌then◌else◌,
}
use repo_sync.Mirror.Targets.{RepoTarget, FileTarget}
use repo_sync.Fetch.Stats.{Counters, no_counts}
use repo_sync.Mirror.Run.{
  Summary, add_counts, add, changed, RunError, SyncErrors, ended, Outcome, started, judged, ends,
  sync_repos, after_files, with_files, new_summary, with_targets, sync,
}

abbrev pub has_failed : Option RunError → Bool
has_failed none = false
has_failed (some e) = true

abbrev pub did_change : Counters → Bool
did_change c = ltb 0 c.fetched || ltb 0 c.pruned

or_assoc : (a b c : Bool) → ((a || b) || c) ≡ (a || (b || c))
or_assoc a b c = ground arith

module _ {W : Type 0} (stops : W → Bool) (sync_one : RepoTarget → W → Outcome W)
    (sync_files : List FileTarget → W → Outcome W) where
  -- The runs of the repositories, each on what the one before it left.
  abbrev pub runs : List RepoTarget → W → List (Outcome W)
  runs [] w = []
  runs (r ∷ rs) w = sync_one r w ∷ runs rs (sync_one r w).1.1

  abbrev pub left : List RepoTarget → W → W
  left [] w = w
  left (r ∷ rs) w = left rs (sync_one r w).1.1

  -- Nothing cancels the run.
  abbrev pub IsCalm : List RepoTarget → W → Type 0
  IsCalm [] w = stops w ≡ false
  IsCalm (r ∷ rs) w =
      (stops w ≡ false)
      × (ends stops sync_one sync_files (sync_one r w).0 ≡ false)
      × IsCalm rs (sync_one r w).1.1

  abbrev pub failures : List (Outcome W) → ℕ
  failures [] = 0
  failures (o ∷ os) = (if has_failed o.0 then 1 else 0) + failures os

  abbrev pub any_change : List (Outcome W) → Bool
  any_change [] = false
  any_change (o ∷ os) = did_change o.1.0 || any_change os

  -- What the loop makes of a summary.
  record IsTotal (rs : List RepoTarget) (s : Summary) (w : W) (x : Option RunError × (Summary × W))
      : Type 0 where
    pub ended : x.0 ≡ none
    pub world : x.1.1 ≡ left rs w
    pub repositories : x.1.0.repositories ≡ s.repositories + length rs
    pub failed : x.1.0.failed ≡ s.failed + failures (runs rs w)
    pub dry_run : x.1.0.dry_run ≡ s.dry_run
    pub change : did_change x.1.0.counts ≡ (did_change s.counts || any_change (runs rs w))

  did_change-add : (a b : Counters) → did_change (add_counts a b) ≡ (did_change a || did_change b)
  did_change-add a b = ground arith

  if-IsTotal :
      (rs : List RepoTarget) (s : Summary) (w : W) (b : Bool)
      (x y : Option RunError × (Summary × W))
      → b ≡ false
      → IsTotal rs s w y
      → IsTotal rs s w (if b then x else y)
  if-IsTotal rs s w true x y h k = absurd (cc)
  if-IsTotal rs s w false x y h k = k

  -- The summary after one repository.
  abbrev pub after_one : Outcome W → Summary → Summary
  unfolding add
  after_one o s =
      judged stops sync_one sync_files o.0 (add o.1.0 (started stops sync_one sync_files s))

  after_one-repositories :
      (e : Option RunError) (c : Counters) (v : W) (s : Summary)
      → (after_one (e, (c, v)) s).repositories ≡ s.repositories + 1
  unfolding after_one add
  after_one-repositories none c v s = refl
  after_one-repositories (some e) c v s = refl

  after_one-failed :
      (e : Option RunError) (c : Counters) (v : W) (s : Summary)
      → (after_one (e, (c, v)) s).failed ≡ s.failed + (if has_failed e then 1 else 0)
  unfolding after_one add
  after_one-failed none c v s = omega arith
  after_one-failed (some e) c v s = refl

  after_one-dry_run :
      (e : Option RunError) (c : Counters) (v : W) (s : Summary)
      → (after_one (e, (c, v)) s).dry_run ≡ s.dry_run
  unfolding after_one add
  after_one-dry_run none c v s = refl
  after_one-dry_run (some e) c v s = refl

  after_one-counts :
      (e : Option RunError) (c : Counters) (v : W) (s : Summary)
      → (after_one (e, (c, v)) s).counts ≡ add_counts s.counts c
  unfolding after_one add
  after_one-counts none c v s = refl
  after_one-counts (some e) c v s = refl

  step-IsTotal :
      (r : RepoTarget) (rs : List RepoTarget) (s : Summary) (w : W)
      (x : Option RunError × (Summary × W))
      → IsTotal rs (after_one (sync_one r w) s) (sync_one r w).1.1 x
      → IsTotal (r ∷ rs) s w x
  step-IsTotal r rs s w x h =
      let o = sync_one r w in
      record {
        ended = h.ended;
        world = h.world;
        repositories = omega (arith, h.repositories, after_one-repositories o.0 o.1.0 o.1.1 s);
        failed = omega (arith, h.failed, after_one-failed o.0 o.1.0 o.1.1 s);
        dry_run = h.dry_run ∙ after_one-dry_run o.0 o.1.0 o.1.1 s;
        change =
            h.change
            ∙ ap (λ c. did_change c || any_change (runs rs o.1.1))
                (after_one-counts o.0 o.1.0 o.1.1 s)
            ∙ ap (λ b. b || any_change (runs rs o.1.1)) (did_change-add s.counts o.1.0)
            ∙ or_assoc (did_change s.counts) (did_change o.1.0) (any_change (runs rs o.1.1));
      }

  sync_repos-IsTotal :
      (rs : List RepoTarget) (s : Summary) (w : W)
      → IsCalm rs w
      → IsTotal rs s w (sync_repos stops sync_one sync_files rs s w)
  unfolding sync_repos
  sync_repos-IsTotal [] s w calm = record {
    ended = refl;
    world = refl;
    repositories = omega arith;
    failed = omega arith;
    dry_run = refl;
    change = ground arith;
  }
  sync_repos-IsTotal (r ∷ rs) s w (go, fine, calm) = if-IsTotal (r ∷ rs) s w (stops w) _ _ go (
      if-IsTotal (r ∷ rs) s w (ends stops sync_one sync_files (sync_one r w).0) _ _ fine (
        step-IsTotal r rs s w _
          (sync_repos-IsTotal rs (after_one (sync_one r w) s) (sync_one r w).1.1 calm)))

  IsCalm-stops : (rs : List RepoTarget) (w : W) → IsCalm rs w → stops (left rs w) ≡ false
  IsCalm-stops [] w calm = calm
  IsCalm-stops (r ∷ rs) w (go, fine, calm) = IsCalm-stops rs (sync_one r w).1.1 calm

  -- The run of the loose files, if there are any.
  abbrev pub files_run : List FileTarget → W → Outcome W
  files_run [] w = (none, (no_counts, w))
  files_run (f ∷ fs) w = sync_files (f ∷ fs) w

  -- What the files add to a summary.
  record IsWhole (s : Summary) (o : Outcome W) (x : SyncErrors × (Summary × W)) : Type 0 where
    pub error : x.0 ≡ ended s.failed o.0
    pub repositories : x.1.0.repositories ≡ s.repositories
    pub failed : x.1.0.failed ≡ s.failed
    pub dry_run : x.1.0.dry_run ≡ s.dry_run
    pub change : did_change x.1.0.counts ≡ (did_change s.counts || did_change o.1.0)

  after_files-IsWhole :
      (e : Option RunError) (c : Counters) (v : W) (s : Summary)
      → ends stops sync_one sync_files e ≡ false
      → IsWhole s (e, (c, v)) (after_files stops sync_one sync_files (e, (c, v)) s)
  unfolding add
  after_files-IsWhole none c v s fine = record {
    error = refl;
    repositories = refl;
    failed = refl;
    dry_run = refl;
    change = did_change-add s.counts c;
  }
  after_files-IsWhole (some e) c v s fine = rw fine (record {
    error = refl;
    repositories = refl;
    failed = refl;
    dry_run = refl;
    change = did_change-add s.counts c;
  })

  if-IsWhole :
      (b : Bool) (s : Summary) (o : Outcome W) (x y : SyncErrors × (Summary × W))
      → b ≡ false
      → IsWhole s o y
      → IsWhole s o (if b then x else y)
  if-IsWhole true s o x y h k = absurd (cc)
  if-IsWhole false s o x y h k = k

  with_files-IsWhole :
      (files : List FileTarget) (s : Summary) (w : W)
      → stops w ≡ false
      → ends stops sync_one sync_files (files_run files w).0 ≡ false
      → IsWhole s (files_run files w) (with_files stops sync_one sync_files files (none, (s, w)))
  with_files-IsWhole [] s w go fine = record {
    error = refl;
    repositories = refl;
    failed = refl;
    dry_run = refl;
    change = ground arith;
  }
  with_files-IsWhole (f ∷ fs) s w go fine =
      let o = sync_files (f ∷ fs) w in
      if-IsWhole (stops w) s o _ _ go (after_files-IsWhole o.0 o.1.0 o.1.1 s fine)

  -- What the end of a run says of the runs in it.
  abbrev pub IsReport :
      (dry_run : Bool) → List RepoTarget → List FileTarget → W → SyncErrors × (Summary × W) → Type 0
  IsReport dry_run repos files w x =
      let os = runs repos w in
      let o = files_run files (left repos w) in
      (x.0 ≡ ended (failures os) o.0)
      × (x.1.0.repositories ≡ length repos)
      × (x.1.0.failed ≡ failures os)
      × (changed x.1.0 ≡ (not dry_run && (any_change os || did_change o.1.0)))

  changed_lem : (s : Summary) → changed s ≡ (not s.dry_run && did_change s.counts)
  unfolding changed
  changed_lem s = ground arith

  after_repos-IsReport :
      (dry_run : Bool) (repos : List RepoTarget) (files : List FileTarget) (w : W)
      (x : Option RunError × (Summary × W))
      → IsCalm repos w
      → ends stops sync_one sync_files (files_run files (left repos w)).0 ≡ false
      → IsTotal repos (new_summary stops sync_one sync_files dry_run) w x
      → IsReport dry_run repos files w (with_files stops sync_one sync_files files x)
  after_repos-IsReport dry_run repos files w (some e, (s, v)) calm fine t =
      absurd (ground (arith, t.ended))
  after_repos-IsReport dry_run repos files w (none, (s, v)) calm fine t =
      let same : files_run files v ≡ files_run files (left repos w) =
        ap (files_run files) t.world in
      let h =
        with_files-IsWhole files s v (ap stops t.world ∙ IsCalm-stops repos w calm)
          (ap (λ (o : Outcome W). ends stops sync_one sync_files o.0) same ∙ fine) in
      let y = (with_files stops sync_one sync_files files (none, (s, v))).1.0 in
      (
        h.error
            ∙ ap (λ n. ended n (files_run files v).0) (omega (arith, t.failed))
            ∙ ap (λ (o : Outcome W). ended (failures (runs repos w)) o.0) same,
        omega (arith, h.repositories, t.repositories),
        omega (arith, h.failed, t.failed),
        changed_lem y
            ∙ ap (λ b. not b && did_change y.counts) (h.dry_run ∙ t.dry_run)
            ∙ ap (λ b. not dry_run && b)
                (h.change
                  ∙ ap (λ b. b || did_change (files_run files v).1.0) t.change
                  ∙ ap (λ (o : Outcome W). any_change (runs repos w) || did_change o.1.0) same),
      )

  abbrev pub has_targets : List RepoTarget → List FileTarget → Bool
  has_targets [] [] = false
  has_targets [] (f ∷ fs) = true
  has_targets (r ∷ rs) fs = true

  with_targets-IsReport :
      (dry_run : Bool) (repos : List RepoTarget) (files : List FileTarget) (w : W)
      → has_targets repos files ≡ true
      → IsCalm repos w
      → ends stops sync_one sync_files (files_run files (left repos w)).0 ≡ false
      → IsReport dry_run repos files w
          (with_targets stops sync_one sync_files dry_run none (repos, files) w)
  with_targets-IsReport dry_run [] [] w has calm fine = absurd (cc)
  with_targets-IsReport dry_run [] (f ∷ fs) w has calm fine =
      after_repos-IsReport dry_run [] (f ∷ fs) w _ calm fine
        (sync_repos-IsTotal [] (new_summary stops sync_one sync_files dry_run) w calm)
  with_targets-IsReport dry_run (r ∷ rs) fs w has calm fine =
      after_repos-IsReport dry_run (r ∷ rs) fs w _ calm fine
        (sync_repos-IsTotal (r ∷ rs) (new_summary stops sync_one sync_files dry_run) w calm)

  -- A run that holds the lock, has targets and is not cancelled runs each repository on what the ones
  -- before it left, and then the files, whatever fails: its error names the number of repositories that
  -- failed and the error of the files, its summary counts the repositories and the failures, and it says
  -- that the run changed something exactly if it is no dry run and some run in it, one that failed
  -- included, fetched or pruned a file.
  pub sync-IsReport :
      (dry_run : Bool) (resolve : W → Option RunError × ((List RepoTarget × List FileTarget) × W))
      (w v : W) (repos : List RepoTarget) (files : List FileTarget)
      → resolve w ≡ (none, ((repos, files), v))
      → has_targets repos files ≡ true
      → IsCalm repos v
      → ends stops sync_one sync_files (files_run files (left repos v)).0 ≡ false
      → IsReport dry_run repos files v (sync stops sync_one sync_files dry_run true resolve w)
  unfolding sync
  sync-IsReport dry_run resolve w v repos files e has calm fine =
      rw (e, sync) (with_targets-IsReport dry_run repos files v has calm fine)
