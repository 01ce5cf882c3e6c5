-- ===== src/Mirror/Apk/Laws.antt =====
-- mirror/apk.go: the index goes live behind its packages.
use mathlib.Core.Path.{subst}
use repo_sync.Base.{
  ◌≡◌, ◌⊎◌, inl, inr, refl, ◌∙◌, sym, ap, Bool, true, false, Option, none, some, List,
  if◌then◌else◌, arith,
}
use repo_sync.Base.Bytes.{Bytes}
use repo_sync.Fetch.Download.{LocalFile, Slot, FetchError, Outcome, done, failed}
use repo_sync.Fetch.Promote.{staged_or_final, promote_or_discard, promote_staged}
use repo_sync.Fetch.Prune.{new_keep_set}
use repo_sync.Fetch.Jobs.{Job, Pool, Tree, many, Transfers}
use repo_sync.Mirror.Staging.{stage_file}
use repo_sync.Mirror.Staging.Laws.{stage_file_live}
use repo_sync.Mirror.Targets.{apk_index_name}
use repo_sync.Fetch.LocalPath.{local_join}
use repo_sync.Base.{ℕ, zero, suc, All, some_inj, [], ◌∷◌, get_elem?}
use repo_sync.Fetch.Jobs.Complete.{HasEnded, Ended, many-HasEnded}
use repo_sync.Mirror.Apk.{ApkPackage, add_job, filename}
use repo_sync.Mirror.Apk.{
  parse_apk_index, package_jobs, ApkOptions, ApkRun, ApkState, Synced, pool_of, verified, end_run,
  after_promote, publish_index, after_pool, sync_packages, with_jobs, with_lines, with_file,
  after_index, stage_index, sync_apk,
}

add_job-required :
    (p : ApkPackage) (o : Option Bytes) (rest : Option (List Job)) (jobs : List Job)
    → add_job p o rest ≡ some jobs
    → ((js : List Job) → rest ≡ some js → All (λ (j : Job). j.optional ≡ false) js)
    → All (λ (j : Job). j.optional ≡ false) jobs
add_job-required p none rest jobs h k = absurd (cc)
add_job-required p (some dst) none jobs h k = absurd (cc)
add_job-required p (some dst) (some js) jobs h k =
    subst (λ (js : List Job). All (λ (j : Job). j.optional ≡ false) js) (some_inj h)
      (refl, k js refl)

package_jobs-required :
    (dest : Bytes) (ps : List ApkPackage) (jobs : List Job)
    → package_jobs dest ps ≡ some jobs
    → All (λ (j : Job). j.optional ≡ false) jobs
unfolding package_jobs
package_jobs-required dest [] [] h = tt
package_jobs-required dest [] (j ∷ jobs) h = absurd (cc)
package_jobs-required dest (p ∷ ps) jobs h =
    add_job-required p (local_join dest (filename p)) (package_jobs dest ps) jobs h
      (λ js e. package_jobs-required dest ps js e)

All-get_elem? :
    (jobs : List Job) (i : ℕ) (job : Job)
    → All (λ (j : Job). j.optional ≡ false) jobs
    → get_elem? jobs i ≡ some job
    → job.optional ≡ false
All-get_elem? [] i job h at = absurd (cc)
All-get_elem? (j ∷ jobs) zero job h at = subst (λ (j : Job). j.optional ≡ false) (some_inj at) h.0
All-get_elem? (j ∷ jobs) (suc i) job h at = All-get_elem? jobs i job h.1 at

-- The pool of a run's packages, from the tree that the run finds.
abbrev pub package_pool : ApkOptions → ApkRun → ApkState → List Job → Pool
package_pool opts run s jobs =
    many (record (run.transfers) { verify = opts.verify }) jobs run.order
      (pool_of (record s { keep = new_keep_set opts.prune }))

-- Every job of the packages that the index names comes to its end.
abbrev pub AllEnd : ApkOptions → ApkRun → Type 0
AllEnd opts run =
    (f : LocalFile) (lines : List Bytes) (jobs : List Job) (i : ℕ) (job : Job)
    → run.unpack f ≡ some lines
    → package_jobs opts.dest (parse_apk_index lines) ≡ some jobs
    → get_elem? jobs i ≡ some job
    → Ended (record (run.transfers) { verify = opts.verify }) jobs run.order i

module _ (opts : ApkOptions) (run : ApkRun) (live : opts.dry_run ≡ false) (first : ApkState)
    (tracked : first.miss ≡ none) (all_end : AllEnd opts run) where
  -- An index whose packages the run's pool transferred into the tree, or found there, each of them and
  -- without an error.
  abbrev pub IsBacked : LocalFile → Tree → Type 0
  IsBacked f tree =
      (lines : List Bytes) × (jobs : List Job) × (run.unpack f ≡ some lines)
      × (package_jobs opts.dest (parse_apk_index lines) ≡ some jobs)
      × (let q = package_pool opts run first jobs in
          (q.error ≡ none)
          × (tree ≡ q.tree)
          × ((i : ℕ) (job : Job) → get_elem? jobs i ≡ some job → HasEnded job i q))

  abbrev begun : Pool
  begun = pool_of (record first { keep = new_keep_set opts.prune })

  pool-IsBacked :
      (f : LocalFile) (lines : List Bytes) (jobs : List Job)
      → run.unpack f ≡ some lines
      → package_jobs opts.dest (parse_apk_index lines) ≡ some jobs
      → (package_pool opts run first jobs).error ≡ none
      → IsBacked f (package_pool opts run first jobs).tree
  pool-IsBacked f lines jobs unpacked made clean =
      let t : Transfers = record (run.transfers) { verify = opts.verify } in
      let required = package_jobs-required opts.dest (parse_apk_index lines) jobs made in
      (
        lines,
        jobs,
        unpacked,
        made,
        (
          clean,
          refl,
          λ i job at.
              many-HasEnded t jobs run.order begun i job
                (all_end f lines jobs i job unpacked made at) at
                (All-get_elem? jobs i job required at) tracked clean,
        ),
      )

  -- The index stays, or the new one is backed by its packages.
  abbrev pub IsOrdered : Option LocalFile → Synced → Type 0
  IsOrdered old x =
      (x.1.index.dst ≡ old) ⊎ ((f : LocalFile) × (x.1.index.dst ≡ some f) × IsBacked f x.1.tree)

  promoted :
      (dry_run disk_ok : Bool) (slot : Slot)
      → dry_run ≡ false
      → ((promote_or_discard dry_run disk_ok slot).1.dst ≡ slot.dst)
        ⊎ ((promote_or_discard dry_run disk_ok slot).1.dst ≡ staged_or_final slot)
  unfolding promote_or_discard promote_staged staged_or_final
  promoted true disk_ok slot h = absurd (cc)
  promoted false true slot h = inr (ground arith)
  promoted false false slot h = inl (ground arith)

  after_promote_index :
      (dst : Bytes) (x : Bool × Slot) (s : ApkState)
      → ((after_promote opts run dst x s).1.index ≡ x.1)
        × ((after_promote opts run dst x s).1.tree ≡ s.tree)
  unfolding end_run
  after_promote_index dst (false, slot) s = (refl, refl)
  after_promote_index dst (true, slot) s = (refl, refl)

  publish_index-IsOrdered :
      (dst : Bytes) (f : LocalFile) (s : ApkState)
      → staged_or_final s.index ≡ some f
      → IsBacked f s.tree
      → IsOrdered s.index.dst (publish_index opts run dst s)
  unfolding publish_index
  publish_index-IsOrdered dst f s at backed =
      let x = promote_or_discard opts.dry_run run.disk_ok s.index in
      let (same, tree) = after_promote_index dst x s in
      elim (promoted opts.dry_run run.disk_ok s.index live) [
        | inl old ↦ inl (ap (λ (i : Slot). i.dst) same ∙ old)
        | inr new ↦ inr (
          f,
          ap (λ (i : Slot). i.dst) same ∙ new ∙ at,
          subst (λ (t : Tree). IsBacked f t) (sym tree) backed,
        )
      ]

  after_pool-IsOrdered :
      (dst : Bytes) (f : LocalFile) (lines : List Bytes) (jobs : List Job) (e : Option FetchError)
      (s : ApkState)
      → staged_or_final s.index ≡ some f
      → run.unpack f ≡ some lines
      → package_jobs opts.dest (parse_apk_index lines) ≡ some jobs
      → (package_pool opts run first jobs).error ≡ e
      → IsOrdered s.index.dst (after_pool opts run dst (package_pool opts run first jobs) e s)
  after_pool-IsOrdered dst f lines jobs none s at unpacked made clean =
      let q = package_pool opts run first jobs in
      publish_index-IsOrdered dst f (record s { tree = q.tree; keep = q.keep; miss = q.miss }) at
        (pool-IsBacked f lines jobs unpacked made clean)
  after_pool-IsOrdered dst f lines jobs (some err) s at unpacked made e = inl refl

  if-IsOrdered :
      (b : Bool) (old : Option LocalFile) (x y : Synced)
      → b ≡ false
      → IsOrdered old y
      → IsOrdered old (if b then x else y)
  if-IsOrdered true old x y h k = absurd (cc)
  if-IsOrdered false old x y h k = k

  with_jobs-IsOrdered :
      (dst : Bytes) (f : LocalFile) (lines : List Bytes) (o : Option (List Job)) (s : ApkState)
      → staged_or_final s.index ≡ some f
      → run.unpack f ≡ some lines
      → package_jobs opts.dest (parse_apk_index lines) ≡ o
      → pool_of s ≡ begun
      → IsOrdered s.index.dst (with_jobs opts run dst o s)
  unfolding sync_packages
  with_jobs-IsOrdered dst f lines none s at unpacked made same = inl refl
  with_jobs-IsOrdered dst f lines (some jobs) s at unpacked made same =
      if-IsOrdered opts.dry_run s.index.dst _ _ live (
        subst
          (λ (p : Pool).
            let q = many (verified opts run dst) jobs run.order p in
            IsOrdered s.index.dst (after_pool opts run dst q q.error s))
          (sym same)
          (after_pool-IsOrdered dst f lines jobs (package_pool opts run first jobs).error s at
            unpacked made refl))

  with_lines-IsOrdered :
      (dst : Bytes) (f : LocalFile) (o : Option (List Bytes)) (s : ApkState)
      → staged_or_final s.index ≡ some f
      → run.unpack f ≡ o
      → pool_of s ≡ begun
      → IsOrdered s.index.dst (with_lines opts run dst o s)
  with_lines-IsOrdered dst f none s at unpacked same = inl refl
  with_lines-IsOrdered dst f (some lines) s at unpacked same =
      with_jobs-IsOrdered dst f lines (package_jobs opts.dest (parse_apk_index lines)) s at unpacked
        refl same

  with_file-IsOrdered :
      (dst : Bytes) (o : Option LocalFile) (s : ApkState)
      → staged_or_final s.index ≡ o
      → pool_of s ≡ begun
      → IsOrdered s.index.dst (with_file opts run dst o s)
  with_file-IsOrdered dst none s at same = inl refl
  with_file-IsOrdered dst (some f) s at same =
      with_lines-IsOrdered dst f (run.unpack f) s at refl same

  after_index-IsOrdered :
      (dst : Bytes) (o : Outcome) (s : ApkState)
      → pool_of s ≡ begun
      → IsOrdered s.index.dst (after_index opts run dst o s)
  after_index-IsOrdered dst (failed e) s same = inl refl
  after_index-IsOrdered dst (done state) s same =
      with_file-IsOrdered dst (staged_or_final s.index) s refl same

  stage_index-IsOrdered :
      (dst : Bytes) (s : ApkState)
      → pool_of s ≡ begun
      → IsOrdered s.index.dst (stage_index opts run dst s)
  unfolding stage_index
  stage_index-IsOrdered dst s same =
      let r = stage_file run.transfers.digest run.transfers.live false run.ask s.index in
      subst
        (λ (old : Option LocalFile).
          IsOrdered old (after_index opts run dst r.0 (record s { index = r.1 })))
        (stage_file_live run.transfers.digest run.transfers.live false run.ask s.index)
        (after_index-IsOrdered dst r.0 (record s { index = r.1 }) same)

  opt-IsOrdered :
      (o : Option Bytes) (old : Option LocalFile) (x : Synced) (y : Bytes → Synced)
      → IsOrdered old x
      → ((dst : Bytes) → IsOrdered old (y dst))
      → IsOrdered old (elim o as (λ (o : Option Bytes). Synced) [ none ↦ x | some dst ↦ y dst ])
  opt-IsOrdered none old x y h k = h
  opt-IsOrdered (some dst) old x y h k = k dst

  -- A run of an apk repository that is no dry run, keeps no record of missing files and waits for every
  -- job of its pool leaves the live index as it was, or the new one is what the run unpacked, and each
  -- package that it names was fetched or found in place by the run's pool, which reported no error and
  -- left the tree as it is: whatever the mirror sends, and wherever the run stops.
  pub sync_apk-IsOrdered : IsOrdered first.index.dst (sync_apk opts run first)
  unfolding sync_apk
  sync_apk-IsOrdered =
      opt-IsOrdered (local_join opts.dest apk_index_name) first.index.dst _ _ (inl refl)
        (λ dst. stage_index-IsOrdered dst (record first { keep = new_keep_set opts.prune }) refl)
