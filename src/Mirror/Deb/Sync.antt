-- ===== src/Mirror/Deb/Sync.antt =====
-- mirror/deb.go: `syncDeb` up to the traces and the pruning at its end. The release documents are kept
-- apart from the tree: metadata that names them as other files is not modelled. The answers of the source
-- are parameters, so its change of base is left out.
pub mod Docs
pub mod Fate
pub mod Laws
use repo_sync.Base.{
  ℕ, suc, Bool, true, false, ◌||◌, ◌&&◌, not, Option, none, some, List, [], ◌∷◌, ◌++◌, ◌==◌, nat_eq,
  list_eq, if◌then◌else◌,
}
use repo_sync.Base.Bytes.{Bytes, lit, cut, trim_prefix, trim_right}
use repo_sync.Base.Clock.{Time}
use repo_sync.Base.Dict.{Dict, lookup}
use repo_sync.Fetch.LocalPath.{local_join}
use repo_sync.Fetch.Prune.{KeepSet, new_keep_set, keep_add}
use repo_sync.Fetch.Missing.{Missing, StateFile, WriteResult, StillMissing, finish}
use repo_sync.Fetch.Download.{LocalFile, Slot, FileState, FetchError}
use repo_sync.Fetch.Promote.{promote_or_discard}
use repo_sync.Fetch.Jobs.{Job, Tree, Transfers, Pool, many, Planned, plan_jobs, set_slot}
use repo_sync.Mirror.Signatures.{SignatureMode}
use repo_sync.Mirror.Rpm.Publish.{remove_live}
use repo_sync.Mirror.Deb.Stage.{
  DebError, DebSet, DebRequests, Signatures, Staged, cleanup, stage_deb_release,
}
use repo_sync.Mirror.Deb.Release.{DebFile, DebRelease, parse_release}
use repo_sync.Mirror.Deb.Jobs.{
  Suite, index_jobs, sorted_files, variants, sorted_variants, pool_files, pool_jobs,
}
use repo_sync.Mirror.Deb.ByHash.{LinkDisk, add_by_hash}

pub data SyncError : Type 0 where
  stage_error : DebError → SyncError
  bad_release bad_path bad_index still_missing not_promoted : SyncError
  index_error pool_error : FetchError → SyncError

pub record DebOptions : Type 0 where
  pub repo_dest : Bytes → Option Bytes
  pub components : List Bytes
  pub architectures : List Bytes
  pub dry_run : Bool
  pub verify : Bool
  pub prune : Bool
  pub mode : SignatureMode

-- What a run meets: the answers to its requests, the checks of signatures, the reader of index files,
-- the orders of the maps of checksum fields, the orders in which the jobs of its two pools end, and the
-- disk, which lets some files be promoted or removed.
pub record DebRun : Type 0 where
  pub transfers : Transfers
  pub ask : DebRequests
  pub verifier : Option Signatures
  pub read : Bytes → Option LocalFile → Option (List Bytes)
  pub release_fields : List (Bytes × Bytes)
  pub source_fields : List (Bytes × Bytes)
  pub index_order : List (Time × ℕ)
  pub pool_order : List (Time × ℕ)
  pub write : WriteResult
  pub disk : Bytes → Bool
  pub links : LinkDisk

pub record DebState : Type 0 where
  pub set : DebSet
  pub tree : Tree
  pub keep : KeepSet
  pub miss : Option Missing
  pub missing_file : StateFile
  pub planned : Planned

-- The state after a run, and its error.
abbrev pub Synced : Type 0
Synced = Option SyncError × DebState

-- The archive root and the suite in the path of a URL: a path without `dists` is that of a flat
-- repository.
unfoldable pub split_suite : Bytes → Bytes × Bytes
unfolding cut trim_right
split_suite path = elim (cut path (lit "/dists/")) [
  | none ↦ (path, [])
  | some (root, suite) ↦ (root, trim_right (lit "dists/" ++ suite) b'/')
]

abbrev pub pool_of : DebState → Option Missing → Pool
pool_of s miss = record {
  tree = s.tree;
  keep = s.keep;
  miss = miss;
  states = [];
  missing_count = 0;
  error = none;
}

abbrev pub checked : (verify : Bool) → Transfers → Transfers
checked verify t = record t { verify = verify }

-- One release document: a missing one goes, and a failure to remove it is only logged.
unfoldable pub publish_doc :
    (missing dry_run disk_ok : Bool) → Bytes → Slot → KeepSet → Bool × (Slot × KeepSet)
unfolding remove_live promote_or_discard keep_add
publish_doc true true disk_ok dst slot keep = (true, (slot, keep))
publish_doc true false disk_ok dst slot keep = (true, ((remove_live disk_ok slot).1, keep))
publish_doc false dry_run disk_ok dst slot keep =
    let (ok, next) = promote_or_discard dry_run disk_ok slot in
    (ok, (next, elim next.dst [ none ↦ keep | some f ↦ if ok then keep_add dst keep else keep ]))

-- The place of a release document; its join never fails under an absolute destination.
unfoldable pub doc_path : (dest name : Bytes) → Bytes
unfolding local_join
doc_path dest name = elim (local_join dest name) [ none ↦ name | some dst ↦ dst ]

module _ (run : DebRun) (suite : Suite) where
  abbrev pub after_in_release : Bool × (Slot × KeepSet) → DebState → Synced
  after_in_release (ok, (slot, keep)) s = (
    if ok then none else some not_promoted,
    record s { set = record (s.set) { in_release = slot }; keep = keep },
  )

  abbrev pub publish_in_release : DebState → Synced
  publish_in_release s =
      let dst = doc_path suite.dest_suite (lit "InRelease") in
      after_in_release
        (publish_doc s.set.no_in_release suite.dry_run (run.disk dst) dst s.set.in_release s.keep) s

  abbrev pub after_release : Bool × (Slot × KeepSet) → DebState → Synced
  after_release (false, (slot, keep)) s =
      (some not_promoted, record s { set = record (s.set) { release = slot }; keep = keep })
  after_release (true, (slot, keep)) s =
      publish_in_release (record s { set = record (s.set) { release = slot }; keep = keep })

  abbrev pub publish_release : DebState → Synced
  publish_release s =
      let dst = doc_path suite.dest_suite (lit "Release") in
      after_release
        (publish_doc s.set.no_release suite.dry_run (run.disk dst) dst s.set.release s.keep) s

  abbrev pub after_gpg : Bool × (Slot × KeepSet) → DebState → Synced
  after_gpg (false, (slot, keep)) s =
      (some not_promoted, record s { set = record (s.set) { gpg = slot }; keep = keep })
  after_gpg (true, (slot, keep)) s =
      publish_release (record s { set = record (s.set) { gpg = slot }; keep = keep })

  -- The release documents, in the order of the loop.
  unfoldable pub publish_docs : DebState → Synced
  unfolding publish_doc doc_path
  publish_docs s =
      let dst = doc_path suite.dest_suite (lit "Release.gpg") in
      after_gpg (publish_doc s.set.no_gpg suite.dry_run (run.disk dst) dst s.set.gpg s.keep) s

  -- An index is in place: its links by hash.
  unfoldable pub link_index : DebRelease → Job → DebState → DebState
  unfolding add_by_hash trim_prefix
  link_index rel job s =
      let rel_path = trim_prefix job.req_path suite.prefix in
      let (tree, keep) = add_by_hash run.links job.dst rel_path rel.files (s.tree, s.keep) in
      if rel.acquire_by_hash && not suite.dry_run then record s { tree = tree; keep = keep } else s

  abbrev pub set_tree : Tree → DebState → DebState
  set_tree tree s = record s { tree = tree }

  -- The loop over the indexes.
  unfoldable pub promote_indexes :
      DebRelease → Dict ℕ FileState → ℕ → List Job → DebState → Bool × DebState
  unfolding promote_or_discard link_index lookup
  promote_indexes rel states idx [] s = (true, s)
  promote_indexes rel states idx (job ∷ jobs) s = elim (lookup idx states) [
    | none ↦ promote_indexes rel states (suc idx) jobs s
    | some state ↦
        let (ok, slot) = promote_or_discard suite.dry_run (run.disk job.dst) (s.tree job.dst) in
        let s' = set_tree (set_slot job.dst slot s.tree) s in
        if ok
        then promote_indexes rel states (suc idx) jobs (link_index rel job s')
        else (false, s')
  ]

  -- The last report of missing files, for a release that is not authenticated.
  abbrev pub still : Option StillMissing → Option SyncError
  still none = none
  still (some m) = some still_missing

  unfoldable pub end_run : DebState → Synced
  unfolding finish
  end_run s =
      let (unresolved, file) = finish run.write s.miss s.missing_file in
      if s.set.authenticated
      then (none, s)
      else (still unresolved, record s { missing_file = file })

  abbrev pub after_docs : Synced → Synced
  after_docs (none, s) = end_run s
  after_docs (some e, s) = (some e, s)

  abbrev pub after_promote : Bool × DebState → Synced
  after_promote (false, s) = (some not_promoted, s)
  after_promote (true, s) = after_docs (publish_docs s)

  unfoldable pub publish_suite : DebRelease → Dict ℕ FileState → List Job → DebState → Synced
  unfolding promote_indexes publish_docs end_run
  publish_suite rel states jobs s = after_promote (promote_indexes rel states 0 jobs s)

  abbrev pub unless_missing :
      Option StillMissing → DebRelease → Dict ℕ FileState → List Job → DebState → Synced
  unless_missing none rel states jobs s = publish_suite rel states jobs s
  unless_missing (some m) rel states jobs s = (some still_missing, s)

  -- The report of missing files, which for an authenticated release comes before the promotion.
  unfoldable pub finish_suite : DebRelease → Dict ℕ FileState → List Job → DebState → Synced
  unfolding finish publish_suite
  finish_suite rel states jobs s =
      let (unresolved, file) = finish run.write s.miss s.missing_file in
      if s.set.authenticated
      then unless_missing unresolved rel states jobs (record s { missing_file = file })
      else publish_suite rel states jobs s

  abbrev pub after_pool :
      Option FetchError → DebRelease → Dict ℕ FileState → List Job → DebState → Synced
  after_pool none rel states jobs s = finish_suite rel states jobs s
  after_pool (some e) rel states jobs s = (some (pool_error e), s)

  unfoldable pub sync_pool :
      (verify : Bool) → DebRelease → Dict ℕ FileState → (jobs pool : List Job) → DebState → Synced
  unfolding many plan_jobs finish_suite
  sync_pool verify rel states jobs pool s =
      let t = checked verify run.transfers in
      let (n, keep) = plan_jobs t.digest verify s.tree pool s.planned s.keep in
      let p = many t pool run.pool_order (pool_of s s.miss) in
      if suite.dry_run
      then finish_suite rel states jobs (record s { planned = n; keep = keep })
      else after_pool p.error rel states jobs
          (record s { tree = p.tree; keep = p.keep; miss = p.miss })

  abbrev pub with_jobs :
      (verify : Bool)
      → DebRelease
      → Dict ℕ FileState
      → List Job
      → Option (List Job)
      → DebState
      → Synced
  with_jobs verify rel states jobs none s = (some bad_path, s)
  with_jobs verify rel states jobs (some pool) s = sync_pool verify rel states jobs pool s

  abbrev pub with_pool :
      (verify : Bool)
      → DebRelease
      → Dict ℕ FileState
      → List Job
      → Option (Dict Bytes DebFile)
      → DebState
      → Synced
  with_pool verify rel states jobs none s = (some bad_index, s)
  with_pool verify rel states jobs (some pool) s =
      with_jobs verify rel states jobs (pool_jobs suite.dest_root (sorted_files pool)) s

  abbrev pub after_indexes :
      (verify : Bool)
      → DebRelease
      → Option FetchError
      → Dict ℕ FileState
      → List Job
      → DebState
      → Synced
  after_indexes verify rel (some e) states jobs s = (some (index_error e), s)
  after_indexes verify rel none states jobs s =
      let vs = sorted_variants (variants suite.prefix states 0 jobs []) in
      with_pool verify rel states jobs (pool_files run.read run.source_fields s.tree vs (some [])) s

  -- The indexes, then the pool files that they name.
  unfoldable pub sync_indexes :
      (verify : Bool) → DebRelease → List Job × List Job → DebState → Synced
  unfolding many plan_jobs sync_pool sorted_variants variants pool_files pool_jobs sorted_files
  sync_indexes verify rel (jobs, planned) s =
      let t = checked verify run.transfers in
      let (n, keep) = plan_jobs t.digest verify s.tree planned s.planned s.keep in
      let s' = record s { planned = n; keep = keep } in
      let p = many t jobs run.index_order (pool_of s' none) in
      after_indexes verify rel p.error p.states jobs (record s' { tree = p.tree; keep = p.keep })

  abbrev pub with_indexes :
      (verify : Bool) → DebRelease → Option (List Job × List Job) → DebState → Synced
  with_indexes verify rel none s = (some bad_path, s)
  with_indexes verify rel (some jobs) s = sync_indexes verify rel jobs s

  abbrev pub with_release : (verify : Bool) → Option DebRelease → DebState → Synced
  with_release verify none s = (some bad_release, s)
  with_release verify (some rel) s =
      with_indexes verify rel (index_jobs suite (sorted_files rel.files)) s

  -- The deferred removal of what is still staged.
  abbrev pub clean_up : Synced → Synced
  clean_up (e, s) = (e, record s { set = cleanup s.set })

  abbrev pub after_stage : (verify : Bool) → Option DebError → DebState → Synced
  after_stage verify (some e) s = (some (stage_error e), s)
  after_stage verify none s = clean_up (
      with_release (verify || s.set.authenticated) (parse_release run.release_fields s.set.payload)
        s)

  unfoldable pub sync_suite : (verify : Bool) → SignatureMode → DebState → Synced
  unfolding stage_deb_release cleanup parse_release index_jobs sorted_files sync_indexes
  sync_suite verify mode s =
      let t = run.transfers in
      let (e, set) = stage_deb_release t.digest t.live run.ask mode run.verifier s.set in
      after_stage verify e (record s { set = set })

abbrev pub with_suite :
    DebOptions → DebRun → (root suite : Bytes) → Option Bytes → DebState → Synced
with_suite opts run root suite none s = (some bad_path, s)
with_suite opts run root suite (some dest) s =
    sync_suite run
      (record {
        dest_root = root;
        dest_suite = dest;
        prefix = if suite == [] then [] else suite ++ lit "/";
        components = opts.components;
        architectures = opts.architectures;
        dry_run = opts.dry_run;
      })
      opts.verify opts.mode s

abbrev pub with_root : DebOptions → DebRun → (suite : Bytes) → Option Bytes → DebState → Synced
with_root opts run suite none s = (some bad_path, s)
with_root opts run suite (some root) s =
    with_suite opts run root suite (if suite == [] then some root else local_join root suite) s

-- `syncDeb` on the path of the URL.
unfoldable pub sync_deb : DebOptions → DebRun → Bytes → DebState → Synced
unfolding split_suite local_join new_keep_set sync_suite
sync_deb opts run path s =
    let (root, suite) = split_suite path in
    with_root opts run suite (opts.repo_dest root) (record s { keep = new_keep_set opts.prune })
