-- ===== src/Mirror/Apk.antt =====
-- mirror/apk.go: the parser of an index and `syncApk` up to the traces and the pruning at its end. The
-- index is kept apart from the tree: a package of its name is not modelled.
pub mod Laws
use repo_sync.Base.{
  ℕ, Bool, true, false, ◌&&◌, ◌||◌, not, Option, none, some, List, [], ◌∷◌, ◌++◌, ◌==◌, nat_eq,
  list_eq, ltb, if◌then◌else◌,
}
use repo_sync.Base.Bytes.{Bytes, lit, cut, trim_space}
use repo_sync.Base.Clock.{Time}
use repo_sync.Base.Words.{parse_int}
use repo_sync.Fetch.LocalPath.{local_join}
use repo_sync.Fetch.Prune.{KeepSet, new_keep_set, keep_add}
use repo_sync.Fetch.Missing.{Missing, StateFile, WriteResult, StillMissing, finish}
use repo_sync.Fetch.Download.{
  Expect, LocalFile, Slot, FetchError, Outcome, done, failed, Request, fetch_file,
}
use repo_sync.Fetch.Promote.{staged_or_final, promote_or_discard}
use repo_sync.Fetch.Jobs.{Job, Tree, Transfers, Pool, many, Planned, plan_jobs}
use repo_sync.Mirror.Staging.{stage_file}
use repo_sync.Mirror.Targets.{apk_index_name}

pub record ApkPackage : Type 0 where
  pub name : Bytes
  pub version : Bytes
  pub size : ℕ

unfoldable pub filename : ApkPackage → Bytes
filename p = p.name ++ (lit "-" ++ (p.version ++ lit ".apk"))

-- A negative size is unknown like 0, so sizes are natural numbers.
unfoldable pub expect : ApkPackage → Expect
expect p = record { size = if ltb 0 p.size then some p.size else none; sums = [] }

abbrev pub no_package : ApkPackage
no_package = record { name = []; version = []; size = 0 }

abbrev pub is_complete : ApkPackage → Bool
is_complete p = not (p.name == []) && not (p.version == [])

-- `flush`: the stanza so far, if it is complete, before what follows.
abbrev pub flush : ApkPackage → List ApkPackage → List ApkPackage
flush p rest = if is_complete p then p ∷ rest else rest

unfoldable pub set_field : Bytes → Bytes → ApkPackage → ApkPackage
unfolding parse_int
set_field field value p =
    if field == lit "P"
    then record p { name = value }
    else if field == lit "V"
    then record p { version = value }
    else if field == lit "S"
    then record p { size = (parse_int value).value }
    else p

abbrev pub set_line : Option (Bytes × Bytes) → ApkPackage → ApkPackage
set_line none p = p
set_line (some (field, value)) p = set_field field value p

-- The loop over the lines, as the scanner gives them.
unfoldable pub parse_lines : ApkPackage → List Bytes → List ApkPackage
unfolding trim_space cut set_field
parse_lines p [] = flush p []
parse_lines p (line ∷ lines) =
    let is_end = trim_space line == [] in
    let rest = parse_lines (if is_end then no_package else set_line (cut line (lit ":")) p) lines in
    if is_end then flush p rest else rest

unfoldable pub parse_apk_index : List Bytes → List ApkPackage
unfolding parse_lines
parse_apk_index lines = parse_lines no_package lines

abbrev pub package_job : ApkPackage → Bytes → Job
package_job p dst = record {
  req_path = filename p;
  dst = dst;
  want = some (expect p);
  optional = false;
  stage = false;
}

abbrev pub add_job : ApkPackage → Option Bytes → Option (List Job) → Option (List Job)
add_job p none rest = none
add_job p (some dst) none = none
add_job p (some dst) (some jobs) = some (package_job p dst ∷ jobs)

unfoldable pub package_jobs : (dest : Bytes) → List ApkPackage → Option (List Job)
unfolding local_join filename expect
package_jobs dest [] = some []
package_jobs dest (p ∷ ps) = add_job p (local_join dest (filename p)) (package_jobs dest ps)

pub data ApkError : Type 0 where
  bad_path bad_index not_promoted still_missing : ApkError
  index_error package_error : FetchError → ApkError

pub record ApkOptions : Type 0 where
  pub dest : Bytes
  pub dry_run : Bool
  pub verify : Bool
  pub prune : Bool

-- What a run meets. `unpack` gives the lines of the index in an archive.
pub record ApkRun : Type 0 where
  pub transfers : Transfers
  pub ask : Request
  pub unpack : LocalFile → Option (List Bytes)
  pub order : List (Time × ℕ)
  pub write : WriteResult
  pub disk_ok : Bool

pub record ApkState : Type 0 where
  pub index : Slot
  pub tree : Tree
  pub keep : KeepSet
  pub miss : Option Missing
  pub missing_file : StateFile
  pub planned : Planned

abbrev pub Synced : Type 0
Synced = Option ApkError × ApkState

abbrev pub pool_of : ApkState → Pool
pool_of s = record {
  tree = s.tree;
  keep = s.keep;
  miss = s.miss;
  states = [];
  missing_count = 0;
  error = none;
}

module _ (opts : ApkOptions) (run : ApkRun) (dst : Bytes) where
  abbrev pub verified : Transfers
  verified = record (run.transfers) { verify = opts.verify }

  abbrev pub still : Option StillMissing → Option ApkError
  still none = none
  still (some m) = some still_missing

  unfoldable pub end_run : ApkState → Synced
  unfolding finish
  end_run s =
      let (unresolved, file) = finish run.write s.miss s.missing_file in
      (still unresolved, record s { missing_file = file })

  abbrev pub after_promote : Bool × Slot → ApkState → Synced
  after_promote (false, slot) s = (some not_promoted, record s { index = slot })
  after_promote (true, slot) s = end_run (record s { index = slot; keep = keep_add dst s.keep })

  -- The index, last.
  unfoldable pub publish_index : ApkState → Synced
  unfolding promote_or_discard end_run keep_add
  publish_index s = after_promote (promote_or_discard opts.dry_run run.disk_ok s.index) s

  abbrev pub after_pool : Pool → Option FetchError → ApkState → Synced
  after_pool p none s = publish_index (record s { tree = p.tree; keep = p.keep; miss = p.miss })
  after_pool p (some e) s =
      (some (package_error e), record s { tree = p.tree; keep = p.keep; miss = p.miss })

  unfoldable pub sync_packages : List Job → ApkState → Synced
  unfolding many plan_jobs publish_index
  sync_packages jobs s =
      let (n, keep) = plan_jobs run.transfers.digest opts.verify s.tree jobs s.planned s.keep in
      let p = many verified jobs run.order (pool_of s) in
      if opts.dry_run
      then publish_index (record s { planned = n; keep = keep })
      else after_pool p p.error s

  abbrev pub with_jobs : Option (List Job) → ApkState → Synced
  with_jobs none s = (some bad_path, s)
  with_jobs (some jobs) s = sync_packages jobs s

  abbrev pub with_lines : Option (List Bytes) → ApkState → Synced
  with_lines none s = (some bad_index, s)
  with_lines (some lines) s = with_jobs (package_jobs opts.dest (parse_apk_index lines)) s

  abbrev pub with_file : Option LocalFile → ApkState → Synced
  with_file none s = (some bad_index, s)
  with_file (some f) s = with_lines (run.unpack f) s

  abbrev pub after_index : Outcome → ApkState → Synced
  after_index (failed e) s = (some (index_error e), s)
  after_index (done state) s = with_file (staged_or_final s.index) s

  unfoldable pub stage_index : ApkState → Synced
  unfolding stage_file staged_or_final package_jobs parse_apk_index sync_packages
  stage_index s =
      let (o, slot) = stage_file run.transfers.digest run.transfers.live false run.ask s.index in
      after_index o (record s { index = slot })

-- `syncApk`.
unfoldable pub sync_apk : ApkOptions → ApkRun → ApkState → Synced
unfolding local_join stage_index new_keep_set
sync_apk opts run s =
    let s' = record s { keep = new_keep_set opts.prune } in
    elim (local_join opts.dest apk_index_name) [
      | none ↦ (some bad_path, s')
      | some dst ↦ stage_index opts run dst s'
    ]
