-- ===== src/Fetch/Jobs.antt =====
-- fetch/fetch.go: `Job`, `PlanJobs` and `Many`. The pool of workers is the order in which the jobs
-- that were handed out end. Jobs with one destination exclude one another by its lock, so the end of
-- a job is one step; a job that ends after the first error still has its effect.
pub mod Laws
pub mod Complete
use repo_sync.Base.{
  ℕ, ◌+◌, Bool, true, false, Option, none, some, List, [], ◌∷◌, ◌==◌, nat_eq, list_eq,
  if◌then◌else◌, get_elem?, ltb,
}
use repo_sync.Base.Bytes.{Bytes}
use repo_sync.Base.Clock.{Time}
use repo_sync.Base.Dict.{Dict, insert}
use repo_sync.Fetch.Prune.{KeepSet, keep_add}
use repo_sync.Fetch.Missing.{Missing, tolerate_opt}
use repo_sync.Fetch.Download.{
  Expect, Digest, LocalFile, Slot, FileState, FetchError, not_found, Outcome, done, failed, Request,
  fetch_file, verify_local,
}

pub record Job : Type 0 where
  pub req_path : Bytes
  pub dst : Bytes
  pub want : Option Expect
  pub optional : Bool
  pub stage : Bool

-- The files at and beside each destination.
abbrev pub Tree : Type 0
Tree = Bytes → Slot

abbrev pub set_slot : Bytes → Slot → Tree → Tree
set_slot dst slot tree path = if path == dst then slot else tree path

-- What the transfers of a run depend on: the mirror's answers to a path, at first and again in full.
pub record Transfers : Type 0 where
  pub digest : Digest
  pub ask : Bytes → Request
  pub again : Bytes → Request
  pub live : Bool
  pub verify : Bool

pub record Pool : Type 0 where
  pub tree : Tree
  pub keep : KeepSet
  pub miss : Option Missing
  pub states : Dict ℕ FileState
  pub missing_count : ℕ
  pub error : Option FetchError

-- `errs` has room for one error.
abbrev pub fail_with : FetchError → Option FetchError → Option FetchError
fail_with e none = some e
fail_with e (some d) = some d

-- A file that the upstream does not serve.
unfoldable pub job_missing : Time → Job → Pool → Pool
unfolding tolerate_opt
job_missing now job p =
    let (tolerated, miss) = tolerate_opt now job.req_path p.miss in
    let counted = record p { missing_count = p.missing_count + 1; miss = miss } in
    if job.optional
    then p
    else if tolerated
    then counted
    else record counted { error = fail_with not_found p.error }

unfoldable pub job_done : Time → ℕ → Job → Outcome → Pool → Pool
unfolding job_missing keep_add
job_done now idx job (done s) p = record p {
  states = insert idx s p.states;
  keep = keep_add job.dst p.keep;
}
job_done now idx job (failed not_found) p = job_missing now job p
job_done now idx job (failed e) p = record p { error = fail_with e p.error }

-- `File` on the destination of a job.
unfoldable pub job_file : Transfers → Job → Tree → Outcome × Slot
unfolding fetch_file
job_file t job tree =
    fetch_file t.digest (t.ask job.req_path) (t.again job.req_path) t.live job.want job.stage
      t.verify false (tree job.dst)

unfoldable pub job_end : Transfers → Time → ℕ → Job → Pool → Pool
unfolding job_file job_done
job_end t now idx job p =
    let (o, slot) = job_file t job p.tree in
    job_done now idx job o (record p { tree = set_slot job.dst slot p.tree })

-- The end of one job; there is none past the list.
unfoldable pub many_step : Transfers → Time → ℕ → Option Job → Pool → Pool
unfolding job_end
many_step t now idx none p = p
many_step t now idx (some job) p = job_end t now idx job p

-- `Many`: the jobs end in this order, at these times.
unfoldable pub many : Transfers → List Job → List (Time × ℕ) → Pool → Pool
unfolding many_step
many t jobs [] p = p
many t jobs ((now, idx) ∷ order) p = many t jobs order (many_step t now idx (get_elem? jobs idx) p)

pub record Planned : Type 0 where
  pub unchanged : ℕ
  pub planned : ℕ
  pub planned_bytes : ℕ

abbrev pub want_size : Option Expect → ℕ
want_size none = 0
want_size (some want) = elim want.size [ none ↦ 0 | some n ↦ n ]

abbrev pub is_present : Digest → Bool → Option Expect → Option LocalFile → Bool
is_present digest verify none f = false
is_present digest verify (some want) f = verify_local digest verify want f

-- `PlanJobs`: the counters and the keep set.
unfoldable pub plan_jobs :
    Digest → (verify : Bool) → Tree → List Job → Planned → KeepSet → Planned × KeepSet
unfolding verify_local keep_add
plan_jobs digest verify tree [] n keep = (n, keep)
plan_jobs digest verify tree (job ∷ jobs) n keep =
    let present = is_present digest verify job.want (tree job.dst).dst in
    let n' = if present then record n { unchanged = n.unchanged + 1 } else record n {
      planned = n.planned + 1;
      planned_bytes = n.planned_bytes + want_size job.want;
    } in
    plan_jobs digest verify tree jobs n' (keep_add job.dst keep)
