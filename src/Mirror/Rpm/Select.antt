-- ===== src/Mirror/Rpm/Select.antt =====
-- mirror/rpm.go: the files that the metadata of a generation names, as jobs. Decoded metadata is a
-- list of entries.
pub mod Laws
use repo_sync.Base.{
  ℕ, Bool, true, false, Option, none, some, List, [], ◌∷◌, ◌++◌, ◌||◌, ◌==◌, nat_eq, list_eq,
  if◌then◌else◌,
}
use repo_sync.Base.Bytes.{Bytes, lit}
use repo_sync.Fetch.LocalPath.{local_join}
use repo_sync.Fetch.Download.{LocalFile, make_expect}
use repo_sync.Fetch.Promote.{staged_or_final}
use repo_sync.Fetch.Jobs.{Job, Tree}

-- What a package and a delta have, and a metadata file besides its type.
pub record RepoFile : Type 0 where
  pub href : Bytes
  pub size : ℕ
  pub sum_type : Bytes
  pub sum : Bytes

pub record RepoData : Type 0 where
  pub type : Bytes
  pub file : RepoFile

abbrev pub job_at : RepoFile → (stage : Bool) → Bytes → Job
job_at f stage dst = record {
  req_path = f.href;
  dst = dst;
  want = some (make_expect f.size f.sum_type f.sum);
  optional = false;
  stage = stage;
}

-- One entry of a loop that collects jobs; `none` is the error for a path that escapes.
abbrev pub add_job :
    Option Bytes → RepoFile → (stage : Bool) → Option (List Job) → Option (List Job)
add_job none f stage rest = none
add_job (some dst) f stage none = none
add_job (some dst) f stage (some jobs) = some (job_at f stage dst ∷ jobs)

-- The jobs of packages or deltas.
unfoldable pub file_jobs : (dest : Bytes) → List RepoFile → Option (List Job)
unfolding local_join
file_jobs dest [] = some []
file_jobs dest (f ∷ fs) =
    let rest = file_jobs dest fs in
    if f.href == [] then rest else add_job (local_join dest f.href) f false rest

abbrev pub is_primary : RepoData → Bool
is_primary d = d.type == lit "primary"

abbrev pub is_delta : RepoData → Bool
is_delta d = d.type == lit "prestodelta" || d.type == lit "deltainfo"

abbrev pub is_parsed : RepoData → Bool
is_parsed d = is_primary d || is_delta d

abbrev pub is_named : RepoData → Bool
is_named d = if d.file.href == [] then false else true

abbrev pub select_data : (RepoData → Bool) → List RepoData → List RepoData
select_data p [] = []
select_data p (d ∷ ds) = let rest = select_data p ds in if p d then d ∷ rest else rest

-- The primary index, of several the last one.
unfoldable pub primary_of : List RepoData → Option RepoFile
primary_of [] = none
primary_of (d ∷ ds) =
    let rest = primary_of ds in
    let here = if is_named d then (if is_primary d then some d.file else none) else none in
    elim rest [ some f ↦ some f | none ↦ here ]

abbrev pub add_metadata :
    (dry_run : Bool)
    → RepoData
    → Option Bytes
    → Option (List Job × List Job)
    → Option (List Job × List Job)
add_metadata dry_run d none rest = none
add_metadata dry_run d (some dst) none = none
add_metadata false d (some dst) (some (jobs, planned)) =
    some (job_at d.file false dst ∷ jobs, planned)
add_metadata true d (some dst) (some (jobs, planned)) =
    if is_parsed d
    then some (job_at d.file true dst ∷ jobs, planned)
    else some (jobs, job_at d.file false dst ∷ planned)

-- The jobs of the metadata: those to fetch, and those that a dry run only counts.
unfoldable pub metadata_jobs :
    (dry_run : Bool) → (dest : Bytes) → List RepoData → Option (List Job × List Job)
unfolding local_join
metadata_jobs dry_run dest [] = some ([], [])
metadata_jobs dry_run dest (d ∷ ds) =
    let rest = metadata_jobs dry_run dest ds in
    if is_named d then add_metadata dry_run d (local_join dest d.file.href) rest else rest

-- The loop over the delta indexes, each read where it was fetched; `read` decodes a file by its name.
unfoldable pub delta_files :
    (read : Bytes → Option LocalFile → Option (List RepoFile))
    → (dest : Bytes) → Tree
    → List RepoData
    → Option (List RepoFile)
unfolding local_join staged_or_final
delta_files read dest tree [] = some []
delta_files read dest tree (d ∷ ds) =
    let rest = delta_files read dest tree ds in
    elim (local_join dest d.file.href) [
      | none ↦ none
      | some dst ↦ elim (read dst (staged_or_final (tree dst))) [
        | none ↦ none
        | some files ↦ elim rest [ none ↦ none | some more ↦ some (files ++ more) ]
      ]
    ]
