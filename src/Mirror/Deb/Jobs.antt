-- ===== src/Mirror/Deb/Jobs.antt =====
-- mirror/deb.go: `sortedFiles`, `sortedKeys`, and how `syncDeb` makes jobs of the indexes that a release
-- lists and of the pool files that the indexes name.
use repo_sync.Base.{
  ℕ, Bool, true, false, ◌&&◌, ◌||◌, not, Option, none, some, List, [], ◌∷◌, ◌++◌, ◌==◌, nat_eq,
  list_eq, ltb, contains, if◌then◌else◌, suc,
}
use repo_sync.Base.Bytes.{Bytes, lit, trim_prefix, text_lt}
use repo_sync.Base.Dict.{Dict, lookup, insert}
use repo_sync.Base.Paths.{path_base}
use repo_sync.Fetch.LocalPath.{local_join}
use repo_sync.Fetch.Download.{FileState, staged, LocalFile}
use repo_sync.Fetch.Jobs.{Job, Tree}
use repo_sync.Mirror.Deb.Release.{DebFile, expect, split_compress_ext, include_index_file}
use repo_sync.Mirror.Deb.Index.{values, parse_index}

module _ {A : Type 0} (key : A → Bytes) where
  unfoldable pub insert_by : A → List A → List A
  unfolding text_lt
  insert_by a [] = a ∷ []
  insert_by a (b ∷ bs) =
      let rest = insert_by a bs in if text_lt (key b) (key a) then b ∷ rest else a ∷ b ∷ bs

  unfoldable pub sort_by : List A → List A
  unfolding insert_by
  sort_by [] = []
  sort_by (a ∷ rest) = insert_by a (sort_by rest)

unfoldable pub sorted_files : Dict Bytes DebFile → List DebFile
unfolding sort_by
sorted_files files = sort_by (λ (f : DebFile). f.path) (values files)

-- What a run is asked for: its places, its filters and its modes.
pub record Suite : Type 0 where
  pub dest_root : Bytes
  pub dest_suite : Bytes
  pub prefix : Bytes
  pub components : List Bytes
  pub architectures : List Bytes
  pub dry_run : Bool

abbrev pub release_names : List Bytes
release_names = lit "InRelease" ∷ lit "Release" ∷ lit "Release.gpg" ∷ []

unfoldable pub is_index : Bytes → Bool
unfolding path_base split_compress_ext
is_index p =
    let name = path_base (split_compress_ext p).0 in name == lit "Packages" || name == lit "Sources"

abbrev pub index_job : Suite → DebFile → Bytes → Job
index_job suite f dst = record {
  req_path = suite.prefix ++ f.path;
  dst = dst;
  want = some (expect f);
  optional = true;
  stage = true;
}

-- A job to fetch, or in a dry run one to count.
abbrev pub add_index :
    Suite → DebFile → Option Bytes → Option (List Job × List Job) → Option (List Job × List Job)
add_index suite f none rest = none
add_index suite f (some dst) none = none
add_index suite f (some dst) (some (jobs, planned)) =
    if suite.dry_run && not (is_index f.path)
    then some (jobs, index_job suite f dst ∷ planned)
    else some (index_job suite f dst ∷ jobs, planned)

-- The loop over the files of a release: an error, or the jobs to fetch and those to count.
unfoldable pub index_jobs : Suite → List DebFile → Option (List Job × List Job)
unfolding include_index_file local_join expect is_index
index_jobs suite [] = some ([], [])
index_jobs suite (f ∷ fs) =
    let rest = index_jobs suite fs in
    if contains release_names f.path
    then rest
    else if not (include_index_file f.path suite.components suite.architectures)
    then rest
    else add_index suite f (local_join suite.dest_suite f.path) rest

-- One compression variant of an index, fetched or found at its destination.
pub record Variant : Type 0 where
  pub ext : Bytes
  pub dst : Bytes
  pub is_staged : Bool

-- `prefOrder`.
abbrev pub pref_order : Bytes → ℕ
pref_order ext =
    if ext == lit ".gz"
    then 0
    else if ext == lit ".xz"
    then 1
    else if ext == lit ".zst"
    then 2
    else if ext == lit ".bz2"
    then 3
    else 4

abbrev is_preferred : Bytes → Option Variant → Bool
is_preferred ext none = true
is_preferred ext (some v) = ltb (pref_order ext) (pref_order v.ext)

abbrev pub was_staged : FileState → Bool
was_staged staged = true
was_staged s = false

abbrev pub variant_of : Job → Bytes → FileState → Variant
variant_of job ext s = record { ext = ext; dst = job.dst; is_staged = was_staged s }

-- The body of the loop over the index jobs; a job without a state found its file missing.
unfoldable pub add_variant :
    (prefix : Bytes) → Job → Option FileState → Dict Bytes Variant → Dict Bytes Variant
unfolding trim_prefix split_compress_ext is_index lookup insert
add_variant prefix job none vs = vs
add_variant prefix job (some s) vs =
    let rel = trim_prefix job.req_path prefix in
    let (base, ext) = split_compress_ext rel in
    if is_index rel && is_preferred ext (lookup base vs)
    then insert base (variant_of job ext s) vs
    else vs

unfoldable pub variants :
    (prefix : Bytes) → Dict ℕ FileState → ℕ → List Job → Dict Bytes Variant → Dict Bytes Variant
unfolding add_variant lookup
variants prefix states idx [] vs = vs
variants prefix states idx (job ∷ jobs) vs =
    variants prefix states (suc idx) jobs (add_variant prefix job (lookup idx states) vs)

unfoldable pub sorted_variants : Dict Bytes Variant → List (Bytes × Variant)
unfolding sort_by
sorted_variants vs = sort_by (λ (v : Bytes × Variant). v.0) vs

-- The first file of a path stays.
unfoldable pub add_pool : List DebFile → Dict Bytes DebFile → Dict Bytes DebFile
unfolding lookup insert
add_pool [] pool = pool
add_pool (f ∷ fs) pool = elim (lookup f.path pool) [
  | some g ↦ add_pool fs pool
  | none ↦ add_pool fs (insert f.path f pool)
]

abbrev pub variant_file : Tree → Variant → Option LocalFile
variant_file tree v = if v.is_staged then (tree v.dst).staged else (tree v.dst).dst

-- The loop over the chosen indexes. `read` opens a file, decompresses it as its name says, and gives its
-- lines; `order` is that of the checksum fields of a source.
module _ (read : Bytes → Option LocalFile → Option (List Bytes)) (order : List (Bytes × Bytes))
    (tree : Tree) where
  unfoldable pub variant_files : Bytes → Variant → Option (List DebFile)
  unfolding parse_index path_base
  variant_files base v = elim (read v.dst (variant_file tree v)) [
    | none ↦ none
    | some lines ↦ parse_index order (path_base base) lines
  ]

  abbrev add_files : Option (List DebFile) → Dict Bytes DebFile → Option (Dict Bytes DebFile)
  add_files none pool = none
  add_files (some fs) pool = some (add_pool fs pool)

  unfoldable pub pool_files :
      List (Bytes × Variant) → Option (Dict Bytes DebFile) → Option (Dict Bytes DebFile)
  unfolding variant_files add_pool
  pool_files vs none = none
  pool_files [] (some pool) = some pool
  pool_files ((base, v) ∷ vs) (some pool) = pool_files vs (add_files (variant_files base v) pool)

abbrev pub pool_job : DebFile → Bytes → Job
pool_job f dst = record {
  req_path = f.path;
  dst = dst;
  want = some (expect f);
  optional = false;
  stage = false;
}

abbrev add_job : DebFile → Option Bytes → Option (List Job) → Option (List Job)
add_job f none rest = none
add_job f (some dst) none = none
add_job f (some dst) (some jobs) = some (pool_job f dst ∷ jobs)

unfoldable pub pool_jobs : (dest_root : Bytes) → List DebFile → Option (List Job)
unfolding local_join expect
pool_jobs dest_root [] = some []
pool_jobs dest_root (f ∷ fs) = add_job f (local_join dest_root f.path) (pool_jobs dest_root fs)
