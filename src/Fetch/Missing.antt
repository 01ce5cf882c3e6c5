-- ===== src/Fetch/Missing.antt =====
-- fetch/missing.go: the files that an upstream lists and does not serve, across runs. The state
-- file is what a later `load` reads of it: `none` if it is absent, unreadable or no JSON. JSON
-- gives back the map that was written. Run counts stay below 2^63.
pub mod Laws
pub mod Budget
use repo_sync.Base.{ℕ, ◌+◌, Bool, true, false, ◌||◌, Option, none, some, List, [], ◌∷◌}
use repo_sync.Base.{◌==◌, nat_eq, list_eq, contains, leb, if◌then◌else◌}
use repo_sync.Base.Bytes.{Bytes, lit, to_lower, trim_space}
use repo_sync.Base.Clock.{Time}
use repo_sync.Base.Dict.{Dict, lookup, insert}

abbrev pub MissingMode : Type 0
MissingMode = Bytes

abbrev pub missing_fail : MissingMode
missing_fail = lit "fail"

abbrev pub missing_retry : MissingMode
missing_retry = lit "retry"

abbrev pub missing_ignore : MissingMode
missing_ignore = lit "ignore"

abbrev pub missing_modes : List MissingMode
missing_modes = missing_ignore ∷ missing_retry ∷ missing_fail ∷ []

-- `none` is the error for an unsupported name.
unfoldable pub parse_missing_mode : Bytes → Option MissingMode
parse_missing_mode name =
    let mode = to_lower (trim_space name) in
    if mode == []
    then some missing_fail
    else if contains missing_modes mode
    then some mode
    else none

pub record MissingRecord : Type 0 where
  pub first : Time
  pub last : Time
  pub runs : ℕ
  pub known : Bool

abbrev pub Records : Type 0
Records = Dict Bytes MissingRecord

-- A JSON object of the state file may hold null records.
abbrev pub StateFile : Type 0
StateFile = Option (Dict Bytes (Option MissingRecord))

pub record Missing : Type 0 where
  pub mode : MissingMode
  pub retries : ℕ
  pub dry_run : Bool
  pub records : Records
  pub seen : List Bytes
  pub unresolved : ℕ
  pub first : Bytes

load_records : Dict Bytes (Option MissingRecord) → Records → Records
load_records [] acc = acc
load_records ((name, none) ∷ rest) acc = load_records rest acc
load_records ((name, some r) ∷ rest) acc = load_records rest (insert name r acc)

unfoldable pub load : StateFile → Records
unfolding load_records
load none = []
load (some found) = load_records found []

-- The strict mode is `none`, the nil pointer of the source.
unfoldable pub new_missing : StateFile → MissingMode → ℕ → Bool → Option Missing
unfolding load
new_missing file mode retries dry =
    if mode == missing_retry || mode == missing_ignore
    then some (record {
      mode = mode;
      retries = retries;
      dry_run = dry;
      records = load file;
      seen = [];
      unresolved = 0;
      first = [];
    })
    else none

abbrev fresh_or : Time → Option MissingRecord → MissingRecord
fresh_or now none = record { first = now; last = 0; runs = 0; known = false }
fresh_or now (some r) = r

-- One more run has missed the file.
unfoldable pub bump : ℕ → Time → Option MissingRecord → MissingRecord
bump retries now old =
    let r = fresh_or now old in
    record {
      first = r.first;
      last = now;
      runs = r.runs + 1;
      known = if leb retries (r.runs + 1) then true else r.known;
    }

-- `Tolerate` of a tracker, at the time that `time.Now` gives.
unfoldable pub tolerate : Time → Bytes → Missing → Bool × Missing
unfolding bump
tolerate now path m =
    let r = bump m.retries now (lookup path m.records) in
    let counted = record m { records = insert path r m.records; seen = path ∷ m.seen } in
    if contains m.seen path
    then (true, m)
    else if m.mode == missing_ignore || r.known
    then (true, counted)
    else (
      true,
      record counted {
        unresolved = m.unresolved + 1;
        first = if m.first == [] then path else m.first;
      },
    )

-- `Tolerate` of a pointer that may be nil.
unfoldable pub tolerate_opt : Time → Bytes → Option Missing → Bool × Option Missing
tolerate_opt now path none = (false, none)
tolerate_opt now path (some m) = let (go_on, m') = tolerate now path m in (go_on, some m')

-- What became of a write or a removal of the state file: a failed one may leave anything behind.
pub data WriteResult : Type 0 where
  written : WriteResult
  failed : StateFile → WriteResult

kept_records : Records → List Bytes → Dict Bytes (Option MissingRecord)
kept_records recs [] = []
kept_records recs (path ∷ seen) = insert path (lookup path recs) (kept_records recs seen)

unfoldable pub save : WriteResult → Missing → StateFile → StateFile
unfolding kept_records
save w m file = if m.dry_run then file else elim w [
  | failed left ↦ left
  | written ↦ if m.seen == [] then none else some (kept_records m.records m.seen)
]

-- The error of `Finish`: how many files are still retried, and the first of them.
pub record StillMissing : Type 0 where
  pub count : ℕ
  pub path : Bytes

unfoldable pub finish : WriteResult → Option Missing → StateFile → Option StillMissing × StateFile
unfolding save
finish w none file = (none, file)
finish w (some m) file = (
  if m.unresolved == 0 then none else some (record { count = m.unresolved; path = m.first }),
  save w m file,
)
