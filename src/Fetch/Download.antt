-- ===== src/Fetch/Download.antt =====
-- fetch/fetch.go, `File`, `FileFresh` and `download`: one file on its way from a mirror to its place.
-- The lock of the destination is held throughout, so a call is one step on the `Slot`, the three
-- files at and beside the destination. The request is the parameter `request`, which answers each
-- attempt from the options that the code sends. Hash functions are the parameter `digest`, total
-- since `hashOrder` holds only names that `newHasher` knows.
pub mod Laws
use repo_sync.Base.{
  ℕ, ◌+◌, Bool, true, false, not, ◌&&◌, ◌||◌, Option, none, some, List, [], ◌∷◌, ◌++◌,
}
use repo_sync.Base.{◌==◌, nat_eq, list_eq, ltb, if◌then◌else◌, length}
use repo_sync.Base.Bytes.{Bytes, lit, to_lower}
use repo_sync.Base.Clock.{Time}
use repo_sync.Base.Dict.{Dict, lookup, insert}

-- `none` is the size -1 of the source, which is unknown.
pub record Expect : Type 0 where
  pub size : Option ℕ
  pub sums : Dict Bytes Bytes

-- A negative size is unknown like 0, so the argument is a natural number.
unfoldable pub make_expect : ℕ → Bytes → Bytes → Expect
make_expect size algo sum = record {
  size = if ltb 0 size then some size else none;
  sums =
      if not (algo == []) && not (sum == []) then insert (to_lower algo) (to_lower sum) [] else [];
}

abbrev pub hash_order : List Bytes
hash_order =
    lit "sha512"
    ∷ lit "sha384"
    ∷ lit "sha256"
    ∷ lit "sha224"
    ∷ lit "sha1"
    ∷ lit "sha"
    ∷ lit "md5"
    ∷ lit "md5sum"
    ∷ []

best_of : Dict Bytes Bytes → List Bytes → Option (Bytes × Bytes)
best_of sums [] = none
best_of sums (algo ∷ weaker) =
    let rest = best_of sums weaker in
    elim (lookup algo sums) [ none ↦ rest | some d ↦ if d == [] then rest else some (algo, d) ]

-- `bestSum`: the strongest algorithm that has a sum.
unfoldable pub best_sum : Expect → Option (Bytes × Bytes)
unfolding best_of
best_sum e = best_of e.sums hash_order

abbrev pub Digest : Type 0
Digest = Bytes → Bytes → Bytes

-- A regular file, with its modification time.
pub record LocalFile : Type 0 where
  pub content : Bytes
  pub modified : Time

-- The destination, the staged file and the partial file.
pub record Slot : Type 0 where
  pub dst : Option LocalFile
  pub staged : Option LocalFile
  pub partial : Option LocalFile

-- `FileMissing` comes only with an error, which is `failed` below.
pub data FileState : Type 0 where
  unchanged fetched staged : FileState

pub data FetchError : Type 0 where
  not_found forbidden bad_size bad_sum io_error : FetchError
  request_error : FetchError

pub data Outcome : Type 0 where
  done : FileState → Outcome
  failed : FetchError → Outcome

-- What the mirror sends: an error, a 304, or a body with its status 206 or other success. A body
-- may break off, and an error of the local disk may come between.
pub data Reply : Type 0 where
  refused : FetchError → Reply
  not_modified : Reply
  body : (is_partial : Bool) → Bytes → (complete disk_ok : Bool) → Time → Reply

-- The options of a request: the time of the copy to revalidate, and where to resume.
abbrev pub Request : Type 0
Request = Option Time → ℕ → Reply

abbrev pub size_matches : Option ℕ → ℕ → Bool
size_matches none n = true
size_matches (some size) n = n == size

abbrev pub sum_matches : Digest → Option (Bytes × Bytes) → Bytes → Bool
sum_matches digest none content = true
sum_matches digest (some (algo, sum)) content = digest algo content == sum

-- Whether a file is what is expected of it: its size, and its sum if that is asked for.
unfoldable pub verify_local : Digest → Bool → Expect → Option LocalFile → Bool
unfolding best_sum
verify_local digest check want none = false
verify_local digest check want (some f) =
    size_matches want.size (length f.content)
    && (not check || sum_matches digest (best_sum want) f.content)

abbrev pub content_of : Option LocalFile → Bytes
content_of none = []
content_of (some f) = f.content

abbrev size_known : Option ℕ → Bool
size_known none = false
size_known (some n) = ltb 0 n

abbrev has_sum : Option (Bytes × Bytes) → Bool
has_sum none = false
has_sum (some s) = true

abbrev pub keeps_partial : Option Expect → Bool
keeps_partial none = false
keeps_partial (some want) = has_sum (best_sum want) && size_known want.size

abbrev pub checks : Digest → Option Expect → ℕ → Bytes → Option FetchError
checks digest none total content = none
checks digest (some want) total content =
    if not (size_matches want.size total)
    then some bad_size
    else if not (sum_matches digest (best_sum want) content)
    then some bad_sum
    else none

-- The end of `download`: a failed check drops the partial file, and a file that passes is moved into
-- place, or next to it when staging.
unfoldable pub settle :
    Option FetchError → (stage disk_ok : Bool) → LocalFile → Slot → Outcome × Slot
settle (some e) stage disk_ok f slot = (failed e, record slot { partial = none })
settle none stage false f slot = (failed io_error, record slot { partial = none })
settle none true true f slot = (done staged, record slot { partial = none; staged = some f })
settle none false true f slot = (done fetched, record slot { partial = none; dst = some f })

-- The tail of `download` once the body has come whole.
unfoldable pub place :
    Digest → Option Expect → (stage disk_ok : Bool) → ℕ → LocalFile → Slot → Outcome × Slot
unfolding settle
place digest want stage disk_ok total f slot =
    settle (checks digest want total f.content) stage disk_ok f slot

-- What `download` makes of a reply. A body that breaks off leaves what came of it, or nothing
-- without a sum and a size.
unfoldable pub receive : Digest → Option Expect → (stage : Bool) → ℕ → Slot → Reply → Outcome × Slot
unfolding place
receive digest want stage resume slot (refused e) = (failed e, slot)
receive digest want stage resume slot not_modified = (done unchanged, slot)
receive digest want stage resume slot (body is_partial bytes complete disk_ok modified) =
    let resumed = ltb 0 resume && is_partial in
    let whole = if resumed then content_of slot.partial ++ bytes else bytes in
    let total = if resumed then length bytes + resume else length bytes in
    let f : LocalFile = record { content = whole; modified = modified } in
    let left = if keeps_partial want then some f else none in
    if not complete
    then (failed io_error, record slot { partial = left })
    else place digest want stage disk_ok total f slot

-- The time of the copy that a file without a sum is revalidated against.
unfoldable pub revalidate : Option Expect → (force : Bool) → Slot → Option Time
revalidate (some want) force slot = none
revalidate none true slot = none
revalidate none false slot = elim slot.dst [ none ↦ none | some f ↦ some f.modified ]

unfoldable pub download :
    Digest → Request → Option Expect → (stage : Bool) → ℕ → (force : Bool) → Slot → Outcome × Slot
unfolding receive revalidate
download digest request want stage resume force slot =
    receive digest want stage resume slot (request (revalidate want force slot) resume)

-- The offset to resume from: the size of a partial file shorter than the file expected.
unfoldable pub resume_offset : Option Expect → Slot → ℕ
resume_offset none slot = 0
resume_offset (some want) slot =
    let held = length (content_of slot.partial) in
    elim want.size [
      | none ↦ 0
      | some size ↦ if keeps_partial (some want) && (ltb 0 held && ltb held size) then held else 0
    ]

abbrev is_not_found : FetchError → Bool
is_not_found not_found = true
is_not_found e = false

-- Whether an attempt is followed by another in full.
abbrev pub again_after : ℕ → Bool → Outcome → Bool
again_after resume live (done state) = false
again_after resume live (failed e) = ltb 0 resume && (not (is_not_found e) && live)

abbrev pub found_locally : Digest → Bool → Option Expect → Slot → Bool
found_locally digest verify none slot = false
found_locally digest verify (some want) slot = verify_local digest verify want slot.dst

-- `file`. `again` answers the one further attempt, in full, that may follow a resumed one; `live`
-- says that the context is not cancelled between them.
unfoldable pub fetch_file :
    Digest
    → (request again : Request) → (live : Bool) → Option Expect
    → (stage verify force : Bool) → Slot
    → Outcome × Slot
unfolding verify_local resume_offset download
fetch_file digest request again live want stage verify force slot =
    let cleared = if stage then record slot { staged = none } else slot in
    let resume = resume_offset want cleared in
    let first = download digest request want stage resume force cleared in
    let second = download digest again want stage 0 force (record (first.1) { partial = none }) in
    if found_locally digest verify want cleared
    then (done unchanged, cleared)
    else if again_after resume live first.0
    then second
    else first
