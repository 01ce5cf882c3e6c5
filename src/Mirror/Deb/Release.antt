-- ===== src/Mirror/Deb/Release.antt =====
-- mirror/deb.go and mirror/control.go: `stripClearsign`, `parseRelease`, and which of the files that a
-- release lists a run wants. A map is iterated in the order of the list that stands for it, which is
-- any order.
use repo_sync.Base.{
  ℕ, Bool, true, false, not, ◌&&◌, Option, none, some, List, [], ◌∷◌, ◌++◌, ◌==◌, nat_eq, list_eq,
  ltb, contains, if◌then◌else◌,
}
use repo_sync.Base.Bytes.{
  Bytes, lit, cut, strip_prefix, trim_prefix, has_suffix, trim_suffix, to_lower,
}
use repo_sync.Base.Dict.{Dict, lookup, insert}
use repo_sync.Base.Paths.{split, path_base}
use repo_sync.Base.Words.{split_lines, lines_of, fields, parse_int}
use repo_sync.Fetch.Download.{Expect}
use repo_sync.Mirror.Control.{Stanza, get, read_stanza}

pub record DebFile : Type 0 where
  pub path : Bytes
  pub size : ℕ
  pub sums : Dict Bytes Bytes

-- `expect`. A negative size is unknown like 0, so sizes are natural numbers.
unfoldable pub expect : DebFile → Expect
expect f = record { size = if ltb 0 f.size then some f.size else none; sums = f.sums }

pub record DebRelease : Type 0 where
  pub components : List Bytes
  pub architectures : List Bytes
  pub acquire_by_hash : Bool
  pub files : Dict Bytes DebFile

-- `strings.ReplaceAll(s, "\r\n", "\n")`.
unfoldable pub unix_lines : Bytes → Bytes
unix_lines [] = []
unix_lines (x ∷ []) = x ∷ []
unix_lines (x ∷ y ∷ s) =
    let rest = unix_lines (y ∷ s) in if x == 13 && y == 10 then rest else x ∷ rest

abbrev before_or_all : Bytes → Option (Bytes × Bytes) → Bytes
before_or_all text none = text
before_or_all text (some (b, a)) = b

unfoldable pub unescape : List Bytes → Bytes
unfolding trim_prefix
unescape [] = []
unescape (line ∷ lines) = trim_prefix line (lit "- ") ++ (10 ∷ unescape lines)

unfoldable pub strip_clearsign : Bytes → Bytes
unfolding unix_lines unescape cut split_lines
strip_clearsign content =
    elim (cut (unix_lines content) (lit "-----BEGIN PGP SIGNED MESSAGE-----")) [
      | none ↦ content
      | some (b, text) ↦ elim (cut text (10 ∷ 10 ∷ [])) [
        | none ↦ content
        | some (head, body) ↦
            unescape
              (split_lines (before_or_all body (cut body (lit "-----BEGIN PGP SIGNATURE-----"))))
      ]
    ]

-- The checksum fields, with the names of their algorithms.
abbrev pub release_sum_fields : List (Bytes × Bytes)
release_sum_fields =
    (lit "MD5Sum", lit "md5sum")
    ∷ (lit "MD5sum", lit "md5sum")
    ∷ (lit "SHA1", lit "sha1")
    ∷ (lit "SHA256", lit "sha256")
    ∷ (lit "SHA512", lit "sha512")
    ∷ []

-- A line of a checksum list: the sum, the size and the name.
abbrev three_parts : List Bytes → Option (Bytes × (ℕ × Bytes))
three_parts [] = none
three_parts (a ∷ []) = none
three_parts (a ∷ b ∷ []) = none
three_parts (a ∷ b ∷ c ∷ []) =
    let n = parse_int b in if n.is_ok then some (a, (n.value, c)) else none
three_parts (a ∷ b ∷ c ∷ d ∷ ds) = none

unfoldable pub sum_line : Bytes → Option (Bytes × (ℕ × Bytes))
unfolding fields parse_int
sum_line line = three_parts (fields line)

abbrev pub file_or : DebFile → Option DebFile → DebFile
file_or new none = new
file_or new (some f) = f

-- One sum into the record of its file; `new` makes the record of a file not seen before.
unfoldable pub add_sum :
    (new : Bytes → DebFile)
    → (algo : Bytes) → (line : Bytes) → Dict Bytes DebFile
    → Dict Bytes DebFile
unfolding sum_line lookup insert to_lower
add_sum new algo line files = elim (sum_line line) [
  | none ↦ files
  | some (sum, (size, name)) ↦
      let f = file_or (new name) (lookup name files) in
      insert name (record f { size = size; sums = insert algo (to_lower sum) f.sums }) files
]

unfoldable pub add_lines :
    (new : Bytes → DebFile) → (algo : Bytes) → List Bytes → Dict Bytes DebFile → Dict Bytes DebFile
unfolding add_sum
add_lines new algo [] files = files
add_lines new algo (line ∷ lines) files = add_lines new algo lines (add_sum new algo line files)

-- The loop over the checksum fields of a stanza, in the order given.
unfoldable pub add_fields :
    (new : Bytes → DebFile)
    → Stanza
    → List (Bytes × Bytes)
    → Dict Bytes DebFile
    → Dict Bytes DebFile
unfolding add_lines get split_lines
add_fields new st [] files = files
add_fields new st ((field, algo) ∷ order) files =
    add_fields new st order (add_lines new algo (split_lines (get st (field ∷ []))) files)

abbrev pub new_file : Bytes → DebFile
new_file path = record { path = path; size = 0; sums = [] }

unfoldable pub parse_release : (order : List (Bytes × Bytes)) → Bytes → Option DebRelease
unfolding strip_clearsign read_stanza add_fields fields get lines_of to_lower
parse_release order content = elim ((read_stanza (lines_of (strip_clearsign content))).0) [
  | none ↦ none
  | some st ↦ some (record {
    components = fields (get st (lit "Components" ∷ []));
    architectures = fields (get st (lit "Architectures" ∷ []));
    acquire_by_hash = to_lower (get st (lit "Acquire-By-Hash" ∷ [])) == lit "yes";
    files = add_fields new_file st order [];
  })
]

-- `splitCompressExt`.
unfoldable pub split_ext : List Bytes → Bytes → Bytes × Bytes
unfolding has_suffix trim_suffix
split_ext [] p = (p, [])
split_ext (ext ∷ exts) p =
    let rest = split_ext exts p in if has_suffix p ext then (trim_suffix p ext, ext) else rest

abbrev pub compress_exts : List Bytes
compress_exts = lit ".gz" ∷ lit ".xz" ∷ lit ".bz2" ∷ lit ".zst" ∷ []

unfoldable pub split_compress_ext : Bytes → Bytes × Bytes
unfolding split_ext
split_compress_ext p = split_ext compress_exts p

-- The architecture that a segment of a path names.
unfoldable pub segment_arch : Bytes → Option Bytes
unfolding strip_prefix
segment_arch seg = elim (strip_prefix seg (lit "binary-")) [
  | some arch ↦ some arch
  | none ↦ elim (strip_prefix seg (lit "installer-")) [
    | some arch ↦ some arch
    | none ↦ if seg == lit "source" then some (lit "source") else none
  ]
]

unfoldable pub segments_arch : List Bytes → Option Bytes
unfolding segment_arch
segments_arch [] = none
segments_arch (seg ∷ segs) =
    let rest = segments_arch segs in elim (segment_arch seg) [ some arch ↦ some arch | none ↦ rest ]

-- `base` is that of the path, without a compression extension.
unfoldable pub contents_arch : (base : Bytes) → Bytes
unfolding strip_prefix
contents_arch base = elim (strip_prefix base (lit "Contents-udeb-")) [
  | some arch ↦ arch
  | none ↦ elim (strip_prefix base (lit "Contents-")) [ some arch ↦ arch | none ↦ [] ]
]

unfoldable pub index_arch : Bytes → Bytes
unfolding segments_arch contents_arch split split_compress_ext path_base
index_arch p = elim (segments_arch (split p)) [
  | some arch ↦ arch
  | none ↦ contents_arch (split_compress_ext (path_base p)).0
]

abbrev other_component : List Bytes → List Bytes → Bool
other_component comps [] = false
other_component comps (s ∷ []) = false
other_component comps (s ∷ t ∷ segs) = not (contains comps s)

abbrev is_some_list : List Bytes → Bool
is_some_list [] = false
is_some_list (x ∷ xs) = true

unfoldable pub include_index_file : Bytes → (comps archs : List Bytes) → Bool
unfolding index_arch split
include_index_file p comps archs =
    let arch = index_arch p in
    if is_some_list comps && other_component comps (split p)
    then false
    else if is_some_list archs && (not (arch == []) && not (contains archs arch))
    then false
    else true
