-- ===== src/Fetch/Mirrors.antt =====
-- fetch/source.go: `ParseMirrorlist` and `ParseMetalink`. The test for an absolute HTTP URL and the
-- decoded XML of a metalink are parameters; no line is longer than the scanner takes.
use repo_sync.Base.{
  Bool, ◌&&◌, ◌||◌, not, List, [], ◌∷◌, ◌++◌, ◌==◌, nat_eq, list_eq, contains, if◌then◌else◌,
}
use repo_sync.Base.Bytes.{Bytes, lit, has_prefix, trim_space, trim_right, trim_suffix}
use repo_sync.Base.Words.{lines_of}

-- A base that is not seen yet.
abbrev pub add_base : Bytes → List Bytes → List Bytes
add_base base bases = if contains bases base then bases else bases ++ (base ∷ [])

-- The body of the loop over the lines.
unfoldable pub add_line : (is_http : Bytes → Bool) → Bytes → List Bytes → List Bytes
unfolding trim_space trim_right has_prefix
add_line is_http text bases =
    let line = trim_space text in
    if line == [] || has_prefix line (lit "#")
    then bases
    else if not (is_http line)
    then bases
    else add_base (trim_right line b'/') bases

unfoldable pub add_mirror_lines : (is_http : Bytes → Bool) → List Bytes → List Bytes → List Bytes
unfolding add_line
add_mirror_lines is_http [] bases = bases
add_mirror_lines is_http (line ∷ lines) bases =
    add_mirror_lines is_http lines (add_line is_http line bases)

unfoldable pub parse_mirrorlist : (is_http : Bytes → Bool) → Bytes → List Bytes
unfolding add_mirror_lines lines_of
parse_mirrorlist is_http text = add_mirror_lines is_http (lines_of text) []

abbrev pub repomd_suffix : Bytes
repomd_suffix = lit "/repodata/repomd.xml"

-- The body of the loop over the URLs of a file.
unfoldable pub add_url : Bytes → List Bytes → List Bytes
unfolding trim_space trim_right has_prefix trim_suffix
add_url text bases =
    let v = trim_space text in
    let base = trim_suffix v repomd_suffix in
    if not (has_prefix v (lit "http://")) && not (has_prefix v (lit "https://"))
    then bases
    else if base == v
    then bases
    else add_base (trim_right base b'/') bases

unfoldable pub add_urls : List Bytes → List Bytes → List Bytes
unfolding add_url
add_urls [] bases = bases
add_urls (u ∷ us) bases = add_urls us (add_url u bases)

-- The files of a metalink, each with its URLs.
unfoldable pub add_files : List (Bytes × List Bytes) → List Bytes → List Bytes
unfolding add_urls
add_files [] bases = bases
add_files ((name, urls) ∷ files) bases =
    add_files files (if name == lit "repomd.xml" then add_urls urls bases else bases)

unfoldable pub parse_metalink : List (Bytes × List Bytes) → List Bytes
unfolding add_files
parse_metalink files = add_files files []
