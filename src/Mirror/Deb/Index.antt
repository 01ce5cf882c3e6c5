-- ===== src/Mirror/Deb/Index.antt =====
-- mirror/deb.go: `parseIndexFile` and `sourceFiles` on the lines of an index.
pub mod Laws
pub mod Packages
use repo_sync.Base.{
  ℕ, zero, suc, Bool, true, false, Option, none, some, List, [], ◌∷◌, ◌++◌, ◌==◌, nat_eq, list_eq,
  length, if◌then◌else◌,
}
use repo_sync.Base.Bytes.{Bytes, lit, to_lower}
use repo_sync.Base.Dict.{Dict, insert}
use repo_sync.Base.Paths.{clean, join}
use repo_sync.Base.Words.{parse_int}
use repo_sync.Mirror.Control.{Stanza, get, read_stanza}
use repo_sync.Mirror.Deb.Release.{DebFile, new_file, add_fields}

abbrev pub source_sum_fields : List (Bytes × Bytes)
source_sum_fields =
    (lit "Files", lit "md5sum")
    ∷ (lit "Checksums-Sha1", lit "sha1")
    ∷ (lit "Checksums-Sha256", lit "sha256")
    ∷ (lit "Checksums-Sha512", lit "sha512")
    ∷ []

abbrev pub values : Dict Bytes DebFile → List DebFile
values [] = []
values ((k, f) ∷ d) = f ∷ values d

abbrev source_file : (dir : Bytes) → Bytes → DebFile
source_file dir name = new_file (join dir name)

-- `sourceFiles`: a dictionary keeps its keys in the order of their first insertion.
unfoldable pub source_files : (order : List (Bytes × Bytes)) → Stanza → List DebFile
unfolding add_fields get join
source_files order st =
    values (add_fields (source_file (get st (lit "Directory" ∷ []))) st order [])

abbrev add_named : Bytes → Bytes → Dict Bytes Bytes → Dict Bytes Bytes
add_named algo value sums = if value == [] then sums else insert algo (to_lower value) sums

unfoldable pub package_sums : Stanza → Dict Bytes Bytes
unfolding get insert to_lower
package_sums st = add_named (lit "sha512") (get st (lit "SHA512" ∷ [])) (
    add_named (lit "sha256") (get st (lit "SHA256" ∷ [])) (
      add_named (lit "sha1") (get st (lit "SHA1" ∷ []))
        (add_named (lit "md5sum") (get st (lit "MD5sum" ∷ lit "MD5Sum" ∷ [])) [])))

-- What one stanza of an index adds.
unfoldable pub stanza_files :
    (order : List (Bytes × Bytes)) → (kind : Bytes) → Stanza → List DebFile
unfolding source_files package_sums get parse_int clean
stanza_files order kind st =
    let name = get st (lit "Filename" ∷ []) in
    if kind == lit "Sources"
    then source_files order st
    else if name == []
    then []
    else (record {
      path = clean name;
      size = (parse_int (get st (lit "Size" ∷ []))).value;
      sums = package_sums st;
    })
      ∷ []

abbrev pub next_files : List DebFile → Option (List DebFile) → Option (List DebFile)
next_files fs none = none
next_files fs (some rest) = some (fs ++ rest)

-- The loop over the stanzas; `none` is out of fuel.
unfoldable pub read_index :
    ℕ → (order : List (Bytes × Bytes)) → (kind : Bytes) → List Bytes → Option (List DebFile)
unfolding read_stanza stanza_files
read_index zero order kind lines = none
read_index (suc fuel) order kind lines =
    let rest = read_index fuel order kind ((read_stanza lines).1) in
    elim ((read_stanza lines).0) [
      | none ↦ some []
      | some st ↦ next_files (stanza_files order kind st) rest
    ]

unfoldable pub parse_index :
    (order : List (Bytes × Bytes)) → (kind : Bytes) → List Bytes → Option (List DebFile)
unfolding read_index
parse_index order kind lines = read_index (suc (length lines)) order kind lines
