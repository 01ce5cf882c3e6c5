-- ===== src/Mirror/Deb/Index/Packages.antt =====
-- mirror/deb.go: what `parseIndexFile` makes of an index that names packages.
use repo_sync.Base.{
  ◌≡◌, ◌≢◌, refl, ◌∙◌, ap, false, some, List, [], ◌∷◌, ◌++◌, ◌==◌, nat_eq, list_eq, arith, All,
}
use repo_sync.Base.Bytes.{Bytes, lit, to_lower}
use repo_sync.Base.Dict.{lookup, insert, lookup-insert}
use repo_sync.Base.Paths.{clean}
use repo_sync.Base.Words.{parse_int}
use repo_sync.Mirror.Control.{Stanza, get}
use repo_sync.Mirror.Control.Laws.{IsPlain, insert_all}
use repo_sync.Mirror.Deb.Release.{DebFile}
use repo_sync.Mirror.Deb.Index.{package_sums, stanza_files, parse_index}
use repo_sync.Mirror.Deb.Index.Laws.{ArePlain, print_index, index_files, parse_index-print_stanzas}

-- What a repository writes of a package, and other fields that it may add.
pub record Package : Type 0 where
  pub name : Bytes
  pub size : Bytes
  pub sum : Bytes
  pub others : List (Bytes × Bytes)

abbrev named : Package → Bytes × Bytes
named p = (lit "Filename", p.name)

abbrev fields : Package → List (Bytes × Bytes)
fields p = (lit "Size", p.size) ∷ (lit "SHA256", p.sum) ∷ p.others

abbrev pub stanzas : List Package → List ((Bytes × Bytes) × List (Bytes × Bytes))
stanzas [] = []
stanzas (p ∷ ps) = (named p, fields p) ∷ stanzas ps

-- The file that such a package stands for.
abbrev pub deb_files : List Package → List DebFile
deb_files [] = []
deb_files (p ∷ ps) =
    (record {
      path = clean p.name;
      size = (parse_int p.size).value;
      sums = (lit "sha256", to_lower p.sum) ∷ [];
    })
    ∷ deb_files ps

-- The fields that say what a file is.
abbrev telling : List Bytes
telling =
    lit "Filename"
    ∷ lit "Size"
    ∷ lit "SHA512"
    ∷ lit "SHA256"
    ∷ lit "SHA1"
    ∷ lit "MD5sum"
    ∷ lit "MD5Sum"
    ∷ []

-- A package with a name and a sum, whose fields are plain, and whose other fields say nothing of the file.
pub record IsWritten (p : Package) : Type 0 where
  pub name : p.name ≢ []
  pub sum : p.sum ≢ []
  pub plain : All IsPlain (named p ∷ fields p)
  pub others : All (λ f. All (λ k. (f.0 == k) ≡ false) telling) p.others

lookup-insert_all :
    (k : Bytes) (fs : List (Bytes × Bytes)) (s : Stanza)
    → All (λ f. (f.0 == k) ≡ false) fs
    → lookup k (insert_all fs s) ≡ lookup k s
unfolding insert_all
lookup-insert_all k [] s h = refl
lookup-insert_all k ((name, value) ∷ fs) s (h, rest) =
    lookup-insert_all k fs (insert name value s) rest
    ∙ ground (arith, h, lookup-insert k name value s)

-- The other fields without those that a name rules out.
All-other :
    (k : Bytes) (fs : List (Bytes × Bytes))
    → ((f : Bytes × Bytes) → All (λ k. (f.0 == k) ≡ false) telling → (f.0 == k) ≡ false)
    → All (λ f. All (λ k. (f.0 == k) ≡ false) telling) fs
    → All (λ f. (f.0 == k) ≡ false) fs
All-other k [] pick h = tt
All-other k (f ∷ fs) pick (h, rest) = (pick f h, All-other k fs pick rest)

abbrev core : Package → Stanza
core p = (lit "Filename", p.name) ∷ (lit "Size", p.size) ∷ (lit "SHA256", p.sum) ∷ []

insert_core : (p : Package) → insert_all (named p ∷ fields p) [] ≡ insert_all p.others (core p)
unfolding insert_all insert nat_eq list_eq
insert_core p = refl

lookup-others :
    (p : Package) (k : Bytes)
    → IsWritten p
    → ((f : Bytes × Bytes) → All (λ k. (f.0 == k) ≡ false) telling → (f.0 == k) ≡ false)
    → lookup k (insert_all p.others (core p)) ≡ lookup k (core p)
lookup-others p k h pick =
    lookup-insert_all k p.others (core p) (All-other k p.others pick h.others)

package_sums_written :
    (p : Package)
    → IsWritten p
    → package_sums (insert_all p.others (core p)) ≡ (lit "sha256", to_lower p.sum) ∷ []
unfolding package_sums get lookup insert nat_eq list_eq
package_sums_written p h =
    let s512 = lookup-others p (lit "SHA512") h (λ f a. a.1.1.0) in
    let s256 = lookup-others p (lit "SHA256") h (λ f a. a.1.1.1.0) in
    let s1 = lookup-others p (lit "SHA1") h (λ f a. a.1.1.1.1.0) in
    let md5 = lookup-others p (lit "MD5sum") h (λ f a. a.1.1.1.1.1.0) in
    let old_md5 = lookup-others p (lit "MD5Sum") h (λ f a. a.1.1.1.1.1.1.0) in
    ground (arith, s512, s256, s1, md5, old_md5, h.sum)

stanza_files_written :
    (order : List (Bytes × Bytes)) (kind : Bytes) (p : Package) (ps : List Package)
    → (kind == lit "Sources") ≡ false
    → IsWritten p
    → stanza_files order kind (insert_all p.others (core p)) ++ deb_files ps ≡ deb_files (p ∷ ps)
unfolding stanza_files get lookup nat_eq list_eq
stanza_files_written order kind p ps k h =
    let name = lookup-others p (lit "Filename") h (λ f a. a.0) in
    let size = lookup-others p (lit "Size") h (λ f a. a.1.0) in
    ground (arith, k, name, size, package_sums_written p h, h.name)

index_files_written :
    (order : List (Bytes × Bytes)) (kind : Bytes) (ps : List Package)
    → (kind == lit "Sources") ≡ false
    → All IsWritten ps
    → index_files order kind (stanzas ps) ≡ deb_files ps
index_files_written order kind [] k h = refl
index_files_written order kind (p ∷ ps) k (h, rest) =
    ap (λ fs. stanza_files order kind (insert_all (named p ∷ fields p) []) ++ fs)
      (index_files_written order kind ps k rest)
    ∙ ap (λ s. stanza_files order kind s ++ deb_files ps) (insert_core p)
    ∙ stanza_files_written order kind p ps k h

ArePlain-stanzas : (ps : List Package) → All IsWritten ps → ArePlain (stanzas ps)
ArePlain-stanzas [] h = tt
ArePlain-stanzas (p ∷ ps) (h, rest) = (h.plain, ArePlain-stanzas ps rest)

-- An index of any kind but "Sources", printed from packages that have a name and a SHA256 sum and whose
-- fields are plain, parses to a file for each package, in their order: its path is the cleaned Filename,
-- its size the number that Size holds, and its only sum the SHA256 in lower case. Other fields of a
-- stanza, none of which has a name that the parser reads, change nothing.
pub parse_index-print_index :
    (order : List (Bytes × Bytes)) (kind : Bytes) (ps : List Package)
    → (kind == lit "Sources") ≡ false
    → All IsWritten ps
    → parse_index order kind (print_index (stanzas ps)) ≡ some (deb_files ps)
parse_index-print_index order kind ps k h =
    parse_index-print_stanzas order kind (stanzas ps) (ArePlain-stanzas ps h)
    ∙ ap some (index_files_written order kind ps k h)
