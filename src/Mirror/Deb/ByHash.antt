-- ===== src/Mirror/Deb/ByHash.antt =====
-- mirror/deb.go: `addByHash` with `copyFile`, on the files of the archive.
pub mod Laws
use repo_sync.Base.{
  Bool, true, false, ◌&&◌, ◌||◌, not, Option, none, some, List, [], ◌∷◌, ◌++◌, ◌==◌, nat_eq,
  list_eq, contains, if◌then◌else◌,
}
use repo_sync.Base.Bytes.{Bytes, lit}
use repo_sync.Base.Dict.{Dict, lookup}
use repo_sync.Base.Paths.{dir, clean, slashed}
use repo_sync.Fetch.Download.{LocalFile}
use repo_sync.Fetch.Prune.{KeepSet, keep_add}
use repo_sync.Fetch.Jobs.{Tree, set_slot}
use repo_sync.Mirror.Deb.Release.{DebFile}

-- `byHashDirs`.
abbrev pub by_hash_dirs : Dict Bytes Bytes
by_hash_dirs =
    (lit "md5sum", lit "MD5Sum")
    ∷ (lit "sha1", lit "SHA1")
    ∷ (lit "sha256", lit "SHA256")
    ∷ (lit "sha512", lit "SHA512")
    ∷ []

-- What becomes of a link: made, by a link or by a copy, or not, with what a failed copy leaves.
pub data Linked : Type 0 where
  made : Linked
  not_made : Option LocalFile → Linked

-- Which directories can be made, and what becomes of each link.
pub record LinkDisk : Type 0 where
  pub has_dir : Bytes → Bool
  pub link : Bytes → Linked

abbrev pub Links : Type 0
Links = Tree × KeepSet

abbrev pub make_link : Linked → Option LocalFile → Bytes → Links → Links
make_link made f link (tree, keep) =
    (set_slot link (record (tree link) { dst = f }) tree, keep_add link keep)
make_link (not_made rest) f link (tree, keep) =
    (set_slot link (record (tree link) { dst = rest }) tree, keep)

-- One link that is not there, or one that is.
abbrev pub add_link : Linked → Option LocalFile → Option LocalFile → Bytes → Links → Links
add_link outcome (some old) f link (tree, keep) = (tree, keep_add link keep)
add_link outcome none f link links = make_link outcome f link links

unfoldable pub link_path : (dir sub digest : Bytes) → Bytes
unfolding clean slashed
link_path dir sub digest = clean (dir ++ slashed (lit "by-hash" ∷ sub ∷ digest ∷ []))

-- The loop over the checksums of a file, which ends at a directory that cannot be made.
unfoldable pub add_links : LinkDisk → (dst : Bytes) → Dict Bytes Bytes → Links → Links
unfolding lookup link_path dir keep_add
add_links disk dst [] links = links
add_links disk dst ((algo, digest) ∷ sums) links = elim (lookup algo by_hash_dirs) [
  | none ↦ add_links disk dst sums links
  | some sub ↦
      let link = link_path (dir dst) sub digest in
      if disk.has_dir link
      then add_links disk dst sums
          (add_link (disk.link link) (links.0 link).dst (links.0 dst).dst link links)
      else links
]

unfoldable pub add_by_hash :
    LinkDisk → (dst rel_path : Bytes) → (files : Dict Bytes DebFile) → Links → Links
unfolding lookup add_links
add_by_hash disk dst rel_path files links = elim (lookup rel_path files) [
  | none ↦ links
  | some f ↦ if contains rel_path b'/' then add_links disk dst f.sums links else links
]
