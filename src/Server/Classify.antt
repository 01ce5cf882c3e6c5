-- ===== src/Server/Classify.antt =====
-- server/classify.go: the resource that a request path belongs to.
pub mod Laws
use repo_sync.Base.{◌||◌, Option, none, some, [], ◌∷◌, ◌++◌, ◌==◌, nat_eq, list_eq, if◌then◌else◌}
use repo_sync.Base.Bytes.{Bytes, lit, trim_prefix, has_suffix, cut}
use repo_sync.Base.Paths.{clean, base, dir}
use repo_sync.Mirror.Targets.{repo_rpm, repo_deb, repo_arch, repo_apk, apk_index_name}
use repo_sync.State.{kind_generic}

pub record Resource : Type 0 where
  pub kind : Bytes
  pub key : Bytes
  pub path : Bytes
  pub root : Bytes
  pub req_path : Bytes

abbrev pub or_slash : Bytes → Bytes
or_slash r = if r == [] then lit "/" else r

-- The part of a path before a marker, or the root of all; `other` without the marker.
unfoldable pub root_before : Bytes → Bytes → Bytes → Bytes
unfolding cut
root_before path marker other = elim (cut path marker) [ none ↦ other | some (b, a) ↦ or_slash b ]

-- A resource keyed by its directory.
abbrev pub resource_at : Bytes → (path root req : Bytes) → Resource
resource_at kind path root req = record {
  kind = kind;
  key = kind ++ (b':' ∷ path);
  path = path;
  root = root;
  req_path = req;
}

-- Of the clean path of a request outside repodata, with its base and directory.
unfoldable pub classify_metadata : (path base_ dir_ : Bytes) → Resource
unfolding root_before has_suffix
classify_metadata path base_ dir_ =
    if base_ == lit "InRelease" || (base_ == lit "Release" || base_ == lit "Release.gpg")
    then resource_at repo_deb dir_ (root_before path (lit "/dists/") dir_) path
    else if has_suffix base_ (lit ".db") || has_suffix base_ (lit ".db.sig")
    then resource_at repo_arch dir_ dir_ path
    else if base_ == apk_index_name
    then resource_at repo_apk dir_ dir_ path
    else resource_at kind_generic path [] path

unfoldable pub classify_clean : (path base_ dir_ : Bytes) → Resource
unfolding classify_metadata cut
classify_clean path base_ dir_ = elim (cut path (lit "/repodata/")) [
  | some (b, a) ↦ resource_at repo_rpm (or_slash b) (or_slash b) path
  | none ↦ classify_metadata path base_ dir_
]

abbrev pub clean_request : Bytes → Bytes
clean_request req = clean (b'/' ∷ trim_prefix req (lit "/"))

unfoldable pub classify_request : Bytes → Resource
unfolding classify_clean
classify_request req = let path = clean_request req in classify_clean path (base path) (dir path)
