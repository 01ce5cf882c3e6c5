-- ===== src/Mirror/Targets.antt =====
-- mirror/discover.go and mirror/options.go: what a crawl finds, and the options that decide it.
use repo_sync.Base.{ℕ, List, ◌++◌}
use repo_sync.Base.Bytes.{Bytes, lit}

abbrev pub RepoType : Type 0
RepoType = Bytes

abbrev pub repo_rpm : RepoType
repo_rpm = lit "rpm"

abbrev pub repo_deb : RepoType
repo_deb = lit "deb"

abbrev pub repo_arch : RepoType
repo_arch = lit "arch"

abbrev pub repo_apk : RepoType
repo_apk = lit "apk"

abbrev pub apk_index_name : Bytes
apk_index_name = lit "APKINDEX.tar.gz"

pub record RepoTarget : Type 0 where
  pub url : Bytes
  pub typ : RepoType

pub record FileTarget : Type 0 where
  pub dir_url : Bytes
  pub name : Bytes

-- The key by which the cache knows a loose file.
abbrev pub file_key : FileTarget → Bytes
file_key f = f.dir_url ++ (lit "/" ++ f.name)

abbrev pub repo_key : RepoTarget → Bytes
repo_key r = r.url

pub record Discovery : Type 0 where
  pub repos : List RepoTarget
  pub files : List FileTarget
  pub failures : ℕ
