-- ===== src/Mirror/Resolve.antt =====
-- mirror/resolve.go: the type of a repository and the source behind its URL; and mirror/options.go: where
-- it goes. The listing of a directory, the answers to probes, the reading of a URL and its parts are
-- parameters.
use repo_sync.Base.{
  ℕ, zero, suc, Bool, true, false, not, Option, none, some, List, [], ◌∷◌, ◌++◌, ◌==◌, nat_eq,
  list_eq, leb, length, if◌then◌else◌,
}
use repo_sync.Base.Bytes.{Bytes, lit, trim_right}
use repo_sync.Base.Paths.{clean}
use repo_sync.Base.Words.{split_where}
use repo_sync.Fetch.LocalPath.{local_join}
use repo_sync.Fetch.Mirrors.{parse_mirrorlist, parse_metalink}
use repo_sync.Fetch.Source.{Source, new_source}
use repo_sync.Mirror.Targets.{RepoType, repo_rpm, repo_deb, repo_arch, repo_apk, apk_index_name}
use repo_sync.Mirror.Discover.{DirListing, repo_type_of}

abbrev pub all_types : List RepoType
all_types = repo_rpm ∷ repo_deb ∷ repo_arch ∷ repo_apk ∷ []

-- `discoverTypes`.
unfoldable pub discover_types : (types : List RepoType) → (typ : RepoType) → List RepoType
discover_types [] typ = if typ == [] then all_types else typ ∷ []
discover_types (t ∷ types) typ = t ∷ types

unfoldable pub probe_paths : RepoType → List Bytes
probe_paths typ =
    if typ == repo_rpm
    then lit "repodata/repomd.xml" ∷ []
    else if typ == repo_deb
    then lit "InRelease" ∷ lit "Release" ∷ []
    else if typ == repo_apk
    then apk_index_name ∷ []
    else []

-- What a probe finds.
pub data Probe : Type 0 where
  found absent broken : Probe

pub data ResolveError : Type 0 where
  unknown_type probe_failed unreadable no_mirrors : ResolveError

-- The upstream of a URL.
pub record Upstream : Type 0 where
  pub has_query : Bytes → Bool
  pub probe : Bytes → Bytes → Probe
  pub list_dir : Bytes → Option DirListing
  pub read : Bytes → Option Bytes
  pub metalink : Bytes → List (Bytes × List Bytes)
  pub is_http : Bytes → Bool

pub data Detected : Type 0 where
  detected : RepoType → Detected
  undetected : ResolveError → Detected

-- A source and the URL whose path is that of the repository.
pub data Resolved : Type 0 where
  resolved : Source → Bytes → Resolved
  unresolved : ResolveError → Resolved

module _ (up : Upstream) (url : Bytes) where
  abbrev pub next_probe : Probe → Probe → Probe
  next_probe found rest = found
  next_probe absent rest = rest
  next_probe broken rest = broken

  -- The loop over probes: the first that is not absent.
  unfoldable pub probe_all : List Bytes → Probe
  probe_all [] = absent
  probe_all (p ∷ ps) = next_probe (up.probe url p) (probe_all ps)

  abbrev pub next_type : RepoType → Probe → Option RepoType × Bool → Option RepoType × Bool
  next_type typ found rest = (some typ, true)
  next_type typ absent rest = rest
  next_type typ broken rest = (none, false)

  -- The loop over types: a type, and whether no probe failed.
  unfoldable pub probe_types : List RepoType → Option RepoType × Bool
  unfolding probe_all probe_paths
  probe_types [] = (none, true)
  probe_types (typ ∷ types) = next_type typ (probe_all (probe_paths typ)) (probe_types types)

  abbrev pub listed_type : List RepoType → Option DirListing → Option RepoType
  unfolding repo_type_of
  listed_type types none = none
  listed_type types (some l) = repo_type_of l types

  abbrev pub probed_type : Option RepoType × Bool → Detected
  probed_type (some typ, b) = detected typ
  probed_type (none, true) = undetected unknown_type
  probed_type (none, false) = undetected probe_failed

  unfoldable pub detect_type : List RepoType → Detected
  unfolding trim_right listed_type probe_types
  detect_type types =
      if up.has_query url
      then undetected unknown_type
      else elim (listed_type types (up.list_dir (trim_right url b'/' ++ lit "/"))) [
        | some typ ↦ detected typ
        | none ↦ probed_type (probe_types types)
      ]

  abbrev pub of_bases : List Bytes → Resolved
  of_bases [] = unresolved no_mirrors
  of_bases (b ∷ bs) = resolved (new_source (b ∷ bs)) b

  abbrev pub or_bases : List Bytes → List Bytes → List Bytes
  or_bases [] rest = rest
  or_bases (b ∷ bs) rest = b ∷ bs

  -- The URL as a list of mirrors.
  unfoldable pub resolve_list : RepoType → Option Bytes → Resolved
  unfolding parse_metalink parse_mirrorlist new_source
  resolve_list typ none = unresolved unreadable
  resolve_list typ (some text) =
      let links = if typ == repo_rpm then parse_metalink (up.metalink text) else [] in
      of_bases (or_bases links (parse_mirrorlist up.is_http text))

  abbrev pub direct : Resolved
  unfolding new_source
  direct = resolved (new_source (url ∷ [])) url

  abbrev pub after_probe : RepoType → Probe → Resolved
  unfolding resolve_list direct
  after_probe typ found = direct
  after_probe typ absent = resolve_list typ (up.read url)
  after_probe typ broken = unresolved probe_failed

  unfoldable pub resolve_source : RepoType → Resolved
  unfolding probe_paths probe_all after_probe direct
  resolve_source typ =
      let probes = probe_paths typ in
      if probes == []
      then direct
      else if up.has_query url
      then after_probe typ absent
      else after_probe typ (probe_all probes)

-- Where a repository goes.
pub record Destination : Type 0 where
  pub base : Bytes
  pub flat : Bool
  pub root : Bytes
  pub trim : ℕ

abbrev is_slash : ℕ → Bool
is_slash x = x == b'/'

abbrev pub full_segments : List Bytes → List Bytes
full_segments [] = []
full_segments ([] ∷ ws) = full_segments ws
full_segments ((x ∷ w) ∷ ws) = (x ∷ w) ∷ full_segments ws

unfoldable pub drop_segments : ℕ → List Bytes → List Bytes
drop_segments zero ws = ws
drop_segments (suc n) [] = []
drop_segments (suc n) (w ∷ ws) = drop_segments n ws

abbrev pub joined : List Bytes → Bytes
joined [] = []
joined (w ∷ []) = w
joined (w ∷ v ∷ ws) = w ++ (b'/' ∷ joined (v ∷ ws))

-- `repoDest` on the path of the URL, `none` if the URL has none.
unfoldable pub repo_dest : Destination → Option Bytes → Option Bytes
unfolding split_where drop_segments local_join clean
repo_dest d path =
    if not (d.base == []) then some d.base else if d.flat then some d.root else elim path [
      | none ↦ none
      | some p ↦
          let segs = full_segments (split_where is_slash p) in
          if leb (length segs) d.trim
          then some d.root
          else local_join d.root (clean (joined (drop_segments d.trim segs)))
    ]
