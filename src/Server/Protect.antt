-- ===== src/Server/Protect.antt =====
-- server/crawl_loop.go: crawls under a signature policy. `dispatchCrawl`, which runs a synchronization,
-- the reading of key files and the hash of the policy are parameters.
use repo_sync.Base.{
  Bool, false, not, ◌&&◌, ◌||◌, Option, none, some, List, [], ◌∷◌, ◌++◌, ◌==◌, nat_eq, list_eq,
  if◌then◌else◌,
}
use repo_sync.Base.Bytes.{Bytes, lit, trim_suffix, has_suffix}
use repo_sync.Base.Clock.{Time}
use repo_sync.Config.{Config}
use repo_sync.Fetch.LocalPath.{local_join}
use repo_sync.Fetch.Jobs.{Tree}
use repo_sync.State.{Entry, Store, mark_crawled, mark_signature_policy, entry}
use repo_sync.Mirror.Targets.{repo_rpm, repo_deb, repo_arch}
use repo_sync.Mirror.Signatures.{
  SignatureMode, signature_off, signature_required, parse_signature_mode,
}
use repo_sync.Server.Classify.{Resource}
use repo_sync.Server.Upstream.{regular_file}

pub record SignatureSettings : Type 0 where
  pub mode : SignatureMode
  pub key_data : List Bytes
  pub keyservers : List Bytes
  pub policy : Bytes

abbrev pub no_settings : SignatureSettings
no_settings = record { mode = signature_off; key_data = []; keyservers = []; policy = [] }

-- The settings of the crawler that name keys, and what the machine makes of them.
pub record KeyStore : Type 0 where
  pub gpg_keys : List Bytes
  pub keyservers : List Bytes
  pub read_file : Bytes → Option Bytes
  pub hex_sum : Bytes → Bytes

abbrev pub zero_byte : Bytes
zero_byte = 0 ∷ []

-- The loop over the key files: what is hashed of them, and their data, or the name that cannot be read.
unfoldable pub read_keys : (Bytes → Option Bytes) → List Bytes → Option (Bytes × List Bytes)
read_keys read [] = some ([], [])
read_keys read (name ∷ names) =
    let rest = read_keys read names in
    elim (read name) [
      | none ↦ none
      | some data_ ↦ elim rest [
        | none ↦ none
        | some (text, keys) ↦
            some (name ++ (zero_byte ++ (data_ ++ (zero_byte ++ text))), data_ ∷ keys)
      ]
    ]

unfoldable pub hash_servers : List Bytes → Bytes
hash_servers [] = []
hash_servers (server ∷ rest) = server ++ (zero_byte ++ hash_servers rest)

-- `loadSignatureSettings`; `none` is its error.
unfoldable pub load_signature_settings : Config → KeyStore → Option SignatureSettings
unfolding parse_signature_mode read_keys hash_servers
load_signature_settings conf ks = elim (parse_signature_mode conf.signature_mode) [
  | none ↦ none
  | some mode ↦ elim (read_keys ks.read_file ks.gpg_keys) [
    | none ↦ none
    | some (text, keys) ↦ some (record {
      mode = mode;
      key_data = keys;
      keyservers = ks.keyservers;
      policy = ks.hex_sum (
          lit "repository-openpgp-v1"
          ++ (zero_byte ++ (mode ++ (zero_byte ++ (text ++ hash_servers ks.keyservers)))));
    })
  ]
]

unfoldable pub protected_repository_kind : Bytes → Bool
protected_repository_kind kind = kind == repo_rpm || (kind == repo_deb || kind == repo_arch)

-- Whether a resource falls under an active policy.
unfoldable pub is_protected : Config → Bytes → Bool
unfolding protected_repository_kind
is_protected conf kind =
    protected_repository_kind kind && not (conf.signature_mode == signature_off)

abbrev pub file_at : Option Bytes → Bytes → Tree → Bool
file_at none name tree = false
file_at (some repo) name tree = elim (local_join repo name) [
  | none ↦ false
  | some file ↦ regular_file file tree
]

-- The entry point files of a directory that the policy needs.
abbrev pub rpm_present : SignatureMode → Option Bytes → Tree → Bool
rpm_present mode repo tree =
    file_at repo (lit "repodata/repomd.xml") tree
    && (not (mode == signature_required) || file_at repo (lit "repodata/repomd.xml.asc") tree)

abbrev pub deb_present : SignatureMode → Option Bytes → Tree → Bool
deb_present mode repo tree =
    file_at repo (lit "InRelease") tree
    || (file_at repo (lit "Release") tree
        && (not (mode == signature_required) || file_at repo (lit "Release.gpg") tree))

abbrev pub arch_present : (root req_path : Bytes) → Tree → Bool
arch_present root req_path tree =
    let name = trim_suffix req_path (lit ".sig") in
    has_suffix name (lit ".db") && file_at (some root) name tree

unfoldable pub signature_policy_artifacts_present :
    (root : Bytes) → Resource → SignatureMode → Tree → Bool
unfolding local_join regular_file trim_suffix has_suffix
signature_policy_artifacts_present root res mode tree =
    let repo = local_join root res.path in
    if res.kind == repo_rpm
    then rpm_present mode repo tree
    else if res.kind == repo_deb
    then deb_present mode repo tree
    else if res.kind == repo_arch
    then arch_present root res.req_path tree
    else false

-- An error of a crawl: its text, and whether it is `ErrNotFound`.
pub record CrawlError : Type 0 where
  pub text : Bytes
  pub missing : Bool

abbrev pub text_of : Option CrawlError → Option Bytes
text_of none = none
text_of (some e) = some e.text

-- `dispatchCrawl`: its error, and the files.
abbrev pub Dispatch : Type 0
Dispatch = Resource → SignatureSettings → Tree → Option CrawlError × Tree

abbrev pub mark_verified : Option CrawlError → Bytes → Bytes → Store → Store
mark_verified none key policy s = mark_signature_policy key policy s
mark_verified (some e) key policy s = s

-- A synchronization, with its outcome in the state.
unfoldable pub crawl_with :
    Config
    → Dispatch
    → Time
    → Resource
    → SignatureSettings
    → Tree
    → Store
    → Option CrawlError × (Tree × Store)
unfolding mark_crawled mark_signature_policy
crawl_with conf dispatch now res settings tree s =
    let (error, tree') = dispatch res settings tree in
    let marked = mark_crawled conf res.key now (text_of error) s in
    (error, (tree', mark_verified error res.key settings.policy marked))

abbrev pub is_verified : Bytes → Option Entry → Bool
is_verified policy none = false
is_verified policy (some e) = e.signature_policy == policy && e.last_error == []

-- `crawlProtectedRepository`: its error, the files and the state. An error has a text, here that of
-- settings which cannot be loaded.
unfoldable pub crawl_protected_repository :
    Config
    → Dispatch
    → Time
    → Resource
    → (artifacts_present : Bool) → Option SignatureSettings
    → Tree
    → Store
    → Option CrawlError × (Tree × Store)
unfolding crawl_with entry mark_crawled
crawl_protected_repository conf dispatch now res present none tree s =
    let e : CrawlError = record { text = lit "signature settings"; missing = false } in
    (some e, (tree, mark_crawled conf res.key now (some e.text) s))
crawl_protected_repository conf dispatch now res present (some settings) tree s =
    if is_verified settings.policy (entry res.key s) && present
    then (none, (tree, s))
    else crawl_with conf dispatch now res settings tree s
