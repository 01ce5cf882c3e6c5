-- ===== src/Config.antt =====
-- config/config.go: the parts of the configuration that the modelled code reads, with the index of
-- the domains and of the mounts. Other fields only reach libraries.
pub mod Mounts
use repo_sync.Base.{ℕ, suc, Bool, true, false, ◌&&◌, ◌||◌, ◌⊎◌, inl, inr, Option, none, some, List}
use repo_sync.Base.{[], ◌∷◌, ◌++◌}
use repo_sync.Base.{◌==◌, nat_eq, list_eq, contains, ltb, if◌then◌else◌, length, get_elem?}
use repo_sync.Base.Bytes.{Bytes, lit, has_prefix, to_lower, trim_space}
use repo_sync.Base.Clock.{Duration}
use repo_sync.Base.Dict.{Dict, lookup, insert}

abbrev pub role_online : Bytes
role_online = lit "online"

pub record DomainConfig : Type 0 where
  pub domain : Bytes
  pub root : Bytes
  pub role : Bytes

pub record MountRepoConfig : Type 0 where
  pub path : Bytes
  pub type : Bytes

pub record MountConfig : Type 0 where
  pub path : Bytes
  pub upstream : Bytes
  pub repos : List MountRepoConfig

pub record Config : Type 0 where
  pub repo_crawl_interval : Duration
  pub failure_retry_interval : Duration
  pub generic_max_age : Duration
  pub negative_cache_ttl : Duration
  pub transient_error_ttl : Duration
  pub refresh_schedule : List Duration
  pub signature_mode : Bytes
  pub directory_indexes : Bool
  pub domains : List DomainConfig
  pub mounts : List MountConfig
  pub domains_by_name : Dict Bytes ℕ
  pub online_index : Option ℕ
  pub mount_order : List ℕ

-- `pathUnder`: whether a request path equals a base path or sits below it.
unfoldable pub path_under : Bytes → Bytes → Bool
path_under p base = if base == lit "/" then true else p == base || has_prefix p (base ++ lit "/")

pub data IndexError : Type 0 where
  duplicate_domain two_online duplicate_mount bad_upstream outside_mount : IndexError

-- The loop of `indexDomains`: the host table and the index of the online domain so far.
index_domains_from :
    ℕ → List DomainConfig → Dict Bytes ℕ → Option ℕ → (Dict Bytes ℕ × Option ℕ) ⊎ IndexError
index_domains_from i [] names online = inl (names, online)
index_domains_from i (d ∷ ds) names online =
    let names' = insert d.domain i names in
    let second = index_domains_from (suc i) ds names' (some i) in
    let other = index_domains_from (suc i) ds names' online in
    elim (lookup d.domain names) [
      | some _ ↦ inr duplicate_domain
      | none ↦
          if d.role == role_online
          then elim online [ some _ ↦ inr two_online | none ↦ second ]
          else other
    ]

unfoldable pub index_domains : List DomainConfig → (Dict Bytes ℕ × Option ℕ) ⊎ IndexError
unfolding index_domains_from
index_domains ds = index_domains_from 0 ds [] none

-- The check of one mount's upstream: `url.Parse` is a parameter that says whether the URL has a
-- scheme and a host, and no query or fragment.
abbrev pub UpstreamCheck : Type 0
UpstreamCheck = Bytes → Bool

repos_under : Bytes → List MountRepoConfig → Bool
repos_under base [] = true
repos_under base (r ∷ rs) = path_under r.path base && repos_under base rs

-- The validation loop of `indexMounts`.
check_mounts : UpstreamCheck → List Bytes → List MountConfig → Option IndexError
check_mounts ok seen [] = none
check_mounts ok seen (m ∷ ms) =
    let rest = check_mounts ok (m.path ∷ seen) ms in
    if contains seen m.path
    then some duplicate_mount
    else if ok m.upstream
    then (if repos_under m.path m.repos then rest else some outside_mount)
    else some bad_upstream

abbrev path_length : List MountConfig → ℕ → ℕ
path_length ms i = elim (get_elem? ms i) [ none ↦ 0 | some m ↦ length m.path ]

-- `sort.Slice` by falling path length. Which of two equally long paths comes first is open in the
-- source; here it is the earlier one.
insert_by_length : List MountConfig → ℕ → List ℕ → List ℕ
insert_by_length ms i [] = i ∷ []
insert_by_length ms i (j ∷ js) =
    let rest = insert_by_length ms i js in
    if ltb (path_length ms i) (path_length ms j) then j ∷ rest else i ∷ j ∷ js

order_from : List MountConfig → ℕ → List MountConfig → List ℕ
order_from ms i [] = []
order_from ms i (m ∷ rest) = insert_by_length ms i (order_from ms (suc i) rest)

unfoldable pub index_mounts : UpstreamCheck → List MountConfig → List ℕ ⊎ IndexError
unfolding repos_under check_mounts insert_by_length order_from path_under
index_mounts ok ms = elim (check_mounts ok [] ms) [
  | some e ↦ inr e
  | none ↦ inl (order_from ms 0 ms)
]

first_under : List MountConfig → Bytes → List ℕ → Option MountConfig
first_under ms p [] = none
first_under ms p (i ∷ order) =
    let rest = first_under ms p order in
    elim (get_elem? ms i) [ none ↦ rest | some m ↦ if path_under p m.path then some m else rest ]

-- `MountFor`: the first mount in the order that covers the request path.
unfoldable pub mount_for : Config → Bytes → Option MountConfig
unfolding first_under path_under
mount_for c p = first_under c.mounts p c.mount_order

is_bracket : ℕ → Bool
is_bracket x = x == 91 || x == 93

-- `strings.Trim(s, "[]")`.
unfoldable trim_left_brackets : Bytes → Bytes
unfolding is_bracket
trim_left_brackets [] = []
trim_left_brackets (x ∷ s) = let rest = trim_left_brackets s in if is_bracket x then rest else x ∷ s

unfoldable trim_right_brackets : Bytes → Bytes
unfolding is_bracket
trim_right_brackets [] = []
trim_right_brackets (x ∷ s) =
    let rest = trim_right_brackets s in if rest == [] && is_bracket x then [] else x ∷ rest

-- `Domain`: `split` is `net.SplitHostPort`, the host of a host with a port.
unfoldable pub domain_for : (split : Bytes → Option Bytes) → Config → Bytes → Option DomainConfig
unfolding to_lower trim_space trim_left_brackets trim_right_brackets lookup
domain_for split c host =
    let name = to_lower (trim_space host) in
    let bare : Bytes = elim (split name) [ none ↦ name | some h ↦ h ] in
    elim (lookup (trim_right_brackets (trim_left_brackets bare)) c.domains_by_name) [
      | none ↦ none
      | some i ↦ get_elem? c.domains i
    ]
