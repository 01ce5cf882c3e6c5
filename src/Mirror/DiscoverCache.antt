-- ===== src/Mirror/DiscoverCache.antt =====
-- mirror/discover_cache.go: the record of what each crawl found. A `repoRecord` and a `fileRecord`
-- are a target with the time at which a scan stopped finding it. Both lists of a crawl go through
-- the same loops, which are written once, over the key of a target.
pub mod Origins
pub mod Laws
use repo_sync.Base.{
  ℕ, ◌<◌, Bool, true, false, not, ◌&&◌, ◌||◌, Option, none, some, List, [], ◌∷◌, ◌++◌,
}
use repo_sync.Base.{map, ◌==◌, nat_eq, list_eq, contains, ltb, leb, if◌then◌else◌}
use repo_sync.Base.Bytes.{Bytes, lit, trim_right, text_lt}
use repo_sync.Base.Clock.{Time, Duration, sub_time, is_zero}
use repo_sync.Base.Dict.{Dict, lookup, insert}
use repo_sync.Mirror.Targets.{RepoTarget, FileTarget, Discovery, repo_key, file_key}

pub record Tracked {ℓ} (A : Type ℓ) : Type ℓ where
  pub target : A
  pub gone : Option Time

pub record CrawlRecord : Type 0 where
  pub last_crawled : Time
  pub options : Bytes
  pub repos : List (Tracked RepoTarget)
  pub files : List (Tracked FileTarget)

abbrev pub Crawls : Type 0
Crawls = Dict Bytes CrawlRecord

unfoldable pub crawl_key : Bytes → Bytes
crawl_key base = trim_right base b'/' ++ lit "/"

-- What decides about a target that a scan did not find.
pub record Sweep : Type 0 where
  pub clean : Bool
  pub prune : Bool
  pub grace : Duration
  pub now : Time

abbrev pub gone_at : Time → Option Time → Time
gone_at now none = now
gone_at now (some t) = t

module _ {A : Type 0} where
  -- The live targets of a record, which `reuse` replays.
  unfoldable pub live : List (Tracked A) → List A
  live [] = []
  live (t ∷ ts) = elim t.gone [ none ↦ t.target ∷ live ts | some g ↦ live ts ]

  -- `sort.Slice` by a test on targets.
  unfoldable pub insert_sorted : (A → A → Bool) → Tracked A → List (Tracked A) → List (Tracked A)
  insert_sorted lt t [] = t ∷ []
  insert_sorted lt t (u ∷ us) =
      let rest = insert_sorted lt t us in if lt u.target t.target then u ∷ rest else t ∷ u ∷ us

  unfoldable pub sort_records : (A → A → Bool) → List (Tracked A) → List (Tracked A)
  unfolding insert_sorted
  sort_records lt [] = []
  sort_records lt (t ∷ ts) = insert_sorted lt t (sort_records lt ts)

module _ {A : Type 0} (key : A → Bytes) where
  abbrev pub keys : List A → List Bytes
  keys = map key

  -- The loop of `update` over the records of an earlier scan: those kept, and those withdrawn.
  unfoldable pub sweep_records : Sweep → List Bytes → List (Tracked A) → List (Tracked A) × List A
  sweep_records s seen [] = ([], [])
  sweep_records s seen (t ∷ ts) =
      let rest = sweep_records s seen ts in
      let since = gone_at s.now t.gone in
      if contains seen (key t.target)
      then (record t { gone = none } ∷ rest.0, rest.1)
      else if not s.clean
      then (t ∷ rest.0, rest.1)
      else if not s.prune || ltb (sub_time s.now since) s.grace
      then (record t { gone = some since } ∷ rest.0, rest.1)
      else (rest.0, t.target ∷ rest.1)

  -- What the scan turned up for the first time.
  unfoldable pub new_records : List Bytes → List A → List (Tracked A)
  new_records known [] = []
  new_records known (a ∷ as_) =
      let rest = new_records known as_ in
      if contains known (key a) then rest else record { target = a; gone = none } ∷ rest

  abbrev pub tracked_keys : List (Tracked A) → List Bytes
  tracked_keys = map (λ t. key t.target)

  -- One list of a crawl record after a scan, and the targets withdrawn.
  unfoldable pub update_records :
      (A → A → Bool) → Sweep → List A → List (Tracked A) → List (Tracked A) × List A
  unfolding sweep_records new_records sort_records
  update_records lt s found old =
      let (kept, withdrawn) = sweep_records s (keys found) old in
      (sort_records lt (kept ++ new_records (tracked_keys kept) found), withdrawn)

abbrev pub repo_lt : RepoTarget → RepoTarget → Bool
repo_lt a b = text_lt a.url b.url

abbrev pub file_lt : FileTarget → FileTarget → Bool
file_lt a b = if a.dir_url == b.dir_url then text_lt a.name b.name else text_lt a.dir_url b.dir_url

abbrev pub no_crawl : CrawlRecord
no_crawl = record { last_crawled = 0; options = []; repos = []; files = [] }

abbrev pub record_or : Option CrawlRecord → CrawlRecord
record_or none = no_crawl
record_or (some r) = r

-- `update`: the cache, and the targets that the upstream no longer serves.
unfoldable pub update :
    Bytes → Bytes → Discovery → Time → (prune : Bool) → Duration → Crawls → Discovery × Crawls
unfolding update_records crawl_key text_lt
update base options found now prune grace crawls =
    let rec = record_or (lookup (crawl_key base) crawls) in
    let s : Sweep = record {
      clean = leb found.failures 0;
      prune = prune;
      grace = grace;
      now = now;
    } in
    let (repos, gone_repos) = update_records repo_key repo_lt s found.repos rec.repos in
    let (files, gone_files) = update_records file_key file_lt s found.files rec.files in
    (
      record { repos = gone_repos; files = gone_files; failures = 0 },
      insert (crawl_key base)
          (record { last_crawled = now; options = options; repos = repos; files = files }) crawls,
    )

-- `reuse`: what a recent crawl with the same options found.
unfoldable pub reuse : Bytes → Bytes → Duration → Time → Crawls → Option Discovery
unfolding live crawl_key
reuse base options ttl now crawls =
    if leb ttl 0 then none else elim (lookup (crawl_key base) crawls) [
      | none ↦ none
      | some rec ↦
          if not (rec.options == options) || is_zero rec.last_crawled
          then none
          else if ltb now rec.last_crawled || leb ttl (sub_time now rec.last_crawled)
          then none
          else some (record { repos = live rec.repos; files = live rec.files; failures = 0 })
    ]
