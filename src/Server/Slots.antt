-- ===== src/Server/Slots.antt =====
-- server/crawl_loop.go: `startCrawl`, `acquireCrawlSlot` and `releaseCrawlSlot`. Each section under
-- `lockMu` or `slotMu` is one step of a goroutine, and goroutines interleave freely.
pub mod Laws
use repo_sync.Base.{
  ℕ, ◌+◌, ◌-◌, ◌≡◌, ◌≤◌, ◌<◌, Bool, true, false, List, [], ◌∷◌, ◌==◌, list_eq, nat_eq, some,
  get_elem?, if◌then◌else◌,
}
use repo_sync.Base.Bytes.{Bytes}
use repo_sync.Base.Counts.{set_elem}

-- Where a goroutine stands: that of a dispatched crawl before it has a slot, with one, and after it
-- gave the slot back, or a request that crawls a protected repository before and with a slot.
pub data Phase : Type 0 where
  queued running released : Bytes → Phase
  asking serving ended : Phase

-- `limit` is the configured number of concurrent crawls.
pub record Crawls : Type 0 where
  pub limit : ℕ
  pub slots_in_use : ℕ
  pub inflight : Bytes → Bool
  pub threads : List Phase

abbrev pub set_flag : Bytes → Bool → (Bytes → Bool) → Bytes → Bool
set_flag key b flags k = if k == key then b else flags k

unfoldable pub start_crawl : Bytes → Crawls → Crawls
start_crawl key s =
    if s.inflight key
    then s
    else record s { inflight = set_flag key true s.inflight; threads = queued key ∷ s.threads }

-- The deferred function of the goroutine.
unfoldable pub end_crawl : ℕ → Bytes → Crawls → Crawls
end_crawl i key s = record s {
  inflight = set_flag key false s.inflight;
  threads = set_elem i ended s.threads;
}

-- The loop of `acquireCrawlSlot` leaves only under the limit.
unfoldable pub acquire_crawl_slot : ℕ → Phase → Crawls → Crawls
acquire_crawl_slot i p s = record s {
  slots_in_use = s.slots_in_use + 1;
  threads = set_elem i p s.threads;
}

unfoldable pub release_crawl_slot : ℕ → Phase → Crawls → Crawls
release_crawl_slot i p s = record s {
  slots_in_use = s.slots_in_use - 1;
  threads = set_elem i p s.threads;
}

-- Which phase follows the taking of a slot, and which its release.
pub data Acquires : Phase → Phase → Type 0 where
  crawl : (key : Bytes) → Acquires (queued key) (running key)
  request : Acquires asking serving

pub data Releases : Phase → Phase → Type 0 where
  crawl : (key : Bytes) → Releases (running key) (released key)
  request : Releases serving ended

-- A reload may set any limit up to `most`.
pub data Step (most : ℕ) (s : Crawls) : Crawls → Type 0 where
  dispatch : (key : Bytes) → Step most s (start_crawl key s)
  protect : Step most s (record s { threads = asking ∷ s.threads })
  acquire :
      (i : ℕ) (p q : Phase)
      → get_elem? s.threads i ≡ some p
      → Acquires p q
      → s.slots_in_use < s.limit
      → Step most s (acquire_crawl_slot i q s)
  release :
      (i : ℕ) (p q : Phase)
      → get_elem? s.threads i ≡ some p
      → Releases p q
      → Step most s (release_crawl_slot i q s)
  finish :
      (i : ℕ) (key : Bytes)
      → get_elem? s.threads i ≡ some (released key)
      → Step most s (end_crawl i key s)
  reload : (n : ℕ) → n ≤ most → Step most s (record s { limit = n })

abbrev pub at_rest : ℕ → Crawls
at_rest limit = record { limit = limit; slots_in_use = 0; inflight = λ key. false; threads = [] }

pub data Reach (most : ℕ) : Crawls → Type 0 where
  start : (limit : ℕ) → limit ≤ most → Reach most (at_rest limit)
  later : {s t : Crawls} → Reach most s → Step most s t → Reach most t
