-- ===== src/Server/Schedule/Laws.antt =====
-- server/crawl_loop.go: the tiers of the schedule, and what the scheduler never does.
use repo_sync.Base.{◌+◌, ◌≤◌, ◌<◌, ◌≡◌, ◌≢◌, ◌↔◌, ◌⊎◌, inl, inr, true}
use repo_sync.Base.{Option, none, some, List, [], ◌∷◌, arith, nat_eq, list_eq, leb, ltb}
use repo_sync.Base.{Bool-cases, ap, ◌++◌}
use repo_sync.Base.Bytes.{Bytes}
use repo_sync.Base.Clock.{Time, Duration, sub_time}
use repo_sync.Config.{Config}
use repo_sync.State.{Entry, crawled}
use repo_sync.Server.Schedule.{
  evict, crawl, tier_from, refresh_tier, refresh_schedule, due_action, inventory_eviction_grace,
  due_for_inventory,
}

unfoldable pub total : List Duration → Duration
total [] = 0
total (d ∷ ds) = d + total ds

-- A resource is stale exactly if the time since its last request reaches the whole schedule.
tier_from_stale :
    (c since : Duration) (schedule : List Duration)
    → (tier_from c since schedule ≡ none → c ≤ since → c + total schedule ≤ since)
      × (c + total schedule ≤ since → tier_from c since schedule ≡ none)
unfolding tier_from total
tier_from_stale c since [] = ground arith
tier_from_stale c since (d ∷ ds) =
    ground (arith, tier_from_stale c since ds, tier_from_stale (c + d) since ds)

pub refresh_tier_stale :
    (since : Duration) (schedule : List Duration)
    → (refresh_tier since schedule ≡ none) ↔ (total schedule ≤ since)
unfolding refresh_tier
refresh_tier_stale since schedule = ground (arith, tier_from_stale 0 since schedule)

-- The interval that is found is a step of the schedule, and the steps before it have elapsed
-- while the step itself has not.
tier_from_within :
    (c since : Duration) (schedule : List Duration) (step : Duration)
    → tier_from c since schedule ≡ some step
    → c ≤ since
    → (before_ : List Duration) × (after_ : List Duration) × (schedule ≡ before_ ++ step ∷ after_)
      × (c + total before_ ≤ since)
      × (since < c + total before_ + step)
unfolding tier_from total
tier_from_within c since [] step h le = absurd (cc)
tier_from_within c since (d ∷ ds) step h le = elim (Bool-cases (leb d 0)) [
  | inl skipped ↦
      let (pre, post, e, low, high) = tier_from_within c since ds step (ground arith) le in
      (d ∷ pre, post, ap (λ l. d ∷ l) e, ground arith, ground arith)
  | inr counts ↦ elim (Bool-cases (ltb since (c + d))) [
    | inl here ↦ ([], ds, ground arith, ground arith, ground arith)
    | inr later ↦
        let (pre, post, e, low, high) =
          tier_from_within (c + d) since ds step (ground arith) (ground arith) in
        (d ∷ pre, post, ap (λ l. d ∷ l) e, ground arith, ground arith)
  ]
]

pub refresh_tier_within :
    (since : Duration) (schedule : List Duration) (step : Duration)
    → refresh_tier since schedule ≡ some step
    → (before_ : List Duration) × (after_ : List Duration) × (schedule ≡ before_ ++ step ∷ after_)
      × (total before_ ≤ since)
      × (since < total before_ + step)
unfolding refresh_tier
refresh_tier_within since schedule step h =
    let (pre, post, e, low, high) = tier_from_within 0 since schedule step h (omega arith) in
    (pre, post, e, omega arith, omega arith)

-- The scheduler gives up a resource exactly if it was requested, no mount advertised it within the
-- grace, and the whole schedule has gone by since the last request.
pub evict_iff :
    (c : Config) (now : Time) (e : Entry)
    → (due_action c now e ≡ evict) ↔ (
        (e.last_requested ≢ 0)
        × (total (refresh_schedule c) ≤ sub_time now e.last_requested)
        × ((e.last_seen_in_inventory ≡ 0)
            ⊎ (inventory_eviction_grace ≤ sub_time now e.last_seen_in_inventory)))
unfolding due_action
evict_iff c now e =
    let stale = refresh_tier_stale (sub_time now e.last_requested) (refresh_schedule c) in
    ground (arith, stale)

abbrev retry_interval : Config → Option Bytes → Duration
retry_interval c none = c.repo_crawl_interval
retry_interval c (some message) = c.failure_retry_interval

-- Neither scheduler crawls a repository again before the interval that its last outcome sets: the
-- crawl interval after a success and the retry interval after a failure.
pub crawl_waits :
    (c : Config) (t now : Time) (error : Option Bytes) (e : Entry)
    → 0 < t
    → error ≢ some []
    → let e' = crawled c t error e in
      (due_action c now e' ≡ crawl) ⊎ (due_for_inventory c e' now ≡ true)
      → t + retry_interval c error ≤ now
unfolding crawled due_for_inventory due_action
crawl_waits c t now none e pos err h = ground arith
crawl_waits c t now (some message) e pos err h = ground arith
