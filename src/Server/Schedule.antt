-- ===== src/Server/Schedule.antt =====
-- server/crawl_loop.go: when a tracked resource is crawled again and when it is given up.
pub mod Laws
use repo_sync.Base.{
  ℕ, ◌+◌, ◌*◌, Bool, true, false, not, ◌&&◌, ◌||◌, Option, none, some, List, [], ◌∷◌,
}
use repo_sync.Base.{◌==◌, nat_eq, list_eq, leb, ltb, if◌then◌else◌}
use repo_sync.Base.Bytes.{Bytes}
use repo_sync.Base.Clock.{Time, Duration, before, sub_time, is_zero}
use repo_sync.Base.Dict.{Dict}
use repo_sync.Config.{Config}
use repo_sync.State.{Entry, Store, kind_generic}

-- `inventoryEvictionGrace`, 72 hours.
abbrev pub inventory_eviction_grace : Duration
inventory_eviction_grace = 72 * 3600 * 1_000_000_000

unfoldable pub due_for_inventory : Config → Entry → Time → Bool
due_for_inventory c e now =
    if is_zero e.last_crawled
    then true
    else if not (is_zero e.next_crawl)
    then not (before now e.next_crawl)
    else leb c.repo_crawl_interval (sub_time now e.last_crawled)

-- The loop of `refreshTier` from the steps walked so far; `none` is a stale resource.
tier_from : Duration → Duration → List Duration → Option Duration
tier_from cumulative since [] = none
tier_from cumulative since (step ∷ rest) =
    let skip = tier_from cumulative since rest in
    let next = tier_from (cumulative + step) since rest in
    if leb step 0 then skip else if ltb since (cumulative + step) then some step else next

unfoldable pub refresh_tier : Duration → List Duration → Option Duration
unfolding tier_from
refresh_tier since schedule = tier_from 0 since schedule

unfoldable pub refresh_schedule : Config → List Duration
refresh_schedule c = c.repo_crawl_interval ∷ c.refresh_schedule

unfoldable pub active_in_inventory : Entry → Time → Bool
active_in_inventory e now =
    if is_zero e.last_seen_in_inventory
    then false
    else ltb (sub_time now e.last_seen_in_inventory) inventory_eviction_grace

unfoldable pub next_crawl_at : Entry → Duration → Time
next_crawl_at e interval =
    let gate = e.last_crawled + interval in
    if is_zero e.last_crawled
    then 0
    else if not (e.last_error == []) && not (is_zero e.next_crawl)
    then e.next_crawl
    else if not (is_zero e.next_crawl) && before gate e.next_crawl
    then e.next_crawl
    else gate

pub data Action : Type 0 where
  skip evict crawl : Action

-- The body of the loop of `crawlDue`, for one entry of the snapshot.
unfoldable pub due_action : Config → Time → Entry → Action
unfolding refresh_tier refresh_schedule active_in_inventory next_crawl_at
due_action c now e =
    if is_zero e.last_requested
    then skip
    else elim (refresh_tier (sub_time now e.last_requested) (refresh_schedule c)) [
      | none ↦ if active_in_inventory e now then skip else evict
      | some interval ↦
          let next = next_crawl_at e interval in
          if e.kind == kind_generic
          then skip
          else if not (is_zero next) && before now next
          then skip
          else crawl
    ]
