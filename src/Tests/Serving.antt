-- ===== src/Tests/Serving.antt =====
-- Packages server, state and config at concrete inputs.
use repo_sync.Base.{get_elem?}
use repo_sync.State.Laws.{Concerns}
use repo_sync.Base.{ℕ}
use Prim.Native.String.{String}
use repo_sync.Base.{◌+◌, ◌≤◌, ◌≡◌, ◌≢◌, ◌↔◌, ◌⊎◌, inl, inr, refl, true, false, none, some}
use repo_sync.Base.{List, [], ◌∷◌, arith, length, nat_eq, list_eq}
use repo_sync.Base.Bytes.{Bytes, lit, has_prefix}
use repo_sync.Base.Clock.{sub_time}
use repo_sync.Base.Dict.{lookup}
use repo_sync.Config.{Config, MountConfig, index_mounts, mount_for, path_under}
use repo_sync.Config.Mounts.{mount_for_longest}
use repo_sync.State.{
  Entry, Store, Disk, absent, no_entry, no_fault, load, clean, touch_repo_members, crawled,
}
use repo_sync.State.Persist.{Method, request, flush, perform_all, perform_all-IsPersisted}
use repo_sync.State.Laws.{touch_repo_members_lem}
use repo_sync.Server.Failures.{FailureCache, add}
use repo_sync.Server.Failures.Laws.{answer, call_all, hits, sweeps, answer-add}
use repo_sync.Server.Schedule.{
  due_action, evict, refresh_tier, refresh_schedule, inventory_eviction_grace, due_for_inventory,
}
use repo_sync.Server.Schedule.Laws.{total, evict_iff, crawl_waits}

abbrev mount : String → MountConfig
mount p = record { path = lit p; upstream = lit "http://u"; repos = [] }

abbrev conf : Config
conf = record {
  repo_crawl_interval = 40;
  failure_retry_interval = 10;
  generic_max_age = 60;
  negative_cache_ttl = 10;
  transient_error_ttl = 1;
  refresh_schedule = 120 ∷ 240 ∷ [];
  signature_mode = lit "off";
  directory_indexes = true;
  domains = [];
  mounts = mount "/" ∷ mount "/repos" ∷ [];
  domains_by_name = [];
  online_index = none;
  mount_order = 1 ∷ 0 ∷ [];
}

conf_indexed : index_mounts (λ _. true) conf.mounts ≡ inl conf.mount_order
unfolding index_mounts nat_eq list_eq
conf_indexed = refl

repos_found : mount_for conf (lit "/repos/a") ≡ some (mount "/repos")
unfolding mount_for nat_eq list_eq has_prefix
repos_found = refl

root_covers : path_under (lit "/repos/a") (lit "/") ≡ true
unfolding path_under nat_eq list_eq
root_covers = refl

mount_for_longest_example :
    (m : MountConfig) × (i : ℕ) × (mount_for conf (lit "/repos/a") ≡ some m)
    × (get_elem? conf.mounts i ≡ some m)
    × (path_under (lit "/repos/a") m.path ≡ true)
    × (length (lit "/") ≤ length m.path)
mount_for_longest_example =
    mount_for_longest (λ _. true) conf conf_indexed (lit "/repos/a") (mount "/") 0 refl root_covers

abbrev narrow : Config
narrow = record conf { mounts = mount "/repos" ∷ []; mount_order = 0 ∷ [] }

narrow_indexed : index_mounts (λ _. true) narrow.mounts ≡ inl narrow.mount_order
unfolding index_mounts nat_eq list_eq
narrow_indexed = refl

nothing_found : mount_for narrow (lit "/repository") ≡ none
unfolding mount_for nat_eq list_eq has_prefix
nothing_found = refl

abbrev fresh_store : Store
fresh_store = record { entries = []; dirty = false }

abbrev fresh_disk : Disk
fresh_disk = record { file = absent; tmp = absent }

abbrev script : List Method
script = request (lit "rpm") (lit "rpm:/a") (lit "/a") (lit "/a") 5 ∷ flush no_fault ∷ []

fresh_persisted :
    (load fresh_disk.file ≢ none) × (fresh_store.dirty ≡ false → load fresh_disk.file ≡ clean [])
unfolding load
fresh_persisted = (λ e. cc, λ _. refl)

perform_all_example :
    let w = perform_all conf script (fresh_store, fresh_disk) in
    (load w.1.file ≢ none) × (w.0.dirty ≡ false → load w.1.file ≡ clean w.0.entries)
perform_all_example = perform_all-IsPersisted conf script fresh_store fresh_disk fresh_persisted

abbrev repo_entry : Entry
repo_entry = record no_entry { kind = lit "rpm"; path = lit "/a"; root = lit "/a" }

abbrev one_repo : Store
one_repo = record { entries = (lit "rpm:/a", repo_entry) ∷ []; dirty = true }

one_repo_at : lookup (lit "rpm:/a") one_repo.entries ≡ some repo_entry
unfolding lookup nat_eq list_eq
one_repo_at = refl

one_repo_nodup : (lookup (lit "rpm:/a") (let d : List (Bytes × Entry) = [] in d) ≡ none) × Unit {0}
unfolding lookup
one_repo_nodup = (refl, tt)

touch_repo_members_example :
    let t = touch_repo_members (lit "/a/x.rpm") 9 one_repo in
    let touched = some (record repo_entry { last_requested = 9 }) in
    (Concerns (lit "/a/x.rpm") repo_entry
      → (lookup (lit "rpm:/a") t.1.entries ≡ touched) × (lookup (lit "rpm:/a") t.0 ≡ touched))
    × (¬ Concerns (lit "/a/x.rpm") repo_entry
        → (lookup (lit "rpm:/a") t.1.entries ≡ some repo_entry)
          × (lookup (lit "rpm:/a") t.0 ≡ none))
touch_repo_members_example =
    touch_repo_members_lem (lit "/a/x.rpm") 9 one_repo (lit "rpm:/a") repo_entry one_repo_nodup
      one_repo_at

abbrev no_failures : FailureCache
no_failures = []

answer-add_example :
    answer
      (lit "k")
      15
      (call_all (sweeps 12 ∷ hits (lit "k") 14 ∷ []) (add (lit "k") 404 10 6 no_failures))
    ≡ some 404
unfolding nat_eq list_eq
answer-add_example =
    answer-add (lit "k") (lit "k") 404 10 15 6 (sweeps 12 ∷ hits (lit "k") 14 ∷ []) no_failures tt
      (omega arith)

abbrev idle : Entry
idle = record repo_entry { last_requested = 100; last_crawled = 100 }

evict_iff_example : (due_action conf 600 idle ≡ evict) ↔ (
    (idle.last_requested ≢ 0)
    × (total (refresh_schedule conf) ≤ sub_time 600 idle.last_requested)
    × ((idle.last_seen_in_inventory ≡ 0)
        ⊎ (inventory_eviction_grace ≤ sub_time 600 idle.last_seen_in_inventory)))
evict_iff_example = evict_iff conf 600 idle

due_again : due_for_inventory conf (crawled conf 100 none idle) 140 ≡ true
unfolding due_for_inventory crawled
due_again = refl

crawl_waits_example : 100 + 40 ≤ 140
crawl_waits_example = crawl_waits conf 100 140 none idle (omega arith) (λ e. cc) (inr due_again)

second_tier : refresh_tier 50 (refresh_schedule conf) ≡ some 120
unfolding refresh_tier refresh_schedule
second_tier = refl
