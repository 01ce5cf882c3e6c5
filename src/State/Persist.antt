-- ===== src/State/Persist.antt =====
-- state/state.go: what a restart finds. `dirty` is true whenever memory and the state file differ.
use repo_sync.Base.{◌≡◌, ◌≢◌, refl, true, false, Option, none, List, [], ◌∷◌}
use repo_sync.Base.{arith, nat_eq, list_eq, if◌then◌else◌}
use repo_sync.Base.Bytes.{Bytes}
use repo_sync.Base.Clock.{Time}
use repo_sync.Base.Dict.{Dict, update_all}
use repo_sync.Config.{Config}
use repo_sync.State.{
  Entry, Store, Disk, SaveFault, no_fault, load, save, clean, mark_requested,
  mark_seen_in_inventory, mark_crawled, mark_signature_policy, delete, touch_repo_members, all_some,
  drop_null, has_any, is_member,
}

drop_null-all_some : (d : Dict Bytes Entry) → drop_null (all_some d) ≡ d
unfolding drop_null all_some
drop_null-all_some [] = refl
drop_null-all_some ((k, e) ∷ d) = rw (drop_null-all_some d)

-- After a save that returns no error of a dirty store, a load gives the entries back.
load-save :
    (s : Store) (d : Disk) → s.dirty ≡ true → load (save no_fault s d).2.file ≡ clean s.entries
unfolding load save
load-save s d h = ground (arith, drop_null-all_some s.entries)

-- The file can be loaded, and it agrees with memory unless the store is dirty.
abbrev pub IsPersisted : Store → Disk → Type 0
IsPersisted s d = (load d.file ≢ none) × (s.dirty ≡ false → load d.file ≡ clean s.entries)

-- The methods of the store, as requests, crawls and the flush loop call them in any order.
pub data Method : Type 0 where
  request : Bytes → Bytes → Bytes → Bytes → Time → Method
  inventory : Bytes → Bytes → Bytes → Bytes → Time → Method
  crawl : Bytes → Time → Option Bytes → Method
  policy : Bytes → Bytes → Method
  drop : Bytes → Method
  touch : Bytes → Time → Method
  flush : SaveFault → Method

unfoldable pub perform : Config → Method → Store × Disk → Store × Disk
perform c (request kind key path root now) (s, d) = ((mark_requested kind key path root now s).1, d)
perform c (inventory kind key path root now) (s, d) =
    (mark_seen_in_inventory kind key path root now s, d)
perform c (crawl key now error) (s, d) = (mark_crawled c key now error s, d)
perform c (policy key p) (s, d) = (mark_signature_policy key p s, d)
perform c (drop key) (s, d) = (delete key s, d)
perform c (touch req now) (s, d) = ((touch_repo_members req now s).1, d)
perform c (flush fault) (s, d) = let (ok, s', d') = save fault s d in (s', d')

unfoldable pub perform_all : Config → List Method → Store × Disk → Store × Disk
unfolding perform
perform_all c [] w = w
perform_all c (m ∷ ms) w = perform_all c ms (perform c m w)

touch_none :
    (req : Bytes) (now : Time) (d : Dict Bytes Entry)
    → has_any (is_member req) d ≡ false
    → update_all (λ _ e. if is_member req e then record e { last_requested = now } else e) d ≡ d
unfolding has_any update_all
touch_none req now [] h = refl
touch_none req now ((k, e) ∷ d) h = ground (arith, touch_none req now d)

perform-IsPersisted :
    (c : Config) (m : Method) (s : Store) (d : Disk)
    → IsPersisted s d
    → let w = perform c m (s, d) in IsPersisted w.0 w.1
unfolding perform
perform-IsPersisted c (request kind key path root now) s d h =
    unfold mark_requested in (h.0, λ e. cc)
perform-IsPersisted c (inventory kind key path root now) s d h =
    unfold mark_seen_in_inventory in (h.0, λ e. cc)
perform-IsPersisted c (crawl key now error) s d h = unfold mark_crawled in ground arith
perform-IsPersisted c (policy key p) s d h = unfold mark_signature_policy in ground arith
perform-IsPersisted c (drop key) s d h = unfold delete in ground arith
perform-IsPersisted c (touch req now) s d h =
    unfold touch_repo_members in ground (arith, touch_none req now s.entries)
perform-IsPersisted c (flush fault) s d h = unfold save in ground (arith, load-save s d)

-- Whatever methods run in whatever order, with whatever faults on the disk, a state file
-- that can be loaded stays so, and agrees with memory whenever the store is not dirty.
pub perform_all-IsPersisted :
    (c : Config) (ms : List Method) (s : Store) (d : Disk)
    → IsPersisted s d
    → let w = perform_all c ms (s, d) in IsPersisted w.0 w.1
unfolding perform_all
perform_all-IsPersisted c [] s d h = h
perform_all-IsPersisted c (m ∷ ms) s d h =
    let w = perform c m (s, d) in
    perform_all-IsPersisted c ms w.0 w.1 (perform-IsPersisted c m s d h)
