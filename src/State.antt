-- ===== src/State.antt =====
-- state/state.go: the server's record of the resources that it tracks. Each method runs under the
-- store's lock, so it is one step. The state file is what a later `Load` reads of it; YAML gives
-- back the entries that were written.
pub mod Laws
pub mod Persist
use repo_sync.Base.{ℕ, ◌+◌, Bool, true, false, not, ◌&&◌, ◌||◌, Option, none, some, List, [], ◌∷◌}
use repo_sync.Base.{◌==◌, nat_eq, list_eq, if◌then◌else◌}
use repo_sync.Base.Bytes.{Bytes, lit, strip_prefix}
use repo_sync.Base.Clock.{Time}
use repo_sync.Base.Dict.{Dict, lookup, insert, erase, retain, update_all}
use repo_sync.Config.{Config}

abbrev pub kind_generic : Bytes
kind_generic = lit "generic"

pub record Entry : Type 0 where
  pub kind : Bytes
  pub path : Bytes
  pub root : Bytes
  pub last_requested : Time
  pub last_crawled : Time
  pub next_crawl : Time
  pub last_seen_in_inventory : Time
  pub last_error : Bytes
  pub signature_policy : Bytes

abbrev pub no_entry : Entry
no_entry = record {
  kind = [];
  path = [];
  root = [];
  last_requested = 0;
  last_crawled = 0;
  next_crawl = 0;
  last_seen_in_inventory = 0;
  last_error = [];
  signature_policy = [];
}

pub record Store : Type 0 where
  pub entries : Dict Bytes Entry
  pub dirty : Bool

abbrev pub is_some {ℓ} : {A : Type ℓ} → Option A → Bool
is_some none = false
is_some (some a) = true

abbrev pub entry_or : Option Entry → Entry
entry_or none = no_entry
entry_or (some e) = e

-- `MarkRequested`: a copy of the entry, and whether it was tracked before.
unfoldable pub mark_requested :
    Bytes → Bytes → Bytes → Bytes → Time → Store → (Entry × Bool) × Store
mark_requested kind key path root now s =
    let old = lookup key s.entries in
    let e = record (entry_or old) { kind = kind; path = path; root = root; last_requested = now } in
    ((e, is_some old), record { entries = insert key e s.entries; dirty = true })

unfoldable pub mark_seen_in_inventory : Bytes → Bytes → Bytes → Bytes → Time → Store → Store
mark_seen_in_inventory kind key path root now s =
    let old = entry_or (lookup key s.entries) in
    let e = record old { kind = kind; path = path; root = root; last_seen_in_inventory = now } in
    record { entries = insert key e s.entries; dirty = true }

-- The outcome of a crawl on an entry; the error is its text, which is not empty.
unfoldable pub crawled : Config → Time → Option Bytes → Entry → Entry
crawled c now none e = record e {
  last_crawled = now;
  last_error = [];
  next_crawl = now + c.repo_crawl_interval;
}
crawled c now (some message) e = record e {
  last_crawled = now;
  last_error = message;
  next_crawl = now + c.failure_retry_interval;
}

unfoldable pub mark_crawled : Config → Bytes → Time → Option Bytes → Store → Store
unfolding crawled
mark_crawled c key now error s = elim (lookup key s.entries) [
  | none ↦ s
  | some e ↦ record { entries = insert key (crawled c now error e) s.entries; dirty = true }
]

unfoldable pub mark_signature_policy : Bytes → Bytes → Store → Store
mark_signature_policy key policy s = elim (lookup key s.entries) [
  | none ↦ s
  | some e ↦ if e.signature_policy == policy then s else record {
    entries = insert key (record e { signature_policy = policy }) s.entries;
    dirty = true;
  }
]

unfoldable pub delete : Bytes → Store → Store
delete key s = elim (lookup key s.entries) [
  | none ↦ s
  | some e ↦ record { entries = erase key s.entries; dirty = true }
]

-- `Entry`.
unfoldable pub entry : Bytes → Store → Option Entry
entry key s = lookup key s.entries

abbrev slash_next : Option Bytes → Bool
slash_next none = false
slash_next (some []) = false
slash_next (some (c ∷ r)) = c == b'/'

-- The test `under` of `TouchRepoMembers`.
unfoldable pub covers : Bytes → Bytes → Bool
covers root req = req == root || (root == lit "/" || slash_next (strip_prefix req root))

unfoldable pub is_member : Bytes → Entry → Bool
unfolding covers
is_member req e = not (e.kind == kind_generic || e.root == []) && covers e.root req

has_any : (Entry → Bool) → Dict Bytes Entry → Bool
has_any p [] = false
has_any p ((_, e) ∷ d) = p e || has_any p d

-- `TouchRepoMembers`: the entries that it touched, and the store.
unfoldable pub touch_repo_members : Bytes → Time → Store → Dict Bytes Entry × Store
unfolding is_member has_any
touch_repo_members req now s =
    let touch =
      λ (_ : Bytes) (e : Entry). if is_member req e then record e { last_requested = now } else e in
    (
      update_all touch (retain (λ _ e. is_member req e) s.entries),
      record {
        entries = update_all touch s.entries;
        dirty = s.dirty || has_any (is_member req) s.entries;
      },
    )

-- What `os.ReadFile` and the YAML decoder make of the state file. A mapping may hold null entries.
pub data StateFile : Type 0 where
  absent unreadable empty malformed no_mapping : StateFile
  mapping : Dict Bytes (Option Entry) → StateFile

drop_null : Dict Bytes (Option Entry) → Dict Bytes Entry
drop_null [] = []
drop_null ((k, none) ∷ d) = drop_null d
drop_null ((k, some e) ∷ d) = (k, e) ∷ drop_null d

abbrev pub clean : Dict Bytes Entry → Option Store
clean d = some (record { entries = d; dirty = false })

-- `Load`; `none` is an error, which stops the start.
unfoldable pub load : StateFile → Option Store
unfolding drop_null
load absent = clean []
load unreadable = none
load empty = clean []
load malformed = none
load no_mapping = clean []
load (mapping d) = clean (drop_null d)

-- Where a `Save` of a dirty store stops. A failed write may leave any temporary file.
pub data SaveFault : Type 0 where
  no_fault marshal_failed mkdir_failed : SaveFault
  write_failed : StateFile → SaveFault
  rename_failed : SaveFault

pub record Disk : Type 0 where
  pub file : StateFile
  pub tmp : StateFile

all_some : Dict Bytes Entry → Dict Bytes (Option Entry)
all_some [] = []
all_some ((k, e) ∷ d) = (k, some e) ∷ all_some d

-- `Save`: whether it returned no error, the store and the disk.
unfoldable pub save : SaveFault → Store → Disk → Bool × Store × Disk
unfolding all_some
save fault s d =
    let content = mapping (all_some s.entries) in
    if not s.dirty then (true, s, d) else elim fault [
      | marshal_failed ↦ (false, s, d)
      | mkdir_failed ↦ (false, s, d)
      | write_failed left ↦ (false, s, record d { tmp = left })
      | rename_failed ↦ (false, s, record d { tmp = content })
      | no_fault ↦ (true, record s { dirty = false }, record { file = content; tmp = absent })
    ]
