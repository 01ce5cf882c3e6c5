-- ===== src/Server/Locks.antt =====
-- server/crawl_loop.go: the lock table and `lockResource`. Each section under `lockMu` is one step, and
-- so are the locking and the unlocking of a resource's own mutex; goroutines interleave freely.
pub mod Laws
use repo_sync.Base.{All}
use repo_sync.Base.{
  ℕ, zero, suc, ◌+◌, ◌-◌, ◌≡◌, Bool, true, false, Option, none, some, List, ◌==◌, nat_eq, list_eq,
  get_elem?, if◌then◌else◌,
}
use repo_sync.Base.Bytes.{Bytes}
use repo_sync.Base.Counts.{set_elem}

pub record ResourceLock : Type 0 where
  pub locked : Bool
  pub refs : ℕ

-- The map, and the objects that it points to by their number; numbers from `fresh` on are unused.
pub record LockTable : Type 0 where
  pub locks : Bytes → Option ℕ
  pub heap : ℕ → ResourceLock
  pub fresh : ℕ

abbrev pub set_lock : ℕ → ResourceLock → (ℕ → ResourceLock) → ℕ → ResourceLock
set_lock l r heap m = if m == l then r else heap m

abbrev pub set_key : Bytes → Option ℕ → (Bytes → Option ℕ) → Bytes → Option ℕ
set_key key l locks k = if k == key then l else locks k

abbrev add_ref : ℕ → LockTable → LockTable
add_ref l t = record t {
  heap = set_lock l (record (t.heap l) { refs = (t.heap l).refs + 1 }) t.heap;
}

abbrev pub new_lock : Bytes → LockTable → LockTable
new_lock key t = record {
  locks = set_key key (some t.fresh) t.locks;
  heap = set_lock t.fresh (record { locked = false; refs = 0 }) t.heap;
  fresh = t.fresh + 1;
}

abbrev pub with_lock : Option ℕ → Bytes → LockTable → ℕ × LockTable
with_lock (some l) key t = (l, add_ref l t)
with_lock none key t = (t.fresh, add_ref t.fresh (new_lock key t))

-- The first section: the lock of the key, made if there is none, with one more reference.
unfoldable pub find_lock : Bytes → LockTable → ℕ × LockTable
find_lock key t = with_lock (t.locks key) key t

unfoldable pub set_locked : Bool → ℕ → LockTable → LockTable
set_locked b l t = record t { heap = set_lock l (record (t.heap l) { locked = b }) t.heap }

-- The last section: one reference less, and the last one takes the key out of the map.
unfoldable pub drop_lock : Bytes → ℕ → LockTable → LockTable
drop_lock key l t =
    let refs = (t.heap l).refs - 1 in
    record t {
      heap = set_lock l (record (t.heap l) { refs = refs }) t.heap;
      locks = if refs == 0 then set_key key none t.locks else t.locks;
    }

-- Where a goroutine stands in a call of `lockResource` and of the function that it returns.
pub data Phase : Type 0 where
  idle : Phase
  waiting holding leaving : Bytes → ℕ → Phase

abbrev pub is_idle : Phase → Bool
is_idle idle = true
is_idle p = false

pub record System : Type 0 where
  pub table : LockTable
  pub threads : List Phase

abbrev pub initial : List Phase → System
initial threads = record {
  table = record {
    locks = λ key. none;
    heap = λ l. record { locked = false; refs = 0 };
    fresh = 0;
  };
  threads = threads;
}

-- One step of one goroutine.
pub data Step (s : System) : System → Type 0 where
  enter :
      (i : ℕ) (key : Bytes)
      → get_elem? s.threads i ≡ some idle
      → Step s (record {
        table = (find_lock key s.table).1;
        threads = set_elem i (waiting key (find_lock key s.table).0) s.threads;
      })
  lock :
      (i : ℕ) (key : Bytes) (l : ℕ)
      → get_elem? s.threads i ≡ some (waiting key l)
      → (s.table.heap l).locked ≡ false
      → Step s (record {
        table = set_locked true l s.table;
        threads = set_elem i (holding key l) s.threads;
      })
  unlock :
      (i : ℕ) (key : Bytes) (l : ℕ)
      → get_elem? s.threads i ≡ some (holding key l)
      → Step s (record {
        table = set_locked false l s.table;
        threads = set_elem i (leaving key l) s.threads;
      })
  leave :
      (i : ℕ) (key : Bytes) (l : ℕ)
      → get_elem? s.threads i ≡ some (leaving key l)
      → Step s (record { table = drop_lock key l s.table; threads = set_elem i idle s.threads })

-- What any number of goroutines, idle at first, can come to.
pub data Reach : System → Type 0 where
  start :
      (threads : List Phase)
      → All (λ (p : Phase). is_idle p ≡ true) threads
      → Reach (initial threads)
  later : {s t : System} → Reach s → Step s t → Reach t
