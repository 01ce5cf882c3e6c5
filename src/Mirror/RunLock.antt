-- ===== src/Mirror/RunLock.antt =====
-- mirror/sync.go: `lockDestination` and `release`, as steps of runs that interleave. A lock file is the
-- number of its inode; an advisory lock of an inode belongs to the run whose descriptor took it.
pub mod Sound
pub mod Laws
use repo_sync.Base.{
  ℕ, suc, ◌+◌, ◌≡◌, ◌<◌, Bool, true, false, Option, none, some, List, ◌==◌, nat_eq, get_elem?,
  if◌then◌else◌, All,
}
use repo_sync.Base.Counts.{set_elem}

abbrev pub lock_attempts : ℕ
lock_attempts = 5

-- Where a run stands: before its attempts, with a file that it opened in an attempt, with its lock,
-- at work, after the removal of the file, and without the lock for good.
pub data Phase : Type 0 where
  idle : Phase
  opened locked : (attempt inode : ℕ) → Phase
  trying : (attempt : ℕ) → Phase
  working : (inode : ℕ) → Phase
  removed : (inode : ℕ) → Phase
  gave_up : Phase

-- The file at the lock's path, the locks, and the number of the next inode.
pub record LockFile : Type 0 where
  pub path : Option ℕ
  pub is_locked : ℕ → Bool
  pub fresh : ℕ

pub record System : Type 0 where
  pub file : LockFile
  pub runs : List Phase

abbrev pub set_lock : ℕ → Bool → (ℕ → Bool) → ℕ → Bool
set_lock n b locks m = if m == n then b else locks m

abbrev pub open_at : Option ℕ → LockFile → ℕ × LockFile
open_at (some n) f = (n, f)
open_at none f = (f.fresh, record f { path = some f.fresh; fresh = suc f.fresh })

-- `os.OpenFile` with `O_CREATE`.
unfoldable pub open_file : LockFile → ℕ × LockFile
open_file f = open_at f.path f

-- A lock that is taken, and one that goes with its descriptor.
unfoldable pub take_lock : ℕ → LockFile → LockFile
take_lock n f = record f { is_locked = set_lock n true f.is_locked }

unfoldable pub close_file : ℕ → LockFile → LockFile
close_file n f = record f { is_locked = set_lock n false f.is_locked }

-- `os.SameFile` of the file that is held and the one at the path.
unfoldable pub same_file : ℕ → LockFile → Bool
same_file n f = elim f.path [ none ↦ false | some m ↦ m == n ]

-- `os.Remove` of the path, which may fail.
unfoldable pub remove_file : (disk_ok : Bool) → LockFile → LockFile
remove_file disk_ok f = if disk_ok then record f { path = none } else f

abbrev pub at : ℕ → Phase → LockFile → System → System
at i p f s = record { file = f; runs = set_elem i p s.runs }

-- The end of an attempt without the right file.
abbrev pub next_attempt : ℕ → Phase
next_attempt a = if suc a == lock_attempts then gave_up else trying (suc a)

-- The inode that a run has locked.
abbrev pub lock_of : Phase → Option ℕ
lock_of idle = none
lock_of (opened a n) = none
lock_of (locked a n) = some n
lock_of (trying a) = none
lock_of (working n) = some n
lock_of (removed n) = some n
lock_of gave_up = none

-- One step of one run. A run may be killed, which closes its file and leaves the path. A file system
-- may refuse to open a file, which ends a run as a lock taken by
-- another does.
pub data Step (s : System) : System → Type 0 where
  begin : (i : ℕ) → get_elem? s.runs i ≡ some idle → Step s (at i (trying 0) s.file s)
  opens :
      (i a : ℕ)
      → get_elem? s.runs i ≡ some (trying a)
      → Step s (at i (opened a (open_file s.file).0) (open_file s.file).1 s)
  refused : (i a : ℕ) → get_elem? s.runs i ≡ some (trying a) → Step s (at i gave_up s.file s)
  locks :
      (i a n : ℕ)
      → get_elem? s.runs i ≡ some (opened a n)
      → s.file.is_locked n ≡ false
      → Step s (at i (locked a n) (take_lock n s.file) s)
  busy :
      (i a n : ℕ)
      → get_elem? s.runs i ≡ some (opened a n)
      → s.file.is_locked n ≡ true
      → Step s (at i gave_up s.file s)
  holds :
      (i a n : ℕ)
      → get_elem? s.runs i ≡ some (locked a n)
      → same_file n s.file ≡ true
      → Step s (at i (working n) s.file s)
  replaced :
      (i a n : ℕ)
      → get_elem? s.runs i ≡ some (locked a n)
      → same_file n s.file ≡ false
      → Step s (at i (next_attempt a) (close_file n s.file) s)
  removes :
      (i n : ℕ) (disk_ok : Bool)
      → get_elem? s.runs i ≡ some (working n)
      → Step s (at i (removed n) (remove_file disk_ok s.file) s)
  closes :
      (i n : ℕ)
      → get_elem? s.runs i ≡ some (removed n)
      → Step s (at i gave_up (close_file n s.file) s)
  dies :
      (i n : ℕ) (p : Phase)
      → get_elem? s.runs i ≡ some p
      → lock_of p ≡ some n
      → Step s (at i gave_up (close_file n s.file) s)

abbrev pub is_idle : Phase → Bool
is_idle idle = true
is_idle p = false

-- Runs that start with no lock file, or one that was left behind.
abbrev pub initial : Option ℕ → ℕ → List Phase → System
initial path fresh runs = record {
  file = record { path = path; is_locked = λ n. false; fresh = fresh };
  runs = runs;
}

pub data Reach : System → Type 0 where
  start :
      (path : Option ℕ) (fresh : ℕ) (runs : List Phase)
      → ((n : ℕ) → path ≡ some n → n < fresh)
      → All (λ (p : Phase). is_idle p ≡ true) runs
      → Reach (initial path fresh runs)
  later : {s t : System} → Reach s → Step s t → Reach t
