-- ===== src/Server/Locks/Laws.antt =====
-- server/crawl_loop.go: the lock table excludes crawls of one resource from each other, and keeps no
-- entry that nobody uses.
use repo_sync.Base.{dec_eq}
use repo_sync.Base.{◌∙◌}
use repo_sync.Base.{some_inj}
use repo_sync.Server.Locks.{with_lock}
use repo_sync.Base.{sym}
use repo_sync.Base.{
  ℕ, zero, suc, ◌≡◌, ◌≤◌, refl, Bool, true, false, Option, none, some, List, [], ◌∷◌, ◌==◌, nat_eq,
  list_eq, get_elem?, arith, All,
}
use repo_sync.Base.Bytes.{Bytes}
use repo_sync.Base.Counts.{
  bit, count, set_elem, count-set_elem, get_elem-set_elem, count_one, count_two,
}
use repo_sync.Server.Locks.{
  LockTable, find_lock, set_locked, drop_lock, Phase, idle, waiting, holding, leaving, is_idle,
  System, initial, Step, enter, lock, unlock, leave, Reach, start, later,
}

-- The key and the lock that a goroutine has a reference to.
abbrev pub entry_of : Phase → Option (Bytes × ℕ)
entry_of idle = none
entry_of (waiting key l) = some (key, l)
entry_of (holding key l) = some (key, l)
entry_of (leaving key l) = some (key, l)

abbrev pub uses : ℕ → Phase → Bool
uses l idle = false
uses l (waiting key m) = m == l
uses l (holding key m) = m == l
uses l (leaving key m) = m == l

abbrev holds : ℕ → Phase → Bool
holds l idle = false
holds l (waiting key m) = false
holds l (holding key m) = m == l
holds l (leaving key m) = false

-- The count of references is that of the goroutines, a lock is locked by one of them, and the map has
-- exactly the locks in use.
record IsSound (s : System) : Type 0 where
  refs : (l : ℕ) → (s.table.heap l).refs ≡ count (uses l) s.threads
  locked : (l : ℕ) → bit (s.table.heap l).locked ≡ count (holds l) s.threads
  entry :
      (i : ℕ) (p : Phase) (key : Bytes) (l : ℕ)
      → get_elem? s.threads i ≡ some p
      → entry_of p ≡ some (key, l)
      → s.table.locks key ≡ some l
  live : (key : Bytes) (l : ℕ) → s.table.locks key ≡ some l → 1 ≤ (s.table.heap l).refs
  one_key : (j k : Bytes) (l : ℕ) → s.table.locks j ≡ some l → s.table.locks k ≡ some l → j ≡ k
  unused : (l : ℕ) → s.table.fresh ≤ l → (s.table.heap l).refs ≡ 0
  unlocked : (l : ℕ) → s.table.fresh ≤ l → (s.table.heap l).locked ≡ false

uses_entry : (p : Phase) (key : Bytes) (l : ℕ) → entry_of p ≡ some (key, l) → uses l p ≡ true
uses_entry idle key l e = absurd (cc)
uses_entry (waiting j m) key l e = ground arith
uses_entry (holding j m) key l e = ground arith
uses_entry (leaving j m) key l e = ground arith

module _ (s : System) (h : IsSound s) where
  lock-IsSound :
      (i : ℕ) (key : Bytes) (l : ℕ)
      → get_elem? s.threads i ≡ some (waiting key l)
      → (s.table.heap l).locked ≡ false
      → IsSound (record {
        table = set_locked true l s.table;
        threads = set_elem i (holding key l) s.threads;
      })
  unfolding set_locked
  lock-IsSound i key l at unlocked = record {
    refs = λ m.
        ground
          (arith, h.refs m, count-set_elem (uses m) i (holding key l) (waiting key l) s.threads at);
    locked = λ m. ground (
      arith,
      h.locked m,
      count-set_elem (holds m) i (holding key l) (waiting key l) s.threads at,
    );
    entry = λ j p k m at' e. ground (
      arith,
      h.entry j p k m,
      h.entry i (waiting key l) key l at refl,
      get_elem-set_elem i j (holding key l) (waiting key l) s.threads at,
    );
    live = λ k m e. ground (arith, h.live k m);
    one_key = h.one_key;
    unused = λ m e. ground (arith, h.unused m);
    unlocked = λ m e.
        ground
          (arith, h.unused m, h.unlocked m, h.live key l (h.entry i (waiting key l) key l at refl));
  }

  unlock-IsSound :
      (i : ℕ) (key : Bytes) (l : ℕ)
      → get_elem? s.threads i ≡ some (holding key l)
      → IsSound (record {
        table = set_locked false l s.table;
        threads = set_elem i (leaving key l) s.threads;
      })
  unfolding set_locked
  unlock-IsSound i key l at = record {
    refs = λ m.
        ground
          (arith, h.refs m, count-set_elem (uses m) i (leaving key l) (holding key l) s.threads at);
    locked = λ m. ground (
      arith,
      h.locked m,
      count-set_elem (holds m) i (leaving key l) (holding key l) s.threads at,
    );
    entry = λ j p k m at' e. ground (
      arith,
      h.entry j p k m,
      h.entry i (holding key l) key l at refl,
      get_elem-set_elem i j (leaving key l) (holding key l) s.threads at,
    );
    live = λ k m e. ground (arith, h.live k m);
    one_key = h.one_key;
    unused = λ m e. ground (arith, h.unused m);
    unlocked = λ m e. ground (arith, h.unlocked m);
  }

  leave-IsSound :
      (i : ℕ) (key : Bytes) (l : ℕ)
      → get_elem? s.threads i ≡ some (leaving key l)
      → IsSound (record { table = drop_lock key l s.table; threads = set_elem i idle s.threads })
  unfolding drop_lock
  leave-IsSound i key l at =
      let here = h.entry i (leaving key l) key l at refl in
      record {
        refs = λ m.
            ground (arith, h.refs m, count-set_elem (uses m) i idle (leaving key l) s.threads at);
        locked = λ m.
            ground
              (arith, h.locked m, count-set_elem (holds m) i idle (leaving key l) s.threads at);
        entry = λ j p k m at' e.
            let c = count_one (uses m) j p (set_elem i idle s.threads) at' (uses_entry p k m e) in
            let d = count-set_elem (uses m) i idle (leaving key l) s.threads at in
            ground (
              arith,
              h.entry j p k m,
              here,
              h.refs m,
              h.refs l,
              get_elem-set_elem i j idle (leaving key l) s.threads at,
            );
        live = λ k m e. ground (arith, h.live k m, h.one_key k key l, here);
        one_key = λ j k m e e'. ground (arith, h.one_key j k m);
        unused = λ m e. ground (arith, h.unused m, h.live key l here);
        unlocked = λ m e. ground (arith, h.unlocked m);
      }

  abbrev Entered : ℕ → Bytes → ℕ × LockTable → System
  Entered i key found = record {
    table = found.1;
    threads = set_elem i (waiting key found.0) s.threads;
  }

  with_lock-IsSound :
      (i : ℕ) (key : Bytes) (o : Option ℕ)
      → get_elem? s.threads i ≡ some idle
      → s.table.locks key ≡ o
      → IsSound (Entered i key (with_lock o key s.table))
  with_lock-IsSound i key (some l) at old = record {
    refs =
        λ m. ground (arith, h.refs m, count-set_elem (uses m) i (waiting key l) idle s.threads at);
    locked = λ m.
        ground (arith, h.locked m, count-set_elem (holds m) i (waiting key l) idle s.threads at);
    entry = λ j p k m at' e.
        ground (arith, h.entry j p k m, get_elem-set_elem i j (waiting key l) idle s.threads at);
    live = λ k m e. ground (arith, h.live k m);
    one_key = h.one_key;
    unused = λ m e. ground (arith, h.unused m, h.live key l old);
    unlocked = λ m e. ground (arith, h.unlocked m);
  }
  with_lock-IsSound i key none at new =
      let l = s.table.fresh in
      record {
        refs = λ m. ground (
          arith,
          h.refs m,
          h.unused l,
          count-set_elem (uses m) i (waiting key l) idle s.threads at,
        );
        locked = λ m. ground (
          arith,
          h.locked m,
          h.unlocked l,
          count-set_elem (holds m) i (waiting key l) idle s.threads at,
        );
        entry = λ j p k m at' e.
            ground
              (arith, h.entry j p k m, get_elem-set_elem i j (waiting key l) idle s.threads at);
        live = λ k m e. ground (arith, h.live k m);
        one_key = λ j k m e e'. ground (arith, h.one_key j k m, h.live j m, h.live k m, h.unused m);
        unused = λ m e. ground (arith, h.unused m);
        unlocked = λ m e. ground (arith, h.unlocked m);
      }

  step-IsSound : (t : System) → Step s t → IsSound t
  unfolding find_lock
  step-IsSound t (enter i key at) = with_lock-IsSound i key (s.table.locks key) at refl
  step-IsSound t (lock i key l at unlocked) = lock-IsSound i key l at unlocked
  step-IsSound t (unlock i key l at) = unlock-IsSound i key l at
  step-IsSound t (leave i key l at) = leave-IsSound i key l at

count_idle :
    (f : Phase → Bool) (threads : List Phase)
    → f idle ≡ false
    → All (λ (p : Phase). is_idle p ≡ true) threads
    → count f threads ≡ 0
unfolding count
count_idle f [] h all = refl
count_idle f (idle ∷ ps) h (now, all) = ground (arith, count_idle f ps h all)
count_idle f (waiting key l ∷ ps) h (now, all) = absurd (cc)
count_idle f (holding key l ∷ ps) h (now, all) = absurd (cc)
count_idle f (leaving key l ∷ ps) h (now, all) = absurd (cc)

idle_entry :
    (threads : List Phase) (i : ℕ) (p : Phase) (key : Bytes) (l : ℕ)
    → All (λ (p : Phase). is_idle p ≡ true) threads
    → get_elem? threads i ≡ some p
    → entry_of p ≡ some (key, l)
    → ⊥
idle_entry [] i p key l all at e = cc
idle_entry (q ∷ ps) (suc i) p key l all at e = idle_entry ps i p key l all.1 at e
idle_entry (idle ∷ ps) zero p key l all at e = ground arith
idle_entry (waiting k m ∷ ps) zero p key l all at e = ground arith
idle_entry (holding k m ∷ ps) zero p key l all at e = ground arith
idle_entry (leaving k m ∷ ps) zero p key l all at e = ground arith

initial-IsSound :
    (threads : List Phase)
    → All (λ (p : Phase). is_idle p ≡ true) threads
    → IsSound (initial threads)
initial-IsSound threads all = record {
  refs = λ l. sym (count_idle (uses l) threads refl all);
  locked = λ l. sym (count_idle (holds l) threads refl all);
  entry = λ i p key l at e. absurd (idle_entry threads i p key l all at e);
  live = λ key l e. absurd (cc);
  one_key = λ j k l e e'. absurd (cc);
  unused = λ l e. refl;
  unlocked = λ l e. refl;
}

Reach-IsSound : (s : System) → Reach s → IsSound s
Reach-IsSound s (start threads all) = initial-IsSound threads all
Reach-IsSound s (later {s = r} before step) = step-IsSound r (Reach-IsSound r before) s step

-- However goroutines interleave, no two of them hold the lock of one resource.
pub lock_excludes :
    (s : System) (i j : ℕ) (key : Bytes) (l m : ℕ)
    → Reach s
    → get_elem? s.threads i ≡ some (holding key l)
    → get_elem? s.threads j ≡ some (holding key m)
    → i ≡ j
lock_excludes s i j key l m reach at at' =
    let h = Reach-IsSound s reach in
    let same =
      some_inj (
        sym (h.entry i (holding key l) key l at refl) ∙ h.entry j (holding key m) key m at' refl) in
    elim (dec_eq i j) [
      | yes e ↦ e
      | no other ↦
          let c =
            count_two (holds l) i j (holding key l) (holding key m) s.threads at at' (ground arith)
              (ground arith) other in
          absurd (ground (arith, h.locked l))
    ]

-- However goroutines interleave, the table has an entry only while some goroutine has a reference to it.
pub lock_in_use :
    (s : System) (key : Bytes) (l : ℕ)
    → Reach s
    → s.table.locks key ≡ some l
    → 1 ≤ count (uses l) s.threads
lock_in_use s key l reach at =
    let h = Reach-IsSound s reach in ground (arith, h.refs l, h.live key l at)
