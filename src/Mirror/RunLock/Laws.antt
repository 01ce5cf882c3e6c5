-- ===== src/Mirror/RunLock/Laws.antt =====
-- mirror/sync.go: no two runs work on one destination.
use repo_sync.Base.{
  ℕ, zero, suc, ◌≡◌, ◌<◌, refl, sym, true, Option, none, some, List, [], ◌∷◌, nat_eq, get_elem?,
  arith, All,
}
use repo_sync.Base.Counts.{count}
use repo_sync.Mirror.RunLock.{
  Phase, idle, opened, locked, trying, working, removed, gave_up, System, open_file, at,
  next_attempt, lock_of, Step, begin, opens, refused, locks, busy, holds, replaced, removes, closes,
  dies, is_idle, initial, Reach, start, later,
}
use repo_sync.Mirror.RunLock.Sound.{
  owns, works, opens_at, IsSound, works_excludes, rests-IsSound, opens-IsSound, locks-IsSound,
  holds-IsSound, closes-IsSound, removes-IsSound,
}

gives_up :
    (a : ℕ)
    → (lock_of (next_attempt a) ≡ none)
      × (works (next_attempt a) ≡ none)
      × (opens_at (next_attempt a) ≡ none)
gives_up a = ground arith

step-IsSound : (s t : System) → IsSound s → Step s t → IsSound t
unfolding open_file
step-IsSound s t h (begin i here) = rests-IsSound s h i idle (trying 0) here refl refl refl refl
step-IsSound s t h (opens i a here) = opens-IsSound s h i a s.file.path here refl
step-IsSound s t h (refused i a here) =
    rests-IsSound s h i (trying a) gave_up here refl refl refl refl
step-IsSound s t h (locks i a n here free) = locks-IsSound s h i a n here free
step-IsSound s t h (busy i a n here taken) =
    rests-IsSound s h i (opened a n) gave_up here refl refl refl refl
step-IsSound s t h (holds i a n here same) = holds-IsSound s h i a n here same
step-IsSound s t h (replaced i a n here other) =
    let (l, w, o) = gives_up a in
    closes-IsSound s h i n (locked a n) (next_attempt a) here refl l w o
step-IsSound s t h (removes i n disk_ok here) = removes-IsSound s h i n disk_ok here
step-IsSound s t h (closes i n here) =
    closes-IsSound s h i n (removed n) gave_up here refl refl refl refl
step-IsSound s t h (dies i n p here lp) = closes-IsSound s h i n p gave_up here lp refl refl refl

count_idle :
    (n : ℕ) (runs : List Phase)
    → All (λ (p : Phase). is_idle p ≡ true) runs
    → count (owns n) runs ≡ 0
unfolding count
count_idle n [] all = refl
count_idle n (idle ∷ ps) (e, all) = ground (arith, count_idle n ps all)
count_idle n (opened a m ∷ ps) (e, all) = absurd (cc)
count_idle n (locked a m ∷ ps) (e, all) = absurd (cc)
count_idle n (trying a ∷ ps) (e, all) = absurd (cc)
count_idle n (working m ∷ ps) (e, all) = absurd (cc)
count_idle n (removed m ∷ ps) (e, all) = absurd (cc)
count_idle n (gave_up ∷ ps) (e, all) = absurd (cc)

get_idle :
    (runs : List Phase) (i : ℕ) (p : Phase)
    → All (λ (p : Phase). is_idle p ≡ true) runs
    → get_elem? runs i ≡ some p
    → is_idle p ≡ true
get_idle [] i p all at = absurd (cc)
get_idle (q ∷ ps) zero p (e, all) at = ground arith
get_idle (q ∷ ps) (suc i) p (e, all) at = get_idle ps i p all at

idle_does_nothing : (p : Phase) → is_idle p ≡ true → (works p ≡ none) × (opens_at p ≡ none)
idle_does_nothing idle e = (refl, refl)
idle_does_nothing (opened a n) e = absurd (cc)
idle_does_nothing (locked a n) e = absurd (cc)
idle_does_nothing (trying a) e = absurd (cc)
idle_does_nothing (working n) e = absurd (cc)
idle_does_nothing (removed n) e = absurd (cc)
idle_does_nothing gave_up e = absurd (cc)

initial-IsSound :
    (path : Option ℕ) (fresh : ℕ) (runs : List Phase)
    → ((n : ℕ) → path ≡ some n → n < fresh)
    → All (λ (p : Phase). is_idle p ≡ true) runs
    → IsSound (initial path fresh runs)
initial-IsSound path fresh runs known all = record {
  owner = λ n. sym (count_idle n runs all);
  work = λ i n p r w. absurd (ground (arith, idle_does_nothing p (get_idle runs i p all r)));
  path = known;
  seen = λ i n p r w. absurd (ground (arith, idle_does_nothing p (get_idle runs i p all r)));
  unused = λ n e. refl;
}

Reach-IsSound : (s : System) → Reach s → IsSound s
Reach-IsSound s (start path fresh runs known all) = initial-IsSound path fresh runs known all
Reach-IsSound s (later {s = r} before step) = step-IsSound r s (Reach-IsSound r before) step

-- However runs interleave, and whichever are killed, no two of them work on one destination, although
-- each removes the lock file before it gives the lock up.
pub run_excludes :
    (s : System) (i j n m : ℕ)
    → Reach s
    → get_elem? s.runs i ≡ some (working n)
    → get_elem? s.runs j ≡ some (working m)
    → i ≡ j
run_excludes s i j n m reach here there =
    works_excludes s (Reach-IsSound s reach) i j n m (working m) here there refl
